-- ===== src/Operator/CleanUp/Removals.antt =====
-- What the clean-up job takes away.
use nativestor.Prelude.{
  String, ◌==◌, ◌++◌, ◌≡◌, refl, ◌⊎◌, inl, inr, List, [], ◌∷◌, All, any, ◌||◌, ==-self, Bool, true,
  false, if◌then◌else◌,
}
use nativestor.Prelude.Maps.{Map, erase, keys}
use nativestor.Errors.{Result, ok, err, plain}
use nativestor.Exec.{Call, Executor, Exec, done, pure, fail, attempt, execute_command, ◌>>=◌, ◌>>◌}
use nativestor.Exec.Steps.{runs}
use nativestor.Exec.Posts.{
  Runs, silent, Yields, >>=-Yields_any, ends_with_value, attempt-Runs, >>=-Runs, >>=-Runs_answered,
  execute_command-Runs,
}
use nativestor.Sys.Lvm.{
  lvm, get_physical_volume, check_vg_has_logical_volume, remove_each, remove_checked,
  remove_volume_group, remove_physical_volume,
}
use nativestor.Sys.Lvm.Guards.{get_physical_volume-IsQuiet, check_vg_has_logical_volume-IsQuiet}
use nativestor.Operator.CleanUp.{not_listed, erase_each, clean_groups, clean_volumes, clean_vgs}

-- The name stands in the list.
abbrev pub IsIn : List String → String → Type 0
IsIn names s = any (λ n. n == s) names ≡ true

All-weaken : (names xs : List String) (n : String) → All (IsIn names) xs → All (IsIn (n ∷ names)) xs
All-weaken names [] n h = tt
All-weaken names (x ∷ xs) n (p, h) = (rw p (or_true (n == x)), All-weaken names xs n h)
  where
    or_true : (b : Bool) → (b || true) ≡ true
    or_true true = refl
    or_true false = refl

All-IsIn : (names : List String) → All (IsIn names) names
All-IsIn [] = tt
All-IsIn (n ∷ names) = (rw (==-self n) refl, All-weaken names names n (All-IsIn names))

erase-All :
    (P : String → Type 0) (k : String) (m : Map String) → All P (keys m) → All P (keys (erase k m))
unfolding erase keys
erase-All P k [] h = tt
erase-All P k ((own, v) ∷ m) (p, h) = by_test (own == k) (erase-All P k m h)
  where
    by_test :
        (b : Bool)
        → All P (keys (erase k m))
        → All P (keys (if b then erase k m else (own, v) ∷ erase k m))
    by_test true later = later
    by_test false later = (p, later)

erase_each-All :
    (P : String → Type 0) (ks : List String) (m : Map String)
    → All P (keys m)
    → All P (keys (erase_each ks m))
unfolding erase_each
erase_each-All P [] m h = h
erase_each-All P (k ∷ ks) m h = erase_each-All P ks (erase k m) (erase-All P k m h)

module _ (executor : Executor) (vgs pvs : Map String) where
  -- One of the groups, which was found to hold no logical volume, is removed.
  abbrev pub RemovesGroup : List String → Type 0
  RemovesGroup args =
      (vg : String) × IsIn (keys vgs) vg
      × ((earlier : List Call) × ((check_vg_has_logical_volume executor vg earlier).0 ≡ done false))
      × (args ≡ lvm ("vgremove" ∷ vg ∷ []))

  -- a physical volume that one of the groups was listed with
  abbrev pub IsListed : String → Type 0
  IsListed pv =
      (vg : String) × IsIn (keys vgs) vg
      × ((earlier : List Call) × (m : Map String) × ((get_physical_volume executor vg earlier).0
            ≡ done m)
          × IsIn (keys m) pv)

  -- One of the devices, or a volume of one of the groups, is no longer a physical volume.
  abbrev pub RemovesVolume : List String → Type 0
  RemovesVolume args =
      (pv : String) × (IsIn (keys pvs) pv ⊎ IsListed pv) × (args ≡ lvm ("pvremove" ∷ pv ∷ []))

  abbrev pub IsRemoval : List String → Type 0
  IsRemoval args = RemovesGroup args ⊎ RemovesVolume args

  remove_each-Runs : (vs : List String) → All IsListed vs → Runs IsRemoval (remove_each executor vs)
  unfolding remove_each
  remove_each-Runs [] h = silent (pure tt) (λ calls. refl)
  remove_each-Runs (pv ∷ vs) (p, h) =
      >>=-Runs (execute_command executor (lvm ("pvremove" ∷ pv ∷ [])))
        (λ _. remove_each executor vs)
        (execute_command-Runs executor IsRemoval (lvm ("pvremove" ∷ pv ∷ []))
          (inr (pv, inr p, refl)))
        (λ _. remove_each-Runs vs h)

  listed :
      (vg : String) (m : Map String) (earlier : List Call)
      → IsIn (keys vgs) vg
      → (get_physical_volume executor vg earlier).0 ≡ done m
      → (vs : List String) → All (IsIn (keys m)) vs
      → All IsListed vs
  listed vg m earlier g e [] h = tt
  listed vg m earlier g e (v ∷ vs) (p, h) =
      ((vg, g, (earlier, m, e, p)), listed vg m earlier g e vs h)

  remove_checked-Runs :
      (vg : String) (occupied : Bool) (earlier : List Call)
      → IsIn (keys vgs) vg
      → (check_vg_has_logical_volume executor vg earlier).0 ≡ done occupied
      → Runs IsRemoval (remove_checked executor vg occupied)
  unfolding remove_checked
  remove_checked-Runs vg true earlier g e =
      silent (fail (plain "vg %s has some lv can not remove")) (λ calls. refl)
  remove_checked-Runs vg false earlier g e =
      >>=-Runs_answered (get_physical_volume executor vg)
        (λ m. vgremove >> remove_each executor (keys m))
        (silent (get_physical_volume executor vg) (get_physical_volume-IsQuiet executor vg))
        (λ m calls answer.
          >>=-Runs vgremove (λ _. remove_each executor (keys m))
            (execute_command-Runs executor IsRemoval (lvm ("vgremove" ∷ vg ∷ []))
              (inl (vg, g, (earlier, e), refl)))
            (λ _.
              remove_each-Runs (keys m) (listed vg m calls g answer (keys m) (All-IsIn (keys m)))))
    where
      vgremove : Exec (Unit {0})
      vgremove = execute_command executor (lvm ("vgremove" ∷ vg ∷ []))

  remove_volume_group-Runs :
      (vg : String) → IsIn (keys vgs) vg → Runs IsRemoval (remove_volume_group executor vg)
  unfolding remove_volume_group
  remove_volume_group-Runs vg g =
      >>=-Runs_answered (check_vg_has_logical_volume executor vg) (remove_checked executor vg)
        (silent (check_vg_has_logical_volume executor vg)
          (check_vg_has_logical_volume-IsQuiet executor vg))
        (λ occupied calls answer. remove_checked-Runs vg occupied calls g answer)

  clean_volumes-Runs :
      (vs : List String) → All (IsIn (keys pvs)) vs → Runs IsRemoval (clean_volumes executor vs)
  unfolding clean_volumes remove_physical_volume
  clean_volumes-Runs [] h = silent (pure tt) (λ calls. refl)
  clean_volumes-Runs (pv ∷ vs) (p, h) =
      >>=-Runs (attempt (remove_physical_volume executor pv)) (λ _. clean_volumes executor vs)
        (attempt-Runs (
          execute_command-Runs executor IsRemoval (lvm ("pvremove" ∷ pv ∷ []))
            (inr (pv, inl p, refl))))
        (λ _. clean_volumes-Runs vs h)

  clean_groups-Runs :
      (gs : List String) (m : Map String)
      → All (IsIn (keys vgs)) gs
      → Runs IsRemoval (clean_groups executor gs m)
  unfolding clean_groups
  clean_groups-Runs [] m g = silent (pure m) (λ calls. refl)
  clean_groups-Runs (vg ∷ gs) m (p, g) =
      >>=-Runs (attempt (get_physical_volume executor vg))
        (λ res. attempt (remove_volume_group executor vg) >>= λ removed.
          clean_groups executor gs (not_listed res m))
        (attempt-Runs
          (silent (get_physical_volume executor vg) (get_physical_volume-IsQuiet executor vg)))
        (λ res.
          >>=-Runs (attempt (remove_volume_group executor vg))
            (λ removed. clean_groups executor gs (not_listed res m))
            (attempt-Runs (remove_volume_group-Runs vg p))
            (λ removed. clean_groups-Runs gs (not_listed res m) g))

  -- The devices that are left are some of those that there were.
  abbrev AreDevices : Map String → Type 0
  AreDevices m = All (IsIn (keys pvs)) (keys m)

  not_listed-AreDevices :
      (res : Result (Map String)) (m : Map String) → AreDevices m → AreDevices (not_listed res m)
  not_listed-AreDevices (ok res) m h = erase_each-All (IsIn (keys pvs)) (keys res) m h
  not_listed-AreDevices (err e) m h = h

  clean_groups-Yields :
      (gs : List String) (m : Map String)
      → AreDevices m
      → Yields AreDevices (clean_groups executor gs m)
  unfolding clean_groups
  clean_groups-Yields [] m h = ends_with_value h
  clean_groups-Yields (vg ∷ gs) m h =
      >>=-Yields_any (attempt (get_physical_volume executor vg))
        (λ res. attempt (remove_volume_group executor vg) >>= λ removed.
          clean_groups executor gs (not_listed res m))
        (λ res.
          >>=-Yields_any (attempt (remove_volume_group executor vg))
            (λ removed. clean_groups executor gs (not_listed res m))
            (λ removed. clean_groups-Yields gs (not_listed res m) (not_listed-AreDevices res m h)))

  -- Whatever cleanVgs ends with, it runs no command that changes the machine but these: vgremove of one
  -- of the groups, which was found to hold no logical volume; and pvremove of one of the devices, or of
  -- a physical volume that one of the groups was listed with.
  pub clean_vgs-IsRemoval :
      (calls : List Call)
      → (made : List (List String)) × (runs (clean_vgs executor vgs pvs calls).1
          ≡ made ++ runs calls)
        × All IsRemoval made
  unfolding clean_vgs
  clean_vgs-IsRemoval = cleaned.trace
    where
      left_over :
          (left : Map String) (calls : List Call)
          → (clean_groups executor (keys vgs) pvs calls).0 ≡ done left
          → AreDevices left
      left_over left calls answer =
          rw answer at ((clean_groups-Yields (keys vgs) pvs (All-IsIn (keys pvs))).ends calls)

      cleaned : Runs IsRemoval (clean_vgs executor vgs pvs)
      cleaned =
          >>=-Runs_answered (clean_groups executor (keys vgs) pvs)
            (λ left. clean_volumes executor (keys left))
            (clean_groups-Runs (keys vgs) pvs (All-IsIn (keys vgs)))
            (λ left calls answer. clean_volumes-Runs (keys left) (left_over left calls answer))
