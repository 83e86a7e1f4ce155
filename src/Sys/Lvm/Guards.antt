-- ===== src/Sys/Lvm/Guards.antt =====
-- When the commands of lvm.go change the machine: what the guards of RemoveVolumeGroup and
-- ShrinkVolumeGroup keep from being run, and the exact commands of a run that succeeds.
use nativestor.Prelude.{
  String, ◌≡◌, ◌≢◌, ◌⊎◌, inl, inr, refl, ap, ◌∙◌, List, [], ◌∷◌, Bool, true, false, All,
  if◌then◌else◌,
}
use nativestor.Prelude.Maps.{Map, keys}
use nativestor.Errors.{plain}
use nativestor.Exec.{
  Call, Executor, Outcome, done, failed, panicked, pure, fail, or_panic, wrap, and_then, ◌>>◌,
  execute_command, execute_command_with_output,
}
use nativestor.Exec.Steps.{
  runs, IsQuiet, >>=-IsQuiet, >>=-eq-done, or_panic-IsQuiet, execute_command-twice,
}
use nativestor.Sys.Parse.{parse_lines}
use nativestor.Sys.Lvm.{
  lvm, report, collect, has_value, parse_output, get_volume_groups, get_physical_volume,
  check_pv_has_logical_volume, check_vg_has_logical_volume, remove_each, remove_checked,
  remove_volume_group, check_each, shrink_volume_group,
}

module _ (executor : Executor) where
  pub parse_output-IsQuiet :
      (cmd fields : String) (args : List String) → IsQuiet (parse_output executor cmd fields args)
  unfolding parse_output
  parse_output-IsQuiet cmd fields args =
      >>=-IsQuiet (execute_command_with_output executor (report cmd fields args))
        (λ out. or_panic (parse_lines out)) (λ calls. refl)
        (λ out. or_panic-IsQuiet (parse_lines out))

  pub get_volume_groups-IsQuiet : IsQuiet (get_volume_groups executor)
  unfolding get_volume_groups
  get_volume_groups-IsQuiet =
      >>=-IsQuiet (wrap _ (parse_output executor "vgs" "vg_name" []))
        (λ infos. pure (collect "vg_name" infos [])) (parse_output-IsQuiet _ _ _)
        (λ infos calls. refl)

  pub get_physical_volume-IsQuiet : (vg : String) → IsQuiet (get_physical_volume executor vg)
  unfolding get_physical_volume
  get_physical_volume-IsQuiet vg =
      >>=-IsQuiet (wrap _ (parse_output executor "vgs" "pv_name" (vg ∷ [])))
        (λ infos. pure (collect "pv_name" infos [])) (parse_output-IsQuiet _ _ _)
        (λ infos calls. refl)

  pub check_vg_has_logical_volume-IsQuiet :
      (vg : String) → IsQuiet (check_vg_has_logical_volume executor vg)
  unfolding check_vg_has_logical_volume
  check_vg_has_logical_volume-IsQuiet vg =
      >>=-IsQuiet (wrap _ (parse_output executor "vgs" "lv_name" (vg ∷ [])))
        (λ infos. pure (has_value "lv_name" infos)) (parse_output-IsQuiet _ _ _)
        (λ infos calls. refl)

  pub check_pv_has_logical_volume-IsQuiet :
      (pv : String) → IsQuiet (check_pv_has_logical_volume executor pv)
  unfolding check_pv_has_logical_volume
  check_pv_has_logical_volume-IsQuiet pv =
      >>=-IsQuiet (wrap _ (parse_output executor "pvs" "+lv_name" (pv ∷ "--segments" ∷ [])))
        (λ infos. pure (has_value "lv_name" infos)) (parse_output-IsQuiet _ _ _)
        (λ infos calls. refl)

  check_each-IsQuiet : (pvs : List String) → IsQuiet (check_each executor pvs)
  unfolding check_each
  check_each-IsQuiet [] = λ calls. refl
  check_each-IsQuiet (pv ∷ pvs) =
      >>=-IsQuiet (check_pv_has_logical_volume executor pv) _
        (check_pv_has_logical_volume-IsQuiet pv) (branch (check_each-IsQuiet pvs))
    where
      branch :
          IsQuiet (check_each executor pvs)
          → (b : Bool)
          → IsQuiet (
              if b
              then fail (plain "pv %s has some lv can not remove")
              else check_each executor pvs)
      branch rest true = λ calls. refl
      branch rest false = rest

  -- RemoveVolumeGroup runs no command that changes the machine unless it was told that the group has
  -- no logical volume.
  pub remove_volume_group-occupied :
      (vg : String) (calls : List Call)
      → (check_vg_has_logical_volume executor vg calls).0 ≢ done false
      → runs (remove_volume_group executor vg calls).1 ≡ runs calls
  unfolding remove_volume_group remove_checked
  remove_volume_group-occupied vg calls h =
      told (check_vg_has_logical_volume executor vg calls).0
        (check_vg_has_logical_volume executor vg calls).1 h
        (check_vg_has_logical_volume-IsQuiet vg calls)
    where
      told :
          (o : Outcome Bool) (later : List Call)
          → o ≢ done false
          → runs later ≡ runs calls
          → runs (and_then o (remove_checked executor vg) later).1 ≡ runs calls
      told (done true) later h e = e
      told (done false) later h e = absurd (h refl)
      told (failed x) later h e = e
      told panicked later h e = e

  abbrev pvremove : String → List String
  pvremove pv = lvm ("pvremove" ∷ pv ∷ [])

  abbrev pub removals : List String → List (List String) → List (List String)
  removals [] done_before = done_before
  removals (pv ∷ pvs) done_before = removals pvs (pvremove pv ∷ done_before)

  remove_each-done :
      (pvs : List String) (calls : List Call)
      → (remove_each executor pvs calls).0 ≡ done tt
      → runs (remove_each executor pvs calls).1 ≡ removals pvs (runs calls)
  unfolding remove_each
  remove_each-done [] calls h = refl
  remove_each-done (pv ∷ pvs) calls h =
      let (t, first, rest, eq) =
        >>=-eq-done (execute_command executor (pvremove pv)) (λ _. remove_each executor pvs) calls
          h in
      rw eq (remove_each-done pvs _ rest)

  -- the commands of a removal of a group of these physical volumes
  abbrev pub removal : String → Map String → List (List String) → List (List String)
  removal vg pvs before = removals (keys pvs) (lvm ("vgremove" ∷ vg ∷ []) ∷ before)

  remove_checked-done :
      (vg : String) (occupied : Bool) (calls : List Call)
      → (remove_checked executor vg occupied calls).0 ≡ done tt
      → (occupied ≡ false)
        × ((pvs : Map String) × ((get_physical_volume executor vg calls).0 ≡ done pvs)
            × (runs (remove_checked executor vg occupied calls).1 ≡ removal vg pvs (runs calls)))
  unfolding remove_checked
  remove_checked-done vg true calls h = cc
  remove_checked-done vg false calls h =
      let vgremove = execute_command executor (lvm ("vgremove" ∷ vg ∷ [])) in
      let (pvs, listed, rest, eq) =
        >>=-eq-done (get_physical_volume executor vg)
          (λ pvs. vgremove >> remove_each executor (keys pvs)) calls h in
      let quiet = get_physical_volume-IsQuiet vg calls in
      let (t, ran, removed, eq2) =
        >>=-eq-done vgremove (λ _. remove_each executor (keys pvs)) _ rest in
      let trace = remove_each-done (keys pvs) _ removed in
      (refl, (pvs, listed, rw (eq, eq2, trace, quiet) refl))

  -- A RemoveVolumeGroup that succeeds was told that the group has no logical volume, and ran vgremove
  -- on the group, then pvremove on each of the group's physical volumes, and no other command that
  -- changes the machine.
  pub remove_volume_group-done :
      (vg : String) (calls : List Call)
      → (remove_volume_group executor vg calls).0 ≡ done tt
      → ((check_vg_has_logical_volume executor vg calls).0 ≡ done false)
        × ((pvs : Map String) × ((get_physical_volume executor vg
                (check_vg_has_logical_volume executor vg calls).1).0
              ≡ done pvs)
            × (runs (remove_volume_group executor vg calls).1 ≡ removal vg pvs (runs calls)))
  unfolding remove_volume_group
  remove_volume_group-done vg calls h =
      let (b, checked, rest, eq) =
        >>=-eq-done (check_vg_has_logical_volume executor vg) (remove_checked executor vg) calls
          h in
      let (free, (pvs, listed, trace)) = remove_checked-done vg b _ rest in
      let quiet = check_vg_has_logical_volume-IsQuiet vg calls in
      (checked ∙ ap done free, (pvs, listed, rw (eq, trace, quiet) refl))

  -- Some query answered that the physical volume holds no logical volume.
  abbrev pub IsFoundFree : String → Type 0
  IsFoundFree pv =
      (earlier : List Call) × ((check_pv_has_logical_volume executor pv earlier).0 ≡ done false)

  check_each-done :
      (pvs : List String) (calls : List Call)
      → (check_each executor pvs calls).0 ≡ done tt
      → All IsFoundFree pvs
  unfolding check_each
  check_each-done [] calls h = tt
  check_each-done (pv ∷ pvs) calls h =
      let (b, checked, rest, eq) =
        >>=-eq-done (check_pv_has_logical_volume executor pv) _ calls h in
      free (check_each-done pvs _) b checked rest
    where
      free :
          ((check_each executor pvs (check_pv_has_logical_volume executor pv calls).1).0 ≡ done tt
            → All IsFoundFree pvs)
          → (b : Bool) → (check_pv_has_logical_volume executor pv calls).0 ≡ done b
          → ((if b
                then fail (plain "pv %s has some lv can not remove")
                else check_each executor pvs)
              (check_pv_has_logical_volume executor pv calls).1).0
            ≡ done tt
          → All IsFoundFree (pv ∷ pvs)
      free tail true e r = cc
      free tail false e r = ((calls, e), tail r)

  -- ShrinkVolumeGroup changes nothing, or each of the physical volumes was found to hold no logical
  -- volume and what ran is vgreduce of them all and then, if that succeeded, pvremove of them all.
  pub shrink_volume_group-free :
      (vg : String) (pvs : List String) (calls : List Call)
      → let after = runs (shrink_volume_group executor vg pvs calls).1 in
        let reduced = lvm ("vgreduce" ∷ vg ∷ pvs) ∷ runs calls in
        (after ≡ runs calls)
        ⊎ (All IsFoundFree pvs × ((after ≡ reduced) ⊎ (after ≡ lvm ("pvremove" ∷ pvs) ∷ reduced)))
  unfolding shrink_volume_group
  shrink_volume_group-free vg pvs calls =
      told (check_each executor pvs calls).0 (check_each executor pvs calls).1 refl refl
        (check_each-IsQuiet pvs calls)
    where
      told :
          (o : Outcome (Unit {0})) (later : List Call)
          → (check_each executor pvs calls).0 ≡ o
          → (check_each executor pvs calls).1 ≡ later
          → runs later ≡ runs calls
          → let after =
              runs
                (and_then o
                  (λ _.
                    execute_command executor (lvm ("vgreduce" ∷ vg ∷ pvs))
                    >> execute_command executor (lvm ("pvremove" ∷ pvs)))
                  later).1 in
            let reduced = lvm ("vgreduce" ∷ vg ∷ pvs) ∷ runs calls in
            (after ≡ runs calls)
            ⊎ (All IsFoundFree pvs
                × ((after ≡ reduced) ⊎ (after ≡ lvm ("pvremove" ∷ pvs) ∷ reduced)))
      told (failed x) later e l q = inl q
      told panicked later e l q = inl q
      told (done tt) later e l q = inr (
        check_each-done pvs calls e,
        rw (← q) (
            execute_command-twice executor (lvm ("vgreduce" ∷ vg ∷ pvs)) (lvm ("pvremove" ∷ pvs))
              later),
      )
