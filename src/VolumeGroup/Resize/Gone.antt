-- ===== src/VolumeGroup/Resize/Gone.antt =====
-- checkVgIfDelete leaves only classes that the node's spec names.
use nativestor.Prelude.{
  String, ◌==◌, ==-self, ◌≡◌, refl, List, [], ◌∷◌, any, ◌||◌, some, Bool, true, false, eq_iff,
  if◌then◌else◌,
}
use nativestor.Prelude.Maps.{Map, lookup, erase, keys, has, has-erase, is_some}
use nativestor.Errors.{Result, ok, err}
use nativestor.Exec.{Executor, Outcome, done, failed, panicked, pure, attempt}
use nativestor.Exec.Posts.{Ends, Yields, >>=-Yields, >>=-Yields_any, ends_with_value}
use nativestor.Sys.Lvm.{remove_volume_group}
use nativestor.VolumeGroup.Types.{DeviceClass, ClassState, Classes, class_delete_error}
use nativestor.VolumeGroup.Create.{on_entry}
use nativestor.VolumeGroup.Resize.{
  is_named, set_message, delete_entry, delete_group, delete_groups, delete_failed,
  check_vg_if_delete,
}
use nativestor.VolumeGroup.Resize.Keys.{IsWithin, erase-IsWithin, on_entry-IsWithin}

module _ (dcs : List DeviceClass) where
  -- Every key of the map is the group of a class of the spec.
  abbrev pub IsNamed : Map ClassState → Type 0
  IsNamed m = (key : String) → has key m ≡ true → is_named dcs key ≡ true

  abbrev is_key : String → List String → Bool
  is_key key ks = any (λ k. k == key) ks

  keys-is_key : (key : String) (m : Map ClassState) → has key m ≡ true → is_key key (keys m) ≡ true
  unfolding lookup keys
  keys-is_key key [] h = cc
  keys-is_key key ((own, v) ∷ m) h = by_test (own == key) h (keys-is_key key m)
    where
      by_test :
          (b : Bool)
          → is_some (if b then some v else lookup key m) ≡ true
          → (has key m ≡ true → is_key key (keys m) ≡ true)
          → (b || is_key key (keys m)) ≡ true
      by_test true e rest = refl
      by_test false e rest = rest e

  -- what is left of `m` after the keys `ks` were looked at
  abbrev IsCleared : Map ClassState → List String → Map ClassState → Type 0
  IsCleared m ks m' =
      IsWithin m m'
      × ((key : String) → is_key key ks ≡ true → has key m' ≡ true → is_named dcs key ≡ true)

  abbrev IsStep : Map ClassState → String → Map ClassState → Type 0
  IsStep m key m' = IsWithin m m' × (is_named dcs key ≡ false → has key m' ≡ false)

  IsCleared-cons :
      (m m1 m2 : Map ClassState) (key : String) (ks : List String)
      → IsStep m key m1
      → IsCleared m1 ks m2
      → IsCleared m (key ∷ ks) m2
  IsCleared-cons m m1 m2 key ks (within, gone) (within2, named) =
      (λ other e. within other (within2 other e), λ other. by_test other (key == other) refl)
    where
      by_name : (b : Bool) → is_named dcs key ≡ b → has key m2 ≡ true → is_named dcs key ≡ true
      by_name true e p = e
      by_name false e p = cc (gone e, within2 key p)

      by_test :
          (other : String) (b : Bool)
          → (key == other) ≡ b
          → (b || is_key other ks) ≡ true
          → has other m2 ≡ true
          → is_named dcs other ≡ true
      by_test other true same e p =
          rw (← (eq_iff key other).0 same) (by_name _ refl (rw ((eq_iff key other).0 same) p))
      by_test other false same e p = named other e p

  erase-IsStep :
      (m m' : Map ClassState) (key : String) → IsWithin m m' → IsStep m key (erase key m')
  erase-IsStep m m' key h =
      (erase-IsWithin m key m' h, λ e. rw (has-erase key key m', ==-self key) refl)

  delete_failed-IsCleared :
      (ks : List String) (m : Map ClassState) → IsCleared m ks (delete_failed dcs ks m)
  unfolding delete_failed
  delete_failed-IsCleared [] m = (λ key e. e, λ key e. cc)
  delete_failed-IsCleared (key ∷ ks) m =
      IsCleared-cons m _ _ key ks (by_name (is_named dcs key) refl) (delete_failed-IsCleared ks _)
    where
      by_name : (b : Bool) → is_named dcs key ≡ b → IsStep m key (if b then m else erase key m)
      by_name true e = (λ other p. p, λ f. cc (e, f))
      by_name false e = erase-IsStep m m key (λ other p. p)

  module _ (executor : Executor) where
    delete_entry-IsStep :
        (key : String) (m : Map ClassState) (r : Result (Unit {0}))
        → Yields (IsStep m key) (delete_entry executor dcs key m r)
    delete_entry-IsStep key m (ok u) = ends_with_value (erase-IsStep m m key (λ other p. p))
    delete_entry-IsStep key m (err e) =
        >>=-Yields (IsWithin m) (on_entry key (set_message class_delete_error) m)
          (λ m2. pure (erase key m2)) (on_entry-IsWithin m key _ m (λ other p. p))
          (λ m2 h. ends_with_value (erase-IsStep m m2 key h))

    delete_group-IsStep :
        (b : Bool) (key : String) (m : Map ClassState)
        → is_named dcs key ≡ b
        → Yields (IsStep m key) (delete_group executor dcs b key m)
    delete_group-IsStep true key m e = ends_with_value (λ other p. p, λ f. cc (e, f))
    delete_group-IsStep false key m e =
        >>=-Yields_any (attempt (remove_volume_group executor key))
          (delete_entry executor dcs key m) (λ r. delete_entry-IsStep key m r)

    delete_groups-IsCleared :
        (ks : List String) (m : Map ClassState)
        → Yields (IsCleared m ks) (delete_groups executor dcs ks m)
    unfolding delete_groups
    delete_groups-IsCleared [] m = ends_with_value (λ key e. e, λ key e. cc)
    delete_groups-IsCleared (key ∷ ks) m =
        >>=-Yields (IsStep m key) (delete_group executor dcs _ key m)
          (delete_groups executor dcs ks) (delete_group-IsStep _ key m refl)
          (λ m1 step. record {
            ends = λ calls.
                map_ends m1 (delete_groups executor dcs ks m1 calls).0 step
                  ((delete_groups-IsCleared ks m1).ends calls);
          })
      where
        map_ends :
            (m1 : Map ClassState) (o : Outcome (Map ClassState))
            → IsStep m key m1
            → Ends (IsCleared m1 ks) o
            → Ends (IsCleared m (key ∷ ks)) o
        map_ends m1 (done m2) step c = IsCleared-cons m m1 m2 key ks step c
        map_ends m1 (failed e) step c = tt
        map_ends m1 panicked step c = tt

    IsNamed-of_cleared : (m m' : Map ClassState) → IsCleared m (keys m) m' → IsNamed m'
    IsNamed-of_cleared m m' (within, named) key p = named key (keys-is_key key m (within key p)) p

    abbrev pub IsKept : Classes → Classes → Type 0
    IsKept before c =
        (IsNamed c.suc_class × IsNamed c.fail_class)
        × (IsWithin before.suc_class c.suc_class × IsWithin before.fail_class c.fail_class)

    -- checkVgIfDelete leaves only classes that the node's spec names, and adds none.
    pub check_vg_if_delete-IsKept :
        (c : Classes) → Yields (IsKept c) (check_vg_if_delete executor dcs c)
    unfolding check_vg_if_delete
    check_vg_if_delete-IsKept c =
        >>=-Yields (IsCleared c.suc_class (keys c.suc_class))
          (delete_groups executor dcs (keys c.suc_class) c.suc_class)
          (λ m2. pure (record {
            suc_class = m2;
            fail_class = delete_failed dcs (keys c.fail_class) c.fail_class;
          }))
          (delete_groups-IsCleared _ _)
          (λ m2 h.
            (let failed_cleared = delete_failed-IsCleared (keys c.fail_class) c.fail_class in
              ends_with_value (
                (IsNamed-of_cleared _ m2 h, IsNamed-of_cleared _ _ failed_cleared),
                (h.0, failed_cleared.0),
              )))
