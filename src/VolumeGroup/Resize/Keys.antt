-- ===== src/VolumeGroup/Resize/Keys.antt =====
-- checkVgIfExpand, checkVgIfShrink and checkVgIfDelete add no class to a map.
use nativestor.Prelude.{
  String, ◌==◌, ◌≡◌, refl, sym, ◌∙◌, List, [], ◌∷◌, Option, none, some, Bool, true, false, eq_iff,
  if◌then◌else◌,
}
use nativestor.Prelude.Maps.{Map, lookup, insert, erase, has, has-insert, has-erase}
use nativestor.Errors.{Result, ok, err, message}
use nativestor.Exec.{Executor, pure, or_panic, attempt}
use nativestor.Exec.Posts.{Yields, >>=-Yields, >>=-Yields_any, ends_with_value}
use nativestor.Sys.Lvm.{
  get_physical_volume, create_physical_volume, expand_volume_group, shrink_volume_group,
  remove_volume_group,
}
use nativestor.VolumeGroup.Types.{
  Disk, LoopState, ClassState, resolve, device_state_error, class_expand_waring, class_expand_error,
  class_delete_error, class_shrink_error,
}
use nativestor.VolumeGroup.Create.{on_entry}
use nativestor.VolumeGroup.Resize.{
  Changed, Expansion, record_pv, expand_named, extend_by, shrink_case, expand_disk, expand_disks,
  add_online, after_extend, extend, expand_listed, check_vg_if_expand, drop_states, after_remove,
  after_shrink, shrink_listed, check_vg_if_shrink, add_state, set_message,
}

module _ (m : Map ClassState) where
  -- A map has no keys but those of `m`.
  abbrev pub IsWithin : Map ClassState → Type 0
  IsWithin m' = (key : String) → has key m' ≡ true → has key m ≡ true

  insert-IsWithin :
      (key : String) (v : ClassState) (m' : Map ClassState)
      → has key m' ≡ true
      → IsWithin m'
      → IsWithin (insert key v m')
  insert-IsWithin key v m' present h other e =
      by_test (key == other) refl (sym (has-insert key other v m') ∙ e)
    where
      by_test :
          (b : Bool)
          → (key == other) ≡ b
          → (if b then true else has other m') ≡ true
          → has other m ≡ true
      by_test true same t = h other (rw (← (eq_iff key other).0 same) present)
      by_test false same t = h other t

  pub erase-IsWithin : (key : String) (m' : Map ClassState) → IsWithin m' → IsWithin (erase key m')
  erase-IsWithin key m' h other e = by_test (key == other) (sym (has-erase key other m') ∙ e)
    where
      by_test : (b : Bool) → (if b then false else has other m') ≡ true → has other m ≡ true
      by_test true t = cc
      by_test false t = h other t

  pub on_entry-IsWithin :
      (key : String) (f : ClassState → ClassState) (m' : Map ClassState)
      → IsWithin m'
      → Yields IsWithin (on_entry key f m')
  on_entry-IsWithin key f m' h = by_lookup (lookup key m') refl
    where
      by_lookup :
          (o : Option ClassState)
          → lookup key m' ≡ o
          → Yields IsWithin
              (elim o [ some value ↦ pure (insert key (f value) m') | none ↦ or_panic none ])
      by_lookup none e = record { ends = λ calls. tt }
      by_lookup (some v) e = ends_with_value (insert-IsWithin key (f v) m' (rw e refl) h)

  abbrev pub IsChangedWithin : Changed → Type 0
  IsChangedWithin c = IsWithin c.0

  module _ (executor : Executor) (vg : String) where
    add_online-IsWithin :
        (ds : List String) (m' : Map ClassState)
        → IsWithin m'
        → Yields IsWithin (add_online executor vg ds m')
    unfolding add_online
    add_online-IsWithin [] m' h = ends_with_value h
    add_online-IsWithin (d ∷ ds) m' h =
        >>=-Yields IsWithin (on_entry vg _ m') (add_online executor vg ds)
          (on_entry-IsWithin vg _ m' h) (λ m2 h2. add_online-IsWithin ds m2 h2)

    record_pv-IsWithin :
        (name : String) (x : Expansion) (r : Result (Unit {0}))
        → IsWithin x.suc_class
        → Yields (λ y. IsWithin y.suc_class) (record_pv executor vg name x r)
    record_pv-IsWithin name x (ok u) h = ends_with_value h
    record_pv-IsWithin name x (err e) h =
        >>=-Yields IsWithin (on_entry vg _ x.suc_class)
          (λ m2. pure (record x { suc_class = m2; last_error = some e }))
          (on_entry-IsWithin vg
            (λ c.
              add_state (record { name = name; state = device_state_error; message = message e })
                (set_message class_expand_waring c))
            x.suc_class h)
          (λ m2 h2. ends_with_value h2)

    expand_named-IsWithin :
        (x : Expansion) (name : String) (b : Bool)
        → IsWithin x.suc_class
        → Yields (λ y. IsWithin y.suc_class) (expand_named executor vg x name b)
    expand_named-IsWithin x name true h = ends_with_value h
    expand_named-IsWithin x name false h =
        >>=-Yields_any (attempt (create_physical_volume executor name))
          (record_pv executor vg name x) (λ r. record_pv-IsWithin name x r h)

    expand_disk-IsWithin :
        (pv : Map String) (x : Expansion) (o : Option Disk)
        → IsWithin x.suc_class
        → Yields (λ y. IsWithin y.suc_class) (expand_disk executor vg pv x o)
    expand_disk-IsWithin pv x none h = ends_with_value h
    expand_disk-IsWithin pv x (some d) h = expand_named-IsWithin x d.name _ h

    expand_disks-IsWithin :
        (loop_map : Map LoopState) (pv : Map String) (ds : List Disk) (x : Expansion)
        → IsWithin x.suc_class
        → Yields (λ y. IsWithin y.suc_class) (expand_disks executor vg loop_map pv ds x)
    unfolding expand_disks
    expand_disks-IsWithin loop_map pv [] x h = ends_with_value h
    expand_disks-IsWithin loop_map pv (d ∷ ds) x h =
        >>=-Yields (λ y. IsWithin y.suc_class) (expand_disk executor vg pv x (resolve loop_map d))
          (expand_disks executor vg loop_map pv ds) (expand_disk-IsWithin pv x _ h)
          (λ x2 h2. expand_disks-IsWithin loop_map pv ds x2 h2)

    after_extend-IsWithin :
        (x : Expansion) (r : Result (Unit {0}))
        → IsWithin x.suc_class
        → Yields IsChangedWithin (after_extend executor vg x r)
    after_extend-IsWithin x (ok u) h =
        >>=-Yields IsWithin (add_online executor vg x.new_pvs x.suc_class)
          (λ m2. pure (m2, x.last_error)) (add_online-IsWithin x.new_pvs x.suc_class h)
          (λ m2 h2. ends_with_value h2)
    after_extend-IsWithin x (err e) h =
        >>=-Yields IsWithin (on_entry vg (set_message class_expand_error) x.suc_class)
          (λ m2. pure (m2, some e)) (on_entry-IsWithin vg _ x.suc_class h)
          (λ m2 h2. ends_with_value h2)

    extend_by-IsWithin :
        (pvs : List String) (x : Expansion)
        → IsWithin x.suc_class
        → Yields IsChangedWithin (extend_by executor vg pvs x)
    extend_by-IsWithin [] x h = ends_with_value h
    extend_by-IsWithin (pv ∷ pvs) x h =
        >>=-Yields_any (attempt (expand_volume_group executor vg (pv ∷ pvs)))
          (after_extend executor vg x) (λ r. after_extend-IsWithin x r h)

    expand_listed-IsWithin :
        (loop_map : Map LoopState) (ds : List Disk) (m' : Map ClassState) (r : Result (Map String))
        → IsWithin m'
        → Yields IsChangedWithin (expand_listed executor vg loop_map ds m' r)
    expand_listed-IsWithin loop_map ds m' (err e) h = ends_with_value h
    expand_listed-IsWithin loop_map ds m' (ok pv) h =
        >>=-Yields (λ y. IsWithin y.suc_class) (expand_disks executor vg loop_map pv ds _)
          (extend executor vg)
          (expand_disks-IsWithin loop_map pv ds
            (record { new_pvs = []; suc_class = m'; last_error = none }) h)
          (λ x2 h2. extend_by-IsWithin x2.new_pvs x2 h2)

    pub check_vg_if_expand-IsWithin :
        (loop_map : Map LoopState) (ds : List Disk) (m' : Map ClassState)
        → IsWithin m'
        → Yields IsChangedWithin (check_vg_if_expand executor vg loop_map ds m')
    unfolding check_vg_if_expand
    check_vg_if_expand-IsWithin loop_map ds m' h =
        >>=-Yields_any (attempt (get_physical_volume executor vg))
          (expand_listed executor vg loop_map ds m')
          (λ r. expand_listed-IsWithin loop_map ds m' r h)

    drop_states-IsWithin :
        (ds : List String) (m' : Map ClassState)
        → IsWithin m'
        → Yields IsWithin (drop_states executor vg ds m')
    unfolding drop_states
    drop_states-IsWithin [] m' h = ends_with_value h
    drop_states-IsWithin (d ∷ ds) m' h =
        >>=-Yields IsWithin (on_entry vg _ m') (drop_states executor vg ds)
          (on_entry-IsWithin vg _ m' h) (λ m2 h2. drop_states-IsWithin ds m2 h2)

    after_remove-IsWithin :
        (m' : Map ClassState) (r : Result (Unit {0}))
        → IsWithin m'
        → Yields IsChangedWithin (after_remove executor vg m' r)
    after_remove-IsWithin m' (ok u) h = ends_with_value (erase-IsWithin vg m' h)
    after_remove-IsWithin m' (err e) h =
        >>=-Yields IsWithin (on_entry vg (set_message class_delete_error) m')
          (λ m2. pure (m2, some e)) (on_entry-IsWithin vg _ m' h) (λ m2 h2. ends_with_value h2)

    after_shrink-IsWithin :
        (pvs : List String) (m' : Map ClassState) (r : Result (Unit {0}))
        → IsWithin m'
        → Yields IsChangedWithin (after_shrink executor vg pvs m' r)
    after_shrink-IsWithin pvs m' (ok u) h =
        >>=-Yields IsWithin (drop_states executor vg pvs m') (λ m2. pure (m2, none))
          (drop_states-IsWithin pvs m' h) (λ m2 h2. ends_with_value h2)
    after_shrink-IsWithin pvs m' (err e) h =
        >>=-Yields IsWithin (on_entry vg (set_message class_shrink_error) m')
          (λ m2. pure (m2, some e)) (on_entry-IsWithin vg _ m' h) (λ m2 h2. ends_with_value h2)

    shrink_case-IsWithin :
        (b : Bool) (pvs : List String) (m' : Map ClassState)
        → IsWithin m'
        → Yields IsChangedWithin (shrink_case executor vg b pvs m')
    shrink_case-IsWithin true pvs m' h =
        >>=-Yields_any (attempt (remove_volume_group executor vg)) (after_remove executor vg m')
          (λ r. after_remove-IsWithin m' r h)
    shrink_case-IsWithin false [] m' h = ends_with_value h
    shrink_case-IsWithin false (pv ∷ pvs) m' h =
        >>=-Yields_any (attempt (shrink_volume_group executor vg (pv ∷ pvs)))
          (after_shrink executor vg (pv ∷ pvs) m') (λ r. after_shrink-IsWithin (pv ∷ pvs) m' r h)

    shrink_listed-IsWithin :
        (ds : List Disk) (m' : Map ClassState) (r : Result (Map String))
        → IsWithin m'
        → Yields IsChangedWithin (shrink_listed executor vg ds m' r)
    shrink_listed-IsWithin ds m' (err e) h = ends_with_value h
    shrink_listed-IsWithin ds m' (ok pvs) h = shrink_case-IsWithin _ _ m' h

    pub check_vg_if_shrink-IsWithin :
        (ds : List Disk) (m' : Map ClassState)
        → IsWithin m'
        → Yields IsChangedWithin (check_vg_if_shrink executor vg ds m')
    unfolding check_vg_if_shrink
    check_vg_if_shrink-IsWithin ds m' h =
        >>=-Yields_any (attempt (get_physical_volume executor vg)) (shrink_listed executor vg ds m')
          (λ r. shrink_listed-IsWithin ds m' r h)
