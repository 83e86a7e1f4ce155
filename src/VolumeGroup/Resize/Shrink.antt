-- ===== src/VolumeGroup/Resize/Shrink.antt =====
-- What checkVgIfShrink does to a group, by the names of the devices of its class as the spec has them.
use nativestor.Prelude.{
  String, ◌==◌, any, ◌≡◌, ◌≢◌, refl, ap, ◌∙◌, List, [], ◌∷◌, none, Bool, true, false, All, arith,
}
use nativestor.Prelude.Maps.{Map, erase, keys}
use nativestor.Errors.{ok}
use nativestor.Exec.{Call, Executor, done, pure, recover, and_then}
use nativestor.Exec.Steps.{runs}
use nativestor.Sys.Lvm.{get_physical_volume, check_vg_has_logical_volume, remove_volume_group}
use nativestor.Sys.Lvm.Guards.{get_physical_volume-IsQuiet, removal, remove_volume_group-done}
use nativestor.VolumeGroup.Types.{Disk, ClassState}
use nativestor.VolumeGroup.Resize.{
  surplus, is_whole, shrink_listed, remove_whole, after_remove, check_vg_if_shrink,
}

-- Whether a device of the class has the name of the physical volume.
abbrev pub names_pv : List Disk → String → Bool
names_pv device pv = any (λ d. d.name == pv) device

surplus-named :
    (device : List Disk) (pvs : List String)
    → All (λ pv. names_pv device pv ≡ true) pvs
    → surplus device pvs ≡ []
unfolding surplus
surplus-named device [] h = refl
surplus-named device (pv ∷ pvs) (p, h) = rw p (surplus-named device pvs h)

surplus-unnamed :
    (device : List Disk) (pvs : List String)
    → All (λ pv. names_pv device pv ≡ false) pvs
    → surplus device pvs ≡ pvs
unfolding surplus
surplus-unnamed device [] h = refl
surplus-unnamed device (pv ∷ pvs) (p, h) = rw p (ap (λ l. pv ∷ l) (surplus-unnamed device pvs h))

is_whole-nil : (pvs : List String) → is_whole [] pvs ≡ false
is_whole-nil [] = refl
is_whole-nil (pv ∷ pvs) = ground arith

is_whole_self : (pvs : List String) → pvs ≢ [] → is_whole pvs pvs ≡ true
is_whole_self [] n = absurd (n refl)
is_whole_self (pv ∷ pvs) n = ground arith

module _ (executor : Executor) (vg : String) (device : List Disk) (m : Map ClassState)
    (pvs : Map String) (calls : List Call)
    (listed : (get_physical_volume executor vg calls).0 ≡ done pvs) where
  after_listing :
      check_vg_if_shrink executor vg device m calls
      ≡ shrink_listed executor vg device m (ok pvs) (get_physical_volume executor vg calls).1
  unfolding check_vg_if_shrink
  after_listing =
      ap
        (λ o.
          and_then (recover o) (shrink_listed executor vg device m)
            (get_physical_volume executor vg calls).1)
        listed

  named_lem :
      All (λ pv. names_pv device pv ≡ true) (keys pvs)
      → shrink_listed executor vg device m (ok pvs) ≡ pure (m, none)
  named_lem h = rw (surplus-named device (keys pvs) h, is_whole-nil (keys pvs)) refl

  unnamed_lem :
      keys pvs ≢ []
      → All (λ pv. names_pv device pv ≡ false) (keys pvs)
      → shrink_listed executor vg device m (ok pvs) ≡ remove_whole executor vg m
  unnamed_lem n h = rw (surplus-unnamed device (keys pvs) h, is_whole_self (keys pvs) n) refl

  abbrev later : List Call
  later = (get_physical_volume executor vg calls).1

  -- The group was found to hold no logical volume, and what ran is vgremove of it and then pvremove of
  -- each physical volume that it was listed with.
  abbrev pub IsTakenAway : List Call → Type 0
  IsTakenAway after =
      ((check_vg_has_logical_volume executor vg later).0 ≡ done false)
      × ((whole : Map String) × ((get_physical_volume executor vg
              (check_vg_has_logical_volume executor vg later).1).0
            ≡ done whole)
          × (runs after ≡ removal executor vg whole (runs calls)))

  taken_away :
      (remove_volume_group executor vg later).0 ≡ done tt
      → IsTakenAway (remove_whole executor vg m later).1
  taken_away removed =
      let (free, (whole, again, trace)) = remove_volume_group-done executor vg later removed in
      (
        free,
        (
          whole,
          again,
          ap
                (λ o.
                  runs
                    (and_then (recover o) (after_remove executor vg m)
                      (remove_volume_group executor vg later).1).1)
                removed
              ∙ (trace
                  ∙ ap (removal executor vg whole) (get_physical_volume-IsQuiet executor vg calls)),
        ),
      )

  -- After it has listed the physical volumes of the group, checkVgIfShrink leaves the group alone and
  -- reports no change if each of them has the name of a device of the class in the spec. If none of
  -- them has, and there are some, and RemoveVolumeGroup succeeds, then the class is dropped from the
  -- successful ones, the group was found to hold no logical volume, and what ran is vgremove of the
  -- group and then pvremove of each of its physical volumes.
  pub check_vg_if_shrink-names :
      (All (λ pv. names_pv device pv ≡ true) (keys pvs)
        → ((check_vg_if_shrink executor vg device m calls).0 ≡ done (m, none))
          × (runs (check_vg_if_shrink executor vg device m calls).1 ≡ runs calls))
      × (keys pvs ≢ []
          → All (λ pv. names_pv device pv ≡ false) (keys pvs)
          → (remove_volume_group executor vg (get_physical_volume executor vg calls).1).0 ≡ done tt
          → ((check_vg_if_shrink executor vg device m calls).0 ≡ done (erase vg m, none))
            × IsTakenAway (check_vg_if_shrink executor vg device m calls).1)
  check_vg_if_shrink-names = (
    λ h. (
      ap (λ x. x.0) after_listing ∙ ap (λ f. (f later).0) (named_lem h),
      ap (λ x. runs x.1) after_listing
          ∙ (ap (λ f. runs (f later).1) (named_lem h)
              ∙ get_physical_volume-IsQuiet executor vg calls),
    ),
    λ n h removed.
        let whole : check_vg_if_shrink executor vg device m calls
            ≡ remove_whole executor vg m later =
          after_listing ∙ ap (λ f. f later) (unnamed_lem n h) in
        (
          ap (λ x. x.0) whole
              ∙ ap
                  (λ o.
                    (and_then (recover o) (after_remove executor vg m)
                      (remove_volume_group executor vg later).1).0)
                  removed,
          rw whole (taken_away removed),
        ),
  )
