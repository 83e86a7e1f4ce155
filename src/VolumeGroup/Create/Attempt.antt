-- ===== src/VolumeGroup/Create/Attempt.antt =====
-- Which commands createVg and createVgRetry run: the creations of one group on the disks that were
-- found available.
use nativestor.Prelude.{
  Among, All-Among, String, ◌≡◌, refl, ◌⊎◌, inl, inr, List, [], ◌∷◌, ◌++◌, Option, none, some, Bool,
  true, false, All, All-append, if◌then◌else◌,
}
use nativestor.Prelude.Maps.{Map, has}
use nativestor.Exec.{Executor, pure, attempt}
use nativestor.Exec.Posts.{Runs, >>=-Runs, attempt-Runs, silent}
use nativestor.Sys.Lvm.{lvm, create_volume_group}
use nativestor.Sys.Lvm.Runs.{pvcreate, create_volume_group-Runs}
use nativestor.VolumeGroup.Types.{Disk, DeviceClass, LoopState, DeviceState, Classes, resolve}
use nativestor.VolumeGroup.Create.{
  Checked, check_disks, check_resolved, names, append_state, create_if, record_creation, create_vg,
}

-- `devices` are those of the class.
module _ {V : Type 0} (loop_map : Map LoopState) (disks : Map V) (devices : List Disk) where
  -- The disk was listed as available, or is a loop of the class that the job makes and that has no
  -- device.
  abbrev pub IsAllowed : String → Type 0
  IsAllowed name =
      (has name disks ≡ true)
      ⊎ ((d : Disk) × Among devices d × (resolve loop_map d ≡ none) × (d.name ≡ name))

  -- If the loop has found all available, it allows them all.
  abbrev IsChecked : Checked → Type 0
  IsChecked c = c.available ≡ true → All (λ d. IsAllowed d.name) c.device

  check_resolved-IsChecked :
      (note : String → List DeviceState → List DeviceState) (c : Checked) (o : Option Disk)
      (d : Disk)
      → Among devices d
      → resolve loop_map d ≡ o
      → IsChecked c
      → IsChecked (check_resolved loop_map disks note c o d)
  check_resolved-IsChecked note c none d m e h =
      λ a. All-append _ c.device (d ∷ []) (h a) (inr (d, m, e, refl), tt)
  check_resolved-IsChecked note c (some n) d m e h = by_test (has n.name disks) refl
    where
      by_test :
          (b : Bool)
          → has n.name disks ≡ b
          → IsChecked (
              if b then record c { device = c.device ++ n ∷ [] } else record {
                available = false;
                device = c.device ++ n ∷ [];
                device_states = note n.name c.device_states;
              })
      by_test true e2 a = All-append _ c.device (n ∷ []) (h a) (inl e2, tt)
      by_test false e2 a = cc

  pub check_disks-IsChecked :
      (note : String → List DeviceState → List DeviceState) (ds : List Disk) (c : Checked)
      → All (Among devices) ds
      → IsChecked c
      → IsChecked (check_disks loop_map disks note c ds)
  unfolding check_disks
  check_disks-IsChecked note [] c g h = h
  check_disks-IsChecked note (d ∷ ds) c (m, g) h =
      check_disks-IsChecked note ds _ g (check_resolved-IsChecked note c _ d m refl h)

  -- a command of the creation of a group of this name on allowed disks
  abbrev pub IsCreation : String → List String → Type 0
  IsCreation vg args =
      ((d : String) × (args ≡ pvcreate d) × IsAllowed d)
      ⊎ ((ds : List String) × All IsAllowed ds × (args ≡ lvm ("vgcreate" ∷ vg ∷ ds)))

  creations_lem :
      (vg : String) (ds : List Disk)
      → All (λ d. IsAllowed d.name) ds
      → All (λ d. IsCreation vg (pvcreate d)) (names ds)
  creations_lem vg [] h = tt
  creations_lem vg (d ∷ ds) (p, h) = (inl (d.name, refl, p), creations_lem vg ds h)

  names-IsAllowed : (ds : List Disk) → All (λ d. IsAllowed d.name) ds → All IsAllowed (names ds)
  names-IsAllowed [] h = tt
  names-IsAllowed (d ∷ ds) (p, h) = (p, names-IsAllowed ds h)

  module _ (executor : Executor) where
    create_allowed-Runs :
        (vg : String) (ds : List Disk)
        → All (λ d. IsAllowed d.name) ds
        → Runs (IsCreation vg) (attempt (create_volume_group executor (names ds) vg))
    create_allowed-Runs vg ds h = attempt-Runs (
        create_volume_group-Runs executor (IsCreation vg) (names ds) vg (creations_lem vg ds h)
          (inr (names ds, names-IsAllowed ds h, refl)))

    pub create_if-Runs :
        (b : Bool) (class : DeviceClass) (states : List DeviceState) (classes : Classes)
        → (b ≡ true → All (λ d. IsAllowed d.name) class.device)
        → Runs (IsCreation class.vg_name) (create_if executor loop_map disks b class states classes)
    create_if-Runs true class states classes h =
        >>=-Runs (attempt (create_volume_group executor (names class.device) class.vg_name))
          (λ answer. pure (record_creation executor loop_map disks class states classes answer))
          (create_allowed-Runs class.vg_name class.device (h refl)) (λ r. silent _ (λ calls. refl))
    create_if-Runs false class states classes h = silent _ (λ calls. refl)

module _ {V : Type 0} (loop_map : Map LoopState) (disks : Map V) (executor : Executor) where
  pub create_vg-Runs :
      (class : DeviceClass) (classes : Classes)
      → Runs
          (IsCreation loop_map disks class.device class.vg_name)
          (create_vg executor loop_map disks class classes)
  unfolding create_vg
  create_vg-Runs class classes = create_if-Runs loop_map disks class.device executor _ _ _ classes (
      check_disks-IsChecked loop_map disks class.device append_state class.device _
        (All-Among class.device) (λ e. tt))
