-- ===== src/VolumeGroup/Create.antt =====
-- createVg and createVgRetry. The names that the loops over the devices write into the class are kept
-- in the class that comes back: the caller's copy shares its slice of devices.
pub mod Ready
pub mod Attempt
use nativestor.Prelude.{
  ℕ, suc, String, ◌==◌, Bool, true, false, List, [], ◌∷◌, ◌++◌, map, Option, none, some, set, ◌≡◌,
  if◌then◌else◌,
}
use nativestor.Prelude.Maps.{Map, lookup, insert, erase, has}
use nativestor.Errors.{Result, ok, err}
use nativestor.Exec.{Executor, Exec, pure, or_panic, attempt, ◌>>=◌}
use nativestor.Sys.Lvm.{create_volume_group}
use nativestor.VolumeGroup.Types.{
  Disk, DeviceClass, LoopState, DeviceState, ClassState, Classes, class_create_fail,
  class_create_successful, class_ready, class_un_ready, device_online, device_offline, resolve,
}

-- What the loop over the devices of a class has found: whether all are available, the devices under
-- their resolved names, and the states of the devices.
pub record Checked : Type 0 where
  pub available : Bool
  pub device : List Disk
  pub device_states : List DeviceState

-- checkDeviceStatusIsExisting
unfoldable pub check_device_status_is_existing : List DeviceState → String → ℕ → Option ℕ
check_device_status_is_existing [] disk index = none
check_device_status_is_existing (dev ∷ devs) disk index =
    let later = check_device_status_is_existing devs disk (suc index) in
    if dev.name == disk then some index else later

abbrev unavailable : String
unavailable = "disk may has filesystem or is not raw disk please check"

-- how createVg records an unavailable device
abbrev pub append_state : String → List DeviceState → List DeviceState
append_state name states =
    states ++ record { name = name; state = device_offline; message = unavailable } ∷ []

-- how createVgRetry records one
unfoldable pub replace_state : String → List DeviceState → List DeviceState
unfolding check_device_status_is_existing
replace_state name states =
    let status : DeviceState = record { name = name; state = ""; message = unavailable } in
    elim (check_device_status_is_existing states name 0) [
      | some index ↦ set states index status
      | none ↦ states ++ status ∷ []
    ]

module _ {V : Type 0} (loop_map : Map LoopState) (availa_disks : Map V) where
  abbrev check_resolved :
      (String → List DeviceState → List DeviceState) → Checked → Option Disk → Disk → Checked
  check_resolved note checked none disk = record checked { device = checked.device ++ disk ∷ [] }
  check_resolved note checked (some named) disk =
      if has named.name availa_disks
      then record checked { device = checked.device ++ named ∷ [] }
      else record {
        available = false;
        device = checked.device ++ named ∷ [];
        device_states = note named.name checked.device_states;
      }

  -- the loop over the devices of a class
  unfoldable pub check_disks :
      (String → List DeviceState → List DeviceState) → Checked → List Disk → Checked
  unfolding resolve lookup
  check_disks note checked [] = checked
  check_disks note checked (disk ∷ disks) =
      check_disks note (check_resolved note checked (resolve loop_map disk) disk) disks

-- What createVg and createVgRetry leave: whether the group was created, the class, the two maps.
pub record Created : Type 0 where
  pub suc : Bool
  pub class : DeviceClass
  pub classes : Classes

abbrev pub names : List Disk → List String
names disks = map (λ d. d.name) disks

-- A change of the entry of a key; to follow a missing one's nil pointer is a panic.
abbrev pub on_entry {ℓ} : {V : Type ℓ} → String → (V → V) → Map V → Exec (Map V)
on_entry key f m = elim (lookup key m) [
  | some value ↦ pure (insert key (f value) m)
  | none ↦ or_panic none
]

module _ {V : Type 0} (executor : Executor) (loop_map : Map LoopState) (availa_disks : Map V) where
  abbrev pub online : Disk → DeviceState
  online d = record { name = d.name; state = device_online; message = "" }

  abbrev pub class_state : DeviceClass → String → String → List DeviceState → ClassState
  class_state class state message states = record {
    name = class.class_name;
    vg_name = class.vg_name;
    state = state;
    message = message;
    device_states = states;
  }

  -- what createVg does after the loop with the answer of CreateVolumeGroup
  abbrev pub record_creation :
      DeviceClass → List DeviceState → Classes → Result (Unit {0}) → Created
  record_creation class states classes (ok tt) = record {
    suc = true;
    class = class;
    classes = record classes {
      suc_class =
          insert class.vg_name
            (class_state class class_ready class_create_successful
              (states ++ map online class.device))
            classes.suc_class;
    };
  }
  record_creation class states classes (err e) = record {
    suc = false;
    class = class;
    classes = record classes {
      fail_class =
          insert class.vg_name (class_state class class_un_ready class_create_fail states)
            classes.fail_class;
    };
  }

  -- createVg after its loop: whether all devices are available, and the class under their names
  abbrev pub create_if : Bool → DeviceClass → List DeviceState → Classes → Exec Created
  create_if true class states classes = do
    answer ← attempt (create_volume_group executor (names class.device) class.vg_name)
    pure (record_creation class states classes answer)
  create_if false class states classes = pure (record {
    suc = false;
    class = class;
    classes = record classes {
      fail_class = insert class.vg_name (class_state class "" "" states) classes.fail_class;
    };
  })

  -- createVg
  unfoldable pub create_vg : DeviceClass → Classes → Exec Created
  unfolding check_disks insert
  create_vg class classes =
      let checked =
        check_disks loop_map availa_disks append_state
          (record { available = true; device = []; device_states = [] }) class.device in
      create_if checked.available (record class { device = checked.device }) checked.device_states
        classes

  -- what createVgRetry does with the answer of CreateVolumeGroup
  abbrev pub record_retry : DeviceClass → Classes → Result (Unit {0}) → Created
  record_retry class classes (ok tt) = record {
    suc = true;
    class = class;
    classes = record {
      suc_class =
          insert class.vg_name (class_state class class_ready class_create_successful [])
            classes.suc_class;
      fail_class = erase class.vg_name classes.fail_class;
    };
  }
  record_retry class classes (err e) = record { suc = false; class = class; classes = classes }

  abbrev states_of : Option ClassState → List DeviceState
  states_of none = []
  states_of (some c) = c.device_states

  -- createVgRetry after its loop
  abbrev pub retry_if : Bool → DeviceClass → List DeviceState → Classes → Exec Created
  retry_if true class states classes = do
    answer ← attempt (create_volume_group executor (names class.device) class.vg_name)
    pure (record_retry class classes answer)
  retry_if false class states classes = do
    fail_class ←
        on_entry class.vg_name (λ c. record c { device_states = states }) classes.fail_class
    pure (record {
      suc = false;
      class = class;
      classes = record classes { fail_class = fail_class };
    })

  -- createVgRetry
  unfoldable pub create_vg_retry : DeviceClass → Classes → Exec Created
  unfolding check_disks replace_state insert erase lookup
  create_vg_retry class classes =
      let checked =
        check_disks loop_map availa_disks replace_state
          (record {
            available = true;
            device = [];
            device_states = states_of (lookup class.vg_name classes.fail_class);
          })
          class.device in
      retry_if checked.available (record class { device = checked.device }) checked.device_states
        classes
