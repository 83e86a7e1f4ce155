-- ===== src/VolumeGroup/Types.antt =====
-- The data of the job: the types of apis/topolvm/v2/topolvmcluster_types.go that it reads and writes,
-- and the messages of preparevg.go. A pointer to a class in one of the job's two maps is the class
-- itself: the slices that the pointers lead into are rebuilt from the maps and read by nothing else.
use nativestor.Prelude.{
  ℕ, String, ◌==◌, ◌&&◌, Bool, List, [], ◌∷◌, Option, none, some, if◌then◌else◌,
}
use nativestor.Prelude.Maps.{Map, lookup, insert}

pub record Disk : Type 0 where
  pub name : String
  pub type_name : String
  pub auto : Bool
  pub path : String
  pub size : ℕ

pub record DeviceClass : Type 0 where
  pub class_name : String
  pub vg_name : String
  pub device : List Disk
  pub default : Bool
  pub spare_gb : ℕ
  pub stripe : ℕ
  pub stripe_size : String

pub record NodeDevices : Type 0 where
  pub node_name : String
  pub device_classes : List DeviceClass

pub record LoopState : Type 0 where
  pub name : String
  pub file : String
  pub device_name : String
  pub status : String
  pub message : String

pub record DeviceState : Type 0 where
  pub name : String
  pub state : String
  pub message : String

pub record ClassState : Type 0 where
  pub name : String
  pub vg_name : String
  pub state : String
  pub message : String
  pub device_states : List DeviceState

pub record NodeStorageState : Type 0 where
  pub node : String
  pub phase : String
  pub fail_classes : List ClassState
  pub success_classes : List ClassState
  pub loops : List LoopState

-- The two maps of classes by the name of their volume group, which every step of the job updates.
pub record Classes : Type 0 where
  pub suc_class : Map ClassState
  pub fail_class : Map ClassState

abbrev pub class_expand_waring : String
class_expand_waring = "expand warning"

abbrev pub class_expand_error : String
class_expand_error = "expand error"

abbrev pub class_shrink_error : String
class_shrink_error = "shrink error"

abbrev pub class_delete_error : String
class_delete_error = "delete error"

abbrev pub class_create_successful : String
class_create_successful = "create successful"

abbrev pub class_create_fail : String
class_create_fail = "create failed"

abbrev pub device_state_error : String
device_state_error = "error"

abbrev pub loop_create_failed : String
loop_create_failed = "failed"

abbrev pub loop_create_successful : String
loop_create_successful = "successful"

abbrev pub loop : String
loop = "loop"

abbrev pub class_ready : String
class_ready = "Ready"

abbrev pub class_un_ready : String
class_un_ready = "UnReady"

abbrev pub device_online : String
device_online = "Online"

abbrev pub device_offline : String
device_offline = "Offline"

-- c.getDeviceName
unfoldable pub get_device_name : Map LoopState → String → String
unfolding lookup
get_device_name loop_map name = elim (lookup name loop_map) [
  | some state ↦ state.device_name
  | none ↦ ""
]

abbrev name_of_loop : Disk → String → Option Disk
name_of_loop disk name = if name == "" then none else some (record disk { name = name })

-- The disk under the name of the device of its loop, if the job makes that loop; `none` where the
-- program passes the disk over.
unfoldable pub resolve : Map LoopState → Disk → Option Disk
unfolding get_device_name
resolve loop_map disk =
    if (disk.type_name == loop) && disk.auto
    then name_of_loop disk (get_device_name loop_map disk.name)
    else some disk

-- getVgNameMap
unfoldable pub get_vg_name_map : List ClassState → Map ClassState
get_vg_name_map classes = add classes []
  where
    add : List ClassState → Map ClassState → Map ClassState
    add [] vg_map = vg_map
    add (class ∷ classes) vg_map = add classes (insert class.vg_name class vg_map)
