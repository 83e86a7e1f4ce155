-- ===== src/Operator/CleanUp.antt =====
-- The clean-up job on a node: getVgInfo and cleanVgs of pkg/operator/topolvm/clean/clean.go.
pub mod Removals
mod Samples
use nativestor.Prelude.{
  String, ◌==◌, Bool, true, false, List, [], ◌∷◌, Option, none, some, if◌then◌else◌,
}
use nativestor.Prelude.Maps.{Map, insert, erase, keys}
use nativestor.Errors.{Error, Result, ok, err}
use nativestor.Exec.{Executor, Exec, pure, attempt, ◌>>=◌}
use nativestor.Sys.Lvm.{get_physical_volume, remove_volume_group, remove_physical_volume}
use nativestor.VolumeGroup.Types.{Disk, DeviceClass, NodeDevices}
use nativestor.VolumeGroup.Provision.{Storage}

-- the loops of getVgInfo, over a class's devices, a node's classes and the nodes
unfoldable pub add_devices : List Disk → Map String → Map String
unfolding insert
add_devices [] pvs = pvs
add_devices (d ∷ devices) pvs = add_devices devices (insert d.name d.name pvs)

unfoldable pub add_classes : List DeviceClass → Map String × Map String → Map String × Map String
unfolding add_devices
add_classes [] info = info
add_classes (v ∷ classes) (vgs, pvs) =
    add_classes classes (insert v.vg_name v.vg_name vgs, add_devices v.device pvs)

unfoldable pub add_nodes :
    String → List NodeDevices → Map String × Map String → Map String × Map String
unfolding add_classes
add_nodes node [] info = info
add_nodes node (ele ∷ nodes) info =
    add_nodes node nodes
      (if ele.node_name == node then add_classes ele.device_classes info else info)

abbrev pub add_spec :
    String → Option (List NodeDevices) → Map String × Map String → Map String × Map String
add_spec node none info = info
add_spec node (some nodes) info = add_nodes node nodes info

-- getVgInfo
unfoldable pub get_vg_info : Storage → String → Map String × Map String
unfolding add_nodes insert
get_vg_info storage node = add_spec node storage.device_classes (
    if storage.volume_group_name == ""
    then ([], [])
    else (insert storage.volume_group_name storage.volume_group_name [], []))

-- the devices that a group was listed with are left to the removal of the group
unfoldable pub erase_each : List String → Map String → Map String
unfolding erase
erase_each [] pvs = pvs
erase_each (k ∷ ks) pvs = erase_each ks (erase k pvs)

abbrev pub not_listed : Result (Map String) → Map String → Map String
not_listed (ok res) pvs = erase_each (keys res) pvs
not_listed (err e) pvs = pvs

module _ (executor : Executor) where
  -- the loop over the groups, which logs the errors
  unfoldable pub clean_groups : List String → Map String → Exec (Map String)
  unfolding get_physical_volume remove_volume_group erase_each keys
  clean_groups [] pvs = pure pvs
  clean_groups (vg ∷ vgs) pvs = do
    res ← attempt (get_physical_volume executor vg)
    removed ← attempt (remove_volume_group executor vg)
    clean_groups vgs (not_listed res pvs)

  unfoldable pub clean_volumes : List String → Exec (Unit {0})
  unfolding remove_physical_volume
  clean_volumes [] = pure tt
  clean_volumes (pv ∷ pvs) = do
    removed ← attempt (remove_physical_volume executor pv)
    clean_volumes pvs

  -- cleanVgs
  unfoldable pub clean_vgs : Map String → Map String → Exec (Unit {0})
  unfolding clean_groups clean_volumes keys
  clean_vgs vgs pvs = do left ← clean_groups (keys vgs) pvs; clean_volumes (keys left)
