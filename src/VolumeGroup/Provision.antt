-- ===== src/VolumeGroup/Provision.antt =====
-- provision, provisionFirst and provisionWithNodeStatus. What the API server answers depends on the
-- calls made before; the last call of a run is the write of the config map, which the functions
-- return as the Write that was accepted. A deep copy of a config map is the config map.
pub mod Written
use Prim.Native.String.{len}
use nativestor.Prelude.{
  ℕ, ◌+◌, String, ◌==◌, leb, Bool, true, false, List, [], ◌∷◌, ◌++◌, map, Option, none, some,
  if◌then◌else◌,
}
use nativestor.Prelude.Int.{ℤ}
use nativestor.Prelude.Maps.{Map, lookup, insert, has}
use nativestor.Errors.{Error, Result, ok, err, ErrorTests}
use nativestor.Exec.{Call, Executor, Exec, pure, fail, wrap, of_failure, ◌>>=◌}
use nativestor.Sys.Device.{Library, of_result}
use nativestor.Sys.LocalDisk.{LocalDisk}
use nativestor.Sys.Disks.{get_available_devices}
use nativestor.Sys.Lvm.{get_volume_groups}
use nativestor.VolumeGroup.Types.{
  Disk, DeviceClass, NodeDevices, LoopState, ClassState, NodeStorageState, Classes,
  class_create_fail, class_un_ready, get_vg_name_map,
}
use nativestor.Prelude.Texts.{concat}
use nativestor.VolumeGroup.Plan.{Progress, first_each, settle}
use nativestor.VolumeGroup.Lvmd.{
  ConfigMap, Codec, vg_status_config_map_key, create_lvmd_conf, update_lvmd_conf, update_vg_status,
}
use nativestor.VolumeGroup.Loops.{LoopTable, check_loop_device}

-- Storage of the spec, and the parts of a TopolvmCluster that the job reads
pub record Storage : Type 0 where
  pub device_classes : Option (List NodeDevices)
  pub use_all_devices : Bool
  pub devices : Option (List Disk)
  pub volume_group_name : String
  pub class_name : String
  pub use_loop : Bool

pub record TopolvmCluster : Type 0 where
  pub storage : Storage
  pub node_storage_status : List NodeStorageState

-- k8sutil.CreateOrPatchConfigmap, and k8sutil.PatchConfigMap with the old one
pub data Write : Type 0 where
  create_or_patch : ConfigMap → Write
  patch : ConfigMap → ConfigMap → Write

-- What the job takes from outside: the API server's answers to a Get of a config map and to a write,
-- the codecs, the tests on errors, the libraries, sha256 in k8sutil.Hash, uuid.New and strconv.Itoa.
pub record Outside : Type 0 where
  pub get_config_map : List Call → String → Result ConfigMap
  pub send : List Call → Write → Option Error
  pub codec : Codec
  pub tests : ErrorTests
  pub library : Library
  pub hash : String → String
  pub fresh : List Call → String
  pub itoa : ℤ → String

-- k8sutil.TruncateNodeName of "lvmdconfig-%s"
unfoldable pub config_map_name : (String → String) → String → String
config_map_name hash node =
    if leb (len node + len "lvmdconfig-") 63
    then concat "lvmdconfig-" node
    else concat "lvmdconfig-" (hash node)

module _ (executor : Executor) (outside : Outside) (node_name namespace : String) where
  abbrev pub send_write : Write → Exec Write
  send_write w calls = (of_failure (outside.send calls w) w, calls)

  abbrev get_cm : String → Exec (Result ConfigMap)
  get_cm name calls = pure (outside.get_config_map calls name) calls

  abbrev new_config_map : String → ConfigMap
  new_config_map spec_node = record {
    name = config_map_name outside.hash spec_node;
    namespace = namespace;
    labels = ("topolvm/lvmdconfig", "lvmdconfig") ∷ [];
    annotations = ("node-name", node_name) ∷ [];
    contents = [];
  }

  abbrev pub base_of : Option ConfigMap → String → ConfigMap
  base_of none spec_node = new_config_map spec_node
  base_of (some cm) spec_node = cm

  abbrev pub submit : Option ConfigMap → ConfigMap → Exec Write
  submit none new = send_write (create_or_patch new)
  submit (some cm) new = wrap "patch configmap failed" (send_write (patch cm new))

  abbrev pub empty_state : NodeStorageState
  empty_state = record {
    node = node_name;
    phase = "";
    fail_classes = [];
    success_classes = [];
    loops = [];
  }

  -- what provisionFirst writes after its loop
  unfoldable pub write_first :
      NodeDevices → List LoopState → Option ConfigMap → Progress → Exec Write
  unfolding update_vg_status create_lvmd_conf config_map_name
  write_first nd loops cm p = do
    reported ← wrap "create vg status failed" (
        of_result
          (update_vg_status outside.codec empty_state p.classes loops (base_of cm nd.node_name)))
    configured ←
        wrap "create lvmd conf failed"
          (of_result (create_lvmd_conf outside.codec p.suc_vgs reported))
    submit cm configured

  abbrev pub start : Progress
  start = record { classes = record { suc_class = []; fail_class = [] }; suc_vgs = [] }

  -- provisionFirst
  unfoldable pub provision_first :
      NodeDevices → LoopTable → Map LocalDisk → Option ConfigMap → Exec Write
  unfolding first_each write_first
  provision_first nd t disks cm = do
    vgs ← get_volume_groups executor
    p ← first_each executor t.loop_map disks vgs nd.device_classes start
    write_first nd t.loops cm p

  -- what provisionWithNodeStatus writes after its loop and checkVgIfDelete
  unfoldable pub write_status :
      NodeDevices → List LoopState → ConfigMap → NodeStorageState → Progress → Exec Write
  unfolding update_vg_status update_lvmd_conf
  write_status nd loops cm state p = do
    configured ← wrap "update lvmd conf failed" (
        of_result
          (update_lvmd_conf outside.codec nd.device_classes p.suc_vgs p.classes.suc_class cm))
    reported ←
        wrap "update vg status failed"
          (of_result (update_vg_status outside.codec state p.classes loops configured))
    wrap "patch configmap failed" (send_write (patch cm reported))

  -- provisionWithNodeStatus
  unfoldable pub provision_with_node_status :
      NodeDevices → LoopTable → Map LocalDisk → ConfigMap → String → Exec Write
  unfolding settle write_status get_vg_name_map
  provision_with_node_status nd t disks cm vg_status = do
    state ← of_result (outside.codec.unmarshal_status vg_status)
    p ← settle executor t.loop_map disks nd.device_classes (record {
      suc_class = get_vg_name_map state.success_classes;
      fail_class = get_vg_name_map state.fail_classes;
    })
    write_status nd t.loops cm state p

  abbrev dispatch : NodeDevices → LoopTable → Map LocalDisk → Result ConfigMap → Exec Write
  dispatch nd t disks (err e) =
      if outside.tests.is_not_found e then provision_first nd t disks none else fail e
  dispatch nd t disks (ok cm) = elim (lookup vg_status_config_map_key cm.contents) [
    | some vg_status ↦ provision_with_node_status nd t disks cm vg_status
    | none ↦ provision_first nd t disks (some cm)
  ]

  -- the node's devices, its loops and its disks, which are listed anew after checkLoopDevice
  abbrev Prepared : Type 0
  Prepared = NodeDevices × (LoopTable × Map LocalDisk)

  abbrev with_loops : Bool → List Disk → NodeDevices → LoopTable → Map LocalDisk → Exec Prepared
  with_loops use_loop looped nd t disks =
      if use_loop
      then (do
        t' ← check_loop_device executor outside.itoa outside.fresh looped t
        disks' ← get_available_devices outside.library executor
        pure (nd, (t', disks')))
      else pure (nd, (t, disks))

  abbrev one_class : Storage → List Disk → NodeDevices
  one_class storage devices = record {
    node_name = node_name;
    device_classes =
        record {
          class_name = storage.class_name;
          vg_name = storage.volume_group_name;
          device = devices;
          default = true;
          spare_gb = 0;
          stripe = 0;
          stripe_size = "";
        }
        ∷ [];
  }

  abbrev disk_of : String × LocalDisk → Disk
  disk_of (key, dev) = record {
    name = key;
    type_name = dev.type_name;
    auto = false;
    path = "";
    size = 0;
  }

  -- the last entry of this node
  unfoldable pub devices_of_node : List NodeDevices → NodeDevices → NodeDevices
  devices_of_node [] nd = nd
  devices_of_node (dev ∷ devs) nd =
      devices_of_node devs (if dev.node_name == node_name then dev else nd)

  unfoldable pub loops_of_node : List NodeStorageState → List LoopState → List LoopState
  loops_of_node [] loops = loops
  loops_of_node (dev ∷ devs) loops =
      loops_of_node devs (if dev.node == node_name then dev.loops else loops)

  abbrev no_devices : NodeDevices
  no_devices = record { node_name = ""; device_classes = [] }

  abbrev all_devices : List DeviceClass → List Disk
  all_devices [] = []
  all_devices (class ∷ classes) = class.device ++ all_devices classes

  -- the three ways in which a spec names the devices of the node
  unfoldable pub prepare : Storage → LoopTable → Map LocalDisk → Exec Prepared
  unfolding devices_of_node check_loop_device
  prepare storage t disks =
      if storage.use_all_devices
      then with_loops storage.use_loop (map disk_of disks) (one_class storage (map disk_of disks)) t
          disks
      else elim storage.devices [
        | some devices ↦ with_loops storage.use_loop devices (one_class storage devices) t disks
        | none ↦ elim storage.device_classes [
          | some classes ↦ with_classes (devices_of_node classes no_devices)
          | none ↦ pure (no_devices, (t, disks))
        ]
      ]
    where
      with_classes : NodeDevices → Exec Prepared
      with_classes nd = with_loops storage.use_loop (all_devices nd.device_classes) nd t disks

  -- provision
  unfoldable pub provision : TopolvmCluster → Exec Write
  unfolding prepare loops_of_node lookup
  provision cluster = do
    disks ← get_available_devices outside.library executor
    (nd, (t, disks')) ←
        prepare cluster.storage
          (record { loops = loops_of_node cluster.node_storage_status []; loop_map = [] }) disks
    answer ← get_cm (config_map_name outside.hash nd.node_name)
    dispatch nd t disks' answer
