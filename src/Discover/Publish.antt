-- ===== src/Discover/Publish.antt =====
-- createOrUpdateRawDevice, checkRawDeviceDeleted and updateDeviceCM of discover.go, and k8sutil/rawdevice.go,
-- over a state of the world. The JSON of the disks and k8sutil.Hash are parameters. A config map whose
-- Data is nil, into which Go cannot write, is not in the model.
pub mod Store
pub mod Held
use nativestor.Prelude.{
  ℕ, String, ◌==◌, ◌&&◌, ◌≡◌, Bool, true, false, not, any, select, List, [], ◌∷◌, ◌++◌, Option,
  none, some, if◌then◌else◌,
}
use nativestor.Prelude.Int.{ℤ, pos, wrap_64}
use nativestor.Prelude.Maps.{Map, lookup, insert, get_or}
use nativestor.Prelude.Texts.{concat}
use nativestor.Errors.{Error, Result, ok, err, plain, ErrorTests}
use nativestor.Sys.LocalDisk.{LocalDisk}
use nativestor.Sys.Disks.{LocalDiskAppendInfo}
use nativestor.Csi.Device.{RawDevice, RawDeviceSpec, Selector, label_is, matches}
use nativestor.VolumeGroup.Lvmd.{ConfigMap, put}

-- What the daemon asks of the API server; `list` is the lister's cache.
pub record DaemonApi (W : Type 0) : Type 0 where
  pub list : Selector → W → Result (List RawDevice)
  pub create : RawDevice → W → Result RawDevice × W
  pub get : String → W → Result RawDevice
  pub update : RawDevice → W → Result RawDevice × W
  pub delete : String → W → Option Error × W
  pub get_config_map : String → W → Result ConfigMap
  pub create_config_map : ConfigMap → W → Option Error × W
  pub patch_config_map : ConfigMap → ConfigMap → W → Option Error × W

pub record Daemon : Type 0 where
  pub node_name : String
  pub namespace : String
  pub cm_name : String
  pub hash : String → String
  pub marshal : List LocalDiskAppendInfo → Result String

unfoldable pub raw_device_name : Daemon → LocalDiskAppendInfo → String
raw_device_name m disk = m.hash (concat m.node_name disk.local_disk.real_path)

-- convertDiskToRawDevice; the uint64 size becomes an int64
unfoldable pub convert_disk_to_raw_device : Daemon → LocalDiskAppendInfo → RawDevice
unfolding raw_device_name wrap_64
convert_disk_to_raw_device m disk = record {
  name = raw_device_name m disk;
  labels = ("node", m.node_name) ∷ [];
  spec = record {
    node_name = m.node_name;
    size = wrap_64 (pos disk.local_disk.size);
    type = disk.local_disk.type_name;
    real_path = disk.local_disk.real_path;
    major = disk.local_disk.major;
    minor = disk.local_disk.minor;
    uuid = disk.local_disk.uuid;
    available = disk.available;
  };
  status = record { name = "" };
}

module _ {W : Type 0} (api : DaemonApi W) (tests : ErrorTests) where
  -- the update of a device that exists: the error of its creation is what is returned if it succeeds
  abbrev pub or_refuse : Error → Result RawDevice × W → Result (Unit {0}) × W
  or_refuse exists (ok updated, w) = (err exists, w)
  or_refuse exists (err e, w) = (err e, w)

  abbrev pub update_found : Error → RawDevice → Result RawDevice → W → Result (Unit {0}) × W
  update_found exists device (err e) w = (err e, w)
  update_found exists device (ok found) w =
      or_refuse exists (api.update (record found { spec = device.spec }) w)

  abbrev pub or_update : RawDevice → Result RawDevice → W → Result (Unit {0}) × W
  or_update device (ok created) w = (ok tt, w)
  or_update device (err e) w =
      if tests.is_already_exists e
      then update_found e device (api.get device.name w) w
      else (err e, w)

  unfoldable pub create_or_update_raw_device : RawDevice → W → Result (Unit {0}) × W
  create_or_update_raw_device device w =
      let (r, later) = api.create device w in or_update device r later

  -- the loop of createOrUpdateRawDevice, which logs the errors
  unfoldable pub publish_each : Daemon → List LocalDiskAppendInfo → W → W
  unfolding convert_disk_to_raw_device create_or_update_raw_device
  publish_each m [] w = w
  publish_each m (disk ∷ disks) w =
      publish_each m disks (create_or_update_raw_device (convert_disk_to_raw_device m disk) w).1

  abbrev pub is_published : Daemon → List LocalDiskAppendInfo → RawDevice → Bool
  is_published m disks dev = any (λ disk. dev.name == raw_device_name m disk) disks

  -- whether the device of a disk that is gone is to be deleted: not if a volume holds it
  abbrev pub to_delete : Daemon → List LocalDiskAppendInfo → RawDevice → Bool
  to_delete m disks dev = not (is_published m disks dev) && (dev.status.name == "")

  abbrev pub last_error : Option Error → Result (Unit {0})
  last_error none = ok tt
  last_error (some e) = err e

  -- `err` is that of the last deletion
  unfoldable pub delete_each :
      Daemon
      → List LocalDiskAppendInfo
      → List RawDevice
      → Result (Unit {0})
      → W
      → Result (Unit {0}) × W
  unfolding raw_device_name
  delete_each m disks [] last w = (last, w)
  delete_each m disks (dev ∷ raws) last w =
      let (failure, later) = api.delete dev.name w in
      let deleted = delete_each m disks raws (last_error failure) later in
      let kept = delete_each m disks raws last w in if to_delete m disks dev then deleted else kept

  abbrev pub delete_listed :
      Daemon → List LocalDiskAppendInfo → Result (List RawDevice) → W → Result (Unit {0}) × W
  delete_listed m disks (err e) w = (err e, w)
  delete_listed m disks (ok raws) w = delete_each m disks raws (ok tt) w

  unfoldable pub check_raw_device_deleted :
      Daemon → List LocalDiskAppendInfo → W → Result (Unit {0}) × W
  unfolding delete_each
  check_raw_device_deleted m disks w =
      delete_listed m disks (api.list (label_is "node" m.node_name) w) w

  -- createOrUpdateRawDevice
  unfoldable pub publish : Daemon → List LocalDiskAppendInfo → W → Result (Unit {0}) × W
  unfolding publish_each check_raw_device_deleted
  publish m disks w = check_raw_device_deleted m disks (publish_each m disks w)

  abbrev pub with_last : Option Error × W → Result (Unit {0}) × W
  with_last (failure, w) = (last_error failure, w)

  abbrev new_config_map : Daemon → String → ConfigMap
  new_config_map m devices = record {
    name = m.cm_name;
    namespace = m.namespace;
    labels = ("topolvm/lvmdconfig", "lvmdconfig") ∷ [];
    annotations = ("node-name", m.node_name) ∷ [];
    contents = ("devices", devices) ∷ [];
  }

  abbrev pub with_created : Option Error × W → Result (Unit {0}) × W
  with_created (none, w) = (ok tt, w)
  with_created (some e, w) = (err (plain "failed to create local device map %s: %+v"), w)

  abbrev pub write_devices : Daemon → String → Result ConfigMap → W → Result (Unit {0}) × W
  write_devices m devices (ok cm) w =
      if get_or "" "devices" cm.contents == devices
      then (ok tt, w)
      else with_last (api.patch_config_map cm (put "devices" devices cm) w)
  write_devices m devices (err e) w =
      if tests.is_not_found e
      then with_created (api.create_config_map (new_config_map m devices) w)
      else (err e, w)

  abbrev pub write_marshalled : Daemon → Result String → W → Result (Unit {0}) × W
  write_marshalled m (err e) w = (err e, w)
  write_marshalled m (ok devices) w = write_devices m devices (api.get_config_map m.cm_name w) w

  abbrev pub write_published :
      Daemon → List LocalDiskAppendInfo → Result (Unit {0}) × W → Result (Unit {0}) × W
  write_published m devices (err e, w) = (err e, w)
  write_published m devices (ok done, w) = write_marshalled m (m.marshal devices) w

  -- updateDeviceCM, with what GetAllDevices returned
  unfoldable pub update_device_cm :
      Daemon → Result (List LocalDiskAppendInfo) → W → Result (Unit {0}) × W
  unfolding publish lookup insert
  update_device_cm m (err e) w = (err e, w)
  update_device_cm m (ok devices) w = write_published m devices (publish m devices w)
