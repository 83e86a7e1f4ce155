-- ===== src/Sys/Disks.antt =====
-- The disks of a node: pkg/util/sys/disks.go. The job takes the available ones as a map, the daemon
-- that publishes raw devices takes all of them, each with a reason where it is not available.
pub mod Suitable
use Prim.Native.String.{◌++◌}
use nativestor.Prelude.{
  ℕ, ◌*◌, ◌^◌, ◌%◌, String, ◌==◌, ◌||◌, ◌&&◌, ltb, not, eqb, length, Bool, true, false, List, [],
  ◌∷◌, Option, none, some, if◌then◌else◌,
}
use nativestor.Prelude.Int.{ℤ, pos, negsuc, two_64}
use nativestor.Prelude.Maps.{Map, lookup, insert}
use nativestor.Prelude.Texts.{split}
use nativestor.Errors.{Error, Result, ok, err, plain}
use nativestor.Exec.{Executor, Exec, pure, fail, attempt, ◌>>=◌}
use nativestor.Sys.Device.{
  Library, disk_type, part_type, loop_type, of_result, list_devices, get_device_properties,
  get_udev_info, get_disk_uuid, list_devices_child,
}
use nativestor.Sys.LocalDisk.{
  LocalDisk, blank, supported_device_type, fill_info, fill_numbers, fill_udev,
}

module _ (library : Library) (executor : Executor) where
  abbrev pub populate_typed : String → Map String → Option String → Exec LocalDisk
  populate_typed d props none = fail (plain "diskType is empty")
  populate_typed d props (some type_name) =
      if not (supported_device_type type_name) then fail (plain "unsupported diskType %+s") else do
        uuid ← if type_name == part_type then pure "" else get_disk_uuid executor library d
        of_result (fill_numbers library props (fill_info library props (blank d uuid)))

  -- populateDeviceInfo
  unfoldable pub populate_device_info : String → Exec LocalDisk
  unfolding fill_info fill_numbers lookup
  populate_device_info d = do
    props ← get_device_properties executor d
    populate_typed d props (lookup "TYPE" props)

  -- populateDeviceUdevInfo, after which the caller goes on whatever it answers
  unfoldable pub populate_device_udev_info : String → LocalDisk → Exec LocalDisk
  unfolding fill_udev
  populate_device_udev_info d disk = do
    answer ← attempt (get_udev_info executor d)
    pure (elim answer [ ok info ↦ fill_udev info disk | err e ↦ disk ])

  -- the number of lines of the list of children, none where the list is refused
  unfoldable pub count_children : String → Exec ℕ
  count_children device = do
    answer ← attempt (list_devices_child executor library device)
    pure (elim answer [ ok lines ↦ length lines | err e ↦ 0 ])

  -- Whether the disk is passed over for its partitions.
  unfoldable pub has_child : String → LocalDisk → Exec Bool
  unfolding count_children
  has_child device disk =
      if disk.type_name == disk_type
      then (do n ← count_children device; pure (ltb 1 n))
      else pure false

  abbrev pub discover_populated : Bool → String → Result LocalDisk → Exec (List LocalDisk)
  discover_populated list_parent d (err e) = pure []
  discover_populated list_parent d (ok disk) = do
    disk' ← populate_device_udev_info d disk
    child ← has_child d disk'
    pure (if not list_parent && child then [] else disk' ∷ [])

  -- the loop of DiscoverDevices
  unfoldable pub discover_each : Bool → List String → Exec (List LocalDisk)
  unfolding populate_device_info populate_device_udev_info has_child
  discover_each list_parent [] = pure []
  discover_each list_parent (d ∷ ds) = do
    answer ← attempt (populate_device_info d)
    found ← discover_populated list_parent d answer
    others ← discover_each list_parent ds
    pure (elim found [ [] ↦ others | disk ∷ _ ↦ disk ∷ others ])

  -- DiscoverDevices
  unfoldable pub discover_devices : Bool → Exec (List LocalDisk)
  unfolding discover_each
  discover_devices list_parent = do
    devices ← list_devices executor
    discover_each list_parent devices

abbrev pub two_gib : ℕ
two_gib = 2 * 2 ^ 30

-- the three tests that GetAvailableDevices and GetAllDevices share
abbrev pub is_suitable : LocalDisk → Bool
is_suitable device =
    not (ltb device.size two_gib) && ((device.filesystem == "") && (device.mount_point == ""))

-- the loop of GetAvailableDevices
unfoldable pub keep_available : List LocalDisk → Map LocalDisk → Map LocalDisk
unfolding insert
keep_available [] available = available
keep_available (device ∷ disks) available =
    keep_available disks
      (if is_suitable device then insert ("/dev/" ++ device.name) device available else available)

pub record LocalDiskAppendInfo : Type 0 where
  pub local_disk : LocalDisk
  pub available : Bool
  pub message : String

module _ (library : Library) (executor : Executor) where
  -- GetAvailableDevices
  unfoldable pub get_available_devices : Exec (Map LocalDisk)
  unfolding discover_devices keep_available
  get_available_devices = do
    disks ← discover_devices library executor false
    pure (keep_available disks [])

  abbrev pub refuse : LocalDisk → String → List LocalDiskAppendInfo
  refuse device message = record { local_disk = device; available = false; message = message } ∷ []

  -- what GetAllDevices reports of a device that passed the three tests
  abbrev pub report_child : LocalDisk → Bool → List LocalDiskAppendInfo
  report_child device child =
      if child
      then refuse device "has child"
      else if device.type_name == loop_type
      then []
      else record { local_disk = device; available = true; message = "" } ∷ []

  -- the step of GetAllDevices, which reports at most one entry
  unfoldable pub report_device : LocalDisk → Exec (List LocalDiskAppendInfo)
  unfolding has_child
  report_device device =
      if ltb device.size two_gib
      then pure (refuse device "size less than 2G")
      else if not (device.filesystem == "")
      then pure (refuse device "containe a filesystem %s")
      else if not (device.mount_point == "")
      then pure (refuse device "has a mount point %s")
      else do
        child ← has_child library executor device.kernel_name device
        pure (report_child device child)

  unfoldable pub report_each : List LocalDisk → Exec (List LocalDiskAppendInfo)
  unfolding report_device
  report_each [] = pure []
  report_each (device ∷ disks) = do
    entry ← report_device device
    others ← report_each disks
    pure (elim entry [ [] ↦ others | e ∷ _ ↦ e ∷ others ])

  -- GetAllDevices
  unfoldable pub get_all_devices : Exec (List LocalDiskAppendInfo)
  unfolding discover_devices report_each
  get_all_devices = do disks ← discover_devices library executor true; report_each disks
