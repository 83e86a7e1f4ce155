-- ===== src/Sys/Device.antt =====
-- The properties of one block device: pkg/util/sys/device.go, for the functions that disks.go calls.
use Prim.Native.String.{◌++◌}
use nativestor.Prelude.{
  ℕ, String, ◌≡◌, refl, eqb, length, Bool, List, [], ◌∷◌, Option, none, some, if◌then◌else◌,
}
use nativestor.Prelude.Int.{ℤ}
use nativestor.Prelude.Maps.{Map, insert}
use nativestor.Prelude.Texts.{split, contains, remove_char}
use nativestor.Errors.{Error, Result, ok, err, plain, exited}
use nativestor.Exec.{
  Executor, Exec, pure, fail, attempt, execute_command_with_output, execute_command_with_error,
  ◌>>=◌,
}

-- What the package takes from Go's library and github.com/google/uuid: ParseUint in base 10,
-- ParseBool, Atoi, path.Base, path.Join, uuid.Parse, and whether LookPath finds sgdisk.
pub record Library : Type 0 where
  pub parse_uint : String → Option ℕ
  pub parse_bool : String → Option Bool
  pub atoi : String → Result ℤ
  pub base : String → String
  pub join : String → String → String
  pub parse_uuid : String → Option String
  pub sgdisk_found : Bool

abbrev pub disk_type : String
disk_type = "disk"

abbrev pub part_type : String
part_type = "part"

abbrev pub loop_type : String
loop_type = "loop"

-- the step of parseKeyValuePairString on the parts of `key="value"`
abbrev add_pair : List String → Map String → Map String
add_pair (key ∷ value ∷ []) props = insert key (remove_char 34 value) props
add_pair _ props = props

unfoldable pub add_pairs : List String → Map String → Map String
unfolding split remove_char insert
add_pairs [] props = props
add_pairs (kvp_raw ∷ kvps) props = add_pairs kvps (add_pair (split b'=' kvp_raw) props)

unfoldable pub parse_key_value_pair_string : String → Map String
unfolding add_pairs split
parse_key_value_pair_string props_raw = add_pairs (split b' ' props_raw) []

-- the step of parseUdevInfo on the parts of `key=value`
abbrev add_property : List String → Map String → Map String
add_property (key ∷ value ∷ rest) result = insert key value result
add_property _ result = result

unfoldable pub add_properties : List String → Map String → Map String
unfolding split insert
add_properties [] result = result
add_properties (v ∷ lines) result = add_properties lines (add_property (split b'=' v) result)

unfoldable pub parse_udev_info : String → Map String
unfolding add_properties split
parse_udev_info text = add_properties (split b'\n' text) []

-- exec.ExitStatus
abbrev pub exit_status : Error → Option ℕ
exit_status (exited code text) = some code
exit_status _ = none

-- a name that is no path stands for a device of /dev
abbrev pub device_path : String → String
device_path device = if eqb (length (split b'/' device)) 1 then "/dev/" ++ device else device

module _ (library : Library) where
  -- the first word that is a uuid
  unfoldable pub first_uuid : List String → Option String
  first_uuid [] = none
  first_uuid (word ∷ words) = elim (library.parse_uuid word) [
    | some id ↦ some id
    | none ↦ first_uuid words
  ]

  abbrev uuid_of_line : String → Option String
  uuid_of_line line =
      if contains line "Disk identifier (GUID)" then first_uuid (split b' ' line) else none

  unfoldable pub uuid_of_lines : List String → Option String
  unfolding first_uuid contains split
  uuid_of_lines [] = none
  uuid_of_lines (line ∷ lines) = elim (uuid_of_line line) [
    | some id ↦ some id
    | none ↦ uuid_of_lines lines
  ]

  -- parseUUID
  unfoldable pub parse_disk_uuid : String → Result String
  unfolding uuid_of_lines split
  parse_disk_uuid text = elim (uuid_of_lines (split b'\n' text)) [
    | some id ↦ ok id
    | none ↦ err (plain "uuid not found for device %s. output=%s")
  ]

abbrev pub of_result {ℓ} : {A : Type ℓ} → Result A → Exec A
of_result (ok a) = pure a
of_result (err e) = fail e

abbrev replaced : String → Result String → Exec (List String)
replaced text (ok out) = pure (split b'\n' out)
replaced text (err e) = fail (plain text)

module _ (executor : Executor) where
  -- ListDevices
  unfoldable pub list_devices : Exec (List String)
  unfolding split
  list_devices = do
    answer ← attempt (
        execute_command_with_output executor
          ("lsblk" ∷ "--all" ∷ "--noheadings" ∷ "--list" ∷ "--output" ∷ "KNAME" ∷ []))
    replaced "failed to list all devices: %v" answer

  abbrev properties : String × Option Error → Exec (Map String)
  properties (out, none) = pure (parse_key_value_pair_string out)
  properties (out, some e) =
      if contains out "not a block device" then fail e else elim (exit_status e) [
        | none ↦ fail e
        | some code ↦ if eqb code 32 then pure [] else fail e
      ]

  -- GetDevicePropertiesFromPath
  unfoldable pub get_device_properties_from_path : String → Exec (Map String)
  unfolding parse_key_value_pair_string contains
  get_device_properties_from_path path = do
    answer ← execute_command_with_error executor (
        "lsblk" ∷ path ∷ "--bytes" ∷ "--nodeps" ∷ "--pairs" ∷ "--paths" ∷ "--output"
        ∷ "SIZE,ROTA,RO,TYPE,PKNAME,NAME,KNAME,MOUNTPOINT,MAJ:MIN" ∷ [])
    properties answer

  -- GetDeviceProperties
  unfoldable pub get_device_properties : String → Exec (Map String)
  unfolding split
  get_device_properties device = get_device_properties_from_path (device_path device)

  -- GetUdevInfo
  unfoldable pub get_udev_info : String → Exec (Map String)
  unfolding parse_udev_info
  get_udev_info device = do
    out ←
        execute_command_with_output executor
          ("udevadm" ∷ "info" ∷ "--query=property" ∷ ("/dev/" ++ device) ∷ [])
    pure (parse_udev_info out)

  -- GetDiskUUID
  unfoldable pub get_disk_uuid : Library → String → Exec String
  unfolding split parse_disk_uuid
  get_disk_uuid library device =
      if library.sgdisk_found
      then (do
        out ← execute_command_with_output executor ("sgdisk" ∷ "--print" ∷ device_path device ∷ [])
        of_result (parse_disk_uuid library out))
      else pure "sgdiskNotFound"

  -- ListDevicesChild
  unfoldable pub list_devices_child : Library → String → Exec (List String)
  unfolding split
  list_devices_child library device = do
    answer ← attempt (
        execute_command_with_output executor
          ("lsblk" ∷ "--noheadings" ∷ "--pairs" ∷ library.join "/dev" device ∷ []))
    replaced "failed to list child devices of %q. %v" answer

-- A quoted value loses its quotes; a pair with two `=` is passed over.
pairs_test :
    parse_key_value_pair_string "SIZE=\"10\" TYPE=\"disk\" X=\"a=b\""
    ≡ ("SIZE", "10") ∷ ("TYPE", "disk") ∷ []
unfolding parse_key_value_pair_string
pairs_test = refl
