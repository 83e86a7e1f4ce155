-- ===== src/Sys/Samples.antt =====
-- The theorems on the commands of pkg/util/sys at concrete answers, and tests.
use Prim.Native.String.{◌++◌}
use nativestor.Prelude.{
  String, ◌≡◌, ◌≢◌, ◌⊎◌, refl, [], ◌∷◌, none, some, true, false, All, List, ◌==◌, if◌then◌else◌,
}
use nativestor.Prelude.Int.{pos}
use nativestor.Prelude.Maps.{Map, lookup, has}
use nativestor.Errors.{ok}
use nativestor.Exec.{Call, output, Executor, done}
use nativestor.Exec.Steps.{runs}
use nativestor.Sys.Lvm.{
  lvm, parse_output, remove_checked, get_physical_volume, check_vg_has_logical_volume,
  remove_volume_group, shrink_volume_group, create_volume_group,
}
use nativestor.Sys.Lvm.Guards.{
  IsFoundFree, removal, remove_volume_group-occupied, remove_volume_group-done,
  shrink_volume_group-free,
}
use nativestor.Sys.Lvm.Runs.{creations, create_volume_group-done}
use nativestor.Sys.Device.{
  Library, list_devices, get_device_properties, get_device_properties_from_path, get_disk_uuid,
  get_udev_info, list_devices_child,
}
use nativestor.Sys.LocalDisk.{LocalDisk, blank}
use nativestor.Sys.Disks.{discover_devices, get_available_devices}
use nativestor.Sys.Disks.Suitable.{IsFit, IsEntryOf, get_available_devices-All}

-- a machine whose queries all answer with one text, and whose commands succeed
abbrev answering : String → Executor
answering text calls call = record { out = text; failure = none }

abbrev one_pv : Executor
one_pv = answering "  LVM2_PV_NAME='/dev/sda'\n"

abbrev one_lv : Executor
one_lv = answering "  LVM2_LV_NAME='data'\n"

-- what the parsers answer with nothing
abbrev no_library : Library
no_library = record {
  parse_uint = λ s. none;
  parse_bool = λ s. none;
  atoi = λ s. ok (pos 0);
  base = λ s. s;
  join = λ a b. b;
  parse_uuid = λ s. none;
  sgdisk_found = false;
}

occupied_test : (check_vg_has_logical_volume one_lv "vg" []).0 ≡ done true
unfolding check_vg_has_logical_volume parse_output lookup
occupied_test = refl

remove_test : (remove_volume_group one_pv "vg" []).0 ≡ done tt
unfolding remove_volume_group check_vg_has_logical_volume parse_output remove_checked lookup
    get_physical_volume
remove_test = refl

create_test : (create_volume_group one_pv ("/dev/sdb" ∷ []) "vg" []).0 ≡ done tt
unfolding create_volume_group
create_test = refl

remove_volume_group-occupied_example : runs (remove_volume_group one_lv "vg" []).1 ≡ runs []
remove_volume_group-occupied_example = remove_volume_group-occupied one_lv "vg" [] not_free
  where
    not_free : (check_vg_has_logical_volume one_lv "vg" []).0 ≢ done false
    not_free e = cc (e, occupied_test)

remove_volume_group-done_example :
    ((check_vg_has_logical_volume one_pv "vg" []).0 ≡ done false)
    × ((pvs : Map String) × ((get_physical_volume one_pv "vg"
            (check_vg_has_logical_volume one_pv "vg" []).1).0
          ≡ done pvs)
        × (runs (remove_volume_group one_pv "vg" []).1 ≡ removal one_pv "vg" pvs (runs [])))
remove_volume_group-done_example = remove_volume_group-done one_pv "vg" [] remove_test

shrink_volume_group-free_example :
    let after = runs (shrink_volume_group one_pv "vg" ("/dev/sda" ∷ []) []).1 in
    let reduced = lvm ("vgreduce" ∷ "vg" ∷ "/dev/sda" ∷ []) ∷ runs [] in
    (after ≡ runs [])
    ⊎ (All (IsFoundFree one_pv) ("/dev/sda" ∷ [])
        × ((after ≡ reduced) ⊎ (after ≡ lvm ("pvremove" ∷ "/dev/sda" ∷ []) ∷ reduced)))
shrink_volume_group-free_example = shrink_volume_group-free one_pv "vg" ("/dev/sda" ∷ []) []

create_volume_group-done_example :
    runs (create_volume_group one_pv ("/dev/sdb" ∷ []) "vg" []).1
    ≡ lvm ("vgcreate" ∷ "vg" ∷ "/dev/sdb" ∷ []) ∷ creations ("/dev/sdb" ∷ []) (runs [])
create_volume_group-done_example =
    create_volume_group-done one_pv ("/dev/sdb" ∷ []) "vg" [] create_test

-- a machine with one disk of 3 GiB, in the answers to lsblk and udevadm
abbrev second_word : Call → String
second_word (output (program ∷ word ∷ words)) = word
second_word call = ""

abbrev one_disk : Executor
one_disk calls call = record {
  out =
      if second_word call == "--all"
      then "sda"
      else if second_word call == "/dev/sda"
      then "SIZE=\"3221225472\" TYPE=\"disk\""
      else "";
  failure = none;
}

abbrev reading_sizes : Library
reading_sizes = record no_library {
  parse_uint = λ s. if s == "3221225472" then some 3221225472 else none;
  join = λ a b. "child";
}

abbrev sda : LocalDisk
sda = record (blank "sda" "sgdiskNotFound") { size = 3221225472; type_name = "disk" }

disk_test : (get_available_devices reading_sizes one_disk []).0 ≡ done (("/dev/sda", sda) ∷ [])
unfolding get_available_devices list_devices get_device_properties get_device_properties_from_path
    get_disk_uuid get_udev_info list_devices_child
disk_test = refl

get_available_devices-All_example :
    (ds : List LocalDisk) × ((discover_devices reading_sizes one_disk false []).0 ≡ done ds)
    × All (IsEntryOf ds) (("/dev/sda", sda) ∷ [])
    × All (λ d. IsFit d → has ("/dev/" ++ d.name) (("/dev/sda", sda) ∷ []) ≡ true) ds
get_available_devices-All_example =
    get_available_devices-All reading_sizes one_disk [] (("/dev/sda", sda) ∷ []) disk_test
