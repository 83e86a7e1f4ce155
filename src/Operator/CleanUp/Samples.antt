-- ===== src/Operator/CleanUp/Samples.antt =====
-- The theorem on the clean-up job at a concrete node, and tests.
use nativestor.Prelude.{String, ◌≡◌, refl, List, [], ◌∷◌, ◌++◌, none, some, true, false, All}
use nativestor.Prelude.Maps.{Map, lookup}
use nativestor.Exec.{Executor}
use nativestor.Exec.Steps.{runs}
use nativestor.Sys.Lvm.{lvm, parse_output, remove_checked, check_vg_has_logical_volume}
use nativestor.VolumeGroup.Types.{Disk, DeviceClass}
use nativestor.VolumeGroup.Provision.{Storage}
use nativestor.Operator.CleanUp.{get_vg_info, clean_vgs}
use nativestor.Operator.CleanUp.Removals.{IsRemoval, clean_vgs-IsRemoval}

abbrev disk : String → Disk
disk name = record { name = name; type_name = "disk"; auto = false; path = ""; size = 0 }

abbrev class : DeviceClass
class = record {
  class_name = "ssd";
  vg_name = "vg";
  device = disk "/dev/sda" ∷ disk "/dev/sdb" ∷ [];
  default = true;
  spare_gb = 0;
  stripe = 0;
  stripe_size = "";
}

abbrev storage : Storage
storage = record {
  device_classes = some (
      record { node_name = "n1"; device_classes = class ∷ [] }
      ∷ record { node_name = "n2"; device_classes = [] }
      ∷ []);
  use_all_devices = false;
  devices = none;
  volume_group_name = "";
  class_name = "";
  use_loop = false;
}

-- The group has the one physical volume /dev/sda and no logical volume.
abbrev machine : Executor
machine calls call = record { out = "  LVM2_PV_NAME='/dev/sda'\n"; failure = none }

abbrev groups : Map String
groups = ("vg", "vg") ∷ []

abbrev devices : Map String
devices = ("/dev/sda", "/dev/sda") ∷ ("/dev/sdb", "/dev/sdb") ∷ []

info_test : get_vg_info storage "n1" ≡ (groups, devices)
unfolding get_vg_info
info_test = refl

-- The device that is in no group is cleaned by itself.
clean_test :
    runs (clean_vgs machine groups devices []).1
    ≡ lvm ("pvremove" ∷ "/dev/sdb" ∷ [])
      ∷ lvm ("pvremove" ∷ "/dev/sda" ∷ [])
      ∷ lvm ("vgremove" ∷ "vg" ∷ [])
      ∷ []
unfolding clean_vgs parse_output check_vg_has_logical_volume remove_checked lookup
clean_test = refl

clean_vgs-IsRemoval_example :
    (made : List (List String)) × (runs (clean_vgs machine groups devices []).1 ≡ made ++ [])
    × All (IsRemoval machine groups devices) made
clean_vgs-IsRemoval_example = clean_vgs-IsRemoval machine groups devices []
