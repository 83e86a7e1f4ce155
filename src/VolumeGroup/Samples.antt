-- ===== src/VolumeGroup/Samples.antt =====
-- The theorems on the job at a concrete node, and tests.
mod Fake
use nativestor.Prelude.{
  String, ◌==◌, eqb, ◌&&◌, ◌≡◌, ◌≢◌, refl, ap, List, [], ◌∷◌, ◌++◌, none, some, Bool, true, false,
  All, arith, eq_iff, if◌then◌else◌,
}
use nativestor.Prelude.Int.{pos}
use nativestor.Prelude.Maps.{Map, lookup, keys, erase, is_some}
use nativestor.Errors.{Result, ok, err, plain, ErrorTests}
use nativestor.Exec.{Call, Executor, done}
use nativestor.Exec.Steps.{runs}
use nativestor.Exec.Posts.{Yields}
use nativestor.Exec.Results.{Delivers}
use nativestor.Sys.Device.{Library}
use nativestor.Sys.LocalDisk.{LocalDisk, blank}
use nativestor.Sys.Lvm.{
  get_physical_volume, get_volume_groups, remove_volume_group, create_volume_group, create_each,
  check_vg_has_logical_volume, parse_output, remove_checked,
}
use nativestor.VolumeGroup.Types.{
  Disk, DeviceClass, NodeDevices, LoopState, ClassState, Classes, resolve,
}
use nativestor.VolumeGroup.Create.{Created, create_vg}
use nativestor.VolumeGroup.Create.Ready.{IsReported, create_vg-IsReported}
use nativestor.VolumeGroup.Resize.{check_vg_if_shrink}
use nativestor.VolumeGroup.Resize.Shrink.{names_pv, IsTakenAway, check_vg_if_shrink-names}
use nativestor.VolumeGroup.Loops.{LoopTable, check_loop_device}
use nativestor.VolumeGroup.Loops.Recorded.{IsSuccessful, check_loop_device-AllSuccessful}
use nativestor.VolumeGroup.Lvmd.{
  LvmdClass, LmvdConf, ConfigMap, Codec, IsFaithful, update_lvmd_conf,
}
use nativestor.VolumeGroup.Lvmd.Listed.{IsUpdated, update_lvmd_conf-IsUpdated}
use nativestor.VolumeGroup.Plan.{settle}
use nativestor.VolumeGroup.Plan.Careful.{IsNewCreation}
use nativestor.VolumeGroup.Plan.Disjoint.{IsDisjoint, IsSettled, settle-IsSettled}
use nativestor.VolumeGroup.Provision.{Outside, provision_first}
use nativestor.VolumeGroup.Provision.Written.{provision_first-creates_only}
use Fake.{codec, faithful}

-- a machine whose queries all list one physical volume, and whose commands succeed
abbrev machine : Executor
machine calls call = record { out = "  LVM2_PV_NAME='/dev/loop0'\n"; failure = none }

abbrev disk : Disk
disk = record { name = "/dev/sdb"; type_name = "disk"; auto = false; path = ""; size = 0 }

abbrev auto_loop : Disk
auto_loop = record { name = "a"; type_name = "loop"; auto = true; path = "/data"; size = 4 }

abbrev class : String → Disk → DeviceClass
class name d = record {
  class_name = name;
  vg_name = name;
  device = d ∷ [];
  default = true;
  spare_gb = 0;
  stripe = 0;
  stripe_size = "";
}

abbrev node : NodeDevices
node = record { node_name = "n1"; device_classes = class "ssd" disk ∷ [] }

abbrev disks : Map LocalDisk
disks = ("/dev/sdb", blank "sdb" "") ∷ []

abbrev loop_state : String → LoopState
loop_state status = record {
  name = "a";
  file = "/data/f";
  device_name = "/dev/loop0";
  status = status;
  message = "";
}

abbrev table : LoopTable
table = record { loops = loop_state "successful" ∷ []; loop_map = [] }

abbrev ready : String → ClassState
ready name = record {
  name = name;
  vg_name = name;
  state = "Ready";
  message = "";
  device_states = [];
}

abbrev none_yet : Classes
none_yet = record { suc_class = []; fail_class = [] }

abbrev before : Classes
before = record { suc_class = ("old", ready "old") ∷ []; fail_class = ("ssd", ready "ssd") ∷ [] }

abbrev tests : ErrorTests
tests = record { is_status = λ e. false; is_not_found = λ e. true; is_already_exists = λ e. false }

abbrev no_library : Library
no_library = record {
  parse_uint = λ s. none;
  parse_bool = λ s. none;
  atoi = λ s. ok (pos 0);
  base = λ s. s;
  join = λ a b. b;
  parse_uuid = λ s. none;
  sgdisk_found = false;
}

abbrev outside : Outside
outside = record {
  get_config_map = λ calls name. err (plain "none");
  send = λ calls w. none;
  codec = codec;
  tests = tests;
  library = no_library;
  hash = λ s. s;
  fresh = λ calls. "f";
  itoa = λ n. "4";
}

abbrev config : ConfigMap
config = record {
  name = "lvmdconfig-n1";
  namespace = "ns";
  labels = [];
  annotations = [];
  contents = ("lvmd.yaml", "ssd") ∷ [];
}

-- A class whose disk is available is created, and reported ready.
create_test :
    (calls : List Call) × ((create_vg machine [] disks (class "hdd" disk) none_yet []).0
      ≡ done (record {
        suc = true;
        class = class "hdd" disk;
        classes = record {
          suc_class =
              (
                "hdd",
                record {
                  name = "hdd";
                  vg_name = "hdd";
                  state = "Ready";
                  message = "create successful";
                  device_states = record { name = "/dev/sdb"; state = "Online"; message = "" } ∷ [];
                },
              )
              ∷ [];
          fail_class = [];
        };
      }))
unfolding create_vg create_volume_group create_each resolve
create_test = ([], refl)

-- The loop that the job made for the class is no physical volume under the name that the spec has for
-- it, so the next run takes the group away.
shrink_test :
    (check_vg_if_shrink machine "ssd" (auto_loop ∷ []) (("ssd", ready "ssd") ∷ []) []).0
    ≡ done ([], none)
unfolding check_vg_if_shrink get_physical_volume remove_volume_group check_vg_has_logical_volume
    parse_output remove_checked lookup
shrink_test = refl

disjoint : IsDisjoint before
unfolding lookup
disjoint key h = by_test ("old" == key) refl h
  where
    by_test :
        (b : Bool)
        → ("old" == key) ≡ b
        → is_some (if b then some (ready "old") else none) ≡ true
        → is_some (if "ssd" == key then some (ready "ssd") else none) ≡ false
    by_test true same e = rw (← (eq_iff "old" key).0 same) refl
    by_test false same e = cc

provision_first-creates_only_example :
    (made : List (List String)) × (runs
        (provision_first machine outside "n1" "ns" node table disks none []).1
      ≡ made ++ runs [])
    × All
        (λ args.
          (vgs : Map String) × ((get_volume_groups machine []).0 ≡ done vgs)
          × IsNewCreation machine table.loop_map disks vgs node.device_classes args)
        made
provision_first-creates_only_example =
    provision_first-creates_only machine outside "n1" "ns" node table disks none []

settle-IsSettled_example :
    Yields
      (IsSettled machine [] disks node.device_classes)
      (settle machine [] disks node.device_classes before)
settle-IsSettled_example = settle-IsSettled machine [] disks node.device_classes before disjoint

create_vg-IsReported_example :
    (made : Created) × ((create_vg machine [] disks (class "hdd" disk) none_yet []).0 ≡ done made)
    × IsReported machine [] disks (class "hdd" disk) none_yet [] made
create_vg-IsReported_example = create_vg-IsReported machine [] disks (class "hdd" disk) none_yet []

abbrev updated : ConfigMap
updated = record config { contents = ("lvmd.yaml", "ssd") ∷ [] }

update_test :
    update_lvmd_conf codec (class "ssd" disk ∷ []) [] (("ssd", ready "ssd") ∷ []) config
    ≡ ok updated
unfolding update_lvmd_conf
update_test = refl

update_lvmd_conf-IsUpdated_example : IsUpdated codec faithful [] (("ssd", ready "ssd") ∷ []) updated
unfolding lookup
update_lvmd_conf-IsUpdated_example =
    update_lvmd_conf-IsUpdated codec faithful (class "ssd" disk ∷ []) [] (("ssd", ready "ssd") ∷ [])
      config updated "ssd" refl update_test

check_loop_device-AllSuccessful_example :
    Delivers
      (λ t. All IsSuccessful t.loops)
      (check_loop_device machine outside.itoa outside.fresh (auto_loop ∷ []) table)
check_loop_device-AllSuccessful_example =
    check_loop_device-AllSuccessful machine outside.itoa outside.fresh (auto_loop ∷ []) table
      (refl, tt)

abbrev loop_pvs : Map String
loop_pvs = ("/dev/loop0", "/dev/loop0") ∷ []

listed : (get_physical_volume machine "ssd" []).0 ≡ done loop_pvs
unfolding get_physical_volume parse_output lookup
listed = refl

check_vg_if_shrink-names_example :
    (All (λ pv. names_pv (auto_loop ∷ []) pv ≡ true) (keys loop_pvs)
      → ((check_vg_if_shrink machine "ssd" (auto_loop ∷ []) (("ssd", ready "ssd") ∷ []) []).0
          ≡ done ((("ssd", ready "ssd") ∷ []), none))
        × (runs (check_vg_if_shrink machine "ssd" (auto_loop ∷ []) (("ssd", ready "ssd") ∷ []) []).1
            ≡ runs []))
    × (keys loop_pvs ≢ []
        → All (λ pv. names_pv (auto_loop ∷ []) pv ≡ false) (keys loop_pvs)
        → (remove_volume_group machine "ssd" (get_physical_volume machine "ssd" []).1).0 ≡ done tt
        → ((check_vg_if_shrink machine "ssd" (auto_loop ∷ []) (("ssd", ready "ssd") ∷ []) []).0
            ≡ done (erase "ssd" (("ssd", ready "ssd") ∷ []), none))
          × IsTakenAway machine "ssd"
              (auto_loop ∷ [])
              (("ssd", ready "ssd") ∷ [])
              loop_pvs
              []
              listed
              (check_vg_if_shrink machine "ssd" (auto_loop ∷ []) (("ssd", ready "ssd") ∷ []) []).1)
check_vg_if_shrink-names_example =
    check_vg_if_shrink-names machine "ssd" (auto_loop ∷ []) (("ssd", ready "ssd") ∷ []) loop_pvs []
      listed
