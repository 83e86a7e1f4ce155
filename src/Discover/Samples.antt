-- ===== src/Discover/Samples.antt =====
-- The theorems on the discover daemon at concrete devices, classes and events.
use nativestor.Prelude.{
  String, ◌==◌, ◌≡◌, refl, Bool, true, false, select, List, [], ◌∷◌, Option, none, some, ◌≢◌,
  ne_of_==, eq_iff,
}
use nativestor.Prelude.Int.{pos}
use nativestor.Errors.{Error, Result, ok, err, api, plain, already_exists, conflict, ErrorTests}
use nativestor.Csi.Device.{RawDevice, matches}
use nativestor.Discover.Publish.{DaemonApi, Daemon, publish}
use nativestor.Discover.Publish.Store.{IsStore, holder, without, Unique}
use nativestor.Discover.Publish.Held.{publish-Holds}
use nativestor.Exec.{Executor, done}
use nativestor.Sys.Device.{Library}
use nativestor.Sys.Lvm.{get_physical_volume, parse_output}
use nativestor.VolumeGroup.Types.{
  ClassState, NodeStorageState, class_ready, class_un_ready, device_offline,
}
use nativestor.VolumeGroup.Lvmd.{ConfigMap, Codec, put, vg_status_config_map_key}
use nativestor.Prelude.Maps.{lookup, insert}
use nativestor.Discover.Classes.{judge_class, judge_each, check_device_class}
use nativestor.Discover.Classes.Accurate.{AreAccurate, check_device_class-AreAccurate}
use nativestor.Discover.Udev.{parses, match_udev_event, match_udev_event-any}

abbrev device : String → String → RawDevice
device name volume = record {
  name = name;
  labels = ("node", "n1") ∷ [];
  spec = record {
    node_name = "n1";
    size = pos 1;
    type = "disk";
    real_path = name;
    major = 8;
    minor = 0;
    uuid = "";
    available = true;
  };
  status = record { name = volume };
}

-- A server with a device that a volume holds and, while the state is true, one that none holds. Of its
-- writes only the deletion of the latter succeeds.
abbrev stock : Bool → List RawDevice
stock true = device "held" "v" ∷ device "free" "" ∷ []
stock false = device "held" "v" ∷ []

abbrev delete_free : Bool → Bool → Option Error × Bool
delete_free true true = (none, false)
delete_free _ w = (some (api conflict ""), w)

abbrev refused : {A : Type 0} → Bool → Result A × Bool
refused w = (err (api already_exists ""), w)

abbrev server : DaemonApi Bool
server = record {
  list = λ s w. ok (select (matches s) (stock w));
  create = λ d w. refused w;
  get = λ n w. err (api conflict "");
  update = λ d w. refused w;
  delete = λ n w. delete_free (n == "free") w;
  get_config_map = λ n w. err (api conflict "");
  create_config_map = λ c w. (some (api conflict ""), w);
  patch_config_map = λ c d w. (some (api conflict ""), w);
}

ok-injective {ℓ} : {A : Type ℓ} {a b : A} → ok a ≡ ok b → b ≡ a
ok-injective h = cc

never {ℓ κ} : {A : Type ℓ} {P : Type κ} {a : A} {e : Error} → err e ≡ ok a → P
never h = cc

deleted :
    (n : String) (w : Bool)
    → (server.delete n w).0 ≡ none
    → stock (server.delete n w).1 ≡ without n (stock w)
unfolding without
deleted n true h = by_test (n == "free") refl h
  where
    by_test :
        (b : Bool)
        → (n == "free") ≡ b
        → (delete_free b true).0 ≡ none
        → stock (delete_free b true).1 ≡ without n (stock true)
    by_test true e h = rw ((eq_iff n "free").0 e) refl
    by_test false e h = cc
deleted n false h = never_deleted (n == "free") h
  where
    never_deleted :
        (b : Bool)
        → (delete_free b false).0 ≡ none
        → stock (delete_free b false).1 ≡ without n (stock false)
    never_deleted true h = cc
    never_deleted false h = cc

undeleted :
    (n : String) (w : Bool) (e : Error)
    → (server.delete n w).0 ≡ some e
    → stock (server.delete n w).1 ≡ stock w
undeleted n w e h = by_test (n == "free") w h
  where
    by_test : (b w : Bool) → (delete_free b w).0 ≡ some e → stock (delete_free b w).1 ≡ stock w
    by_test true true h = cc
    by_test true false h = refl
    by_test false true h = refl
    by_test false false h = refl

unique : (w : Bool) → Unique (stock w)
unique true = ((refl, tt), (tt, tt))
unique false = (tt, tt)

abbrev store : IsStore server
store = record {
  devices = stock;
  unique = unique;
  listed = λ s w ds h. ok-injective h;
  created = λ d d' w h. never h;
  uncreated = λ d w e h. refl;
  updated = λ d d' w h. never h;
  unchanged = λ d w e h. refl;
  deleted = deleted;
  undeleted = undeleted;
}

abbrev tests : ErrorTests
tests = record { is_status = λ e. false; is_not_found = λ e. false; is_already_exists = λ e. true }

abbrev daemon : Daemon
daemon = record {
  node_name = "n1";
  namespace = "ns";
  cm_name = "cm";
  hash = λ s. s;
  marshal = λ ds. ok "";
}

held : ◌≢◌ {A = String} "v" ""
held = ne_of_== "v" "" refl

is_held : holder "held" (stock true) ≡ "v"
unfolding holder
is_held = refl

publish-Holds_example : holder "held" (stock (publish server tests daemon [] true).1) ≡ "v"
publish-Holds_example = publish-Holds server tests store "held" "v" held daemon [] true is_held

abbrev class : String → String → ClassState
class state device_state = record {
  name = "ssd";
  vg_name = "vg";
  state = state;
  message = "";
  device_states =
      record { name = "/dev/sda"; state = "online"; message = "" }
      ∷ record { name = "/dev/sdb"; state = device_state; message = "" }
      ∷ [];
}

abbrev status : ClassState → NodeStorageState
status ele = record {
  node = "n1";
  phase = "";
  fail_classes = [];
  success_classes = ele ∷ [];
  loops = [];
}

-- The status "up" is that of a class that is ready. Any status is written as "down".
abbrev codec : Codec
codec = record {
  marshal_status = λ state. ok "down";
  unmarshal_status = λ s. ok (status (class class_ready "online"));
  marshal_conf = λ conf. err (plain "unsupported");
  unmarshal_conf = λ s. err (plain "unsupported");
  marshal_class = λ c. err (plain "unsupported");
  unmarshal_class = λ s. err (plain "unsupported");
}

abbrev config_map : String → ConfigMap
config_map value = record {
  name = "cm";
  namespace = "ns";
  labels = [];
  annotations = [];
  contents = (vg_status_config_map_key, value) ∷ [];
}

-- The volume group has lost its second device.
abbrev one_left : Executor
one_left calls call = record { out = "  LVM2_PV_NAME='/dev/sda'\n"; failure = none }

abbrev library : Library
library = record {
  parse_uint = λ s. none;
  parse_bool = λ s. none;
  atoi = λ s. ok (pos 0);
  base = λ s. s;
  join = λ a b. b;
  parse_uuid = λ s. none;
  sgdisk_found = false;
}

lost_test :
    (check_device_class library one_left codec (ok (config_map "up")) []).0
    ≡ done (some (config_map "up", config_map "down"))
unfolding check_device_class judge_each judge_class get_physical_volume parse_output lookup insert
lost_test = refl

-- what the class is written with
judged_test :
    (judge_each library one_left (class class_ready "online" ∷ []) []).0
    ≡ done (class class_un_ready device_offline ∷ [])
unfolding judge_each judge_class get_physical_volume parse_output lookup
judged_test = refl

check_device_class-AreAccurate_example :
    (config_map "up" ≡ config_map "up")
    × ((state : NodeStorageState) × (classes : List ClassState) × (value : String) × (◌≡◌
          {A = Result NodeStorageState}
          (ok (status (class class_ready "online")))
          (ok state))
        × AreAccurate library one_left [] state.success_classes classes
        × (◌≡◌ {A = Result String} (ok "down") (ok value))
        × (config_map "down" ≡ put vg_status_config_map_key value (config_map "up")))
check_device_class-AreAccurate_example =
    check_device_class-AreAccurate library one_left codec (config_map "up") (config_map "up")
      (config_map "down") [] lost_test

match_udev_event-any_example :
    match_udev_event (parses (λ p s. p == s)) "add" ("remove" ∷ "add" ∷ []) ("dm-" ∷ []) ≡ ok true
match_udev_event-any_example =
    match_udev_event-any (λ p s. p == s) "add" ("remove" ∷ "add" ∷ []) ("dm-" ∷ [])
