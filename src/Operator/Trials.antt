-- ===== src/Operator/Trials.antt =====
-- The theorems on the controllers at a concrete server, and tests.
use nativestor.Prelude.{
  ℕ, String, ◌≡◌, ◌≢◌, ◌↔◌, ◌<◌, refl, List, [], ◌∷◌, ◌++◌, length, none, some, true, false,
}
use nativestor.Errors.{ok, err, plain, api, missing, ErrorTests}
use nativestor.Api.{ignore}
use nativestor.VolumeGroup.Types.{NodeStorageState}
use nativestor.VolumeGroup.Lvmd.{ConfigMap, Codec}
use nativestor.VolumeGroup.Provision.{Storage}
use nativestor.Operator.Types.{ClusterSpec, Cluster}
use nativestor.Operator.Finalizer.{remove}
use nativestor.Operator.Finalizer.Removed.{remove-once}
use nativestor.Operator.Requests.{Server, is_monitoring, put_status}
use nativestor.Operator.Requests.Trace.{Occurs}
use nativestor.Operator.Jobs.{Setting}
use nativestor.Operator.Controller.{Config, verify_topolvm_cluster, check_storage_config}
use nativestor.Operator.Controller.Accepted.{
  IsSound, check_storage_config-accepts, NamesOldest, verify_topolvm_cluster-NamesOldest,
}
use nativestor.Operator.Reconcile.{reconcile_delete, reconcile}
use nativestor.Operator.Reconcile.Monitored.{InStep, started, reconciled, History-InStep}
use nativestor.Operator.Reconcile.Deleted.{Cleaned, reconcile_delete-Cleaned}
use nativestor.Operator.LvmdConfig.{LvmdSetting, update_node_status}
use nativestor.Operator.LvmdConfig.Entries.{view, put, with_entry, update_node_status-put}

abbrev storage : Storage
storage = record {
  device_classes = none;
  use_all_devices = true;
  devices = none;
  volume_group_name = "vg";
  class_name = "ssd";
  use_loop = false;
}

abbrev spec : ClusterSpec
spec = record {
  topolvm_version = "";
  certs_secret = "";
  storage = storage;
  use_all_nodes = true;
  clean_up = false;
}

abbrev entry : String → String → NodeStorageState
entry node phase = record {
  node = node;
  phase = phase;
  fail_classes = [];
  success_classes = [];
  loops = [];
}

abbrev cluster : String → ℕ → Cluster
cluster name created = record {
  name = name;
  namespace = "ns";
  created = created;
  deleted = false;
  finalizers = "topolvmcluster.topolvm.cybozu.com" ∷ [];
  spec = spec;
  status = record { phase = ""; node_storage_status = entry "n1" "Ready" ∷ [] };
}

abbrev cm : ConfigMap
cm = record {
  name = "lvmdconfig-n1";
  namespace = "ns";
  labels = [];
  annotations = [];
  contents = ("lvmd.yaml", "x") ∷ ("status.json", "y") ∷ [];
}

-- A server that has two clusters, one node and one config map, and accepts every write.
abbrev server : Server
server = record {
  clusters = λ log. ok (some (cluster "b" 2 ∷ cluster "a" 1 ∷ []));
  cluster = λ log name. ok (cluster "a" 1);
  nodes = λ log. ok (record { name = "n1"; annotations = [] } ∷ []);
  config_maps = λ log. ok (cm ∷ []);
  job = λ log name. err (api missing "");
  version = λ log. ok ("1", "23");
  pods = λ log label. ok [];
  settings = λ log. err (api missing "");
  accepts = λ log event. none;
}

abbrev tests : ErrorTests
tests = record {
  is_status = λ e. false;
  is_not_found = λ e. elim e [ api r s ↦ true | _ ↦ false ];
  is_already_exists = λ e. false;
}

abbrev setting : Setting
setting = record { hash = λ s. s; image = "image"; poll = λ m. ignore m }

abbrev config : Config
config = record {
  operator_namespace = "ns";
  is_operator_hub = false;
  equal_storage = λ a b. true;
  owner_reference = λ c. ok (some "uid");
  kind = "TopolvmCluster";
}

abbrev codec : Codec
codec = record {
  marshal_status = λ s. ok "";
  unmarshal_status = λ s. err (plain "");
  marshal_conf = λ c. ok "";
  unmarshal_conf = λ s. err (plain "");
  marshal_class = λ c. ok "";
  unmarshal_class = λ s. err (plain "");
}

abbrev lvmd : LvmdSetting
lvmd = record {
  cluster_name = "a";
  codec = codec;
  tests = tests;
  conflicts = record { is_conflict = λ e. false; is_invalid = λ e. false };
  deployment_name = λ n. n;
  config_map_name = λ n. n;
  lookup_env = λ n. none;
  annotate = λ d. ok d;
  template = λ m. none;
}

check_storage_config-accepts_example : (check_storage_config spec ≡ ok tt) ↔ IsSound spec
check_storage_config-accepts_example = check_storage_config-accepts spec

accepted : (verify_topolvm_cluster server tests setting config "ns" "a" []).0 ≡ ok tt
unfolding verify_topolvm_cluster
accepted = refl

refused : (verify_topolvm_cluster server tests setting config "ns" "b" []).0 ≢ ok tt
unfolding verify_topolvm_cluster
refused = λ h. cc

verify_topolvm_cluster-NamesOldest_example :
    ("ns" ≡ config.operator_namespace)
    × ((cs : List Cluster) × (server.clusters [] ≡ ok (some cs))
        × (1 < length cs → NamesOldest "a" cs))
verify_topolvm_cluster-NamesOldest_example =
    verify_topolvm_cluster-NamesOldest server tests setting config "ns" "a" [] accepted

-- A reconciliation that starts the monitor.
monitored : is_monitoring (reconcile server tests setting config "ns" "a" []).1 ≡ true
unfolding reconcile
monitored = refl

History-InStep_example : InStep (reconcile server tests setting config "ns" "a" []).1
History-InStep_example =
    History-InStep server tests setting config (λ R t test h log. h log) lvmd
      (reconciled started "ns" "a" refl)

cleaned : (reconcile_delete server tests setting config (cluster "a" 1) []).0 ≡ ok (some tt)
unfolding reconcile_delete
cleaned = refl

reconcile_delete-Cleaned_example :
    Cleaned server tests (reconcile_delete server tests setting config (cluster "a" 1) []).1
reconcile_delete-Cleaned_example =
    reconcile_delete-Cleaned server tests setting config (λ R t test h log. h log) (cluster "a" 1)
      [] (some tt) cleaned

update_node_status-put_example :
    Occurs
      (put_status (with_entry server setting lvmd (entry "n1" "Unknown") (cluster "a" 1) []))
      (update_node_status server setting lvmd (entry "n1" "Unknown") []).1
    × ((with_entry server setting lvmd (entry "n1" "Unknown") (cluster "a" 1) []).status.phase
        ≡ (cluster "a" 1).status.phase)
    × (view
          (with_entry server setting lvmd
            (entry "n1" "Unknown")
            (cluster "a" 1)
            []).status.node_storage_status
        ≡ put (entry "n1" "Unknown") (view (cluster "a" 1).status.node_storage_status))
update_node_status-put_example =
    update_node_status-put server setting lvmd (entry "n1" "Unknown") (cluster "a" 1) [] refl

-- `remove` takes a finalizer out, and panics on one that stands before itself at the end.
removed_twice : remove ("a" ∷ "a" ∷ []) "a" ≡ none
unfolding remove
removed_twice = refl

remove-once_example : remove (("b" ∷ []) ++ "a" ∷ "c" ∷ []) "a" ≡ some (("b" ∷ []) ++ "c" ∷ [])
remove-once_example = remove-once "a" ("b" ∷ []) ("c" ∷ []) (refl, tt) (refl, tt)
