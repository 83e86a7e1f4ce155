-- ===== src/Operator/Samples.antt =====
-- The theorems on the operator at a concrete cluster, and tests.
use nativestor.Prelude.{ℕ, String, ◌≡◌, refl, List, [], ◌∷◌, none, some, Bool, true, false, All}
use nativestor.Errors.{ok, err, plain}
use nativestor.VolumeGroup.Types.{ClassState, NodeStorageState}
use nativestor.VolumeGroup.Provision.{Storage}
use nativestor.Operator.Types.{
  ClusterSpec, ClusterStatus, Cluster, Metrics, running, condition_ready, condition_unknown,
}
use nativestor.Operator.Monitor.{Answers, update, watched_nodes, check_status}
use nativestor.Operator.Monitor.Judged.{Backed, Truthful}
use nativestor.Operator.Monitor.Kept.{named, Extends}
use nativestor.Operator.Monitor.Status.{
  check_status-Honest, check_status-Extends, check_status-ready_unserved,
}

abbrev storage : Storage
storage = record {
  device_classes = some (record { node_name = "n1"; device_classes = [] } ∷ []);
  use_all_devices = false;
  devices = none;
  volume_group_name = "";
  class_name = "";
  use_loop = false;
}

abbrev spec : ClusterSpec
spec = record {
  topolvm_version = "";
  certs_secret = "";
  storage = storage;
  use_all_nodes = false;
  clean_up = false;
}

abbrev entry : String → String → List ClassState → NodeStorageState
entry node phase classes = record {
  node = node;
  phase = phase;
  fail_classes = [];
  success_classes = classes;
  loops = [];
}

abbrev cluster : String → List NodeStorageState → Cluster
cluster phase entries = record {
  name = "c";
  namespace = "ns";
  created = 0;
  deleted = false;
  finalizers = [];
  spec = spec;
  status = record { phase = phase; node_storage_status = entries };
}

abbrev ready_class : ClassState
ready_class = record {
  name = "ssd";
  vg_name = "vg";
  state = "Ready";
  message = "";
  device_states = [];
}

abbrev answers : List NodeStorageState → Answers
answers entries = record {
  pods = ok (record { node_name = "n1"; phase = running; ready = true ∷ [] } ∷ []);
  cluster = ok (cluster "" entries);
  config_maps = err (plain "");
  node = λ name. err (plain "");
}

abbrev never_equal : ClusterStatus → ClusterStatus → Bool
never_equal a b = false

abbrev metrics : ℕ → ℕ → Metrics
metrics code own = record {
  cluster = "c";
  cluster_status = code;
  node_status = record { node = "n1"; status = own } ∷ [];
}

-- A node with a class that is ready.
abbrev served : List NodeStorageState
served = entry "n1" "" (ready_class ∷ []) ∷ []

served_update :
    check_status never_equal (answers served)
    ≡ update (metrics 0 0) (cluster "Ready" (entry "n1" "Ready" (ready_class ∷ []) ∷ []))
unfolding check_status
served_update = refl

-- A node with none.
unserved_update :
    check_status never_equal (answers [])
    ≡ update (metrics 0 1) (cluster "Ready" (entry "n1" "Unknown" [] ∷ []))
unfolding check_status
unserved_update = refl

check_status-Honest_example :
    All Backed (entry "n1" "Ready" (ready_class ∷ []) ∷ [])
    × All
        (λ n. All (Truthful n) (metrics 0 0).node_status)
        (entry "n1" "Ready" (ready_class ∷ []) ∷ [])
check_status-Honest_example = check_status-Honest never_equal (answers served) served_update

check_status-Extends_example :
    Extends served (entry "n1" "Ready" (ready_class ∷ []) ∷ [])
    × All
        (λ node. named node (entry "n1" "Ready" (ready_class ∷ []) ∷ []) ≡ true)
        (watched_nodes (answers served).config_maps (cluster "" served))
check_status-Extends_example =
    check_status-Extends never_equal (answers served) served_update (cluster "" served) refl

-- The node is Unknown, and the cluster is Ready.
check_status-ready_unserved_example :
    All (λ n. n.phase ≡ condition_unknown) (entry "n1" "Unknown" [] ∷ [])
    × ((cluster "Ready" (entry "n1" "Unknown" [] ∷ [])).status.phase ≡ condition_ready)
    × ((metrics 0 1).cluster_status ≡ 0)
unfolding check_status
check_status-ready_unserved_example =
    check_status-ready_unserved never_equal (answers []) unserved_update (cluster "" []) refl
      (refl, tt) refl
