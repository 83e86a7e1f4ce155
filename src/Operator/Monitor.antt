-- ===== src/Operator/Monitor.antt =====
-- checkStatus of pkg/operator/topolvm/monitor/status.go, which the operator runs at an interval. The
-- map of the nodes' reports is ranged over in the order in which its entries were made. A typed list
-- of client-go that fails is empty; the log is left out.
pub mod Judged
pub mod Merged
pub mod Kept
pub mod Reported
pub mod Status
use nativestor.Prelude.{
  ℕ, ◌+◌, String, ◌==◌, ◌&&◌, ◌||◌, Bool, true, false, not, any, all, List, [], ◌∷◌, ◌++◌, map, ◌≡◌,
  Option, none, some, if◌then◌else◌,
}
use nativestor.Prelude.Maps.{Map, lookup, insert, get_or}
use nativestor.Errors.{Error, Result, ok, err}
use nativestor.VolumeGroup.Types.{NodeDevices, ClassState, NodeStorageState, class_ready}
use nativestor.VolumeGroup.Lvmd.{ConfigMap}
use nativestor.Operator.Types.{
  Cluster, ClusterStatus, NodeStatusMetrics, Metrics, Pod, PodPhase, running, succeeded, failed,
  pending, unknown, NodeCondition, condition_ready, condition_failure, condition_unknown,
  condition_pending,
}

-- What the API server answers to a check.
pub record Answers : Type 0 where
  pub pods : Result (List Pod)
  pub cluster : Result Cluster
  pub config_maps : Result (List ConfigMap)
  pub node : String → Result (List NodeCondition)

-- what the check sends: nothing, or the metrics and the cluster with its new status
pub data Report : Type 0 where
  nothing : Report
  update : Metrics → Cluster → Report

abbrev pub items {ℓ} : {A : Type ℓ} → Result (List A) → List A
items (ok xs) = xs
items (err e) = []

abbrev pub new_state : String → String → NodeStorageState
new_state node phase = record {
  node = node;
  phase = phase;
  fail_classes = [];
  success_classes = [];
  loops = [];
}

-- the nodes to report: those of the config maps, or those that the spec names
abbrev nodes_of_spec : Option (List NodeDevices) → List String
nodes_of_spec none = []
nodes_of_spec (some classes) = map (λ (d : NodeDevices). d.node_name) classes

abbrev node_of_config_map : ConfigMap → String
node_of_config_map cm = get_or "" "node-name" cm.annotations

unfoldable pub watched_nodes : Result (List ConfigMap) → Cluster → List String
unfolding lookup
watched_nodes cms cluster =
    if cluster.spec.use_all_nodes
    then map node_of_config_map (items cms)
    else nodes_of_spec cluster.spec.storage.device_classes

-- the phase and the metric that a pod gives to its node
abbrev phase_of : PodPhase → String × ℕ
phase_of running = (condition_ready, 0)
phase_of unknown = (condition_unknown, 1)
phase_of failed = (condition_failure, 1)
phase_of pending = (condition_pending, 1)
phase_of succeeded = (condition_unknown, 1)

unfoldable pub report_pod : Pod → String × ℕ
report_pod pod = if all (λ b. b) pod.ready then phase_of pod.phase else (condition_unknown, 1)

-- the loop's state: the nodes' reports by name, and the metrics
abbrev pub Reports : Type 0
Reports = Map NodeStorageState × List NodeStatusMetrics

abbrev record_node : String → String × ℕ → Reports → Reports
record_node node (phase, status) (states, metrics) = (
  insert node (new_state node phase) states,
  metrics ++ record { node = node; status = status } ∷ [],
)

-- the pods of one node; the last one decides on its state
unfoldable pub visit_pods : String → List Pod → Reports → Reports
unfolding report_pod insert
visit_pods node [] r = r
visit_pods node (pod ∷ pods) r =
    visit_pods node pods (if pod.node_name == node then record_node node (report_pod pod) r else r)

unfoldable pub visit_node : List Pod → String → Reports → Reports
unfolding visit_pods insert
visit_node pods node r =
    if any (λ (p : Pod). p.node_name == node) pods
    then visit_pods node pods r
    else record_node node (condition_unknown, 1) r

unfoldable pub visit_nodes : List Pod → List String → Reports → Reports
unfolding visit_node
visit_nodes pods [] r = r
visit_nodes pods (node ∷ nodes) r = visit_nodes pods nodes (visit_node pods node r)

-- the nodes whose kubelet does not report
abbrev pub is_lost : List NodeCondition → Bool
is_lost = any (λ (c : NodeCondition). (c.type_name == "Ready") && (c.status == "Unknown"))

abbrev pub fail_metric : String → NodeStatusMetrics → NodeStatusMetrics
fail_metric node m = if m.node == node then record m { status = 1 } else m

abbrev pub fail_metrics : Bool → String → List NodeStatusMetrics → List NodeStatusMetrics
fail_metrics lost node metrics = if lost then map (fail_metric node) metrics else metrics

abbrev pub set_lost : Bool → NodeStorageState → NodeStorageState
set_lost lost state = if lost then record state { phase = condition_unknown } else state

unfoldable pub visit_conditions :
    (String → Result (List NodeCondition)) → Map NodeStorageState → List NodeStatusMetrics → Reports
visit_conditions node [] metrics = ([], metrics)
visit_conditions node ((key, state) ∷ states) metrics =
    let lost = is_lost (items (node key)) in
    let (states', metrics') = visit_conditions node states (fail_metrics lost key metrics) in
    ((key, set_lost lost state) ∷ states', metrics')

-- the phases of the reports go into the cluster's status, and new nodes at its end
abbrev pub set_phase : String → String → NodeStorageState → NodeStorageState
set_phase key phase item = if item.node == key then record item { phase = phase } else item

unfoldable pub merge_one : String → NodeStorageState → List NodeStorageState → List NodeStorageState
merge_one key val status =
    if any (λ (item : NodeStorageState). item.node == key) status
    then map (set_phase key val.phase) status
    else status ++ val ∷ []

unfoldable pub merge : Map NodeStorageState → List NodeStorageState → List NodeStorageState
unfolding merge_one
merge [] status = status
merge ((key, val) ∷ states) status = merge states (merge_one key val status)

-- whether the node has a class that is ready
abbrev pub serves : NodeStorageState → Bool
serves n = any (λ (c : ClassState). c.state == class_ready) n.success_classes

abbrev pub settle : NodeStorageState → NodeStorageState
settle n = if serves n then n else record n { phase = condition_unknown }

-- The last loop; `n.Phase` that it reads is the phase of a copy, which its write does not reach.
unfoldable pub judge :
    List NodeStorageState
    → List NodeStatusMetrics
    → Bool
    → List NodeStorageState × List NodeStatusMetrics × Bool
judge [] metrics ready = ([], metrics, ready)
judge (n ∷ status) metrics ready =
    let (status', metrics', ready') =
      judge status (fail_metrics (not (serves n)) n.node metrics)
        ((n.phase == condition_ready) || ready) in
    (settle n ∷ status', metrics', ready')

abbrev pub cluster_phase : Bool → String × ℕ
cluster_phase true = (condition_ready, 0)
cluster_phase false = (condition_failure, 1)

-- the reports of the nodes, with the phases of lost nodes
unfoldable pub reports : Answers → Cluster → Reports
unfolding visit_nodes visit_conditions watched_nodes
reports answers cluster =
    let (states, metrics) =
      visit_nodes (items answers.pods) (watched_nodes answers.config_maps cluster) ([], []) in
    visit_conditions answers.node states metrics

abbrev pub next_status : List NodeStorageState → Bool → ClusterStatus
next_status status ready = record { phase = (cluster_phase ready).0; node_storage_status = status }

module _ (deep_equal : ClusterStatus → ClusterStatus → Bool) where
  -- the end of checkStatus: nothing is sent where the status is as it was
  abbrev pub send : Cluster → List NodeStorageState × List NodeStatusMetrics × Bool → Report
  send cluster (status, metrics, ready) =
      if deep_equal cluster.status (next_status status ready)
      then nothing
      else update
          (record {
            cluster = cluster.name;
            cluster_status = (cluster_phase ready).1;
            node_status = metrics;
          })
          (record cluster { status = next_status status ready })

  unfoldable pub report_cluster : Answers → Cluster → Report
  unfolding reports merge judge
  report_cluster answers cluster =
      let (states, metrics) = reports answers cluster in
      send cluster (judge (merge states cluster.status.node_storage_status) metrics false)

  -- checkStatus; a cluster that cannot be read ends it
  unfoldable pub check_status : Answers → Report
  unfolding report_cluster
  check_status answers = elim answers.cluster [
    | ok cluster ↦ report_cluster answers cluster
    | err e ↦ nothing
  ]
