-- ===== src/Operator/Types.antt =====
-- The objects that the operator reads and writes: TopolvmCluster with its status
-- (apis/topolvm/v2/topolvmcluster_types.go), the metrics (pkg/cluster/topolvm/type.go), and the fields
-- of pods and nodes that the program reads.
use nativestor.Prelude.{ℕ, String, Bool, List}
use nativestor.VolumeGroup.Types.{NodeStorageState}
use nativestor.VolumeGroup.Provision.{Storage}

-- TopolvmClusterSpec; UseAllNodes of Storage, which the job does not read, stands here
pub record ClusterSpec : Type 0 where
  pub topolvm_version : String
  pub certs_secret : String
  pub storage : Storage
  pub use_all_nodes : Bool
  pub clean_up : Bool

pub record ClusterStatus : Type 0 where
  pub phase : String
  pub node_storage_status : List NodeStorageState

-- TopolvmCluster, with the fields of its metadata that the program reads: `created` is the creation
-- time in seconds, `deleted` whether a deletion time is set.
pub record Cluster : Type 0 where
  pub name : String
  pub namespace : String
  pub created : ℕ
  pub deleted : Bool
  pub finalizers : List String
  pub spec : ClusterSpec
  pub status : ClusterStatus

abbrev pub condition_ready : String
condition_ready = "Ready"

abbrev pub condition_failure : String
condition_failure = "Failure"

abbrev pub condition_unknown : String
condition_unknown = "Unknown"

abbrev pub condition_pending : String
condition_pending = "Pending"

pub record NodeStatusMetrics : Type 0 where
  pub node : String
  pub status : ℕ

pub record Metrics : Type 0 where
  pub cluster : String
  pub cluster_status : ℕ
  pub node_status : List NodeStatusMetrics

-- v1.PodPhase
pub data PodPhase : Type 0 where
  running succeeded failed pending unknown : PodPhase

-- of a pod, its node, its phase and the Ready flags of its containers
pub record Pod : Type 0 where
  pub node_name : String
  pub phase : PodPhase
  pub ready : List Bool

pub record NodeCondition : Type 0 where
  pub type_name : String
  pub status : String
