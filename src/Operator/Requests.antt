-- ===== src/Operator/Requests.antt =====
-- What the cluster controller asks of the API server, and what it keeps in its own object. Both are
-- entries of one log, latest first: the controller's `cluster` and `health` are read off the log.
pub mod Trace
use nativestor.Prelude.{ℕ, String, Bool, true, false, List, [], ◌∷◌, Option, none, some}
use nativestor.Prelude.Maps.{Map}
use nativestor.Errors.{Error, Result, ok, err}
use nativestor.Api.{Api, pure, request, ◌>>=◌}
use nativestor.VolumeGroup.Lvmd.{ConfigMap}
use nativestor.K8s.Client.{Client}
use nativestor.K8s.Job.{Job}
use nativestor.K8s.Deployment.{Deployment, blank}
use nativestor.Operator.Types.{Cluster, Pod}

-- of a v1.Node, its name and its annotations
pub record Node : Type 0 where
  pub name : String
  pub annotations : Map String

-- the kinds of the objects that the controller makes with fixed contents
pub data Kind : Type 0 where
  csi_driver security_policy : Kind

pub data Event : Type 0 where
  list_clusters : Event
  get_cluster : String → Event
  put_cluster : Cluster → Event
  put_status : Cluster → Event
  list_nodes : Event
  patch_node : Node → Node → Event
  list_config_maps : Event
  put_config_map : ConfigMap → Event
  get_object : Kind → String → Event
  create_object : Kind → String → Event
  delete_object : Kind → String → Event
  get_job : String → Event
  create_job : Job → Event
  delete_job : String → Event
  server_version : Event
  list_pods : String → Event
  delete_pod : String → Event
  get_deployment : String → Event
  create_deployment : Deployment → Event
  update_deployment : Deployment → Event
  get_settings : Event
  -- the controller's own: updateCluster, the start of lvmdController and of the status monitor, and
  -- the monitor's end
  keep_cluster : Option Cluster → Event
  start_lvmd_controller : Event
  start_monitor : Event
  stop_monitor : Event

-- The answers, from the requests before; `accepts` is the error of a write or of a Get that is only
-- asked whether the object is there.
pub record Server : Type 0 where
  pub clusters : List Event → Result (Option (List Cluster))
  pub cluster : List Event → String → Result Cluster
  pub nodes : List Event → Result (List Node)
  pub config_maps : List Event → Result (List ConfigMap)
  pub job : List Event → String → Result Job
  pub version : List Event → Result (String × String)
  pub pods : List Event → String → Result (List String)
  pub settings : List Event → Result ConfigMap
  pub accepts : List Event → Event → Option Error

abbrev pub of_error : Option Error → Result (Unit {0})
of_error none = ok tt
of_error (some e) = err e

abbrev pub Control : Type 0 → Type 0
Control A = Api Event A

-- a write, or another request of which only the error is read
abbrev pub send : Server → Event → Control (Unit {0})
send server event = request event (λ log. of_error (server.accepts log event))

-- an entry of the controller's own
abbrev pub note : Event → Control (Unit {0})
note event = request event (λ log. ok tt)

-- r.getCluster()
abbrev pub kept_cluster : List Event → Option Cluster
kept_cluster [] = none
kept_cluster (keep_cluster c ∷ log) = c
kept_cluster (event ∷ log) = kept_cluster log

-- r.health != nil
abbrev pub is_monitoring : List Event → Bool
is_monitoring [] = false
is_monitoring (start_monitor ∷ log) = true
is_monitoring (stop_monitor ∷ log) = false
is_monitoring (event ∷ log) = is_monitoring log

-- a part of the controller's state
abbrev pub read : {A : Type 0} → (List Event → A) → Control A
read f log = (ok (f log), log)

-- the client of jobs; no job is updated or patched
abbrev pub job_client : Server → Client Event Job
job_client server = record {
  get = λ name. request (get_job name) (λ log. server.job log name);
  create = λ job. send server (create_job job) >>= λ done. pure job;
  update = λ job. pure job;
  patch = λ old new. pure new;
  delete = λ name. send server (delete_job name);
}

-- the client of deployments; none is patched or deleted
abbrev pub deployment_client : Server → Client Event Deployment
deployment_client server = record {
  get = λ name. send server (get_deployment name) >>= λ done. pure (blank name);
  create = λ dep. send server (create_deployment dep) >>= λ done. pure dep;
  update = λ dep. send server (update_deployment dep) >>= λ done. pure dep;
  patch = λ old new. pure new;
  delete = λ name. pure tt;
}
