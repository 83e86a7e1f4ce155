-- ===== src/Operator/LvmdConfig.antt =====
-- lvmdconfig_controller.go: what the operator does about a node's config map, and UpdateStatus of
-- topolvmcluster_controller.go. Each object that is handed over is a config map. Of the deployment of
-- a node the model has its name, its node, its config map and the parameters of its template.
pub mod Asked
pub mod Entries
pub mod Handled
use nativestor.Prelude.{
  String, ◌==◌, ◌||◌, ◌&&◌, not, map, Bool, true, false, List, [], ◌∷◌, Option, none, some,
  if◌then◌else◌,
}
use nativestor.Prelude.Maps.{Map, lookup, has, get_or}
use nativestor.Prelude.Texts.{concat}
use nativestor.Errors.{Error, Result, ok, err, wrapped, ErrorTests}
use nativestor.Api.{Api, pure, fail, of_result, attempt, ignore, wrap, request, ◌>>=◌, ◌>>◌}
use nativestor.VolumeGroup.Types.{NodeStorageState}
use nativestor.VolumeGroup.Lvmd.{ConfigMap, Codec, lvmd_config_map_key, vg_status_config_map_key}
use nativestor.K8s.Status.{ConflictTests, update_status}
use nativestor.K8s.ConfigMap.{get_value}
use nativestor.K8s.Deployment.{
  Deployment, create_or_update_deployment, check_deployment_is_existing,
}
use nativestor.Operator.Types.{Cluster, ClusterStatus}
use nativestor.Operator.Requests.{
  Event, Server, Control, send, read, kept_cluster, get_cluster, put_cluster, put_status, list_pods,
  delete_pod, get_settings, deployment_client,
}
use nativestor.Operator.Jobs.{Setting, make_and_run_job}

-- the loop of UpdateStatus: the node's entry is replaced, or added at the end
unfoldable pub set_entry : NodeStorageState → List NodeStorageState → List NodeStorageState
set_entry state [] = state ∷ []
set_entry state (entry ∷ entries) =
    let later = set_entry state entries in
    if entry.node == state.node then state ∷ entries else entry ∷ later

unfoldable pub get_node_name : ConfigMap → String
unfolding lookup
get_node_name cm = get_or "" "node-name" cm.annotations

abbrev pub device_config_map_key : String
device_config_map_key = "devices"

-- What the controller of config maps takes beside that of clusters: the cluster's name, the codecs, the
-- tests on errors, the names of a node's deployment and config map (k8sutil.TruncateNodeName), the
-- environment, the library that annotates deployments, and the error of a template.
pub record LvmdSetting : Type 0 where
  pub cluster_name : String
  pub codec : Codec
  pub tests : ErrorTests
  pub conflicts : ConflictTests
  pub deployment_name : String → String
  pub config_map_name : String → String
  pub lookup_env : String → Option String
  pub annotate : Deployment → Result Deployment
  pub template : Map String → Option Error

module _ (server : Server) (jobs : Setting) (setting : LvmdSetting) where
  abbrev pub save_status : NodeStorageState → Cluster → Control (Unit {0})
  save_status state cluster = wrap "failed to update cluster %q status" (
      update_status setting.tests setting.conflicts (λ c. send server (put_status c) >> pure c)
        (λ c. send server (put_cluster c) >> pure c)
        (record cluster {
          status = record cluster.status {
            node_storage_status = set_entry state cluster.status.node_storage_status;
          };
        }))

  abbrev pub or_save : NodeStorageState → Result Cluster → Control (Unit {0})
  or_save state (ok cluster) = save_status state cluster
  or_save state (err e) =
      if setting.tests.is_not_found e
      then pure tt
      else fail
          (wrapped "failed to retrieve topolvm cluster %q to update topolvm cluster status " e)

  -- UpdateStatus
  unfoldable pub update_node_status : NodeStorageState → Control (Unit {0})
  unfolding set_entry update_status
  update_node_status state =
      attempt (
        request (get_cluster setting.cluster_name) (λ log. server.cluster log setting.cluster_name))
      >>= or_save state

  abbrev pub report_status : String → Control (Unit {0})
  report_status status = do
    state ← of_result (setting.codec.unmarshal_status status)
    wrap "update node %s status failed" (update_node_status state)

  abbrev pub status_of : ConfigMap → String
  status_of cm = get_or "" vg_status_config_map_key cm.contents

  -- updateClusterStatus
  unfoldable pub update_cluster_status : ConfigMap → Control (Unit {0})
  unfolding update_node_status lookup
  update_cluster_status cm =
      if status_of cm == "" then pure tt else ignore (report_status (status_of cm))

  unfoldable pub check_update_cluster_status : ConfigMap → ConfigMap → Control (Unit {0})
  unfolding update_node_status lookup
  check_update_cluster_status old new =
      if (status_of new == "") || (status_of old == status_of new)
      then pure tt
      else report_status (status_of new)

  -- checkingTopolvmNodePluginDeploymentExisting: an error is read as no
  abbrev pub or_no : Result Bool → Control Bool
  or_no (ok existing) = pure existing
  or_no (err e) = pure false

  abbrev pub plugin_exists : String → Control Bool
  plugin_exists node =
      attempt (
        check_deployment_is_existing setting.tests (deployment_client server) setting.annotate
          (setting.deployment_name node))
      >>= or_no

  -- replaceNodePod: the errors are logged
  unfoldable pub delete_pods : List String → Control (Unit {0})
  delete_pods [] = pure tt
  delete_pods (pod ∷ pods) = ignore (send server (delete_pod pod)) >> delete_pods pods

  abbrev pub pods_of : Result (List String) → List String
  pods_of (ok pods) = pods
  pods_of (err e) = []

  unfoldable pub replace_node_pod : String → Control (Unit {0})
  unfolding delete_pods
  replace_node_pod node =
      let label = setting.deployment_name node in
      attempt (request (list_pods label) (λ log. server.pods log label)) >>= λ pods.
      delete_pods (pods_of pods)

  abbrev pub settings_or : Result ConfigMap → Control (Map String)
  settings_or (ok cm) = pure cm.contents
  settings_or (err e) =
      if setting.tests.is_not_found e
      then pure []
      else fail (wrapped "failed to get operator's configmap" e)

  abbrev pub param : Map String → String × String → String × String
  param settings (name, default) = (name, get_value setting.lookup_env settings name default)

  abbrev pub plugin : Map String → String → Deployment
  plugin settings node = record {
    name = setting.deployment_name node;
    node = node;
    config_map = setting.config_map_name node;
    parameters = map (param settings) (
        ("TOPOLVM_IMAGE", "quay.io/topolvm/topolvm-with-sidecar:0.10")
        ∷ ("CSI_REGISTRAR_IMAGE", "k8s.gcr.io/sig-storage/csi-node-driver-registrar:v2.3.0")
        ∷ ("CSI_LIVENESS_IMAGE", "k8s.gcr.io/sig-storage/livenessprobe:v2.4.0")
        ∷ ("KUBELET_ROOT_DIR", "/var/lib/kubelet")
        ∷ []);
  }

  abbrev pub template_error : Option Error → Control (Unit {0})
  template_error none = pure tt
  template_error (some e) =
      fail (wrapped "failed to load topolvm provisioner deployment template" e)

  -- createTopolvmPluginNodeDeployment
  unfoldable pub create_topolvm_plugin_node_deployment : String → Control (Unit {0})
  unfolding create_or_update_deployment get_value
  create_topolvm_plugin_node_deployment node = do
    answer ← attempt (request get_settings server.settings)
    settings ← settings_or answer
    template_error (setting.template settings)
    wrap "failed to update topolvm provisioner deployment %q" (
        create_or_update_deployment setting.tests (deployment_client server) setting.annotate
          (plugin settings node)
        >>= λ dep. pure tt)

  unfoldable pub start_topolvm_node_plugin : ConfigMap → Control (Unit {0})
  unfolding create_topolvm_plugin_node_deployment check_deployment_is_existing get_node_name lookup
  start_topolvm_node_plugin cm =
      if not (has lvmd_config_map_key cm.contents) || (get_node_name cm == "") then pure tt else (do
        existing ← plugin_exists (get_node_name cm)
        (if existing then pure tt else create_topolvm_plugin_node_deployment (get_node_name cm)))

  -- onAdd; the errors are logged
  unfoldable pub on_add_config_map : ConfigMap → Control (Unit {0})
  unfolding update_cluster_status start_topolvm_node_plugin
  on_add_config_map cm = update_cluster_status cm >> ignore (start_topolvm_node_plugin cm)

  -- UseAllNodeAndDevices
  abbrev pub use_all_nodes : Option Cluster → Bool
  use_all_nodes none = false
  use_all_nodes (some cluster) = cluster.spec.use_all_nodes

  abbrev pub devices_of : ConfigMap → String
  devices_of cm = get_or "" device_config_map_key cm.contents

  -- the node's job is run again where its devices have changed
  abbrev pub devices_changed : ConfigMap → ConfigMap → Bool
  devices_changed old new =
      has device_config_map_key old.contents && not (devices_of old == devices_of new)

  unfoldable pub restart_job : ConfigMap → ConfigMap → Control (Unit {0})
  unfolding make_and_run_job lookup get_node_name
  restart_job old new = do
    kept ← read kept_cluster
    (if devices_changed old new && use_all_nodes kept
        then ignore (make_and_run_job server setting.tests jobs (get_node_name new))
        else pure tt)

  abbrev pub lvmd_of : ConfigMap → String
  lvmd_of cm = get_or "" lvmd_config_map_key cm.contents

  abbrev pub renew : ConfigMap → ConfigMap → Bool → Control (Unit {0})
  renew old new false = ignore (create_topolvm_plugin_node_deployment (get_node_name new))
  renew old new true =
      if lvmd_of old == lvmd_of new then pure tt else replace_node_pod (get_node_name new)

  -- the plugin of the node: made if it is not there, its pods replaced if lvmd's configuration changed
  unfoldable pub renew_plugin : ConfigMap → ConfigMap → Control (Unit {0})
  unfolding create_topolvm_plugin_node_deployment replace_node_pod check_deployment_is_existing
      get_node_name lookup
  renew_plugin old new =
      if has lvmd_config_map_key new.contents
      then plugin_exists (get_node_name new) >>= renew old new
      else pure tt

  -- onUpdate
  unfoldable pub on_update : ConfigMap → ConfigMap → Control (Unit {0})
  unfolding check_update_cluster_status restart_job renew_plugin get_node_name
  on_update old new = do
    ignore (check_update_cluster_status old new)
    (if get_node_name new == "" then pure tt else restart_job old new >> renew_plugin old new)
