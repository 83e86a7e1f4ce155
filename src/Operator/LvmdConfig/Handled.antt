-- ===== src/Operator/LvmdConfig/Handled.antt =====
-- The handlers of config maps send nothing but requests, and the deletions of pods: the deployment of
-- a node and its pods, and the handlers themselves.
use nativestor.Prelude.{
  String, ◌==◌, ◌||◌, ◌&&◌, not, refl, Bool, true, false, List, [], ◌∷◌, Option, none, some,
  if◌then◌else◌,
}
use nativestor.Prelude.Maps.{Map, has}
use nativestor.Errors.{Error, Result, ok, err}
use nativestor.Api.{pure, fail, of_result, attempt, ignore, wrap, request, ◌>>=◌, ◌>>◌}
use nativestor.VolumeGroup.Lvmd.{ConfigMap, lvmd_config_map_key}
use nativestor.K8s.Deployment
use nativestor.K8s.Deployment.{Deployment}
use nativestor.Operator.Requests.{
  Event, Server, Control, send, read, kept_cluster, list_pods, delete_pod, get_settings,
  get_deployment, create_deployment, update_deployment, deployment_client,
}
use nativestor.Operator.Requests.Trace.{
  IsTrace, Respects, request-Respects, if-Respects, >>=-Respects, >>-Respects, send-Respects,
}
use nativestor.Operator.Jobs.{Setting, make_and_run_job}
use nativestor.Operator.Jobs.Asked.{IsPoll, make_and_run_job-Respects}
use nativestor.Operator.LvmdConfig.Asked.{update_cluster_status-Respects, check_update-Respects}
use nativestor.Operator.LvmdConfig.{
  LvmdSetting, get_node_name, update_cluster_status, check_update_cluster_status, or_no,
  plugin_exists, delete_pods, pods_of, replace_node_pod, settings_or, plugin, template_error,
  create_topolvm_plugin_node_deployment, start_topolvm_node_plugin, on_add_config_map,
  use_all_nodes, devices_changed, restart_job, lvmd_of, renew, renew_plugin, on_update,
}

module _ {R : List Event → List Event → Type 0} (t : IsTrace R) (server : Server) (jobs : Setting)
    (setting : LvmdSetting) where
  or_update_plugin-Respects :
      (dep : Deployment) (r : Result Deployment)
      → Respects t
          (Deployment.or_update setting.tests (deployment_client server) setting.annotate dep r)
  or_update_plugin-Respects dep (ok created) = t.stay
  or_update_plugin-Respects dep (err e) =
      if-Respects t (setting.tests.is_already_exists e) ((deployment_client server).update again)
        (fail e)
        (>>=-Respects t (send server (update_deployment again)) (λ done. pure again)
          (send-Respects t server (update_deployment again) refl) (λ done. t.stay))
        t.stay
    where
      again : Deployment
      again =
          Deployment.annotated_or setting.tests (deployment_client server) setting.annotate dep
            (setting.annotate dep)

  create_or_update-Respects :
      (dep : Deployment)
      → Respects t (
          Deployment.create_or_update_deployment setting.tests
            (deployment_client server)
            setting.annotate
            dep)
  unfolding Deployment.create_or_update_deployment Deployment.create_deployment
  create_or_update-Respects dep =
      >>=-Respects t
        (attempt (
          Deployment.create_deployment setting.tests (deployment_client server) setting.annotate
            dep))
        (Deployment.or_update setting.tests (deployment_client server) setting.annotate dep)
        (>>=-Respects t
          (wrap "failed to set hash annotation on deployment %q" (of_result (setting.annotate dep)))
          (deployment_client server).create t.stay create)
        (or_update_plugin-Respects dep)
    where
      create : (d : Deployment) → Respects t ((deployment_client server).create d)
      create d =
          >>=-Respects t (send server (create_deployment d)) (λ done. pure d)
            (send-Respects t server (create_deployment d) refl) (λ done. t.stay)

  settings-Respects : (r : Result ConfigMap) → Respects t (settings_or server jobs setting r)
  settings-Respects (ok cm) = t.stay
  settings-Respects (err e) =
      if-Respects t (setting.tests.is_not_found e) (pure []) (fail _) t.stay t.stay

  template-Respects : (o : Option Error) → Respects t (template_error server jobs setting o)
  template-Respects none = t.stay
  template-Respects (some e) = t.stay

  plugin-Respects :
      (node : String) → Respects t (create_topolvm_plugin_node_deployment server jobs setting node)
  unfolding create_topolvm_plugin_node_deployment
  plugin-Respects node =
      >>=-Respects t (attempt (request get_settings server.settings))
        (λ answer. settings_or server jobs setting answer >>= from)
        (request-Respects t get_settings server.settings refl)
        (λ answer.
          >>=-Respects t (settings_or server jobs setting answer) from (settings-Respects answer)
            (λ settings.
              >>-Respects t (template_error server jobs setting (setting.template settings))
                (deploy settings) (template-Respects (setting.template settings))
                (>>=-Respects t
                  (Deployment.create_or_update_deployment setting.tests (deployment_client server)
                    setting.annotate (plugin server jobs setting settings node))
                  (λ dep. pure tt)
                  (create_or_update-Respects (plugin server jobs setting settings node))
                  (λ dep. t.stay))))
    where
      deploy : Map String → Control (Unit {0})
      deploy settings = wrap "failed to update topolvm provisioner deployment %q" (
          Deployment.create_or_update_deployment setting.tests (deployment_client server)
            setting.annotate (plugin server jobs setting settings node)
          >>= λ dep. pure tt)

      from : Map String → Control (Unit {0})
      from settings =
          template_error server jobs setting (setting.template settings) >> deploy settings

  exists-Respects : (node : String) → Respects t (plugin_exists server jobs setting node)
  unfolding Deployment.check_deployment_is_existing
  exists-Respects node =
      >>=-Respects t
        (attempt (
          Deployment.check_deployment_is_existing setting.tests (deployment_client server)
            setting.annotate (setting.deployment_name node)))
        (or_no server jobs setting)
        (>>=-Respects t (attempt get)
          (Deployment.or_absent setting.tests (deployment_client server) setting.annotate)
          (>>=-Respects t (send server (get_deployment (setting.deployment_name node)))
            (λ done. pure _)
            (send-Respects t server (get_deployment (setting.deployment_name node)) refl)
            (λ done. t.stay))
          by_answer)
        by_test
    where
      get : Control Deployment
      get = (deployment_client server).get (setting.deployment_name node)

      by_answer :
          (r : Result Deployment)
          → Respects t
              (Deployment.or_absent setting.tests (deployment_client server) setting.annotate r)
      by_answer (ok found) = t.stay
      by_answer (err e) =
          if-Respects t (setting.tests.is_not_found e) (pure false) (fail _) t.stay t.stay

      by_test : (r : Result Bool) → Respects t (or_no server jobs setting r)
      by_test (ok b) = t.stay
      by_test (err e) = t.stay

  start_plugin-Respects :
      (cm : ConfigMap) → Respects t (start_topolvm_node_plugin server jobs setting cm)
  unfolding start_topolvm_node_plugin
  start_plugin-Respects cm =
      if-Respects t (not (has lvmd_config_map_key cm.contents) || (get_node_name cm == ""))
        (pure tt) (plugin_exists server jobs setting (get_node_name cm) >>= start) t.stay
        (>>=-Respects t (plugin_exists server jobs setting (get_node_name cm)) start
          (exists-Respects (get_node_name cm))
          (λ b.
            if-Respects t b (pure tt)
              (create_topolvm_plugin_node_deployment server jobs setting (get_node_name cm)) t.stay
              (plugin-Respects (get_node_name cm))))
    where
      start : Bool → Control (Unit {0})
      start existing =
          if existing
          then pure tt
          else create_topolvm_plugin_node_deployment server jobs setting (get_node_name cm)

  pub on_add-Respects : (cm : ConfigMap) → Respects t (on_add_config_map server jobs setting cm)
  unfolding on_add_config_map
  on_add-Respects cm =
      >>-Respects t (update_cluster_status server jobs setting cm)
        (ignore (start_topolvm_node_plugin server jobs setting cm))
        (update_cluster_status-Respects t server jobs setting cm) (start_plugin-Respects cm)

  pub restart-Respects :
      IsPoll jobs.poll
      → (old new : ConfigMap) → Respects t (restart_job server jobs setting old new)
  unfolding restart_job
  restart-Respects polls old new =
      >>=-Respects t (read kept_cluster)
        (λ kept.
          if devices_changed server jobs setting old new && use_all_nodes server jobs setting kept
          then ignore (make_and_run_job server setting.tests jobs (get_node_name new))
          else pure tt)
        t.stay
        (λ kept.
          if-Respects t
            (devices_changed server jobs setting old new && use_all_nodes server jobs setting kept)
            (ignore (make_and_run_job server setting.tests jobs (get_node_name new))) (pure tt)
            (make_and_run_job-Respects t server setting.tests jobs polls (get_node_name new))
            t.stay)

  module _ (pod : (name : String) (log : List Event) → R log (delete_pod name ∷ log)) where
    delete_pods-Respects : (pods : List String) → Respects t (delete_pods server jobs setting pods)
    unfolding delete_pods
    delete_pods-Respects [] = t.stay
    delete_pods-Respects (name ∷ pods) =
        >>-Respects t (ignore (send server (delete_pod name)))
          (delete_pods server jobs setting pods) (pod name) (delete_pods-Respects pods)

    replace_pods-Respects : (node : String) → Respects t (replace_node_pod server jobs setting node)
    unfolding replace_node_pod
    replace_pods-Respects node =
        >>=-Respects t (attempt (request (list_pods label) (λ log. server.pods log label)))
          (λ pods. delete_pods server jobs setting (pods_of server jobs setting pods))
          (request-Respects t (list_pods label) (λ log. server.pods log label) refl)
          (λ pods. delete_pods-Respects (pods_of server jobs setting pods))
      where
        label : String
        label = setting.deployment_name node

    renew-Respects :
        (old new : ConfigMap) (b : Bool) → Respects t (renew server jobs setting old new b)
    renew-Respects old new false = plugin-Respects (get_node_name new)
    renew-Respects old new true =
        if-Respects t (lvmd_of server jobs setting old == lvmd_of server jobs setting new) (pure tt)
          (replace_node_pod server jobs setting (get_node_name new)) t.stay
          (replace_pods-Respects (get_node_name new))

    renew_plugin-Respects :
        (old new : ConfigMap) → Respects t (renew_plugin server jobs setting old new)
    unfolding renew_plugin
    renew_plugin-Respects old new =
        if-Respects t (has lvmd_config_map_key new.contents)
          (plugin_exists server jobs setting (get_node_name new)
            >>= renew server jobs setting old new)
          (pure tt)
          (>>=-Respects t (plugin_exists server jobs setting (get_node_name new))
            (renew server jobs setting old new) (exists-Respects (get_node_name new))
            (renew-Respects old new))
          t.stay

    pub on_update-Respects :
        IsPoll jobs.poll
        → (old new : ConfigMap) → Respects t (on_update server jobs setting old new)
    unfolding on_update
    on_update-Respects polls old new =
        >>-Respects t (ignore (check_update_cluster_status server jobs setting old new)) rest
          (check_update-Respects t server jobs setting old new)
          (if-Respects t (get_node_name new == "") (pure tt)
            (restart_job server jobs setting old new >> renew_plugin server jobs setting old new)
            t.stay
            (>>-Respects t (restart_job server jobs setting old new)
              (renew_plugin server jobs setting old new) (restart-Respects polls old new)
              (renew_plugin-Respects old new)))
      where
        rest : Control (Unit {0})
        rest =
            if get_node_name new == ""
            then pure tt
            else restart_job server jobs setting old new >> renew_plugin server jobs setting old new
