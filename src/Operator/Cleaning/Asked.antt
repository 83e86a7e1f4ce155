-- ===== src/Operator/Cleaning/Asked.antt =====
-- Setting up and cleaning send nothing but requests.
use nativestor.Prelude.{String, refl, false, List, [], ◌∷◌, if◌then◌else◌}
use nativestor.Prelude.Texts.{has_prefix}
use nativestor.Prelude.Maps.{Map, erase}
use nativestor.Errors.{Result, ok, err, ErrorTests}
use nativestor.Api.{pure, fail, attempt, ignore, wrap, request, ◌>>◌}
use nativestor.VolumeGroup.Lvmd.{ConfigMap}
use nativestor.Operator.Requests.{
  Event, Server, Node, csi_driver, security_policy, Control, send, list_nodes, patch_node,
  list_config_maps, put_config_map, get_object, create_object, delete_object,
}
use nativestor.Operator.Requests.Trace.{
  IsTrace, Respects, request-Respects, if-Respects, >>=-Respects, >>-Respects, send-Respects,
}
use nativestor.Operator.Cleaning.{
  driver_name, or_create_driver, check_topolvm_csi_driver_existing, delete_driver, or_delete_driver,
  delete_topolvm_csi_driver, or_missing, check_psp_existing, ensure_psp, check_and_create_psp,
  emptied, empty_each, clean_lvmd_config_map, strip_each, strip_nodes, strip_listed,
  remove_node_capacity_annotations, clean_cluster,
}

module _ {R : List Event → List Event → Type 0} (t : IsTrace R) (server : Server)
    (tests : ErrorTests) where
  pub check_driver-Respects : Respects t (check_topolvm_csi_driver_existing server tests)
  unfolding check_topolvm_csi_driver_existing
  check_driver-Respects =
      >>=-Respects t (attempt (send server (get_object csi_driver driver_name)))
        (or_create_driver server tests)
        (send-Respects t server (get_object csi_driver driver_name) refl) by_answer
    where
      by_answer : (r : Result (Unit {0})) → Respects t (or_create_driver server tests r)
      by_answer (ok found) = t.stay
      by_answer (err e) =
          if-Respects t (tests.is_not_found e) (send server (create_object csi_driver driver_name))
            (fail _) (send-Respects t server (create_object csi_driver driver_name) refl) t.stay

  delete_driver-Respects : Respects t (delete_topolvm_csi_driver server tests)
  unfolding delete_topolvm_csi_driver
  delete_driver-Respects =
      >>=-Respects t (attempt (send server (get_object csi_driver driver_name)))
        (or_delete_driver server tests)
        (send-Respects t server (get_object csi_driver driver_name) refl) by_answer
    where
      gone : Respects t (delete_driver server tests)
      gone = send-Respects t server (delete_object csi_driver driver_name) refl

      by_answer : (r : Result (Unit {0})) → Respects t (or_delete_driver server tests r)
      by_answer (ok found) = gone
      by_answer (err e) =
          if-Respects t (tests.is_not_found e) (pure tt) (delete_driver server tests) t.stay gone

  check_psp-Respects : (name : String) → Respects t (check_psp_existing server tests name)
  unfolding check_psp_existing
  check_psp-Respects name =
      >>=-Respects t (attempt (send server (get_object security_policy name)))
        (or_missing server tests) (send-Respects t server (get_object security_policy name) refl)
        by_answer
    where
      by_answer : (r : Result (Unit {0})) → Respects t (or_missing server tests r)
      by_answer (ok found) = t.stay
      by_answer (err e) = if-Respects t (tests.is_not_found e) (pure false) (fail _) t.stay t.stay

  ensure_psp-Respects : (name : String) → Respects t (ensure_psp server tests name)
  unfolding ensure_psp
  ensure_psp-Respects name =
      >>=-Respects t (wrap "check psp %s failed" (check_psp_existing server tests name))
        (λ b. if b then pure tt else create) (check_psp-Respects name)
        (λ b.
          if-Respects t b (pure tt) create t.stay
            (send-Respects t server (create_object security_policy name) refl))
    where
      create : Control (Unit {0})
      create = wrap "create psp %s failed" (send server (create_object security_policy name))

  pub check_and_create_psp-Respects : Respects t (check_and_create_psp server tests)
  unfolding check_and_create_psp
  check_and_create_psp-Respects =
      >>-Respects t (ensure_psp server tests "topolvm-node")
        (ensure_psp server tests "nativestor-preparevg") (ensure_psp-Respects "topolvm-node")
        (ensure_psp-Respects "nativestor-preparevg")

  pub empty_each-Respects : (cms : List ConfigMap) → Respects t (empty_each server tests cms)
  unfolding empty_each
  empty_each-Respects [] = t.stay
  empty_each-Respects (cm ∷ cms) =
      >>-Respects t (send server (put_config_map (emptied server tests cm)))
        (empty_each server tests cms)
        (send-Respects t server (put_config_map (emptied server tests cm)) refl)
        (empty_each-Respects cms)

  clean_lvmd-Respects : Respects t (clean_lvmd_config_map server tests)
  unfolding clean_lvmd_config_map
  clean_lvmd-Respects =
      >>=-Respects t (request list_config_maps server.config_maps) (empty_each server tests)
        (request-Respects t list_config_maps server.config_maps refl) empty_each-Respects

  strip_each-Respects :
      (listed : Node) (annotations kept : Map String)
      → Respects t (strip_each server tests listed kept annotations)
  unfolding strip_each
  strip_each-Respects listed [] kept = t.stay
  strip_each-Respects listed ((key, value) ∷ annotations) kept =
      >>=-Respects t step (λ next. strip_each server tests listed next annotations) step_respects
        (strip_each-Respects listed annotations)
    where
      patch : Control (Map String)
      patch =
          ignore (send server (patch_node listed (record listed { annotations = erase key kept })))
          >> pure (erase key kept)

      step : Control (Map String)
      step = if has_prefix key "capacity.topolvm.cybozu.com/" then patch else pure kept

      step_respects : Respects t step
      step_respects =
          if-Respects t (has_prefix key "capacity.topolvm.cybozu.com/") patch (pure kept)
            (send-Respects t server
              (patch_node listed (record listed { annotations = erase key kept })) refl)
            t.stay

  strip_nodes-Respects : (nodes : List Node) → Respects t (strip_nodes server tests nodes)
  unfolding strip_nodes
  strip_nodes-Respects [] = t.stay
  strip_nodes-Respects (n ∷ nodes) =
      >>=-Respects t (strip_each server tests n n.annotations n.annotations)
        (λ s. strip_nodes server tests nodes) (strip_each-Respects n n.annotations n.annotations)
        (λ s. strip_nodes-Respects nodes)

  pub remove_annotations-Respects : Respects t (remove_node_capacity_annotations server tests)
  unfolding remove_node_capacity_annotations
  remove_annotations-Respects =
      >>=-Respects t (attempt (request list_nodes server.nodes)) (strip_listed server tests)
        (request-Respects t list_nodes server.nodes refl) by_answer
    where
      by_answer : (r : Result (List Node)) → Respects t (strip_listed server tests r)
      by_answer (ok nodes) = strip_nodes-Respects nodes
      by_answer (err e) = t.stay

  -- what cleanCluster does after the config maps
  pub clean_rest-Respects : Respects t (
      wrap "failed to remove node capacity annotations"
        (remove_node_capacity_annotations server tests)
      >> delete_topolvm_csi_driver server tests)
  clean_rest-Respects =
      >>-Respects t
        (wrap "failed to remove node capacity annotations"
          (remove_node_capacity_annotations server tests))
        (delete_topolvm_csi_driver server tests) remove_annotations-Respects delete_driver-Respects

  pub clean_cluster-Respects : Respects t (clean_cluster server tests)
  unfolding clean_cluster
  clean_cluster-Respects =
      >>-Respects t (clean_lvmd_config_map server tests)
        (wrap "failed to remove node capacity annotations"
            (remove_node_capacity_annotations server tests)
          >> delete_topolvm_csi_driver server tests)
        clean_lvmd-Respects clean_rest-Respects
