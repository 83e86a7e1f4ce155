-- ===== src/Operator/Controller/Asked.antt =====
-- The parts of a reconciliation that send nothing but requests.
use nativestor.Prelude.{String, ◌==◌, refl, List, [], ◌∷◌, ◌++◌, Option, none, some}
use nativestor.Errors.{Result, ok, err, ErrorTests}
use nativestor.Api.{pure, fail, of_result, attempt, wrap, request, ◌>>=◌, ◌>>◌}
use nativestor.Operator.Types.{Cluster}
use nativestor.Operator.Finalizer.{contains, remove, finalizer_name}
use nativestor.Operator.Requests.{
  Event, Server, send, read, kept_cluster, list_clusters, get_cluster, put_cluster,
}
use nativestor.Operator.Requests.Trace.{
  IsTrace, Respects, request-Respects, if-Respects, >>=-Respects, >>-Respects, send-Respects,
}
use nativestor.Operator.Jobs.{Setting, all_nodes, class_nodes, run_each}
use nativestor.Operator.Jobs.Asked.{IsPoll, run_each-Respects, all_nodes-Respects}
use nativestor.Operator.Controller.{
  Config, admit, verify_topolvm_cluster, fetch, add_finalizer_if_not_present, put_without,
  remove_finalizer_of, or_deleted, remove_finalizer, spec_nodes, to_prepare, unsettled_nodes,
  start_prepare_volume_group_job,
}

module _ {R : List Event → List Event → Type 0} (t : IsTrace R) (server : Server)
    (tests : ErrorTests) (setting : Setting) (config : Config) where
  pub verify-Respects :
      (namespace name : String)
      → Respects t (verify_topolvm_cluster server tests setting config namespace name)
  unfolding verify_topolvm_cluster
  verify-Respects namespace name =
      if-Respects t (namespace == config.operator_namespace)
        (wrap "failed to list topolvm cluster" (request list_clusters server.clusters)
          >>= λ clusters. of_result (admit name clusters))
        (fail _)
        (>>=-Respects t
          (wrap "failed to list topolvm cluster" (request list_clusters server.clusters))
          (λ clusters. of_result (admit name clusters))
          (request-Respects t list_clusters server.clusters refl) (λ clusters. t.stay))
        t.stay

  pub fetch-Respects : (name : String) → Respects t (fetch server tests setting config name)
  fetch-Respects name = request-Respects t (get_cluster name) (λ log. server.cluster log name) refl

  pub add_finalizer-Respects :
      (cluster : Cluster)
      → Respects t (add_finalizer_if_not_present server tests setting config cluster)
  unfolding add_finalizer_if_not_present
  add_finalizer-Respects cluster =
      if-Respects t (contains cluster.finalizers (finalizer_name config.kind)) (pure cluster)
        (wrap "failed to add finalizer %q on %q" (send server (put_cluster added)) >> pure added)
        t.stay
        (>>-Respects t (wrap "failed to add finalizer %q on %q" (send server (put_cluster added)))
          (pure added) (send-Respects t server (put_cluster added) refl) t.stay)
    where
      added : Cluster
      added = record cluster { finalizers = cluster.finalizers ++ finalizer_name config.kind ∷ [] }

  remove_finalizer_of-Respects :
      (cluster : Cluster) → Respects t (remove_finalizer_of server tests setting config cluster)
  unfolding remove_finalizer_of
  remove_finalizer_of-Respects cluster =
      if-Respects t (contains cluster.finalizers (finalizer_name config.kind))
        (put_without server tests setting config cluster
          (remove cluster.finalizers (finalizer_name config.kind)))
        (pure (some tt)) (by_list (remove cluster.finalizers (finalizer_name config.kind))) t.stay
    where
      by_list :
          (o : Option (List String))
          → Respects t (put_without server tests setting config cluster o)
      by_list none = t.stay
      by_list (some finalizers) =
          >>-Respects t
            (wrap "failed to remove finalizer %q on %q"
              (send server (put_cluster (record cluster { finalizers = finalizers }))))
            (pure (some tt))
            (send-Respects t server (put_cluster (record cluster { finalizers = finalizers })) refl)
            t.stay

  pub remove_finalizer-Respects :
      (name : String) → Respects t (remove_finalizer server tests setting config name)
  unfolding remove_finalizer
  remove_finalizer-Respects name =
      >>=-Respects t (attempt (fetch server tests setting config name))
        (or_deleted server tests setting config) (fetch-Respects name) by_answer
    where
      by_answer : (r : Result Cluster) → Respects t (or_deleted server tests setting config r)
      by_answer (ok cluster) = remove_finalizer_of-Respects cluster
      by_answer (err e) =
          if-Respects t (tests.is_not_found e) (pure (some tt)) (fail _) t.stay t.stay

  module _ (polls : IsPoll setting.poll) where
    spec_nodes-Respects :
        (cluster : Cluster) → Respects t (spec_nodes server tests setting config cluster)
    spec_nodes-Respects cluster =
        >>=-Respects t (all_nodes server tests setting cluster.spec.use_all_nodes)
          (λ nodes. pure (nodes ++ class_nodes cluster.spec.storage.device_classes))
          (all_nodes-Respects t server tests setting polls cluster.spec.use_all_nodes)
          (λ nodes. t.stay)

    to_prepare-Respects :
        (cluster : Cluster) (kept : Option Cluster)
        → Respects t (to_prepare server tests setting config cluster kept)
    to_prepare-Respects cluster none = spec_nodes-Respects cluster
    to_prepare-Respects cluster (some kept) =
        if-Respects t (config.equal_storage kept.spec cluster.spec)
          (pure (unsettled_nodes cluster.status.node_storage_status))
          (spec_nodes server tests setting config cluster) t.stay (spec_nodes-Respects cluster)

    pub start_prepare-Respects :
        (cluster : Cluster)
        → Respects t (start_prepare_volume_group_job server tests setting config cluster)
    unfolding start_prepare_volume_group_job
    start_prepare-Respects cluster =
        >>=-Respects t (read kept_cluster)
          (λ kept.
            to_prepare server tests setting config cluster kept >>= run_each server tests setting)
          t.stay
          (λ kept.
            >>=-Respects t (to_prepare server tests setting config cluster kept)
              (run_each server tests setting) (to_prepare-Respects cluster kept)
              (run_each-Respects t server tests setting polls))
