-- ===== src/Operator/Reconcile.antt =====
-- onAdd, reconcileDelete and reconcile of topolvmcluster_controller.go. Beside an error the program
-- returns a result that the library leaves aside; a panic is `none`.
pub mod Monitored
pub mod Deleted
use nativestor.Prelude.{String, ◌==◌, Bool, true, false, List, Option, none, some, if◌then◌else◌}
use nativestor.Prelude.Maps.{is_some}
use nativestor.Errors.{Error, Result, ok, err, wrapped, ErrorTests}
use nativestor.Api.{Api, pure, fail, of_result, attempt, wrap, ◌>>=◌, ◌>>◌}
use nativestor.Operator.Types.{Cluster}
use nativestor.Operator.Requests.{
  Event, Server, Control, note, read, kept_cluster, keep_cluster, start_lvmd_controller,
}
use nativestor.Operator.Jobs.{Setting, start_clean_up_jobs}
use nativestor.Operator.Controller.{
  Config, verify_topolvm_cluster, check_storage_config, fetch, add_finalizer_if_not_present,
  remove_finalizer, start_prepare_volume_group_job, start_cluster_monitor,
  stop_check_cluster_status,
}
use nativestor.Operator.Cleaning.{
  check_topolvm_csi_driver_existing, check_and_create_psp, clean_cluster,
}

module _ (server : Server) (tests : ErrorTests) (setting : Setting) (config : Config) where
  abbrev pub set_up_hub : Bool → Control (Unit {0})
  set_up_hub false = pure tt
  set_up_hub true =
      check_topolvm_csi_driver_existing server tests >> check_and_create_psp server tests

  abbrev pub start_once : Cluster → Option Cluster → Control (Unit {0})
  start_once cluster (some kept) = pure tt
  start_once cluster none =
      note (keep_cluster (some cluster))
      >> (note start_lvmd_controller >> start_cluster_monitor server tests setting config)

  unfoldable pub on_add : Cluster → Control (Unit {0})
  unfolding check_topolvm_csi_driver_existing check_and_create_psp start_prepare_volume_group_job
      start_cluster_monitor
  on_add cluster = do
    set_up_hub config.is_operator_hub
    wrap "start prepare volume group failed"
        (start_prepare_volume_group_job server tests setting config cluster)
    kept ← read kept_cluster
    wrap "start cluster monitor failed" (start_once cluster kept)
    note (keep_cluster (some cluster))

  abbrev pub and_clean_up : Cluster → Control (Option (Unit {0}))
  and_clean_up cluster =
      if cluster.spec.clean_up
      then start_clean_up_jobs server tests setting cluster
      else pure (some tt)

  abbrev pub and_remove_finalizer : Cluster → Option (Unit {0}) → Control (Option (Unit {0}))
  and_remove_finalizer cluster none = pure none
  and_remove_finalizer cluster (some done) =
      wrap "failed to remove finalize" (remove_finalizer server tests setting config cluster.name)

  unfoldable pub reconcile_delete : Cluster → Control (Option (Unit {0}))
  unfolding stop_check_cluster_status clean_cluster start_clean_up_jobs remove_finalizer
  reconcile_delete cluster = do
    stop_check_cluster_status server tests setting config
    note (keep_cluster none)
    wrap "clean cluster failed" (clean_cluster server tests)
    cleaned ← and_clean_up cluster
    and_remove_finalizer cluster cleaned

  -- after the owner reference: no reference and no error ends the reconciliation as if it were done
  abbrev pub reconcile_owned : Cluster → Result (Option String) → Control (Option (Unit {0}))
  reconcile_owned cluster (err e) = fail (wrapped "failed to get controller %q owner reference" e)
  reconcile_owned cluster (ok none) = pure (some tt)
  reconcile_owned cluster (ok (some ref)) = do
    wrap "check storage config failed" (of_result (check_storage_config cluster.spec))
    wrap "failed to reconcile cluster %q" (on_add cluster)
    pure (some tt)

  abbrev pub reconcile_cluster : Cluster → Control (Option (Unit {0}))
  reconcile_cluster fetched = do
    cluster ←
        wrap "failed to add finalizer"
          (add_finalizer_if_not_present server tests setting config fetched)
    (if cluster.deleted
        then wrap "failed to clean cluster" (reconcile_delete cluster)
        else reconcile_owned cluster (config.owner_reference cluster))

  abbrev pub reconcile_fetched : Result Cluster → Control (Option (Unit {0}))
  reconcile_fetched (ok cluster) = reconcile_cluster cluster
  reconcile_fetched (err e) =
      if tests.is_not_found e
      then pure (some tt)
      else fail (wrapped "failed to get topolvm cluster" e)

  unfoldable pub reconcile : String → String → Control (Option (Unit {0}))
  unfolding verify_topolvm_cluster check_storage_config add_finalizer_if_not_present on_add
      reconcile_delete
  reconcile namespace name = do
    verify_topolvm_cluster server tests setting config namespace name
    fetched ← attempt (fetch server tests setting config name)
    reconcile_fetched fetched
