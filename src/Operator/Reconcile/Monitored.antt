-- ===== src/Operator/Reconcile/Monitored.antt =====
-- The status monitor across reconciliations and events of config maps.
use nativestor.Prelude.{
  String, ◌≡◌, refl, sym, ap, ◌∙◌, Bool, true, false, List, [], ◌∷◌, Option, none, some,
  if◌then◌else◌,
}
use nativestor.Prelude.Maps.{is_some}
use nativestor.Errors.{Result, ok, err, wrapped, ErrorTests}
use nativestor.Api.{pure, fail, of_result, attempt, wrap, ◌>>=◌, ◌>>◌}
use nativestor.VolumeGroup.Lvmd.{ConfigMap}
use nativestor.Operator.Types.{Cluster}
use nativestor.Operator.Requests.{
  Event, Server, Control, note, read, kept_cluster, is_monitoring, keep_cluster,
  start_lvmd_controller, start_monitor, stop_monitor,
}
use nativestor.Operator.Requests.Trace.{
  is_request, IsTrace, Respects, if-Respects, >>=-Respects, >>-Respects,
}
use nativestor.Operator.Jobs.{Setting, start_clean_up_jobs}
use nativestor.Operator.Jobs.Asked.{IsPoll, start_clean_up_jobs-Respects}
use nativestor.Operator.Cleaning.{
  check_topolvm_csi_driver_existing, check_and_create_psp, clean_cluster,
}
use nativestor.Operator.Cleaning.Asked.{
  check_driver-Respects, check_and_create_psp-Respects, clean_cluster-Respects,
}
use nativestor.Operator.Controller.{
  Config, verify_topolvm_cluster, check_storage_config, fetch, add_finalizer_if_not_present,
  start_prepare_volume_group_job, start_cluster_monitor, stop_check_cluster_status,
}
use nativestor.Operator.Controller.Asked.{
  verify-Respects, fetch-Respects, add_finalizer-Respects, remove_finalizer-Respects,
  start_prepare-Respects,
}
use nativestor.Operator.LvmdConfig.{LvmdSetting, on_add_config_map, on_update}
use nativestor.Operator.LvmdConfig.Handled.{on_add-Respects, on_update-Respects}
use nativestor.Operator.Reconcile.{
  set_up_hub, start_once, on_add, and_clean_up, and_remove_finalizer, reconcile_delete,
  reconcile_owned, reconcile_fetched, reconcile,
}

-- The monitor runs exactly while the controller keeps a cluster.
abbrev pub InStep : List Event → Type 0
InStep log = is_monitoring log ≡ is_some (kept_cluster log)

abbrev Keeps : List Event → List Event → Type 0
Keeps log later = InStep log → InStep later

ask-InStep :
    (event : Event) (log : List Event) → is_request event ≡ true → InStep log → InStep (event ∷ log)
ask-InStep (keep_cluster c) log h = cc
ask-InStep start_lvmd_controller log h = cc
ask-InStep start_monitor log h = cc
ask-InStep stop_monitor log h = cc
ask-InStep event log h = λ k. k

Keeps-IsTrace : IsTrace Keeps
Keeps-IsTrace = record { stay = λ log k. k; join = λ a b c f g k. g (f k); ask = ask-InStep }

module _ (server : Server) (tests : ErrorTests) (setting : Setting) (config : Config)
    (polls : IsPoll setting.poll) where
  set_up-Keeps : (b : Bool) → Respects Keeps-IsTrace (set_up_hub server tests setting config b)
  set_up-Keeps false = λ log k. k
  set_up-Keeps true =
      >>-Respects Keeps-IsTrace (check_topolvm_csi_driver_existing server tests)
        (check_and_create_psp server tests) (check_driver-Respects Keeps-IsTrace server tests)
        (check_and_create_psp-Respects Keeps-IsTrace server tests)

  -- the end of onAdd
  abbrev finish_add : Cluster → Control (Unit {0})
  finish_add cluster = read kept_cluster >>= λ kept.
      wrap "start cluster monitor failed" (start_once server tests setting config cluster kept)
      >> note (keep_cluster (some cluster))

  finish-Keeps : (cluster : Cluster) → Respects Keeps-IsTrace (finish_add cluster)
  unfolding start_cluster_monitor
  finish-Keeps cluster log k = by_kept (kept_cluster log) (is_monitoring log) refl refl k
    where
      by_kept :
          (o : Option Cluster) (b : Bool)
          → kept_cluster log ≡ o
          → is_monitoring log ≡ b
          → InStep log
          → InStep (finish_add cluster log).1
      by_kept (some c) b p q k = rw (p, q) (sym q ∙ (k ∙ ap is_some p))
      by_kept none true p q k = rw (p, q) q
      by_kept none false p q k = rw (p, q) refl

  on_add-Keeps :
      (cluster : Cluster) → Respects Keeps-IsTrace (on_add server tests setting config cluster)
  unfolding on_add
  on_add-Keeps cluster =
      >>-Respects Keeps-IsTrace (set_up_hub server tests setting config config.is_operator_hub)
        (prepare >> finish_add cluster) (set_up-Keeps config.is_operator_hub)
        (>>-Respects Keeps-IsTrace prepare (finish_add cluster)
          (start_prepare-Respects Keeps-IsTrace server tests setting config polls cluster)
          (finish-Keeps cluster))
    where
      prepare : Control (Unit {0})
      prepare =
          wrap "start prepare volume group failed"
            (start_prepare_volume_group_job server tests setting config cluster)

  -- the beginning of reconcileDelete, and what comes after it
  forget-Keeps :
      (rest : Control (Option (Unit {0})))
      → Respects Keeps-IsTrace rest
      → Respects Keeps-IsTrace (
          stop_check_cluster_status server tests setting config
          >> (note (keep_cluster none) >> rest))
  unfolding stop_check_cluster_status
  forget-Keeps rest h log k = by_test (is_monitoring log) refl
    where
      by_test :
          (b : Bool)
          → is_monitoring log ≡ b
          → InStep
              ((stop_check_cluster_status server tests setting config
                  >> (note (keep_cluster none) >> rest))
                log).1
      by_test true q = rw q (h (keep_cluster none ∷ stop_monitor ∷ log) refl)
      by_test false q = rw q (h (keep_cluster none ∷ log) q)

  clean_up-Keeps :
      (cluster : Cluster)
      → Respects Keeps-IsTrace (and_clean_up server tests setting config cluster)
  clean_up-Keeps cluster =
      if-Respects Keeps-IsTrace cluster.spec.clean_up
        (start_clean_up_jobs server tests setting cluster) (pure (some tt))
        (start_clean_up_jobs-Respects Keeps-IsTrace server tests setting polls cluster) (λ log k. k)

  reconcile_delete-Keeps :
      (cluster : Cluster)
      → Respects Keeps-IsTrace (reconcile_delete server tests setting config cluster)
  unfolding reconcile_delete
  reconcile_delete-Keeps cluster =
      forget-Keeps (wrap "clean cluster failed" (clean_cluster server tests) >> finish) (
        >>-Respects Keeps-IsTrace (wrap "clean cluster failed" (clean_cluster server tests)) finish
          (clean_cluster-Respects Keeps-IsTrace server tests)
          (>>=-Respects Keeps-IsTrace (and_clean_up server tests setting config cluster)
            (and_remove_finalizer server tests setting config cluster) (clean_up-Keeps cluster)
            by_cleaned))
    where
      finish : Control (Option (Unit {0}))
      finish =
          and_clean_up server tests setting config cluster
          >>= and_remove_finalizer server tests setting config cluster

      by_cleaned :
          (o : Option (Unit {0}))
          → Respects Keeps-IsTrace (and_remove_finalizer server tests setting config cluster o)
      by_cleaned none = λ log k. k
      by_cleaned (some done) =
          remove_finalizer-Respects Keeps-IsTrace server tests setting config cluster.name

  owned-Keeps :
      (cluster : Cluster) (r : Result (Option String))
      → Respects Keeps-IsTrace (reconcile_owned server tests setting config cluster r)
  owned-Keeps cluster (err e) = λ log k. k
  owned-Keeps cluster (ok none) = λ log k. k
  owned-Keeps cluster (ok (some ref)) =
      >>-Respects Keeps-IsTrace
        (wrap "check storage config failed" (of_result (check_storage_config cluster.spec)))
        (add >> pure (some tt)) (λ log k. k)
        (>>-Respects Keeps-IsTrace add (pure (some tt)) (on_add-Keeps cluster) (λ log k. k))
    where
      add : Control (Unit {0})
      add = wrap "failed to reconcile cluster %q" (on_add server tests setting config cluster)

  fetched-Keeps :
      (r : Result Cluster)
      → Respects Keeps-IsTrace (reconcile_fetched server tests setting config r)
  fetched-Keeps (err e) =
      if-Respects Keeps-IsTrace (tests.is_not_found e) (pure (some tt))
        (fail (wrapped "failed to get topolvm cluster" e)) (λ log k. k) (λ log k. k)
  fetched-Keeps (ok fetched) =
      >>=-Respects Keeps-IsTrace
        (wrap "failed to add finalizer"
          (add_finalizer_if_not_present server tests setting config fetched))
        rest (add_finalizer-Respects Keeps-IsTrace server tests setting config fetched)
        (λ cluster.
          if-Respects Keeps-IsTrace cluster.deleted
            (wrap "failed to clean cluster" (reconcile_delete server tests setting config cluster))
            (reconcile_owned server tests setting config cluster (config.owner_reference cluster))
            (reconcile_delete-Keeps cluster) (owned-Keeps cluster (config.owner_reference cluster)))
    where
      rest : Cluster → Control (Option (Unit {0}))
      rest cluster =
          if cluster.deleted
          then wrap "failed to clean cluster" (reconcile_delete server tests setting config cluster)
          else reconcile_owned server tests setting config cluster (config.owner_reference cluster)

  reconcile-Keeps :
      (namespace name : String)
      → Respects Keeps-IsTrace (reconcile server tests setting config namespace name)
  unfolding reconcile
  reconcile-Keeps namespace name =
      >>-Respects Keeps-IsTrace (verify_topolvm_cluster server tests setting config namespace name)
        (attempt (fetch server tests setting config name)
          >>= reconcile_fetched server tests setting config)
        (verify-Respects Keeps-IsTrace server tests setting config namespace name)
        (>>=-Respects Keeps-IsTrace (attempt (fetch server tests setting config name))
          (reconcile_fetched server tests setting config)
          (fetch-Respects Keeps-IsTrace server tests setting config name) fetched-Keeps)

  module _ (lvmd : LvmdSetting) where
    -- What the operator has done since it started: reconciliations, whatever they ended with, and events
    -- of the nodes' config maps.
    pub data History : List Event → Type 0 where
      started : History []
      reconciled :
          {log later : List Event}
          → History log
          → (namespace name : String)
          → later ≡ (reconcile server tests setting config namespace name log).1
          → History later
      added :
          {log later : List Event}
          → History log
          → (cm : ConfigMap) → later ≡ (on_add_config_map server setting lvmd cm log).1
          → History later
      updated :
          {log later : List Event}
          → History log
          → (old new : ConfigMap) → later ≡ (on_update server setting lvmd old new log).1
          → History later

    -- At every time the status monitor runs exactly if the controller keeps a cluster, if wait.Poll
    -- does nothing but run its condition.
    pub History-InStep : {log : List Event} → History log → InStep log
    History-InStep started = refl
    History-InStep (reconciled {log} h namespace name e) =
        rw e (reconcile-Keeps namespace name log (History-InStep h))
    History-InStep (added {log} h cm e) =
        rw e (on_add-Respects Keeps-IsTrace server setting lvmd cm log (History-InStep h))
    History-InStep (updated {log} h old new e) = rw e (
        on_update-Respects Keeps-IsTrace server setting lvmd (λ name log k. k) polls old new log
          (History-InStep h))
