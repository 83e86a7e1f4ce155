-- ===== src/Operator/LvmdConfig/Asked.antt =====
-- The handlers of config maps send nothing but requests, and the deletion of pods.
use nativestor.Prelude.{String, ◌==◌, ◌||◌, not, refl, List}
use nativestor.Errors.{Result, ok, err, wrapped}
use nativestor.Api.{pure, fail, of_result, attempt, ignore, wrap, request, ◌>>=◌, ◌>>◌}
use nativestor.VolumeGroup.Types.{NodeStorageState}
use nativestor.VolumeGroup.Lvmd.{ConfigMap}
use nativestor.K8s.Status.{or_update, try_update, or_retry, update_status}
use nativestor.Operator.Types.{Cluster}
use nativestor.Operator.Requests.{
  Event, Server, Control, send, get_cluster, put_cluster, put_status,
}
use nativestor.Operator.Requests.Trace.{
  IsTrace, Respects, request-Respects, if-Respects, >>=-Respects, >>-Respects, send-Respects,
}
use nativestor.Operator.Jobs.{Setting}
use nativestor.Operator.LvmdConfig.{
  LvmdSetting, or_save, update_node_status, report_status, status_of, update_cluster_status,
  check_update_cluster_status,
}

module _ {R : List Event → List Event → Type 0} (t : IsTrace R) (server : Server) (jobs : Setting)
    (setting : LvmdSetting) where
  -- Status().Update and Update of a cluster
  abbrev pub put_status_of : Cluster → Control Cluster
  put_status_of c = send server (put_status c) >> pure c

  abbrev pub put_cluster_of : Cluster → Control Cluster
  put_cluster_of c = send server (put_cluster c) >> pure c

  abbrev try : Cluster → Control Cluster
  try c = try_update setting.tests setting.conflicts put_status_of put_cluster_of c

  pub or_update-Respects :
      (c : Cluster) (r : Result Cluster)
      → Respects t (or_update setting.tests setting.conflicts put_status_of put_cluster_of c r)
  or_update-Respects c (ok o) = t.stay
  or_update-Respects c (err e) =
      if-Respects t (setting.tests.is_not_found e) (put_cluster_of c) (fail e)
        (>>-Respects t (send server (put_cluster c)) (pure c)
          (send-Respects t server (put_cluster c) refl) t.stay)
        t.stay

  put-Respects : (c : Cluster) → Respects t (try c)
  put-Respects c =
      >>=-Respects t (attempt (put_status_of c))
        (or_update setting.tests setting.conflicts put_status_of put_cluster_of c)
        (>>-Respects t (send server (put_status c)) (pure c)
          (send-Respects t server (put_status c) refl) t.stay)
        (or_update-Respects c)

  pub or_retry-Respects :
      (c : Cluster) (r : Result Cluster)
      → Respects t (or_retry setting.tests setting.conflicts put_status_of put_cluster_of c r)
  or_retry-Respects c (ok o) = t.stay
  or_retry-Respects c (err e) =
      if-Respects t (not (setting.conflicts.is_conflict e) || not (setting.conflicts.is_invalid e))
        (fail (wrapped "failed to update object %q status" e))
        (wrap "failed to update object %q status" (try c >>= λ o. pure tt)) t.stay
        (>>=-Respects t (try c) (λ o. pure tt) (put-Respects c) (λ o. t.stay))

  update_status-Respects :
      (c : Cluster)
      → Respects t (update_status setting.tests setting.conflicts put_status_of put_cluster_of c)
  unfolding update_status
  update_status-Respects c =
      >>=-Respects t (attempt (try c))
        (or_retry setting.tests setting.conflicts put_status_of put_cluster_of c) (put-Respects c)
        (or_retry-Respects c)

  pub update_node_status-Respects :
      (state : NodeStorageState) → Respects t (update_node_status server jobs setting state)
  unfolding update_node_status
  update_node_status-Respects state =
      >>=-Respects t
        (attempt (
          request (get_cluster setting.cluster_name)
            (λ log. server.cluster log setting.cluster_name)))
        (or_save server jobs setting state)
        (request-Respects t (get_cluster setting.cluster_name)
          (λ log. server.cluster log setting.cluster_name) refl)
        by_answer
    where
      by_answer : (r : Result Cluster) → Respects t (or_save server jobs setting state r)
      by_answer (ok cluster) = update_status-Respects _
      by_answer (err e) =
          if-Respects t (setting.tests.is_not_found e) (pure tt) (fail _) t.stay t.stay

  report-Respects : (s : String) → Respects t (report_status server jobs setting s)
  report-Respects s =
      >>=-Respects t (of_result (setting.codec.unmarshal_status s))
        (λ state.
          wrap "update node %s status failed" (update_node_status server jobs setting state))
        t.stay update_node_status-Respects

  pub update_cluster_status-Respects :
      (cm : ConfigMap) → Respects t (update_cluster_status server jobs setting cm)
  unfolding update_cluster_status
  update_cluster_status-Respects cm =
      if-Respects t (status_of server jobs setting cm == "") (pure tt)
        (ignore (report_status server jobs setting (status_of server jobs setting cm))) t.stay
        (report-Respects (status_of server jobs setting cm))

  pub check_update-Respects :
      (old new : ConfigMap) → Respects t (check_update_cluster_status server jobs setting old new)
  unfolding check_update_cluster_status
  check_update-Respects old new =
      if-Respects t
        ((status_of server jobs setting new == "")
          || (status_of server jobs setting old == status_of server jobs setting new))
        (pure tt) (report_status server jobs setting (status_of server jobs setting new)) t.stay
        (report-Respects (status_of server jobs setting new))
