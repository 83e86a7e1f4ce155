-- ===== src/Operator/LvmdConfig/Entries.antt =====
-- The status of the cluster as a map from nodes to their states, which UpdateStatus updates.
use mathlib.Core.Path.{fun_ext}
use nativestor.Prelude.{
  String, ◌==◌, ◌≡◌, refl, Bool, true, false, List, [], ◌∷◌, Option, none, some, eq_iff, arith,
  if◌then◌else◌,
}
use nativestor.Errors.{Result, ok, err}
use nativestor.Api.{pure, and_then}
use nativestor.VolumeGroup.Types.{NodeStorageState}
use nativestor.K8s.Status.{update_status, or_update, or_retry}
use nativestor.Operator.Types.{Cluster}
use nativestor.Operator.Requests.{Event, Server, of_error, get_cluster, put_status}
use nativestor.Operator.Requests.Trace.{Grows-IsTrace, Occurs, Occurs-Grows}
use nativestor.Operator.Jobs.{Setting}
use nativestor.Operator.LvmdConfig.Asked.{
  put_status_of, put_cluster_of, or_update-Respects, or_retry-Respects,
}
use nativestor.Operator.LvmdConfig.{LvmdSetting, set_entry, update_node_status}

-- The abstract status: each node has one state or none.
abbrev pub View : Type 0
View = String → Option NodeStorageState

unfoldable pub view : List NodeStorageState → View
view [] key = none
view (entry ∷ entries) key = if entry.node == key then some entry else view entries key

abbrev pub put : NodeStorageState → View → View
put state m key = if state.node == key then some state else m key

set_entry-view :
    (state : NodeStorageState) (entries : List NodeStorageState) (key : String)
    → view (set_entry state entries) key ≡ put state (view entries) key
unfolding set_entry view
set_entry-view state [] key = refl
set_entry-view state (entry ∷ entries) key =
    by_test (entry.node == state.node) refl (set_entry-view state entries key)
  where
    by_test :
        (b : Bool)
        → (entry.node == state.node) ≡ b
        → view (set_entry state entries) key ≡ put state (view entries) key
        → view (if b then state ∷ entries else entry ∷ set_entry state entries) key
          ≡ put state (view (entry ∷ entries)) key
    by_test true e h =
        ground (arith, eq_iff entry.node state.node, eq_iff entry.node key, eq_iff state.node key)
    by_test false e h =
        ground
          (arith, h, eq_iff entry.node state.node, eq_iff entry.node key, eq_iff state.node key)

module _ (server : Server) (jobs : Setting) (setting : LvmdSetting) (state : NodeStorageState)
    (cluster : Cluster) (log : List Event) where
  -- the cluster with the node's state in its status
  abbrev pub with_entry : Cluster
  with_entry = record cluster {
    status = record cluster.status {
      node_storage_status = set_entry state cluster.status.node_storage_status;
    };
  }

  put-Occurs :
      (log : List Event)
      → Occurs
          (put_status with_entry)
          (update_status setting.tests setting.conflicts
            (put_status_of Grows-IsTrace server jobs setting)
            (put_cluster_of Grows-IsTrace server jobs setting)
            with_entry
            log).1
  unfolding update_status
  put-Occurs log = by_answer (of_error (server.accepts log (put_status with_entry)))
    where
      sent : List Event
      sent = put_status with_entry ∷ log

      answered : Result (Unit {0}) → Result Cluster × List Event
      answered r = and_then r (λ done. pure with_entry) sent

      answered_occurs : (r : Result (Unit {0})) → Occurs (put_status with_entry) (answered r).1
      answered_occurs (ok done) = ([], log, refl)
      answered_occurs (err e) = ([], log, refl)

      tried : Result (Unit {0}) → Result Cluster × List Event
      tried r =
          or_update setting.tests setting.conflicts
            (put_status_of Grows-IsTrace server jobs setting)
            (put_cluster_of Grows-IsTrace server jobs setting) with_entry (answered r).0
            (answered r).1

      by_answer :
          (r : Result (Unit {0}))
          → Occurs
              (put_status with_entry)
              (or_retry setting.tests setting.conflicts
                (put_status_of Grows-IsTrace server jobs setting)
                (put_cluster_of Grows-IsTrace server jobs setting)
                with_entry
                (tried r).0
                (tried r).1).1
      by_answer r =
          Occurs-Grows (put_status with_entry) (tried r).1 _
            (Occurs-Grows (put_status with_entry) (answered r).1 (tried r).1 (answered_occurs r) (
              or_update-Respects Grows-IsTrace server jobs setting with_entry (answered r).0
                (answered r).1))
            (or_retry-Respects Grows-IsTrace server jobs setting with_entry (tried r).0 (tried r).1)

  -- Where UpdateStatus finds the cluster, it writes a status that differs from the cluster's in the
  -- entries of nodes only, and that as a map from nodes to states is the cluster's with the new state
  -- put at its node.
  pub update_node_status-put :
      server.cluster log setting.cluster_name ≡ ok cluster
      → Occurs (put_status with_entry) (update_node_status server jobs setting state log).1
        × (with_entry.status.phase ≡ cluster.status.phase)
        × (view with_entry.status.node_storage_status
            ≡ put state (view cluster.status.node_storage_status))
  unfolding update_node_status
  update_node_status-put found = (
    rw found (put-Occurs (get_cluster setting.cluster_name ∷ log)),
    refl,
    fun_ext (set_entry-view state cluster.status.node_storage_status),
  )
