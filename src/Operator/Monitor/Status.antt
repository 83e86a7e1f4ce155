-- ===== src/Operator/Monitor/Status.antt =====
-- The status and the metrics that checkStatus sends.
use nativestor.Prelude.{
  String, ◌==◌, ◌||◌, Bool, true, false, any, List, [], ◌∷◌, ◌≡◌, ap, ◌∙◌, All,
}
use nativestor.Prelude.Maps.{Map, has}
use nativestor.Errors.{ok}
use nativestor.VolumeGroup.Types.{NodeStorageState}
use nativestor.Operator.Types.{
  Cluster, ClusterStatus, Metrics, NodeStatusMetrics, condition_ready, condition_unknown,
}
use nativestor.Operator.Monitor.{
  Answers, update, watched_nodes, serves, merge, judge, reports, cluster_phase, check_status,
}
use nativestor.Operator.Monitor.Judged.{
  Backed, Truthful, IsJudged, judge-Backed, judge-Truthful, judge-ready, merged, judged,
  check_status-IsJudged,
}
use nativestor.Operator.Monitor.Kept.{named, Extends}
use nativestor.Operator.Monitor.Reported.{
  merge-Extends, merge-named, judge-bare, judge-named, judge-unserved, reports-Filed, reports-has,
}

module _ (deep_equal : ClusterStatus → ClusterStatus → Bool) (answers : Answers) {m : Metrics}
    {c : Cluster} (sent : check_status deep_equal answers ≡ update m c) where
  -- After an update each node with phase Ready has a class that is ready, and so has each entry whose
  -- node has a metric that tells of no fault.
  pub check_status-Honest :
      All Backed c.status.node_storage_status
      × All (λ n. All (Truthful n) m.node_status) c.status.node_storage_status
  check_status-Honest = by_cluster (check_status-IsJudged deep_equal answers sent)
    where
      by_cluster :
          (cluster : Cluster) × IsJudged answers cluster m c
          → All Backed c.status.node_storage_status
            × All (λ n. All (Truthful n) m.node_status) c.status.node_storage_status
      by_cluster (cluster, j) =
          rw (j.entries, j.metrics)
            (
              judge-Backed (merged answers cluster) (reports answers cluster).1 false,
              judge-Truthful (merged answers cluster) (reports answers cluster).1 false,
            )

  module _ (cluster : Cluster) (read : answers.cluster ≡ ok cluster) where
    of_cluster : IsJudged answers cluster m c
    of_cluster = by_cluster (check_status-IsJudged deep_equal answers sent)
      where
        by_cluster : (other : Cluster) × IsJudged answers other m c → IsJudged answers cluster m c
        by_cluster (other, j) = rw (← same j.read) j
          where
            same : answers.cluster ≡ ok other → other ≡ cluster
            same e = cc

    -- An update keeps the entries of the nodes in their order and changes only their phases; entries
    -- that it adds come after them and have no class and no loop. Each node that is to be reported
    -- has an entry.
    pub check_status-Extends :
        Extends cluster.status.node_storage_status c.status.node_storage_status
        × All
            (λ node. named node c.status.node_storage_status ≡ true)
            (watched_nodes answers.config_maps cluster)
    check_status-Extends = rw of_cluster.entries (
      kept (merge-Extends states old (reports-Filed answers cluster)),
      reported (watched_nodes answers.config_maps cluster) (reports-has answers cluster),
    )
      where
        states : Map NodeStorageState
        states = (reports answers cluster).0

        metrics : List NodeStatusMetrics
        metrics = (reports answers cluster).1

        old : List NodeStorageState
        old = cluster.status.node_storage_status

        kept :
            Extends old (merge states old) → Extends old (judge (merge states old) metrics false).0
        kept (added, e, f) = (added, judge-bare (merge states old) metrics false ∙ e, f)

        reported :
            (nodes : List String)
            → All (λ node. has node states ≡ true) nodes
            → All (λ node. named node (judge (merge states old) metrics false).0 ≡ true) nodes
        reported [] h = tt
        reported (node ∷ nodes) (p, h) = (
          judge-named node (merge states old) metrics false
              ∙ merge-named node states old (reports-Filed answers cluster) p,
          reported nodes h,
        )

    -- If no node has a class that is ready, and a node's phase is Ready before the classes are looked
    -- at, an update says of every node that it is Unknown, and of the cluster that it is Ready.
    pub check_status-ready_unserved :
        All (λ n. serves n ≡ false) (merged answers cluster)
        → any (λ (n : NodeStorageState). n.phase == condition_ready) (merged answers cluster) ≡ true
        → All (λ n. n.phase ≡ condition_unknown) c.status.node_storage_status
          × (c.status.phase ≡ condition_ready)
          × (m.cluster_status ≡ 0)
    check_status-ready_unserved h e = (
      rw of_cluster.entries
          (judge-unserved (merged answers cluster) (reports answers cluster).1 false h),
      of_cluster.phases ∙ ap (λ b. (cluster_phase b).0) is_ready,
      of_cluster.codes ∙ ap (λ b. (cluster_phase b).1) is_ready,
    )
      where
        is_ready : (judged answers cluster).2 ≡ true
        is_ready =
            judge-ready (merged answers cluster) (reports answers cluster).1 false
            ∙ ap (λ b. b || false) e
