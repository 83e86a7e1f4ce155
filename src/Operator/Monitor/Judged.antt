-- ===== src/Operator/Monitor/Judged.antt =====
-- What the last loop of checkStatus makes of the phases and the metrics.
use nativestor.Prelude.{
  ◌==◌, ◌||◌, Bool, true, false, not, any, List, [], ◌∷◌, ◌≡◌, refl, All, ne_of_==, String, sym, ap,
  ◌∙◌, if◌then◌else◌, arith,
}
use nativestor.Errors.{Result, ok, err}
use nativestor.VolumeGroup.Types.{NodeStorageState}
use nativestor.Operator.Types.{
  Cluster, ClusterStatus, NodeStatusMetrics, Metrics, condition_ready, condition_unknown,
}
use nativestor.Operator.Monitor.{
  Answers, nothing, update, fail_metrics, serves, settle, judge, reports, merge, cluster_phase,
  next_status, send, report_cluster, check_status,
}

-- a Ready node has a ready class
abbrev pub Backed : NodeStorageState → Type 0
Backed n = n.phase ≡ condition_ready → serves n ≡ true

-- a metric of the node that tells of no fault
abbrev pub Truthful : NodeStorageState → NodeStatusMetrics → Type 0
Truthful n m = m.status ≡ 0 → n.node ≡ m.node → serves n ≡ true

settle-Backed : (n : NodeStorageState) → Backed (settle n)
settle-Backed n = by_test (serves n) refl
  where
    by_test :
        (b : Bool)
        → serves n ≡ b
        → (if b then n else record n { phase = condition_unknown }).phase ≡ condition_ready
        → serves (if b then n else record n { phase = condition_unknown }) ≡ true
    by_test true s e = s
    by_test false s e = cc

fail_metrics-Truthful :
    (n : NodeStorageState) (lost : Bool) (node : String) (metrics : List NodeStatusMetrics)
    → All (Truthful n) metrics
    → All (Truthful n) (fail_metrics lost node metrics)
fail_metrics-Truthful n false node metrics h = h
fail_metrics-Truthful n true node [] h = h
fail_metrics-Truthful n true node (m ∷ metrics) (p, h) =
    (by_test (m.node == node), fail_metrics-Truthful n true node metrics h)
  where
    by_test : (b : Bool) → Truthful n (if b then record m { status = 1 } else m)
    by_test true e = absurd (omega arith)
    by_test false e = p e

-- The metrics of a node with no ready class are failed.
fail_metrics-Truthful_own :
    (n : NodeStorageState) (metrics : List NodeStatusMetrics)
    → All (Truthful n) (fail_metrics (not (serves n)) n.node metrics)
fail_metrics-Truthful_own n metrics = by_test (serves n) refl metrics
  where
    by_test :
        (b : Bool)
        → serves n ≡ b
        → (metrics : List NodeStatusMetrics)
        → All (Truthful n) (fail_metrics (not b) n.node metrics)
    by_test true s [] = tt
    by_test true s (m ∷ metrics) = (λ _ _. s, by_test true s metrics)
    by_test false s [] = tt
    by_test false s (m ∷ metrics) = (λ e. own (m.node == n.node) refl e, by_test false s metrics)
      where
        own :
            (b : Bool)
            → (m.node == n.node) ≡ b
            → (if b then record m { status = 1 } else m).status ≡ 0
            → n.node ≡ (if b then record m { status = 1 } else m).node
            → serves n ≡ true
        own true t e k = absurd (omega arith)
        own false t e k = absurd (ne_of_== m.node n.node t (sym k))

judge-Truthful_given :
    (n : NodeStorageState) (status : List NodeStorageState) (metrics : List NodeStatusMetrics)
    (ready : Bool)
    → All (Truthful n) metrics
    → All (Truthful n) (judge status metrics ready).1
unfolding judge
judge-Truthful_given n [] metrics ready h = h
judge-Truthful_given n (m ∷ status) metrics ready h =
    judge-Truthful_given n status (fail_metrics (not (serves m)) m.node metrics)
      ((m.phase == condition_ready) || ready)
      (fail_metrics-Truthful n (not (serves m)) m.node metrics h)

settle-serves : (n : NodeStorageState) → serves (settle n) ≡ serves n
settle-serves n = by_test (serves n)
  where
    by_test :
        (b : Bool) → serves (if b then n else record n { phase = condition_unknown }) ≡ serves n
    by_test true = refl
    by_test false = refl

settle-node : (n : NodeStorageState) → (settle n).node ≡ n.node
settle-node n = by_test (serves n)
  where
    by_test : (b : Bool) → (if b then n else record n { phase = condition_unknown }).node ≡ n.node
    by_test true = refl
    by_test false = refl

settle-Truthful :
    (n : NodeStorageState) (metrics : List NodeStatusMetrics)
    → All (Truthful n) metrics
    → All (Truthful (settle n)) metrics
settle-Truthful n [] h = tt
settle-Truthful n (m ∷ metrics) (p, h) =
    (λ e k. settle-serves n ∙ p e (sym (settle-node n) ∙ k), settle-Truthful n metrics h)

pub judge-Backed :
    (status : List NodeStorageState) (metrics : List NodeStatusMetrics) (ready : Bool)
    → All Backed (judge status metrics ready).0
unfolding judge
judge-Backed [] metrics ready = tt
judge-Backed (n ∷ status) metrics ready = (
  settle-Backed n,
  judge-Backed status (fail_metrics (not (serves n)) n.node metrics)
      ((n.phase == condition_ready) || ready),
)

pub judge-Truthful :
    (status : List NodeStorageState) (metrics : List NodeStatusMetrics) (ready : Bool)
    → All (λ n. All (Truthful n) (judge status metrics ready).1) (judge status metrics ready).0
unfolding judge
judge-Truthful [] metrics ready = tt
judge-Truthful (n ∷ status) metrics ready = (
  settle-Truthful n (judge status failing later).1
      (judge-Truthful_given n status failing later (fail_metrics-Truthful_own n metrics)),
  judge-Truthful status failing later,
)
  where
    failing : List NodeStatusMetrics
    failing = fail_metrics (not (serves n)) n.node metrics

    later : Bool
    later = (n.phase == condition_ready) || ready

-- Whether the cluster is ready is read off the phases before this loop.
pub judge-ready :
    (status : List NodeStorageState) (metrics : List NodeStatusMetrics) (ready : Bool)
    → (judge status metrics ready).2
      ≡ (any (λ (n : NodeStorageState). n.phase == condition_ready) status || ready)
unfolding judge
judge-ready [] metrics ready = refl
judge-ready (n ∷ status) metrics ready =
    judge-ready status (fail_metrics (not (serves n)) n.node metrics)
      ((n.phase == condition_ready) || ready)
    ∙ by_cases (any (λ (n : NodeStorageState). n.phase == condition_ready) status)
        (n.phase == condition_ready)
  where
    by_cases : (a b : Bool) → (a || (b || ready)) ≡ ((b || a) || ready)
    by_cases true true = refl
    by_cases true false = refl
    by_cases false true = refl
    by_cases false false = refl

-- the nodes' entries before the last loop
abbrev pub merged : Answers → Cluster → List NodeStorageState
merged answers cluster = merge (reports answers cluster).0 cluster.status.node_storage_status

abbrev pub judged : Answers → Cluster → List NodeStorageState × List NodeStatusMetrics × Bool
judged answers cluster = judge (merged answers cluster) (reports answers cluster).1 false

-- What an update says.
pub record IsJudged (answers : Answers) (cluster : Cluster) (m : Metrics) (c : Cluster)
    : Type 0 where
  pub read : answers.cluster ≡ ok cluster
  pub entries : c.status.node_storage_status ≡ (judged answers cluster).0
  pub phases : c.status.phase ≡ (cluster_phase (judged answers cluster).2).0
  pub codes : m.cluster_status ≡ (cluster_phase (judged answers cluster).2).1
  pub metrics : m.node_status ≡ (judged answers cluster).1

module _ (deep_equal : ClusterStatus → ClusterStatus → Bool) (answers : Answers) where
  sent :
      (cluster : Cluster) (r : List NodeStorageState × List NodeStatusMetrics × Bool) {m : Metrics}
      {c : Cluster}
      → send deep_equal cluster r ≡ update m c
      → (c.status ≡ next_status r.0 r.2)
        × (m.cluster_status ≡ (cluster_phase r.2).1)
        × (m.node_status ≡ r.1)
  sent cluster (status, metrics, ready) h = ground arith

  pub check_status-IsJudged :
      {m : Metrics} {c : Cluster}
      → check_status deep_equal answers ≡ update m c
      → (cluster : Cluster) × IsJudged answers cluster m c
  unfolding check_status report_cluster
  check_status-IsJudged {m} {c} = by_answer answers.cluster refl
    where
      by_answer :
          (r : Result Cluster)
          → answers.cluster ≡ r
          → (elim r [ ok cluster ↦ report_cluster deep_equal answers cluster | err e ↦ nothing ])
            ≡ update m c
          → (cluster : Cluster) × IsJudged answers cluster m c
      by_answer (err e) r h = cc
      by_answer (ok cluster) r h =
          let (status, codes, metrics) = sent cluster (judged answers cluster) h in
          (
            cluster,
            record {
              read = r;
              entries = ap (λ (s : ClusterStatus). s.node_storage_status) status;
              phases = ap (λ (s : ClusterStatus). s.phase) status;
              codes = codes;
              metrics = metrics;
            },
          )
