-- ===== src/Operator/Monitor/Reported.antt =====
-- What an update of checkStatus says of the nodes and of the cluster.
use nativestor.Prelude.{
  String, ◌==◌, ◌||◌, Bool, true, false, not, List, [], ◌∷◌, map, ◌≡◌, refl, ap, ◌∙◌, All, eq_iff,
  some, if◌then◌else◌,
}
use nativestor.Prelude.Maps.{Map, lookup, has, is_some}
use nativestor.VolumeGroup.Types.{NodeStorageState}
use nativestor.Operator.Types.{Cluster, NodeStatusMetrics, condition_ready, condition_unknown}
use nativestor.Operator.Monitor.{
  Answers, Reports, items, watched_nodes, visit_nodes, serves, fail_metrics, merge_one, merge,
  judge, reports, visit_conditions,
}
use nativestor.Operator.Monitor.Merged.{
  Filed, visit_nodes-Filed, visit_conditions-Filed, visit_nodes-has, visit_conditions-has,
}
use nativestor.Operator.Monitor.Kept.{
  bare, named, Extends, Extends-of_bare, Extends-trans, merge_one-Extends, merge_one-named,
  merge_one-named_self,
}

pub merge-Extends :
    (states : Map NodeStorageState) (status : List NodeStorageState)
    → All Filed states
    → Extends status (merge states status)
unfolding merge
merge-Extends [] status h = Extends-of_bare status status refl
merge-Extends ((key, val) ∷ states) status (f, h) =
    Extends-trans status (merge_one key val status) (merge states (merge_one key val status))
      (merge_one-Extends key val status f.1) (merge-Extends states (merge_one key val status) h)

merge-named_old :
    (other : String) (states : Map NodeStorageState) (status : List NodeStorageState)
    → named other status ≡ true
    → named other (merge states status) ≡ true
unfolding merge
merge-named_old other [] status h = h
merge-named_old other ((key, val) ∷ states) status h =
    merge-named_old other states (merge_one key val status) (merge_one-named key val other status h)

pub merge-named :
    (other : String) (states : Map NodeStorageState) (status : List NodeStorageState)
    → All Filed states
    → has other states ≡ true
    → named other (merge states status) ≡ true
unfolding merge lookup
merge-named other [] status f h = cc
merge-named other ((key, val) ∷ states) status (f, g) h =
    by_test (key == other) refl h (merge-named other states (merge_one key val status) g)
  where
    by_test :
        (b : Bool)
        → (key == other) ≡ b
        → is_some (if b then some val else lookup other states) ≡ true
        → (has other states ≡ true → named other (merge states (merge_one key val status)) ≡ true)
        → named other (merge states (merge_one key val status)) ≡ true
    by_test true e h later =
        merge-named_old other states (merge_one key val status)
          (rw (← (eq_iff key other).0 e) (merge_one-named_self key val status f.0))
    by_test false e h later = later h

pub judge-bare :
    (status : List NodeStorageState) (metrics : List NodeStatusMetrics) (ready : Bool)
    → map bare (judge status metrics ready).0 ≡ map bare status
unfolding judge
judge-bare [] metrics ready = refl
judge-bare (n ∷ status) metrics ready = cc (
  same (serves n),
  judge-bare status (fail_metrics (not (serves n)) n.node metrics)
      ((n.phase == condition_ready) || ready),
)
  where
    same : (b : Bool) → bare (if b then n else record n { phase = condition_unknown }) ≡ bare n
    same true = refl
    same false = refl

pub judge-named :
    (key : String) (status : List NodeStorageState) (metrics : List NodeStatusMetrics)
    (ready : Bool)
    → named key (judge status metrics ready).0 ≡ named key status
unfolding judge
judge-named key [] metrics ready = refl
judge-named key (n ∷ status) metrics ready = rw (same (serves n)) (
    ap (λ b. (n.node == key) || b)
      (judge-named key status (fail_metrics (not (serves n)) n.node metrics)
        ((n.phase == condition_ready) || ready)))
  where
    same : (b : Bool) → (if b then n else record n { phase = condition_unknown }).node ≡ n.node
    same true = refl
    same false = refl

-- The phases that the last loop leaves where no node has a ready class.
pub judge-unserved :
    (status : List NodeStorageState) (metrics : List NodeStatusMetrics) (ready : Bool)
    → All (λ n. serves n ≡ false) status
    → All (λ n. n.phase ≡ condition_unknown) (judge status metrics ready).0
unfolding judge
judge-unserved [] metrics ready h = tt
judge-unserved (n ∷ status) metrics ready (p, h) = (
  rw p refl,
  judge-unserved status (fail_metrics (not (serves n)) n.node metrics)
      ((n.phase == condition_ready) || ready) h,
)

pub reports-Filed : (answers : Answers) (cluster : Cluster) → All Filed (reports answers cluster).0
unfolding reports
reports-Filed answers cluster =
    let nodes : List String = watched_nodes answers.config_maps cluster in
    let visited : Reports = visit_nodes (items answers.pods) nodes ([], []) in
    visit_conditions-Filed answers.node visited.0 visited.1
      (visit_nodes-Filed (items answers.pods) nodes ([], []) tt)

pub reports-has :
    (answers : Answers) (cluster : Cluster)
    → All
        (λ node. has node (reports answers cluster).0 ≡ true)
        (watched_nodes answers.config_maps cluster)
unfolding reports
reports-has answers cluster =
    kept (watched_nodes answers.config_maps cluster)
      (visit_nodes-has (items answers.pods) (watched_nodes answers.config_maps cluster) ([], []))
  where
    visited : Reports
    visited = visit_nodes (items answers.pods) (watched_nodes answers.config_maps cluster) ([], [])

    kept :
        (nodes : List String)
        → All (λ node. has node visited.0 ≡ true) nodes
        → All (λ node. has node (visit_conditions answers.node visited.0 visited.1).0 ≡ true) nodes
    kept [] h = tt
    kept (node ∷ nodes) (p, h) =
        (visit_conditions-has node answers.node visited.0 visited.1 ∙ p, kept nodes h)
