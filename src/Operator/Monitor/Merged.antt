-- ===== src/Operator/Monitor/Merged.antt =====
-- What checkStatus keeps of the nodes' entries, and which nodes it reports.
use nativestor.Prelude.{
  ℕ, String, ◌==◌, ◌||◌, Bool, true, false, any, List, [], ◌∷◌, ◌≡◌, refl, ◌∙◌, All, if◌then◌else◌,
  some,
}
use nativestor.Prelude.Maps.{Map, lookup, insert-All, has, has-insert, has-insert_self, is_some}
use nativestor.Errors.{Result}
use nativestor.VolumeGroup.Types.{NodeStorageState}
use nativestor.Operator.Types.{Pod, NodeStatusMetrics, NodeCondition, condition_unknown}
use nativestor.Operator.Monitor.{
  items, new_state, Reports, record_node, report_pod, visit_pods, visit_node, visit_nodes, is_lost,
  set_lost, fail_metrics, visit_conditions,
}

-- A report of a node that is filed under its name, with no classes and no loops.
abbrev pub IsFresh : NodeStorageState → Type 0
IsFresh n = (n.success_classes ≡ []) × (n.fail_classes ≡ []) × (n.loops ≡ [])

abbrev pub Filed : String × NodeStorageState → Type 0
Filed (key, n) = (n.node ≡ key) × IsFresh n

record_node-Filed :
    (node : String) (p : String × ℕ) (r : Reports)
    → All Filed r.0
    → All Filed (record_node node p r).0
record_node-Filed node (phase, status) (states, metrics) h =
    insert-All Filed node (new_state node phase) states (refl, (refl, refl, refl)) h

module _ (node : String) where
  visit_pods-Filed :
      (pods : List Pod) (r : Reports) → All Filed r.0 → All Filed (visit_pods node pods r).0
  unfolding visit_pods
  visit_pods-Filed [] r h = h
  visit_pods-Filed (pod ∷ pods) r h =
      visit_pods-Filed pods
        (if pod.node_name == node then record_node node (report_pod pod) r else r)
        (by_test (pod.node_name == node))
    where
      by_test : (b : Bool) → All Filed (if b then record_node node (report_pod pod) r else r).0
      by_test true = record_node-Filed node (report_pod pod) r h
      by_test false = h

  visit_node-Filed :
      (pods : List Pod) (r : Reports) → All Filed r.0 → All Filed (visit_node pods node r).0
  unfolding visit_node
  visit_node-Filed pods r h = by_test (any (λ (p : Pod). p.node_name == node) pods)
    where
      by_test :
          (b : Bool)
          → All Filed
              (if b then visit_pods node pods r else record_node node (condition_unknown, 1) r).0
      by_test true = visit_pods-Filed pods r h
      by_test false = record_node-Filed node (condition_unknown, 1) r h

pub visit_nodes-Filed :
    (pods : List Pod) (nodes : List String) (r : Reports)
    → All Filed r.0
    → All Filed (visit_nodes pods nodes r).0
unfolding visit_nodes
visit_nodes-Filed pods [] r h = h
visit_nodes-Filed pods (node ∷ nodes) r h =
    visit_nodes-Filed pods nodes (visit_node pods node r) (visit_node-Filed node pods r h)

pub visit_conditions-Filed :
    (node : String → Result (List NodeCondition)) (states : Map NodeStorageState)
    (metrics : List NodeStatusMetrics)
    → All Filed states
    → All Filed (visit_conditions node states metrics).0
unfolding visit_conditions
visit_conditions-Filed node [] metrics h = tt
visit_conditions-Filed node ((key, state) ∷ states) metrics (f, h) = (
  by_test (is_lost (items (node key))),
  visit_conditions-Filed node states (fail_metrics (is_lost (items (node key))) key metrics) h,
)
  where
    by_test : (b : Bool) → Filed (key, set_lost b state)
    by_test true = f
    by_test false = f

-- Which nodes are reported.
record_node-has :
    (node other : String) (p : String × ℕ) (r : Reports)
    → has other r.0 ≡ true
    → has other (record_node node p r).0 ≡ true
record_node-has node other (phase, status) (states, metrics) h =
    has-insert node other (new_state node phase) states ∙ by_test (node == other)
  where
    by_test : (b : Bool) → (if b then true else has other states) ≡ true
    by_test true = refl
    by_test false = h

module _ (node other : String) where
  visit_pods-keeps :
      (pods : List Pod) (r : Reports)
      → has other r.0 ≡ true
      → has other (visit_pods node pods r).0 ≡ true
  unfolding visit_pods
  visit_pods-keeps [] r h = h
  visit_pods-keeps (pod ∷ pods) r h =
      visit_pods-keeps pods
        (if pod.node_name == node then record_node node (report_pod pod) r else r)
        (by_test (pod.node_name == node))
    where
      by_test :
          (b : Bool) → has other (if b then record_node node (report_pod pod) r else r).0 ≡ true
      by_test true = record_node-has node other (report_pod pod) r h
      by_test false = h

  visit_node-keeps :
      (pods : List Pod) (r : Reports)
      → has other r.0 ≡ true
      → has other (visit_node pods node r).0 ≡ true
  unfolding visit_node
  visit_node-keeps pods r h = by_test (any (λ (p : Pod). p.node_name == node) pods)
    where
      by_test :
          (b : Bool)
          → has other
              (if b then visit_pods node pods r else record_node node (condition_unknown, 1) r).0
            ≡ true
      by_test true = visit_pods-keeps pods r h
      by_test false = record_node-has node other (condition_unknown, 1) r h

record_node-has_self :
    (node : String) (p : String × ℕ) (r : Reports) → has node (record_node node p r).0 ≡ true
record_node-has_self node (phase, status) (states, metrics) =
    has-insert_self node (new_state node phase) states

visit_pods-has :
    (node : String) (pods : List Pod) (r : Reports)
    → any (λ (p : Pod). p.node_name == node) pods ≡ true
    → has node (visit_pods node pods r).0 ≡ true
unfolding visit_pods
visit_pods-has node [] r h = cc
visit_pods-has node (pod ∷ pods) r h =
    by_test (pod.node_name == node) h (visit_pods-has node pods r)
  where
    by_test :
        (b : Bool)
        → (b || any (λ (p : Pod). p.node_name == node) pods) ≡ true
        → (any (λ (p : Pod). p.node_name == node) pods ≡ true
            → has node (visit_pods node pods r).0 ≡ true)
        → has node (visit_pods node pods (if b then record_node node (report_pod pod) r else r)).0
          ≡ true
    by_test true h later =
        visit_pods-keeps node node pods (record_node node (report_pod pod) r)
          (record_node-has_self node (report_pod pod) r)
    by_test false h later = later h

visit_node-has :
    (pods : List Pod) (node : String) (r : Reports) → has node (visit_node pods node r).0 ≡ true
unfolding visit_node
visit_node-has pods node r = by_test (any (λ (p : Pod). p.node_name == node) pods) refl
  where
    by_test :
        (b : Bool)
        → any (λ (p : Pod). p.node_name == node) pods ≡ b
        → has node
            (if b then visit_pods node pods r else record_node node (condition_unknown, 1) r).0
          ≡ true
    by_test true e = visit_pods-has node pods r e
    by_test false e = record_node-has_self node (condition_unknown, 1) r

visit_nodes-keeps :
    (other : String) (pods : List Pod) (nodes : List String) (r : Reports)
    → has other r.0 ≡ true
    → has other (visit_nodes pods nodes r).0 ≡ true
unfolding visit_nodes
visit_nodes-keeps other pods [] r h = h
visit_nodes-keeps other pods (node ∷ nodes) r h =
    visit_nodes-keeps other pods nodes (visit_node pods node r)
      (visit_node-keeps node other pods r h)

pub visit_nodes-has :
    (pods : List Pod) (nodes : List String) (r : Reports)
    → All (λ node. has node (visit_nodes pods nodes r).0 ≡ true) nodes
unfolding visit_nodes
visit_nodes-has pods [] r = tt
visit_nodes-has pods (node ∷ nodes) r = (
  visit_nodes-keeps node pods nodes (visit_node pods node r) (visit_node-has pods node r),
  visit_nodes-has pods nodes (visit_node pods node r),
)

pub visit_conditions-has :
    (key : String) (node : String → Result (List NodeCondition)) (states : Map NodeStorageState)
    (metrics : List NodeStatusMetrics)
    → has key (visit_conditions node states metrics).0 ≡ has key states
unfolding visit_conditions lookup
visit_conditions-has key node [] metrics = refl
visit_conditions-has key node ((own, state) ∷ states) metrics =
    by_test (own == key)
      (visit_conditions-has key node states (fail_metrics (is_lost (items (node own))) own metrics))
  where
    later : Map NodeStorageState
    later = (visit_conditions node states (fail_metrics (is_lost (items (node own))) own metrics)).0

    by_test :
        (b : Bool)
        → has key later ≡ has key states
        → is_some
            (if b then some (set_lost (is_lost (items (node own))) state) else lookup key later)
          ≡ is_some (if b then some state else lookup key states)
    by_test true e = refl
    by_test false e = e
