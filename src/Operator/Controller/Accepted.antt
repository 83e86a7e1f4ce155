-- ===== src/Operator/Controller/Accepted.antt =====
-- Which clusters a reconciliation goes on with.
use nativestor.Prelude.{
  Among, zero, suc, ◌≤◌, String, ◌==◌, ◌≡◌, refl, ap, ◌∙◌, ltb, Bool, true, false, List, [], ◌∷◌,
  Option, none, some, ◌↔◌, All, length, ◌<◌, eq_iff, arith, if◌then◌else◌,
}
use nativestor.Prelude.Maps.{is_some}
use nativestor.Errors.{Result, ok, err, ErrorTests}
use nativestor.Api.{of_result, wrap, ◌>>=◌}
use nativestor.Operator.Types.{Cluster, ClusterSpec}
use nativestor.Operator.Requests.{Event, Server}
use nativestor.Operator.Jobs.{Setting}
use nativestor.Operator.Controller.{
  Config, oldest, admit, verify_topolvm_cluster, check_storage_config,
}

-- What a storage configuration may say: with all nodes a volume group and a class and no classes by
-- node, and with all devices all nodes and no list of devices.
pub record IsSound (spec : ClusterSpec) : Type 0 where
  pub all_nodes_named :
      spec.use_all_nodes ≡ true
      → ((spec.storage.volume_group_name == "") ≡ false)
        × ((spec.storage.class_name == "") ≡ false)
        × (is_some spec.storage.device_classes ≡ false)
  pub all_devices_alone :
      spec.storage.use_all_devices ≡ true
      → (spec.use_all_nodes ≡ true) × (is_some spec.storage.devices ≡ false)

-- checkStorageConfig accepts a configuration exactly if it is sound.
pub check_storage_config-accepts :
    (spec : ClusterSpec) → (check_storage_config spec ≡ ok tt) ↔ IsSound spec
unfolding check_storage_config
check_storage_config-accepts spec = (sound, accepted)
  where
    sound : check_storage_config spec ≡ ok tt → IsSound spec
    sound h = record { all_nodes_named = λ n. ground arith; all_devices_alone = λ d. ground arith }

    accepted : IsSound spec → check_storage_config spec ≡ ok tt
    accepted s = by_test spec.use_all_nodes spec.storage.use_all_devices refl refl
      where
        by_test :
            (n d : Bool)
            → spec.use_all_nodes ≡ n
            → spec.storage.use_all_devices ≡ d
            → check_storage_config spec ≡ ok tt
        by_test true true p q = ground (arith, s.all_nodes_named p, s.all_devices_alone q)
        by_test true false p q = ground (arith, s.all_nodes_named p)
        by_test false true p q = ground (arith, s.all_devices_alone q)
        by_test false false p q = ground arith

abbrev NoLater : Cluster → List Cluster → Type 0
NoLater o cs = All (λ (d : Cluster). o.created ≤ d.created) cs

oldest-le :
    (c : Cluster) (cs : List Cluster) (o : Cluster)
    → o ≡ oldest c cs
    → (o.created ≤ c.created) × NoLater o cs
unfolding oldest
oldest-le c [] o q = (rw q (omega arith), tt)
oldest-le c (d ∷ cs) o q =
    by_test (ltb d.created c.created) refl q (oldest-le d cs o) (oldest-le c cs o)
  where
    by_test :
        (b : Bool)
        → ltb d.created c.created ≡ b
        → o ≡ oldest (if b then d else c) cs
        → (o ≡ oldest d cs → (o.created ≤ d.created) × NoLater o cs)
        → (o ≡ oldest c cs → (o.created ≤ c.created) × NoLater o cs)
        → (o.created ≤ c.created) × NoLater o (d ∷ cs)
    by_test true e q h k = let (p, n) = h q in (ground arith, (p, n))
    by_test false e q h k = let (p, n) = k q in (p, (ground arith, n))

-- A cluster of the list has the name, and none of the list is older than that one.
abbrev pub NamesOldest : String → List Cluster → Type 0
NamesOldest name cs = (c : Cluster) × Among cs c × (name ≡ c.name) × NoLater c cs

oldest-Among : (c : Cluster) (cs : List Cluster) → Among (c ∷ cs) (oldest c cs)
unfolding oldest
oldest-Among c [] = (0, refl)
oldest-Among c (d ∷ cs) = by_test (ltb d.created c.created) (oldest-Among d cs) (oldest-Among c cs)
  where
    skip : (o : Cluster) → Among (c ∷ cs) o → Among (c ∷ d ∷ cs) o
    skip o (zero, e) = (zero, e)
    skip o (suc i, e) = (suc (suc i), e)

    by_test :
        (b : Bool)
        → Among (d ∷ cs) (oldest d cs)
        → Among (c ∷ cs) (oldest c cs)
        → Among (c ∷ d ∷ cs) (oldest (if b then d else c) cs)
    by_test true (i, e) k = (suc i, e)
    by_test false h k = skip (oldest c cs) k

admit-NamesOldest :
    (name : String) (answer : Option (List Cluster))
    → admit name answer ≡ ok tt
    → (cs : List Cluster) × (answer ≡ some cs) × (1 < length cs → NamesOldest name cs)
admit-NamesOldest name none h = cc
admit-NamesOldest name (some []) h = ([], refl, λ l. absurd (omega arith))
admit-NamesOldest name (some (c ∷ [])) h = (c ∷ [], refl, λ l. absurd (omega arith))
admit-NamesOldest name (some (c ∷ d ∷ cs)) h = (
  c ∷ d ∷ cs,
  refl,
  λ l. (
    oldest c (d ∷ cs),
    oldest-Among c (d ∷ cs),
    ground (arith, eq_iff name (oldest c (d ∷ cs)).name),
    oldest-le c (d ∷ cs) (oldest c (d ∷ cs)) refl,
  ),
)

module _ (server : Server) (tests : ErrorTests) (setting : Setting) (config : Config) where
  -- A cluster that is accepted stands in the operator's namespace, and if the list of all clusters has
  -- more than one, the name is that of one of them than which none is older, in whatever namespace
  -- that stands.
  pub verify_topolvm_cluster-NamesOldest :
      (namespace name : String) (log : List Event)
      → (verify_topolvm_cluster server tests setting config namespace name log).0 ≡ ok tt
      → (namespace ≡ config.operator_namespace)
        × ((cs : List Cluster) × (server.clusters log ≡ ok (some cs))
            × (1 < length cs → NamesOldest name cs))
  unfolding verify_topolvm_cluster
  verify_topolvm_cluster-NamesOldest namespace name log h = (
    ground (arith, eq_iff namespace config.operator_namespace),
    listed (server.clusters log) refl (ground arith),
  )
    where
      Goal : Type 0
      Goal =
          (cs : List Cluster) × (server.clusters log ≡ ok (some cs))
          × (1 < length cs → NamesOldest name cs)

      listed :
          (r : Result (Option (List Cluster)))
          → server.clusters log ≡ r
          → ((wrap "failed to list topolvm cluster" (of_result {E = Event} r) >>= λ clusters.
                of_result (admit name clusters))
              log).0
            ≡ ok tt
          → Goal
      listed (err e) q k = cc
      listed (ok answer) q k =
          let (cs, a, o) = admit-NamesOldest name answer k in (cs, q ∙ ap (λ o. ok o) a, o)
