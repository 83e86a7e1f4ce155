-- ===== src/Operator/Controller.antt =====
-- topolvmcluster_controller.go: the reconciliation of a TopolvmCluster. What its goroutines do runs in
-- place, for nothing of a reconciliation reads what they did. The names that it sets for other parts
-- (ClusterName, TopolvmImage, CertsSecret) and the owner reference that it keeps are left out.
pub mod Asked
pub mod Accepted
use nativestor.Prelude.{
  ℕ, suc, String, ◌==◌, ◌≡◌, ◌&&◌, ◌||◌, not, Bool, true, false, List, [], ◌∷◌, ◌++◌, Option, none,
  some, ltb, length, if◌then◌else◌,
}
use nativestor.Prelude.Maps.{is_some}
use nativestor.Errors.{Error, Result, ok, err, plain, wrapped, ErrorTests}
use nativestor.Api.{Api, pure, fail, of_result, attempt, ignore, wrap, request, ◌>>=◌, ◌>>◌}
use nativestor.VolumeGroup.Types.{NodeDevices, NodeStorageState}
use nativestor.Operator.Types.{Cluster, ClusterSpec, ClusterStatus}
use nativestor.Operator.Finalizer.{contains, remove, finalizer_name}
use nativestor.Operator.Requests.{
  Event, Server, Node, Kind, csi_driver, security_policy, Control, send, note, read, kept_cluster,
  is_monitoring, list_clusters, get_cluster, put_cluster, list_nodes, get_object, create_object,
  keep_cluster, start_lvmd_controller, start_monitor, stop_monitor,
}
use nativestor.Operator.Jobs.{Setting, all_nodes, class_nodes, run_each, start_clean_up_jobs}

-- The oldest of some clusters, the first of those of one age.
unfoldable pub oldest : Cluster → List Cluster → Cluster
oldest c [] = c
oldest c (d ∷ cs) = oldest (if ltb d.created c.created then d else c) cs

abbrev pub only_oldest : String → List Cluster → Result (Unit {0})
only_oldest name [] = ok tt
only_oldest name (c ∷ []) = ok tt
only_oldest name (c ∷ d ∷ cs) =
    if name == (oldest c (d ∷ cs)).name
    then ok tt
    else err (plain "only support one cluster instance")

abbrev pub admit : String → Option (List Cluster) → Result (Unit {0})
admit name none = err (plain "no topolvm cluster instance existing")
admit name (some cs) = only_oldest name cs

-- checkStorageConfig
unfoldable pub check_storage_config : ClusterSpec → Result (Unit {0})
check_storage_config spec =
    if spec.use_all_nodes && is_some spec.storage.device_classes
    then err (plain "should not both config use all node and deviceclasses ")
    else (if not spec.use_all_nodes && spec.storage.use_all_devices
        then err (plain "should not config useAllNodes false but useAllDevice true")
        else (if spec.storage.use_all_devices && is_some spec.storage.devices
            then err (plain "should not config useAllNodes true but config storage.devices")
            else (if spec.use_all_nodes
                  && ((spec.storage.volume_group_name == "") || (spec.storage.class_name == ""))
                then err (plain "if use all nodes ,volumeGroupName and className must be define")
                else ok tt)))

-- the nodes whose classes are to be made again: some failed, or none was made
abbrev pub is_unsettled : NodeStorageState → Bool
is_unsettled ele = ltb 0 (length ele.fail_classes) || not (ltb 0 (length ele.success_classes))

unfoldable pub unsettled_nodes : List NodeStorageState → List String
unsettled_nodes [] = []
unsettled_nodes (ele ∷ status) =
    let rest = unsettled_nodes status in if is_unsettled ele then ele.node ∷ rest else rest

-- What the controller is set up with: its namespace, whether it runs in Operator Hub, reflect.DeepEqual
-- on the storage of two specs, the owner reference that the library makes (none is nil), and the kind
-- that the object's TypeMeta has.
pub record Config : Type 0 where
  pub operator_namespace : String
  pub is_operator_hub : Bool
  pub equal_storage : ClusterSpec → ClusterSpec → Bool
  pub owner_reference : Cluster → Result (Option String)
  pub kind : String

module _ (server : Server) (tests : ErrorTests) (setting : Setting) (config : Config) where
  unfoldable pub verify_topolvm_cluster : String → String → Control (Unit {0})
  unfolding oldest
  verify_topolvm_cluster namespace name =
      if namespace == config.operator_namespace
      then (do
        clusters ← wrap "failed to list topolvm cluster" (request list_clusters server.clusters)
        of_result (admit name clusters))
      else fail (plain "namespace %s of topovlm cluster:%s is not equal to operator namespace:%s")

  abbrev pub fetch : String → Control Cluster
  fetch name = request (get_cluster name) (λ log. server.cluster log name)

  -- AddFinalizerIfNotPresent
  unfoldable pub add_finalizer_if_not_present : Cluster → Control Cluster
  unfolding finalizer_name contains
  add_finalizer_if_not_present cluster =
      let finalizer = finalizer_name config.kind in
      if contains cluster.finalizers finalizer
      then pure cluster
      else (let added : Cluster = record cluster {
        finalizers = cluster.finalizers ++ finalizer ∷ [];
      } in
          wrap "failed to add finalizer %q on %q" (send server (put_cluster added)) >> pure added)

  abbrev pub put_without : Cluster → Option (List String) → Control (Option (Unit {0}))
  put_without cluster none = pure none
  put_without cluster (some finalizers) =
      wrap "failed to remove finalizer %q on %q"
        (send server (put_cluster (record cluster { finalizers = finalizers })))
      >> pure (some tt)

  -- RemoveFinalizer, with the panic of `remove` as `none`
  unfoldable pub remove_finalizer_of : Cluster → Control (Option (Unit {0}))
  unfolding finalizer_name contains remove
  remove_finalizer_of cluster =
      let finalizer = finalizer_name config.kind in
      if contains cluster.finalizers finalizer
      then put_without cluster (remove cluster.finalizers finalizer)
      else pure (some tt)

  abbrev pub or_deleted : Result Cluster → Control (Option (Unit {0}))
  or_deleted (ok cluster) = wrap "failed to remove finalizer" (remove_finalizer_of cluster)
  or_deleted (err e) =
      if tests.is_not_found e
      then pure (some tt)
      else fail (wrapped "failed to retrieve topolvm cluster %q to remove finalizer" e)

  unfoldable pub remove_finalizer : String → Control (Option (Unit {0}))
  unfolding remove_finalizer_of
  remove_finalizer name = attempt (fetch name) >>= or_deleted

  -- the nodes of the spec
  abbrev pub spec_nodes : Cluster → Control (List String)
  spec_nodes cluster = all_nodes server tests setting cluster.spec.use_all_nodes >>= λ nodes.
      pure (nodes ++ class_nodes cluster.spec.storage.device_classes)

  abbrev pub to_prepare : Cluster → Option Cluster → Control (List String)
  to_prepare cluster none = spec_nodes cluster
  to_prepare cluster (some kept) =
      if config.equal_storage kept.spec cluster.spec
      then pure (unsettled_nodes cluster.status.node_storage_status)
      else spec_nodes cluster

  unfoldable pub start_prepare_volume_group_job : Cluster → Control (Unit {0})
  unfolding unsettled_nodes run_each
  start_prepare_volume_group_job cluster = do
    kept ← read kept_cluster
    nodes ← to_prepare cluster kept
    run_each server tests setting nodes

  -- startClusterMonitor and stopCheckClusterStatus; the operator itself is not being stopped
  unfoldable pub start_cluster_monitor : Control (Unit {0})
  start_cluster_monitor = read is_monitoring >>= λ on. if on then pure tt else note start_monitor

  unfoldable pub stop_check_cluster_status : Control (Unit {0})
  stop_check_cluster_status = read is_monitoring >>= λ on. if on then note stop_monitor else pure tt
