-- ===== src/Operator/Cleaning.antt =====
-- What the controller sets up beside the jobs, and takes away when the cluster is deleted: the CSI
-- driver object (pkg/operator/topolvm/csidriver), the security policies (pkg/operator/topolvm/psp), the
-- entries of the config maps, and the capacities in the nodes' annotations. The JSON of nodes and the
-- patches between them are the libraries'.
pub mod Asked
use nativestor.Prelude.{
  String, ◌==◌, Bool, true, false, List, [], ◌∷◌, Option, none, some, if◌then◌else◌,
}
use nativestor.Prelude.Texts.{has_prefix}
use nativestor.Prelude.Maps.{Map, erase}
use nativestor.Errors.{Error, Result, ok, err, wrapped, ErrorTests}
use nativestor.Api.{Api, pure, fail, of_result, attempt, ignore, wrap, request, ◌>>=◌, ◌>>◌}
use nativestor.VolumeGroup.Lvmd.{ConfigMap, lvmd_config_map_key, vg_status_config_map_key}
use nativestor.Operator.Requests.{
  Event, Server, Node, Kind, csi_driver, security_policy, Control, send, list_nodes, patch_node,
  list_config_maps, put_config_map, get_object, create_object, delete_object,
}

abbrev pub driver_name : String
driver_name = "topolvm.cybozu.com"

module _ (server : Server) (tests : ErrorTests) where
  abbrev pub or_create_driver : Result (Unit {0}) → Control (Unit {0})
  or_create_driver (ok found) = pure tt
  or_create_driver (err e) =
      if tests.is_not_found e
      then send server (create_object csi_driver driver_name)
      else fail (wrapped "failed to detect CsiDriver %s" e)

  unfoldable pub check_topolvm_csi_driver_existing : Control (Unit {0})
  check_topolvm_csi_driver_existing =
      attempt (send server (get_object csi_driver driver_name)) >>= or_create_driver

  abbrev pub delete_driver : Control (Unit {0})
  delete_driver = send server (delete_object csi_driver driver_name)

  abbrev pub or_delete_driver : Result (Unit {0}) → Control (Unit {0})
  or_delete_driver (ok found) = delete_driver
  or_delete_driver (err e) = if tests.is_not_found e then pure tt else delete_driver

  unfoldable pub delete_topolvm_csi_driver : Control (Unit {0})
  delete_topolvm_csi_driver =
      attempt (send server (get_object csi_driver driver_name)) >>= or_delete_driver

  abbrev pub or_missing : Result (Unit {0}) → Control Bool
  or_missing (ok found) = pure true
  or_missing (err e) =
      if tests.is_not_found e
      then pure false
      else fail (wrapped "failed to detect PodSecurityPolicies %s" e)

  unfoldable pub check_psp_existing : String → Control Bool
  check_psp_existing name = attempt (send server (get_object security_policy name)) >>= or_missing

  -- one of the two parts of checkAndCreatePsp
  unfoldable pub ensure_psp : String → Control (Unit {0})
  unfolding check_psp_existing
  ensure_psp name = do
    existing ← wrap "check psp %s failed" (check_psp_existing name)
    (if existing
        then pure tt
        else wrap "create psp %s failed" (send server (create_object security_policy name)))

  unfoldable pub check_and_create_psp : Control (Unit {0})
  unfolding ensure_psp
  check_and_create_psp = ensure_psp "topolvm-node" >> ensure_psp "nativestor-preparevg"

  -- cleanLvmdConfigmap
  abbrev pub emptied : ConfigMap → ConfigMap
  emptied cm = record cm {
    contents = erase vg_status_config_map_key (erase lvmd_config_map_key cm.contents);
  }

  unfoldable pub empty_each : List ConfigMap → Control (Unit {0})
  unfolding erase
  empty_each [] = pure tt
  empty_each (cm ∷ cms) = send server (put_config_map (emptied cm)) >> empty_each cms

  unfoldable pub clean_lvmd_config_map : Control (Unit {0})
  unfolding empty_each
  clean_lvmd_config_map = request list_config_maps server.config_maps >>= empty_each

  -- The annotations of one node that tell a capacity are taken away one by one; each patch leads from
  -- the node as it was listed to the node without those met so far.
  unfoldable pub strip_each : Node → Map String → Map String → Control (Map String)
  unfolding erase has_prefix
  strip_each listed kept [] = pure kept
  strip_each listed kept ((key, value) ∷ annotations) =
      let fewer = erase key kept in
      (if has_prefix key "capacity.topolvm.cybozu.com/"
        then ignore (send server (patch_node listed (record listed { annotations = fewer })))
          >> pure fewer
        else pure kept)
      >>= λ next. strip_each listed next annotations

  unfoldable pub strip_nodes : List Node → Control (Unit {0})
  unfolding strip_each
  strip_nodes [] = pure tt
  strip_nodes (n ∷ nodes) =
      strip_each n n.annotations n.annotations >>= λ stripped. strip_nodes nodes

  abbrev pub strip_listed : Result (List Node) → Control (Unit {0})
  strip_listed (ok nodes) = strip_nodes nodes
  strip_listed (err e) = fail e

  -- RemoveNodeCapacityAnnotations: where the nodes cannot be listed there are none to go through, and
  -- the error of the list is returned in the end
  unfoldable pub remove_node_capacity_annotations : Control (Unit {0})
  unfolding strip_nodes
  remove_node_capacity_annotations = attempt (request list_nodes server.nodes) >>= strip_listed

  unfoldable pub clean_cluster : Control (Unit {0})
  unfolding clean_lvmd_config_map remove_node_capacity_annotations delete_topolvm_csi_driver
  clean_cluster = do
    clean_lvmd_config_map
    wrap "failed to remove node capacity annotations" remove_node_capacity_annotations
    delete_topolvm_csi_driver
