-- ===== src/Operator/Reconcile/Deleted.antt =====
-- What has been cleaned when the deletion of a cluster ends well.
use nativestor.Prelude.{◌≡◌, refl, ◌∙◌, Bool, true, false, List, [], ◌∷◌, Option, none, some, All}
use nativestor.Prelude.Maps.{has, erase, has-erase}
use nativestor.Errors.{Error, ok, ErrorTests}
use nativestor.Api.{pure, wrap, request, and_then, ◌>>=◌, ◌>>◌, >>=-eq-ok, wrap-eq-ok}
use nativestor.VolumeGroup.Lvmd.{ConfigMap, lvmd_config_map_key, vg_status_config_map_key}
use nativestor.Operator.Types.{Cluster}
use nativestor.Operator.Requests.{
  Event, Server, Control, of_error, is_monitoring, list_config_maps, put_config_map, keep_cluster,
  stop_monitor,
}
use nativestor.Operator.Requests.Trace.{
  Respects, Grows, Grows-IsTrace, Accepted, Accepted-Grows, if-Respects, >>=-Respects,
}
use nativestor.Operator.Jobs.{Setting, start_clean_up_jobs}
use nativestor.Operator.Jobs.Asked.{IsPoll, start_clean_up_jobs-Respects}
use nativestor.Operator.Cleaning.{
  emptied, empty_each, clean_lvmd_config_map, remove_node_capacity_annotations,
  delete_topolvm_csi_driver, clean_cluster,
}
use nativestor.Operator.Cleaning.Asked.{empty_each-Respects, clean_rest-Respects}
use nativestor.Operator.Controller.{Config, stop_check_cluster_status}
use nativestor.Operator.Controller.Asked.{remove_finalizer-Respects}
use nativestor.Operator.Reconcile.{and_clean_up, and_remove_finalizer, reconcile_delete}

-- The API server has accepted the config map with neither lvmd's configuration nor the status of its
-- node.
abbrev pub Emptied : Server → List Event → ConfigMap → Type 0
Emptied server log cm =
    (written : ConfigMap) × Accepted server (put_config_map written) log
    × (written.name ≡ cm.name)
    × (has lvmd_config_map_key written.contents ≡ false)
    × (has vg_status_config_map_key written.contents ≡ false)

Emptied-Grows :
    (server : Server) (a b : List Event) (cms : List ConfigMap)
    → All (Emptied server a) cms
    → Grows a b
    → All (Emptied server b) cms
Emptied-Grows server a b [] h g = tt
Emptied-Grows server a b (cm ∷ cms) ((w, o, n, x, y), h) g = (
  (w, Accepted-Grows server (put_config_map w) a b o g, n, x, y),
  Emptied-Grows server a b cms h g,
)

module _ (server : Server) (tests : ErrorTests) where
  empty_each-Emptied :
      (cms : List ConfigMap) (log : List Event)
      → (empty_each server tests cms log).0 ≡ ok tt
      → All (Emptied server (empty_each server tests cms log).1) cms
  unfolding empty_each
  empty_each-Emptied [] log h = tt
  empty_each-Emptied (cm ∷ cms) log h =
      by_error (server.accepts log (put_config_map written)) refl h
        (empty_each-Emptied cms (put_config_map written ∷ log))
    where
      written : ConfigMap
      written = emptied server tests cm

      rest : Control (Unit {0})
      rest = empty_each server tests cms

      after : List Event
      after = put_config_map written ∷ log

      no_lvmd : has lvmd_config_map_key written.contents ≡ false
      no_lvmd =
          has-erase vg_status_config_map_key lvmd_config_map_key
            (erase lvmd_config_map_key cm.contents)
          ∙ has-erase lvmd_config_map_key lvmd_config_map_key cm.contents

      no_status : has vg_status_config_map_key written.contents ≡ false
      no_status =
          has-erase vg_status_config_map_key vg_status_config_map_key
            (erase lvmd_config_map_key cm.contents)

      by_error :
          (o : Option Error)
          → server.accepts log (put_config_map written) ≡ o
          → (and_then (of_error o) (λ done. rest) after).0 ≡ ok tt
          → ((rest after).0 ≡ ok tt → All (Emptied server (rest after).1) cms)
          → All (Emptied server (and_then (of_error o) (λ done. rest) after).1) (cm ∷ cms)
      by_error (some e) q k later = cc
      by_error none q k later = (
        (
          written,
          Accepted-Grows server (put_config_map written) after (rest after).1 ([], log, refl, q)
              (empty_each-Respects Grows-IsTrace server tests cms after),
          refl,
          no_lvmd,
          no_status,
        ),
        later k,
      )

  -- the config maps that a run listed and wrote
  abbrev pub Cleaned : List Event → Type 0
  Cleaned log =
      (asked : List Event) × (cms : List ConfigMap) × (server.config_maps asked ≡ ok cms)
      × Grows (list_config_maps ∷ asked) log
      × All (Emptied server log) cms

  Cleaned-Grows : (a b : List Event) → Cleaned a → Grows a b → Cleaned b
  Cleaned-Grows a b (asked, cms, e, l, h) g = (
    asked,
    cms,
    e,
    Grows-IsTrace.join (list_config_maps ∷ asked) a b l g,
    Emptied-Grows server a b cms h g,
  )

  clean_lvmd-Cleaned :
      (log : List Event)
      → (clean_lvmd_config_map server tests log).0 ≡ ok tt
      → Cleaned (clean_lvmd_config_map server tests log).1
  unfolding clean_lvmd_config_map
  clean_lvmd-Cleaned log h =
      let (cms, e, k, same) =
        >>=-eq-ok (request list_config_maps server.config_maps) (empty_each server tests) log h in
      (
        log,
        cms,
        e,
        rw same (empty_each-Respects Grows-IsTrace server tests cms (list_config_maps ∷ log)),
        rw same (empty_each-Emptied cms (list_config_maps ∷ log) k),
      )

  clean_cluster-Cleaned :
      (log : List Event)
      → (clean_cluster server tests log).0 ≡ ok tt
      → Cleaned (clean_cluster server tests log).1
  unfolding clean_cluster
  clean_cluster-Cleaned log h =
      let (done, e, k, same) =
        >>=-eq-ok (clean_lvmd_config_map server tests) (λ done. rest) log h in
      rw same (
        Cleaned-Grows (clean_lvmd_config_map server tests log).1
          (rest (clean_lvmd_config_map server tests log).1).1 (clean_lvmd-Cleaned log e)
          (clean_rest-Respects Grows-IsTrace server tests
            (clean_lvmd_config_map server tests log).1))
    where
      rest : Control (Unit {0})
      rest =
          wrap "failed to remove node capacity annotations"
            (remove_node_capacity_annotations server tests)
          >> delete_topolvm_csi_driver server tests

  module _ (setting : Setting) (config : Config) (polls : IsPoll setting.poll)
      (cluster : Cluster) where
    finish : Control (Option (Unit {0}))
    finish =
        and_clean_up server tests setting config cluster
        >>= and_remove_finalizer server tests setting config cluster

    abbrev cleaning : Control (Unit {0})
    cleaning = wrap "clean cluster failed" (clean_cluster server tests)

    finish-Grows : Respects Grows-IsTrace finish
    unfolding finish
    finish-Grows =
        >>=-Respects Grows-IsTrace (and_clean_up server tests setting config cluster)
          (and_remove_finalizer server tests setting config cluster)
          (if-Respects Grows-IsTrace cluster.spec.clean_up
            (start_clean_up_jobs server tests setting cluster) (pure (some tt))
            (start_clean_up_jobs-Respects Grows-IsTrace server tests setting polls cluster)
            Grows-IsTrace.stay)
          by_cleaned
      where
        by_cleaned :
            (o : Option (Unit {0}))
            → Respects Grows-IsTrace (and_remove_finalizer server tests setting config cluster o)
        by_cleaned none = Grows-IsTrace.stay
        by_cleaned (some done) =
            remove_finalizer-Respects Grows-IsTrace server tests setting config cluster.name

    rest-Cleaned :
        (log : List Event) (o : Option (Unit {0}))
        → ((cleaning >> finish) log).0 ≡ ok o
        → Cleaned ((cleaning >> finish) log).1
    rest-Cleaned log o h =
        let (done, e, k, same) = >>=-eq-ok cleaning (λ done. finish) log h in
        rw same (
          Cleaned-Grows (cleaning log).1 (finish (cleaning log).1).1
            (clean_cluster-Cleaned log
              (wrap-eq-ok "clean cluster failed" (clean_cluster server tests) log e))
            (finish-Grows (cleaning log).1))

    -- When the deletion of a cluster ends without an error, then the config maps of all nodes were
    -- listed, and the API server has accepted each of them without lvmd's configuration and without the
    -- status of its node, if wait.Poll does nothing but run its condition.
    pub reconcile_delete-Cleaned :
        (log : List Event) (o : Option (Unit {0}))
        → (reconcile_delete server tests setting config cluster log).0 ≡ ok o
        → Cleaned (reconcile_delete server tests setting config cluster log).1
    unfolding reconcile_delete stop_check_cluster_status finish
    reconcile_delete-Cleaned log o h = by_test (is_monitoring log) refl h
      where
        by_test :
            (b : Bool)
            → is_monitoring log ≡ b
            → (reconcile_delete server tests setting config cluster log).0 ≡ ok o
            → Cleaned (reconcile_delete server tests setting config cluster log).1
        by_test true q h =
            rw q (rest-Cleaned (keep_cluster none ∷ stop_monitor ∷ log) o (rw q at h))
        by_test false q h = rw q (rest-Cleaned (keep_cluster none ∷ log) o (rw q at h))
