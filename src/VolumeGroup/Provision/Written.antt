-- ===== src/VolumeGroup/Provision/Written.antt =====
-- provisionFirst as a whole: what it runs.
use nativestor.Prelude.{
  String, ◌≡◌, refl, ap, ◌∙◌, List, [], ◌∷◌, ◌++◌, All, All-Among, Option, none, some,
}
use nativestor.Prelude.Maps.{Map}
use nativestor.Errors.{Result, ok, err}
use nativestor.Exec.{Call, Executor, Exec, Outcome, done, failed, panicked, wrap, and_then, ◌>>=◌}
use nativestor.Exec.Steps.{runs, IsQuiet, >>=-IsQuiet}
use nativestor.Exec.Posts.{>>=-Runs, silent}
use nativestor.Sys.Device.{of_result}
use nativestor.Sys.LocalDisk.{LocalDisk}
use nativestor.Sys.Lvm.{get_volume_groups}
use nativestor.Sys.Lvm.Guards.{get_volume_groups-IsQuiet}
use nativestor.VolumeGroup.Types.{NodeDevices, LoopState}
use nativestor.VolumeGroup.Plan.{Progress, first_each}
use nativestor.VolumeGroup.Plan.Careful.{IsNewCreation, first_each-Runs}
use nativestor.VolumeGroup.Lvmd.{ConfigMap, update_vg_status, create_lvmd_conf}
use nativestor.VolumeGroup.Loops.{LoopTable}
use nativestor.VolumeGroup.Provision.{
  Outside, Write, write_first, submit, send_write, empty_state, base_of, start, provision_first,
}

module _ (executor : Executor) (outside : Outside) (node_name namespace : String) where
  of_result-IsQuiet {ℓ} : {A : Type ℓ} (s : String) (r : Result A) → IsQuiet (wrap s (of_result r))
  of_result-IsQuiet s (ok a) calls = refl
  of_result-IsQuiet s (err e) calls = refl

  send_write-IsQuiet : (w : Write) → IsQuiet (send_write executor outside node_name namespace w)
  send_write-IsQuiet w calls = refl

  submit-IsQuiet :
      (cm : Option ConfigMap) (new : ConfigMap)
      → IsQuiet (submit executor outside node_name namespace cm new)
  submit-IsQuiet none new calls = refl
  submit-IsQuiet (some cm) new calls = refl

  write_first-IsQuiet :
      (nd : NodeDevices) (loops : List LoopState) (cm : Option ConfigMap) (p : Progress)
      → IsQuiet (write_first executor outside node_name namespace nd loops cm p)
  unfolding write_first
  write_first-IsQuiet nd loops cm p =
      let here = base_of executor outside node_name namespace cm nd.node_name in
      let state = empty_state executor outside node_name namespace in
      let configure = λ (reported : ConfigMap).
        wrap "create lvmd conf failed"
          (of_result (create_lvmd_conf outside.codec p.suc_vgs reported)) in
      >>=-IsQuiet
        (wrap "create vg status failed"
          (of_result (update_vg_status outside.codec state p.classes loops here)))
        (λ reported. configure reported >>= submit executor outside node_name namespace cm)
        (of_result-IsQuiet "create vg status failed" _)
        (λ reported.
          >>=-IsQuiet (configure reported) (submit executor outside node_name namespace cm)
            (of_result-IsQuiet "create lvmd conf failed" _) (submit-IsQuiet cm))

  -- provisionFirst, whatever it ends with, runs no command that changes the machine but these, each for
  -- a class of the node's spec whose group is not among those that GetVolumeGroups answered at its
  -- start: pvcreate of a disk that was listed as available, or is a loop of that class that the job
  -- makes and that has no device; and vgcreate of that group on such disks.
  pub provision_first-creates_only :
      (nd : NodeDevices) (t : LoopTable) (disks : Map LocalDisk) (cm : Option ConfigMap)
      (calls : List Call)
      → (made : List (List String)) × (runs
            (provision_first executor outside node_name namespace nd t disks cm calls).1
          ≡ made ++ runs calls)
        × All
            (λ args.
              (vgs : Map String) × ((get_volume_groups executor calls).0 ≡ done vgs)
              × IsNewCreation executor t.loop_map disks vgs nd.device_classes args)
            made
  unfolding provision_first
  provision_first-creates_only nd t disks cm calls =
      from_outcome (get_volume_groups executor calls).0 (get_volume_groups executor calls).1 refl
        (get_volume_groups-IsQuiet executor calls)
    where
      rest : Map String → Exec Write
      rest vgs =
          first_each executor t.loop_map disks vgs nd.device_classes
            (start executor outside node_name namespace)
          >>= write_first executor outside node_name namespace nd t.loops cm

      Result_of : List (List String) → Type 0
      Result_of made =
          All
            (λ args.
              (vgs : Map String) × ((get_volume_groups executor calls).0 ≡ done vgs)
              × IsNewCreation executor t.loop_map disks vgs nd.device_classes args)
            made

      each :
          (vgs : Map String)
          → (get_volume_groups executor calls).0 ≡ done vgs
          → (made : List (List String))
          → All (IsNewCreation executor t.loop_map disks vgs nd.device_classes) made
          → Result_of made
      each vgs e [] h = tt
      each vgs e (args ∷ made) (p, h) = ((vgs, e, p), each vgs e made h)

      from_outcome :
          (o : Outcome (Map String)) (later : List Call)
          → (get_volume_groups executor calls).0 ≡ o
          → runs later ≡ runs calls
          → (made : List (List String)) × (runs (and_then o rest later).1 ≡ made ++ runs calls)
            × Result_of made
      from_outcome (done vgs) later e q =
          let r =
            >>=-Runs
              (first_each executor t.loop_map disks vgs nd.device_classes
                (start executor outside node_name namespace))
              (write_first executor outside node_name namespace nd t.loops cm)
              (first_each-Runs executor t.loop_map disks vgs nd.device_classes nd.device_classes _
                (All-Among nd.device_classes))
              (λ p. silent _ (write_first-IsQuiet nd t.loops cm p)) in
          let (made, eq, h) = r.trace later in (made, eq ∙ ap (λ l. made ++ l) q, each vgs e made h)
      from_outcome (failed x) later e q = ([], q, tt)
      from_outcome panicked later e q = ([], q, tt)
