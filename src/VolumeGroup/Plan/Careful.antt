-- ===== src/VolumeGroup/Plan/Careful.antt =====
-- The loop of provisionFirst creates groups that are not there and does nothing else.
use nativestor.Prelude.{String, ◌≡◌, refl, List, [], ◌∷◌, All, Among, Bool, true, false}
use nativestor.Prelude.Maps.{Map, has}
use nativestor.Exec.{Executor, Exec, pure}
use nativestor.Exec.Posts.{Runs, >>=-Runs, silent}
use nativestor.VolumeGroup.Types.{DeviceClass, LoopState}
use nativestor.VolumeGroup.Create.{create_vg}
use nativestor.VolumeGroup.Create.Attempt.{IsCreation, create_vg-Runs}
use nativestor.VolumeGroup.Plan.{Progress, after_creation, first_step, first_each}

-- Every command that satisfies one property satisfies a weaker one.
Runs-weaken :
    {A : Type 0} {P Q : List String → Type 0} (m : Exec A)
    → ((args : List String) → P args → Q args)
    → Runs P m
    → Runs Q m
Runs-weaken {P} {Q} m f r = record {
  trace = λ calls. (let (made, e, h) = r.trace calls in (made, e, weaken made h));
}
  where
    weaken : (made : List (List String)) → All P made → All Q made
    weaken [] h = tt
    weaken (args ∷ made) (p, h) = (f args p, weaken made h)

module _ {V : Type 0} (executor : Executor) (loop_map : Map LoopState) (disks : Map V)
    (vgs : Map String) (spec : List DeviceClass) where
  -- a command that creates the group of a class of the spec, which is not there, on allowed disks
  abbrev pub IsNewCreation : List String → Type 0
  IsNewCreation args =
      (dev : DeviceClass) × Among spec dev
      × (has dev.vg_name vgs ≡ false)
      × IsCreation loop_map disks dev.device dev.vg_name args

  first_step-Runs :
      (b : Bool) (p : Progress) (dev : DeviceClass)
      → Among spec dev
      → has dev.vg_name vgs ≡ b
      → Runs IsNewCreation (first_step executor loop_map disks b p dev)
  first_step-Runs true p dev m e = silent _ (λ calls. refl)
  first_step-Runs false p dev m e =
      >>=-Runs (create_vg executor loop_map disks dev p.classes)
        (λ made. pure (after_creation p made))
        (Runs-weaken _ (λ args c. (dev, m, e, c))
          (create_vg-Runs loop_map disks executor dev p.classes))
        (λ made. silent _ (λ calls. refl))

  pub first_each-Runs :
      (devs : List DeviceClass) (p : Progress)
      → All (Among spec) devs
      → Runs IsNewCreation (first_each executor loop_map disks vgs devs p)
  unfolding first_each
  first_each-Runs [] p h = silent _ (λ calls. refl)
  first_each-Runs (dev ∷ devs) p (m, h) =
      >>=-Runs (first_step executor loop_map disks (has dev.vg_name vgs) p dev)
        (first_each executor loop_map disks vgs devs) (first_step-Runs _ p dev m refl)
        (λ p'. first_each-Runs devs p' h)
