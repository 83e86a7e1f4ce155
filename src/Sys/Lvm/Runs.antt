-- ===== src/Sys/Lvm/Runs.antt =====
-- The commands of CreateVolumeGroup.
use nativestor.Prelude.{String, ◌≡◌, refl, List, [], ◌∷◌, All}
use nativestor.Exec.{Call, Executor, done, execute_command}
use nativestor.Exec.Steps.{runs, >>=-eq-done}
use nativestor.Exec.Posts.{Runs, >>=-Runs, silent, execute_command-Runs}
use nativestor.Exec.Results.{IsCalm, >>=-IsCalm, pure-IsCalm, execute_command-IsCalm}
use nativestor.Sys.Lvm.{lvm, create_each, create_volume_group}

abbrev pub pvcreate : String → List String
pvcreate disk = lvm ("pvcreate" ∷ disk ∷ [])

-- The commands that make physical volumes of these disks, on top of those before.
abbrev pub creations : List String → List (List String) → List (List String)
creations [] before = before
creations (disk ∷ disks) before = creations disks (pvcreate disk ∷ before)

module _ (executor : Executor) where
  create_each-done :
      (disks : List String) (calls : List Call)
      → (create_each executor disks calls).0 ≡ done tt
      → runs (create_each executor disks calls).1 ≡ creations disks (runs calls)
  unfolding create_each
  create_each-done [] calls h = refl
  create_each-done (disk ∷ disks) calls h =
      let (t, first, rest, eq) =
        >>=-eq-done (execute_command executor (pvcreate disk)) (λ _. create_each executor disks)
          calls h in
      rw eq (create_each-done disks _ rest)

  -- A CreateVolumeGroup that succeeds ran pvcreate on each disk in their order, then vgcreate of the
  -- group on all of them, and no other command that changes the machine.
  pub create_volume_group-done :
      (disks : List String) (vg : String) (calls : List Call)
      → (create_volume_group executor disks vg calls).0 ≡ done tt
      → runs (create_volume_group executor disks vg calls).1
        ≡ lvm ("vgcreate" ∷ vg ∷ disks) ∷ creations disks (runs calls)
  unfolding create_volume_group
  create_volume_group-done disks vg calls h =
      let (t, first, rest, eq) =
        >>=-eq-done (create_each executor disks)
          (λ _. execute_command executor (lvm ("vgcreate" ∷ vg ∷ disks))) calls h in
      rw (eq, create_each-done disks calls first) refl

  module _ {κ} (P : List String → Type κ) where
    create_each-Runs :
        (disks : List String)
        → All (λ d. P (pvcreate d)) disks
        → Runs P (create_each executor disks)
    unfolding create_each
    create_each-Runs [] h = silent _ (λ calls. refl)
    create_each-Runs (disk ∷ disks) (p, h) =
        >>=-Runs (execute_command executor (pvcreate disk)) (λ _. create_each executor disks)
          (execute_command-Runs executor P _ p) (λ _. create_each-Runs disks h)

    -- CreateVolumeGroup runs nothing but its pvcreate commands and its vgcreate.
    pub create_volume_group-Runs :
        (disks : List String) (vg : String)
        → All (λ d. P (pvcreate d)) disks
        → P (lvm ("vgcreate" ∷ vg ∷ disks))
        → Runs P (create_volume_group executor disks vg)
    unfolding create_volume_group
    create_volume_group-Runs disks vg h p =
        >>=-Runs (create_each executor disks)
          (λ _. execute_command executor (lvm ("vgcreate" ∷ vg ∷ disks))) (create_each-Runs disks h)
          (λ _. execute_command-Runs executor P _ p)

  create_each-IsCalm : (disks : List String) → IsCalm (create_each executor disks)
  unfolding create_each
  create_each-IsCalm [] = pure-IsCalm tt
  create_each-IsCalm (disk ∷ disks) =
      >>=-IsCalm (execute_command executor (pvcreate disk)) (λ _. create_each executor disks)
        (execute_command-IsCalm executor _) (λ _. create_each-IsCalm disks)

  pub create_volume_group-IsCalm :
      (disks : List String) (vg : String) → IsCalm (create_volume_group executor disks vg)
  unfolding create_volume_group
  create_volume_group-IsCalm disks vg =
      >>=-IsCalm (create_each executor disks)
        (λ _. execute_command executor (lvm ("vgcreate" ∷ vg ∷ disks))) (create_each-IsCalm disks)
        (λ _. execute_command-IsCalm executor _)
