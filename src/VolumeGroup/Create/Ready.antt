-- ===== src/VolumeGroup/Create/Ready.antt =====
-- What createVg reports of the class that it was given.
use mathlib.Core.List.{append-nil, append_assoc}
use nativestor.Prelude.{
  sym, ap, ◌∙◌, ◌≢◌, ◌↔◌, ◌&&◌, all, String, ==-self, ◌≡◌, refl, List, [], ◌∷◌, ◌++◌, map, Option,
  none, some, Bool, true, false, if◌then◌else◌,
}
use nativestor.Prelude.Maps.{Map, lookup, insert, lookup-insert, has, has-insert_self}
use nativestor.Errors.{Result, ok, err}
use nativestor.Exec.{Call, Executor, Outcome, done, failed, panicked, recover, and_then, pure}
use nativestor.Sys.Lvm.{create_volume_group}
use nativestor.Sys.Lvm.Runs.{create_volume_group-IsCalm}
use nativestor.VolumeGroup.Types.{
  Disk, DeviceClass, LoopState, DeviceState, Classes, class_ready, class_create_successful, resolve,
}
use nativestor.VolumeGroup.Create.{
  Checked, check_disks, check_resolved, names, append_state, Created, online, class_state,
  record_creation, create_if, create_vg,
}

module _ {V : Type 0} (executor : Executor) (loop_map : Map LoopState) (disks : Map V) where
  -- Whether the disk is there: a loop of the job's that has no device is passed over.
  abbrev pub is_there : Option Disk → Bool
  is_there none = true
  is_there (some named) = has named.name disks

  abbrev pub under_name : Option Disk → Disk → Disk
  under_name none d = d
  under_name (some named) d = named

  -- the devices of the class under the names of their loops' devices
  abbrev pub resolved : List Disk → List Disk
  resolved = map (λ d. under_name (resolve loop_map d) d)

  -- A class that was created is recorded as ready, with every device of it online, and the failed ones
  -- are as before; one that was not is recorded among the failed, and the successful ones are as before.
  abbrev IsRecorded : DeviceClass → Classes → Created → Type 0
  IsRecorded class before made =
      (made.suc ≡ true
        → (lookup class.vg_name made.classes.suc_class
            ≡ some (
                class_state executor loop_map disks class class_ready class_create_successful
                  (map (online executor loop_map disks) made.class.device)))
          × (made.classes.fail_class ≡ before.fail_class))
      × (made.suc ≡ false
          → (has class.vg_name made.classes.fail_class ≡ true)
            × (made.classes.suc_class ≡ before.suc_class))

  abbrev IsMadeOf : Bool → String → List Disk → List Call → Created → Type 0
  IsMadeOf available vg devices calls made =
      ((made.suc ≡ true) ↔ (
        (available ≡ true) × ((create_volume_group executor (names devices) vg calls).0 ≡ done tt)))
      × (made.class.device ≡ devices)

  -- The group is reported as created exactly if every device of the class is there and
  -- CreateVolumeGroup on them succeeds; and the class is recorded accordingly.
  abbrev pub IsReported : DeviceClass → Classes → List Call → Created → Type 0
  IsReported class before calls made =
      IsMadeOf (all (λ d. is_there (resolve loop_map d)) class.device) class.vg_name
        (resolved class.device) calls made
      × IsRecorded class before made

  lookup-insert_self :
      {W : Type 0} (key : String) (w : W) (m : Map W) → lookup key (insert key w m) ≡ some w
  lookup-insert_self key w m = rw (lookup-insert key key w m, ==-self key) refl

  -- Where the loop finds all available, it has recorded no state.
  abbrev IsSilent : Checked → Type 0
  IsSilent c = c.available ≡ true → c.device_states ≡ []

  check_resolved-IsSilent :
      (note : String → List DeviceState → List DeviceState) (c : Checked) (o : Option Disk)
      (d : Disk)
      → IsSilent c
      → IsSilent (check_resolved loop_map disks note c o d)
  check_resolved-IsSilent note c none d h = h
  check_resolved-IsSilent note c (some n) d h = by_test (has n.name disks)
    where
      by_test :
          (b : Bool)
          → IsSilent (
              if b then record c { device = c.device ++ n ∷ [] } else record {
                available = false;
                device = c.device ++ n ∷ [];
                device_states = note n.name c.device_states;
              })
      by_test true = h
      by_test false = λ a. cc

  check_disks-IsSilent :
      (note : String → List DeviceState → List DeviceState) (ds : List Disk) (c : Checked)
      → IsSilent c
      → IsSilent (check_disks loop_map disks note c ds)
  unfolding check_disks
  check_disks-IsSilent note [] c h = h
  check_disks-IsSilent note (d ∷ ds) c h =
      check_disks-IsSilent note ds _ (check_resolved-IsSilent note c (resolve loop_map d) d h)

  and_false : (b : Bool) → false ≡ (b && false)
  and_false true = refl
  and_false false = refl

  check_disks-available :
      (note : String → List DeviceState → List DeviceState) (ds : List Disk) (c : Checked)
      → (check_disks loop_map disks note c ds).available
        ≡ (c.available && all (λ d. is_there (resolve loop_map d)) ds)
  unfolding check_disks
  check_disks-available note [] c = and_true c.available
    where
      and_true : (b : Bool) → b ≡ (b && true)
      and_true true = refl
      and_true false = refl
  check_disks-available note (d ∷ ds) c =
      check_disks-available note ds (check_resolved loop_map disks note c (resolve loop_map d) d)
      ∙ by_name (resolve loop_map d)
    where
      rest : Bool
      rest = all (λ e. is_there (resolve loop_map e)) ds

      by_name :
          (o : Option Disk)
          → ((check_resolved loop_map disks note c o d).available && rest)
            ≡ (c.available && (is_there o && rest))
      by_name none = refl
      by_name (some named) = by_test (has named.name disks)
        where
          by_test :
              (b : Bool)
              → ((if b then record c { device = c.device ++ named ∷ [] } else record {
                available = false;
                device = c.device ++ named ∷ [];
                device_states = note named.name c.device_states;
              }).available
                  && rest)
                ≡ (c.available && (b && rest))
          by_test true = refl
          by_test false = and_false c.available

  check_disks-device :
      (note : String → List DeviceState → List DeviceState) (ds : List Disk) (c : Checked)
      → (check_disks loop_map disks note c ds).device ≡ c.device ++ resolved ds
  unfolding check_disks
  check_disks-device note [] c = sym (append-nil c.device)
  check_disks-device note (d ∷ ds) c =
      check_disks-device note ds (check_resolved loop_map disks note c (resolve loop_map d) d)
      ∙ (ap (λ l. l ++ resolved ds) (by_name (resolve loop_map d))
          ∙ append_assoc c.device (under_name (resolve loop_map d) d ∷ []) (resolved ds))
    where
      by_name :
          (o : Option Disk)
          → (check_resolved loop_map disks note c o d).device ≡ c.device ++ under_name o d ∷ []
      by_name none = refl
      by_name (some named) = by_test (has named.name disks)
        where
          by_test :
              (b : Bool)
              → (if b then record c { device = c.device ++ named ∷ [] } else record {
                available = false;
                device = c.device ++ named ∷ [];
                device_states = note named.name c.device_states;
              }).device
                ≡ c.device ++ named ∷ []
          by_test true = refl
          by_test false = refl

  record_creation-IsRecorded :
      (class : DeviceClass) (classes : Classes) (r : Result (Unit {0}))
      → IsRecorded class classes (record_creation executor loop_map disks class [] classes r)
  record_creation-IsRecorded class classes (ok u) =
      (λ e. (lookup-insert_self class.vg_name _ classes.suc_class, refl), λ e. cc)
  record_creation-IsRecorded class classes (err x) =
      (λ e. cc, λ e. (has-insert_self class.vg_name _ classes.fail_class, refl))

  create_if-IsReported :
      (b : Bool) (class : DeviceClass) (states : List DeviceState) (classes : Classes)
      (calls : List Call)
      → (b ≡ true → states ≡ [])
      → (made : Created) × ((create_if executor loop_map disks b class states classes calls).0
          ≡ done made)
        × IsMadeOf b class.vg_name class.device calls made
        × IsRecorded class classes made
  create_if-IsReported true class states classes calls h = rw (h refl) (
      by_outcome (create_volume_group executor (names class.device) class.vg_name calls).0
        ((create_volume_group-IsCalm executor (names class.device) class.vg_name).calm calls))
    where
      report : Result (Unit {0}) → Created
      report = record_creation executor loop_map disks class [] classes

      by_outcome :
          (o : Outcome (Unit {0}))
          → o ≢ panicked
          → (made : Created) × ((and_then
                (recover o)
                (λ r. pure (report r))
                (create_volume_group executor (names class.device) class.vg_name calls).1).0
              ≡ done made)
            × (((made.suc ≡ true) ↔ ((◌≡◌ {A = Bool} true true) × (o ≡ done tt)))
                × (made.class.device ≡ class.device))
            × IsRecorded class classes made
      by_outcome (done u) calm = (
        report (ok tt),
        refl,
        ((λ e. (refl, refl), λ e. refl), refl),
        record_creation-IsRecorded class classes (ok tt),
      )
      by_outcome (failed x) calm = (
        report (err x),
        refl,
        ((λ e. cc, λ (t, e). cc), refl),
        record_creation-IsRecorded class classes (err x),
      )
      by_outcome panicked calm = absurd (calm refl)
  create_if-IsReported false class states classes calls h = (
    _,
    refl,
    ((λ e. cc, λ (t, e). cc), refl),
    (λ e. cc, λ e. (has-insert_self class.vg_name _ classes.fail_class, refl)),
  )

  -- createVg always ends, and with a report of its class. It reports the group as created exactly if
  -- each device, but for loops of the job's that have none, was listed as available and
  -- CreateVolumeGroup on the devices succeeds. If so, the class is recorded as ready with every one of
  -- its devices online, and the failed classes are as before; if not, the class is among the failed
  -- ones, and the successful ones are as before.
  pub create_vg-IsReported :
      (class : DeviceClass) (classes : Classes) (calls : List Call)
      → (made : Created) × ((create_vg executor loop_map disks class classes calls).0 ≡ done made)
        × IsReported class classes calls made
  unfolding create_vg
  create_vg-IsReported class classes calls =
      of_loop checked.available checked.device checked.device_states
        (check_disks-available append_state class.device start)
        (check_disks-device append_state class.device start)
        (check_disks-IsSilent append_state class.device start (λ e. refl))
    where
      start : Checked
      start = record { available = true; device = []; device_states = [] }

      checked : Checked
      checked = check_disks loop_map disks append_state start class.device

      of_loop :
          (b : Bool) (devices : List Disk) (states : List DeviceState)
          → b ≡ all (λ d. is_there (resolve loop_map d)) class.device
          → devices ≡ resolved class.device
          → (b ≡ true → states ≡ [])
          → (made : Created) × ((create_if executor loop_map disks b
                (record class { device = devices })
                states
                classes
                calls).0
              ≡ done made)
            × IsReported class classes calls made
      of_loop b devices states p q h =
          let (made, e, of, recorded) =
            create_if-IsReported b (record class { device = devices }) states classes calls h in
          (made, e, (rw (← p, ← q) of, recorded))
