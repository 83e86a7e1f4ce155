-- ===== src/VolumeGroup/Plan/Disjoint.antt =====
-- The invariant of a run with a status: no group is both among the successful and among the failed
-- ones, and in the end every group of either map is one that the node's spec names.
use nativestor.Prelude.{
  String, ◌==◌, ==-self, ◌≡◌, refl, sym, ◌∙◌, List, [], ◌∷◌, Bool, true, false, eq_iff,
  if◌then◌else◌,
}
use nativestor.Prelude.Maps.{Map, insert, erase, has, has-insert, has-erase}
use nativestor.Errors.{Result, ok, err}
use nativestor.Exec.{Executor, pure, attempt, ◌>>=◌}
use nativestor.Exec.Posts.{Yields, >>=-Yields, >>=-Yields_any, ends_with_value}
use nativestor.Sys.Lvm.{create_volume_group}
use nativestor.VolumeGroup.Types.{DeviceClass, LoopState, DeviceState, ClassState, Classes}
use nativestor.VolumeGroup.Create.{
  Created, names, on_entry, record_creation, create_if, create_vg, record_retry, retry_if,
  create_vg_retry,
}
use nativestor.VolumeGroup.Resize.{check_vg_if_expand, check_vg_if_shrink, check_vg_if_delete}
use nativestor.VolumeGroup.Resize.Keys.{
  IsWithin, erase-IsWithin, on_entry-IsWithin, IsChangedWithin, check_vg_if_expand-IsWithin,
  check_vg_if_shrink-IsWithin,
}
use nativestor.VolumeGroup.Resize.Gone.{IsNamed, IsKept, check_vg_if_delete-IsKept}
use nativestor.VolumeGroup.Plan.{
  Progress, after_creation, status_case, status_step, status_each, settle,
}

abbrev pub IsDisjoint : Classes → Type 0
IsDisjoint c = (key : String) → has key c.suc_class ≡ true → has key c.fail_class ≡ false

IsDisjoint-insert_suc :
    (vg : String) (v : ClassState) (c : Classes)
    → has vg c.fail_class ≡ false
    → IsDisjoint c
    → IsDisjoint (record c { suc_class = insert vg v c.suc_class })
IsDisjoint-insert_suc vg v c absent h key e =
    by_test (vg == key) refl (sym (has-insert vg key v c.suc_class) ∙ e)
  where
    by_test :
        (b : Bool)
        → (vg == key) ≡ b
        → (if b then true else has key c.suc_class) ≡ true
        → has key c.fail_class ≡ false
    by_test true same p = rw (← (eq_iff vg key).0 same) absent
    by_test false same p = h key p

IsDisjoint-insert_fail :
    (vg : String) (v : ClassState) (c : Classes)
    → has vg c.suc_class ≡ false
    → IsDisjoint c
    → IsDisjoint (record c { fail_class = insert vg v c.fail_class })
IsDisjoint-insert_fail vg v c absent h key e =
    has-insert vg key v c.fail_class ∙ by_test (vg == key) refl
  where
    by_test : (b : Bool) → (vg == key) ≡ b → (if b then true else has key c.fail_class) ≡ false
    by_test true same = cc (e, absent, (eq_iff vg key).0 same)
    by_test false same = h key e

IsDisjoint-within :
    (c : Classes) (suc_class fail_class : Map ClassState)
    → IsWithin c.suc_class suc_class
    → IsWithin c.fail_class fail_class
    → IsDisjoint c
    → IsDisjoint (record { suc_class = suc_class; fail_class = fail_class })
IsDisjoint-within c s f within_s within_f h key e = by_test (has key f) refl
  where
    by_test : (b : Bool) → has key f ≡ b → b ≡ false
    by_test true p = cc (within_f key p, h key (within_s key e))
    by_test false p = refl

abbrev IsMadeDisjoint : Created → Type 0
IsMadeDisjoint made = IsDisjoint made.classes

module _ {V : Type 0} (executor : Executor) (loop_map : Map LoopState) (disks : Map V) where
  module _ (class : DeviceClass) (c : Classes) (absent : has class.vg_name c.suc_class ≡ false)
      (h : IsDisjoint c) where
    record_creation-IsDisjoint :
        (states : List DeviceState) (r : Result (Unit {0}))
        → has class.vg_name c.fail_class ≡ false
        → IsDisjoint (record_creation executor loop_map disks class states c r).classes
    record_creation-IsDisjoint states (ok u) new = IsDisjoint-insert_suc class.vg_name _ c new h
    record_creation-IsDisjoint states (err e) new =
        IsDisjoint-insert_fail class.vg_name _ c absent h

    create_if-IsDisjoint :
        (b : Bool) (states : List DeviceState)
        → has class.vg_name c.fail_class ≡ false
        → Yields IsMadeDisjoint (create_if executor loop_map disks b class states c)
    create_if-IsDisjoint true states new =
        >>=-Yields_any (attempt (create_volume_group executor (names class.device) class.vg_name))
          (λ answer. pure (record_creation executor loop_map disks class states c answer))
          (λ r. ends_with_value (record_creation-IsDisjoint states r new))
    create_if-IsDisjoint false states new =
        ends_with_value (IsDisjoint-insert_fail class.vg_name _ c absent h)

    record_retry-IsDisjoint :
        (r : Result (Unit {0}))
        → IsDisjoint (record_retry executor loop_map disks class c r).classes
    record_retry-IsDisjoint (ok u) =
        IsDisjoint-insert_suc class.vg_name _
          (record c { fail_class = erase class.vg_name c.fail_class })
          (rw (has-erase class.vg_name class.vg_name c.fail_class, ==-self class.vg_name) refl)
          (IsDisjoint-within c c.suc_class _ (λ key e. e)
            (erase-IsWithin c.fail_class class.vg_name c.fail_class (λ key e. e)) h)
    record_retry-IsDisjoint (err e) = h

    retry_if-IsDisjoint :
        (b : Bool) (states : List DeviceState)
        → Yields IsMadeDisjoint (retry_if executor loop_map disks b class states c)
    retry_if-IsDisjoint true states =
        >>=-Yields_any (attempt (create_volume_group executor (names class.device) class.vg_name))
          (λ answer. pure (record_retry executor loop_map disks class c answer))
          (λ r. ends_with_value (record_retry-IsDisjoint r))
    retry_if-IsDisjoint false states =
        >>=-Yields (IsWithin c.fail_class)
          (on_entry class.vg_name (λ s. record s { device_states = states }) c.fail_class)
          (λ f. pure (record { suc = false; class = class; classes = record c { fail_class = f } }))
          (on_entry-IsWithin c.fail_class class.vg_name (λ s. record s { device_states = states })
            c.fail_class (λ key e. e))
          (λ f w. ends_with_value (IsDisjoint-within c c.suc_class f (λ key e. e) w h))

  create_vg-IsDisjoint :
      (dev : DeviceClass) (c : Classes)
      → has dev.vg_name c.suc_class ≡ false
      → has dev.vg_name c.fail_class ≡ false
      → IsDisjoint c
      → Yields IsMadeDisjoint (create_vg executor loop_map disks dev c)
  unfolding create_vg
  create_vg-IsDisjoint dev c absent new h = create_if-IsDisjoint _ c absent h _ _ new

  create_vg_retry-IsDisjoint :
      (dev : DeviceClass) (c : Classes)
      → has dev.vg_name c.suc_class ≡ false
      → IsDisjoint c
      → Yields IsMadeDisjoint (create_vg_retry executor loop_map disks dev c)
  unfolding create_vg_retry
  create_vg_retry-IsDisjoint dev c absent h = retry_if-IsDisjoint _ c absent h _ _

  abbrev pub IsProgressDisjoint : Progress → Type 0
  IsProgressDisjoint p = IsDisjoint p.classes

  status_case-IsDisjoint :
      (s f : Bool) (p : Progress) (dev : DeviceClass)
      → has dev.vg_name p.classes.suc_class ≡ s
      → has dev.vg_name p.classes.fail_class ≡ f
      → IsDisjoint p.classes
      → Yields IsProgressDisjoint (status_case executor loop_map disks s f p dev)
  status_case-IsDisjoint true f p dev e1 e2 h =
      >>=-Yields (IsChangedWithin p.classes.suc_class)
        (check_vg_if_expand executor dev.vg_name loop_map dev.device p.classes.suc_class)
        (λ expanded. check_vg_if_shrink executor dev.vg_name dev.device expanded.0 >>= λ shrunk.
          pure (record p { classes = record p.classes { suc_class = shrunk.0 } }))
        (check_vg_if_expand-IsWithin p.classes.suc_class executor dev.vg_name loop_map dev.device
          p.classes.suc_class (λ key e. e))
        (λ x w.
          >>=-Yields (IsChangedWithin p.classes.suc_class)
            (check_vg_if_shrink executor dev.vg_name dev.device x.0)
            (λ shrunk. pure (record p { classes = record p.classes { suc_class = shrunk.0 } }))
            (check_vg_if_shrink-IsWithin p.classes.suc_class executor dev.vg_name dev.device x.0 w)
            (λ y w2.
              ends_with_value
                (IsDisjoint-within p.classes y.0 p.classes.fail_class w2 (λ key e. e) h)))
  status_case-IsDisjoint false true p dev e1 e2 h =
      >>=-Yields IsMadeDisjoint (create_vg_retry executor loop_map disks dev p.classes)
        (λ made. pure (after_creation p made)) (create_vg_retry-IsDisjoint dev p.classes e1 h)
        (λ made d. ends_with_value d)
  status_case-IsDisjoint false false p dev e1 e2 h =
      >>=-Yields IsMadeDisjoint (create_vg executor loop_map disks dev p.classes)
        (λ made. pure (after_creation p made)) (create_vg-IsDisjoint dev p.classes e1 e2 h)
        (λ made d. ends_with_value d)

  status_each-IsDisjoint :
      (devs : List DeviceClass) (p : Progress)
      → IsDisjoint p.classes
      → Yields IsProgressDisjoint (status_each executor loop_map disks devs p)
  unfolding status_each status_step
  status_each-IsDisjoint [] p h = ends_with_value h
  status_each-IsDisjoint (dev ∷ devs) p h =
      >>=-Yields IsProgressDisjoint (status_step executor loop_map disks p dev)
        (status_each executor loop_map disks devs) (status_case-IsDisjoint _ _ p dev refl refl h)
        (λ p' h'. status_each-IsDisjoint devs p' h')

  -- what a run leaves in the two maps
  abbrev pub IsSettled : List DeviceClass → Progress → Type 0
  IsSettled dcs p =
      IsDisjoint p.classes × (IsNamed dcs p.classes.suc_class × IsNamed dcs p.classes.fail_class)

  -- Where no group is both among the successful and among the failed ones of the status that a run
  -- starts from, a run that ends with two maps ends with two of which that holds too, and in which
  -- every group is one that a class of the node's spec names.
  pub settle-IsSettled :
      (dcs : List DeviceClass) (c : Classes)
      → IsDisjoint c
      → Yields (IsSettled dcs) (settle executor loop_map disks dcs c)
  unfolding settle
  settle-IsSettled dcs c h =
      >>=-Yields IsProgressDisjoint
        (status_each executor loop_map disks dcs (record { classes = c; suc_vgs = [] }))
        (λ p.
          check_vg_if_delete executor dcs p.classes >>= λ kept. pure (record p { classes = kept }))
        (status_each-IsDisjoint dcs _ h)
        (λ p d.
          >>=-Yields (IsKept dcs executor p.classes) (check_vg_if_delete executor dcs p.classes)
            (λ kept. pure (record p { classes = kept }))
            (check_vg_if_delete-IsKept dcs executor p.classes)
            (λ kept k.
              ends_with_value
                (IsDisjoint-within p.classes kept.suc_class kept.fail_class k.1.0 k.1.1 d, k.0)))
