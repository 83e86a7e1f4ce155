-- ===== src/VolumeGroup/Resize.antt =====
-- checkVgIfExpand, checkVgIfShrink and checkVgIfDelete. The first two return their error beside the
-- map of classes that they have changed; the caller logs it and goes on.
pub mod Keys
pub mod Gone
pub mod Shrink
use nativestor.Prelude.{
  ℕ, String, ◌==◌, ◌&&◌, Bool, true, false, not, any, select, eqb, length, List, [], ◌∷◌, ◌++◌, map,
  Option, none, some, if◌then◌else◌,
}
use nativestor.Prelude.Maps.{Map, lookup, insert, erase, has, keys}
use nativestor.Errors.{Error, Result, ok, err, message}
use nativestor.Exec.{Executor, Exec, pure, attempt, ◌>>=◌}
use nativestor.Sys.Lvm.{
  get_physical_volume, create_physical_volume, expand_volume_group, shrink_volume_group,
  remove_volume_group,
}
use nativestor.VolumeGroup.Types.{
  Disk, DeviceClass, LoopState, DeviceState, ClassState, Classes, class_expand_waring,
  class_expand_error, class_shrink_error, class_delete_error, device_state_error, device_online,
  resolve,
}
use nativestor.VolumeGroup.Create.{on_entry}

-- A map of classes with the error of the function that changed it.
abbrev pub Changed : Type 0
Changed = Map ClassState × Option Error

abbrev pub set_message : String → ClassState → ClassState
set_message text c = record c { message = text }

abbrev pub add_state : DeviceState → ClassState → ClassState
add_state state c = record c { device_states = c.device_states ++ state ∷ [] }

-- What the loop of checkVgIfExpand keeps: the new physical volumes, the map, and the error of the
-- last pvcreate.
pub record Expansion : Type 0 where
  pub new_pvs : List String
  pub suc_class : Map ClassState
  pub last_error : Option Error

-- the states that ShrinkVolumeGroup leaves: those of one device are taken out
unfoldable pub remove_states : String → List DeviceState → List DeviceState
remove_states device [] = []
remove_states device (s ∷ states) =
    let rest = remove_states device states in if s.name == device then rest else s ∷ rest

-- the physical volumes that no device of the class is named by
unfoldable pub surplus : List Disk → List String → List String
surplus devices pvs = select (λ pv. not (any (λ d. d.name == pv) devices)) pvs

-- Whether all the physical volumes of a group that has some are to go.
abbrev pub is_whole : List String → List String → Bool
is_whole delete_pvs pvs = eqb (length delete_pvs) (length pvs) && not (eqb (length pvs) 0)

abbrev pub is_named : List DeviceClass → String → Bool
is_named classes key = any (λ d. d.vg_name == key) classes

module _ (executor : Executor) (vg : String) where
  abbrev pub record_pv : String → Expansion → Result (Unit {0}) → Exec Expansion
  record_pv name x (ok tt) = pure (record x { new_pvs = x.new_pvs ++ name ∷ []; last_error = none })
  record_pv name x (err e) = do
    suc_class ←
        on_entry vg
          (λ c.
            add_state (record { name = name; state = device_state_error; message = message e })
              (set_message class_expand_waring c))
          x.suc_class
    pure (record x { suc_class = suc_class; last_error = some e })

  -- a device under its resolved name, which may be a physical volume of the group
  abbrev pub expand_named : Expansion → String → Bool → Exec Expansion
  expand_named x name true = pure x
  expand_named x name false = do
    answer ← attempt (create_physical_volume executor name)
    record_pv name x answer

  abbrev pub expand_disk : Map String → Expansion → Option Disk → Exec Expansion
  expand_disk pv x none = pure x
  expand_disk pv x (some d) = expand_named x d.name (has d.name pv)

  -- the loop of checkVgIfExpand
  unfoldable pub expand_disks : Map LoopState → Map String → List Disk → Expansion → Exec Expansion
  unfolding resolve lookup insert
  expand_disks loop_map pv [] x = pure x
  expand_disks loop_map pv (d ∷ ds) x = do
    x' ← expand_disk pv x (resolve loop_map d)
    expand_disks loop_map pv ds x'

  unfoldable pub add_online : List String → Map ClassState → Exec (Map ClassState)
  unfolding lookup insert
  add_online [] suc_class = pure suc_class
  add_online (d ∷ ds) suc_class = do
    suc_class' ←
        on_entry vg (add_state (record { name = d; state = device_online; message = "" })) suc_class
    add_online ds suc_class'

  abbrev pub after_extend : Expansion → Result (Unit {0}) → Exec Changed
  after_extend x (ok tt) = do
    suc_class ← add_online x.new_pvs x.suc_class
    pure (suc_class, x.last_error)
  after_extend x (err e) = do
    suc_class ← on_entry vg (set_message class_expand_error) x.suc_class
    pure (suc_class, some e)

  abbrev pub extend_by : List String → Expansion → Exec Changed
  extend_by [] x = pure (x.suc_class, x.last_error)
  extend_by (pv ∷ pvs) x = do
    answer ← attempt (expand_volume_group executor vg (pv ∷ pvs))
    after_extend x answer

  -- what checkVgIfExpand does after its loop
  abbrev pub extend : Expansion → Exec Changed
  extend x = extend_by x.new_pvs x

  abbrev pub expand_listed :
      Map LoopState → List Disk → Map ClassState → Result (Map String) → Exec Changed
  expand_listed loop_map device suc_class (err e) = pure (suc_class, some e)
  expand_listed loop_map device suc_class (ok pv) = do
    x ←
        expand_disks loop_map pv device
          (record { new_pvs = []; suc_class = suc_class; last_error = none })
    extend x

  -- checkVgIfExpand, of the group `vg` with the devices of its class
  unfoldable pub check_vg_if_expand : Map LoopState → List Disk → Map ClassState → Exec Changed
  unfolding expand_disks add_online
  check_vg_if_expand loop_map device suc_class = do
    listed ← attempt (get_physical_volume executor vg)
    expand_listed loop_map device suc_class listed

  -- the loop over the removed physical volumes
  unfoldable pub drop_states : List String → Map ClassState → Exec (Map ClassState)
  unfolding lookup insert remove_states
  drop_states [] suc_class = pure suc_class
  drop_states (d ∷ ds) suc_class = do
    suc_class' ←
        on_entry vg (λ c. record c { device_states = remove_states d c.device_states }) suc_class
    drop_states ds suc_class'

  abbrev pub after_remove : Map ClassState → Result (Unit {0}) → Exec Changed
  after_remove suc_class (ok tt) = pure (erase vg suc_class, none)
  after_remove suc_class (err e) = do
    suc_class' ← on_entry vg (set_message class_delete_error) suc_class
    pure (suc_class', some e)

  abbrev pub after_shrink : List String → Map ClassState → Result (Unit {0}) → Exec Changed
  after_shrink delete_pvs suc_class (ok tt) = do
    suc_class' ← drop_states delete_pvs suc_class
    pure (suc_class', none)
  after_shrink delete_pvs suc_class (err e) = do
    suc_class' ← on_entry vg (set_message class_shrink_error) suc_class
    pure (suc_class', some e)

  abbrev pub remove_whole : Map ClassState → Exec Changed
  remove_whole suc_class = do
    answer ← attempt (remove_volume_group executor vg)
    after_remove suc_class answer

  abbrev pub shrink_by : List String → Map ClassState → Exec Changed
  shrink_by [] suc_class = pure (suc_class, none)
  shrink_by (pv ∷ pvs) suc_class = do
    answer ← attempt (shrink_volume_group executor vg (pv ∷ pvs))
    after_shrink (pv ∷ pvs) suc_class answer

  abbrev pub shrink_case : Bool → List String → Map ClassState → Exec Changed
  shrink_case true delete_pvs suc_class = remove_whole suc_class
  shrink_case false delete_pvs suc_class = shrink_by delete_pvs suc_class

  abbrev pub shrink_listed : List Disk → Map ClassState → Result (Map String) → Exec Changed
  shrink_listed device suc_class (err e) = pure (suc_class, some e)
  shrink_listed device suc_class (ok pvs) =
      let delete_pvs = surplus device (keys pvs) in
      shrink_case (is_whole delete_pvs (keys pvs)) delete_pvs suc_class

  -- checkVgIfShrink
  unfoldable pub check_vg_if_shrink : List Disk → Map ClassState → Exec Changed
  unfolding surplus drop_states erase insert lookup keys
  check_vg_if_shrink device suc_class = do
    listed ← attempt (get_physical_volume executor vg)
    shrink_listed device suc_class listed

module _ (device_classes : List DeviceClass) where
  -- the loop over the keys of the second
  unfoldable pub delete_failed : List String → Map ClassState → Map ClassState
  unfolding erase
  delete_failed [] fail_class = fail_class
  delete_failed (key ∷ others) fail_class =
      delete_failed others
        (if is_named device_classes key then fail_class else erase key fail_class)

module _ (executor : Executor) (device_classes : List DeviceClass) where
  -- the deleted entry after a RemoveVolumeGroup, whose message is set first where that failed
  abbrev pub delete_entry : String → Map ClassState → Result (Unit {0}) → Exec (Map ClassState)
  delete_entry key suc_class (ok tt) = pure (erase key suc_class)
  delete_entry key suc_class (err e) = do
    suc_class' ← on_entry key (set_message class_delete_error) suc_class
    pure (erase key suc_class')

  -- the step of checkVgIfDelete: whether a class of the node names the group
  abbrev pub delete_group : Bool → String → Map ClassState → Exec (Map ClassState)
  delete_group true key suc_class = pure suc_class
  delete_group false key suc_class = do
    answer ← attempt (remove_volume_group executor key)
    delete_entry key suc_class answer

  -- its loop over the keys of the first map
  unfoldable pub delete_groups : List String → Map ClassState → Exec (Map ClassState)
  unfolding erase insert lookup
  delete_groups [] suc_class = pure suc_class
  delete_groups (key ∷ others) suc_class = do
    suc_class' ← delete_group (is_named device_classes key) key suc_class
    delete_groups others suc_class'

  -- checkVgIfDelete
  unfoldable pub check_vg_if_delete : Classes → Exec Classes
  unfolding delete_groups delete_failed keys
  check_vg_if_delete classes = do
    suc_class ← delete_groups (keys classes.suc_class) classes.suc_class
    pure (record {
      suc_class = suc_class;
      fail_class = delete_failed device_classes (keys classes.fail_class) classes.fail_class;
    })
