-- ===== src/VolumeGroup/Plan.antt =====
-- The loops of provisionFirst and provisionWithNodeStatus over the classes of the node, in which every
-- volume group is created, expanded, shrunk or removed.
pub mod Disjoint
pub mod Careful
use nativestor.Prelude.{
  String, Bool, true, false, List, [], ◌∷◌, ◌++◌, Option, none, some, if◌then◌else◌,
}
use nativestor.Prelude.Maps.{Map, lookup, insert, has}
use nativestor.Exec.{Executor, Exec, pure, ◌>>=◌}
use nativestor.VolumeGroup.Types.{
  DeviceClass, LoopState, ClassState, Classes, class_create_fail, class_un_ready,
}
use nativestor.VolumeGroup.Create.{Created, create_vg, create_vg_retry}
use nativestor.VolumeGroup.Resize.{check_vg_if_expand, check_vg_if_shrink, check_vg_if_delete}

-- What such a loop keeps: the two maps, and the classes just created.
pub record Progress : Type 0 where
  pub classes : Classes
  pub suc_vgs : List DeviceClass

abbrev pub after_creation : Progress → Created → Progress
after_creation p made = record {
  classes = made.classes;
  suc_vgs = if made.suc then p.suc_vgs ++ made.class ∷ [] else p.suc_vgs;
}

-- the state of a class whose group is there before the job has made it; it has no group name
abbrev pub existing_state : DeviceClass → ClassState
existing_state dev = record {
  name = dev.class_name;
  vg_name = "";
  state = class_un_ready;
  message = "create failed vg existing";
  device_states = [];
}

module _ {V : Type 0} (executor : Executor) (loop_map : Map LoopState) (disks : Map V) where
  -- the step of provisionFirst: whether the group is there, and the class
  abbrev pub first_step : Bool → Progress → DeviceClass → Exec Progress
  first_step true p dev = pure (record p {
    classes = record p.classes {
      fail_class = insert dev.vg_name (existing_state dev) p.classes.fail_class;
    };
  })
  first_step false p dev = do
    made ← create_vg executor loop_map disks dev p.classes
    pure (after_creation p made)

  unfoldable pub first_each : Map String → List DeviceClass → Progress → Exec Progress
  unfolding create_vg lookup insert
  first_each vgs [] p = pure p
  first_each vgs (dev ∷ devs) p = do
    p' ← first_step (has dev.vg_name vgs) p dev
    first_each vgs devs p'

  -- the step of provisionWithNodeStatus: whether the group is among those made, and whether it is
  -- among those that failed
  abbrev pub status_case : Bool → Bool → Progress → DeviceClass → Exec Progress
  status_case true failed_before p dev = do
    expanded ← check_vg_if_expand executor dev.vg_name loop_map dev.device p.classes.suc_class
    shrunk ← check_vg_if_shrink executor dev.vg_name dev.device expanded.0
    pure (record p { classes = record p.classes { suc_class = shrunk.0 } })
  status_case false true p dev = do
    made ← create_vg_retry executor loop_map disks dev p.classes
    pure (after_creation p made)
  status_case false false p dev = do
    made ← create_vg executor loop_map disks dev p.classes
    pure (after_creation p made)

  unfoldable pub status_step : Progress → DeviceClass → Exec Progress
  unfolding create_vg create_vg_retry check_vg_if_expand check_vg_if_shrink lookup
  status_step p dev =
      status_case (has dev.vg_name p.classes.suc_class) (has dev.vg_name p.classes.fail_class) p dev

  unfoldable pub status_each : List DeviceClass → Progress → Exec Progress
  unfolding status_step
  status_each [] p = pure p
  status_each (dev ∷ devs) p = do p' ← status_step p dev; status_each devs p'

  -- the loop of provisionWithNodeStatus and the checkVgIfDelete after it
  unfoldable pub settle : List DeviceClass → Classes → Exec Progress
  unfolding status_each check_vg_if_delete
  settle device_classes classes = do
    p ← status_each device_classes (record { classes = classes; suc_vgs = [] })
    kept ← check_vg_if_delete executor device_classes p.classes
    pure (record p { classes = kept })
