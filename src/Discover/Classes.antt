-- ===== src/Discover/Classes.antt =====
-- checkDeviceClass and checkLoopDevice of discover.go, and ReSetupLoop of pkg/util/sys/loop.go. The
-- answer to the Get of the config map is given; the patch that is to be sent is the result.
pub mod Accurate
use nativestor.Prelude.{
  String, ◌==◌, ◌&&◌, ◌||◌, Bool, true, false, any, all, map, List, [], ◌∷◌, Option, none, some,
  if◌then◌else◌,
}
use nativestor.Prelude.Maps.{Map, lookup, has, get_or, insert}
use nativestor.Prelude.Texts.{concat}
use nativestor.Errors.{Error, Result, ok, err, plain, ErrorTests}
use nativestor.Exec.{Executor, Exec, pure, fail, attempt, execute_command, ◌>>=◌, ◌>>◌}
use nativestor.Sys.Device.{Library, of_result}
use nativestor.Sys.LocalDisk.{LocalDisk}
use nativestor.Sys.Disks.{discover_devices}
use nativestor.Sys.Lvm.{get_physical_volume, nsenter}
use nativestor.VolumeGroup.Types.{
  ClassState, DeviceState, LoopState, NodeStorageState, class_ready, class_un_ready, device_offline,
  loop_create_successful,
}
use nativestor.VolumeGroup.Lvmd.{ConfigMap, Codec, put, vg_status_config_map_key}

-- a device that is no physical volume of its group is offline; one that is keeps its state
abbrev pub judge_device : Map String → DeviceState → DeviceState
judge_device pvs d = if has d.name pvs then d else record d { state = device_offline }

-- the loop over the devices of a class, and what it makes of the class
unfoldable pub judge_class : Map String → ClassState → ClassState
unfolding lookup
judge_class pvs ele = record ele {
  state =
      if all (λ (d : DeviceState). has d.name pvs) ele.device_states
      then class_ready
      else class_un_ready;
  device_states = map (judge_device pvs) ele.device_states;
}

module _ (library : Library) (executor : Executor) where
  unfoldable pub judge_each : List ClassState → Exec (List ClassState)
  unfolding judge_class get_physical_volume
  judge_each [] = pure []
  judge_each (ele ∷ classes) = do
    pvs ← get_physical_volume executor ele.vg_name
    others ← judge_each classes
    pure (judge_class pvs ele ∷ others)

  abbrev Patch : Type 0
  Patch = Option (ConfigMap × ConfigMap)

  abbrev pub judge_status : Codec → ConfigMap → String → Exec Patch
  judge_status codec cm status = if status == "" then pure none else (do
    state ← of_result (codec.unmarshal_status status)
    classes ← judge_each state.success_classes
    value ← of_result (codec.marshal_status (record state { success_classes = classes }))
    pure (some (cm, put vg_status_config_map_key value cm)))

  -- checkDeviceClass; a config map that cannot be read is passed over
  unfoldable pub check_device_class : Codec → Result ConfigMap → Exec Patch
  unfolding judge_each lookup insert
  check_device_class codec (err e) = pure none
  check_device_class codec (ok cm) =
      judge_status codec cm (get_or "" vg_status_config_map_key cm.contents)

  -- ReSetupLoop
  unfoldable pub re_setup_loop : String → String → Exec (Unit {0})
  unfolding discover_devices
  re_setup_loop filename loop = do
    devices ← discover_devices library executor false
    (if any (λ (ele : LocalDisk). concat "/dev/" ele.name == loop) devices
        then pure tt
        else execute_command executor (nsenter ("losetup" ∷ loop ∷ filename ∷ [])))

  abbrev failed_or : Result (Unit {0}) → Bool → Bool
  failed_or (ok done) failed = failed
  failed_or (err e) failed = true

  -- the loop over the recorded loops; true if one could not be set up
  unfoldable pub set_up_each : List LoopState → Bool → Exec Bool
  unfolding re_setup_loop
  set_up_each [] failed = pure failed
  set_up_each (ele ∷ loops) failed =
      (if ele.status == loop_create_successful
        then (attempt (re_setup_loop ele.file ele.device_name) >>= λ r. pure (failed_or r failed))
        else pure failed)
      >>= set_up_each loops

  abbrev set_up_loops : Codec → Option String → Exec (Unit {0})
  set_up_loops codec none = pure tt
  set_up_loops codec (some loop_devices) = do
    state ← of_result (codec.unmarshal_status loop_devices)
    failed ← set_up_each state.loops false
    (if failed then fail (plain "some loop device resetup failed") else pure tt)

  unfoldable pub check_loop_device : ErrorTests → Codec → Result ConfigMap → Exec (Unit {0})
  unfolding set_up_each lookup
  check_loop_device tests codec (ok cm) =
      set_up_loops codec (lookup vg_status_config_map_key cm.contents)
  check_loop_device tests codec (err e) = if tests.is_not_found e then pure tt else fail e
