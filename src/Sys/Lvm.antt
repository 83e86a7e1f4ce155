-- ===== src/Sys/Lvm.antt =====
-- LVM through the executor: pkg/util/sys/lvm.go without GetVolumeGroupSize, which nothing calls.
pub mod Guards
pub mod Runs
use nativestor.Prelude.{
  ℕ, suc, String, ◌==◌, List, [], ◌∷◌, ◌++◌, map, Option, none, some, Bool, not, any, eqb, length,
  if◌then◌else◌,
}
use nativestor.Prelude.Maps.{Map, get_or, insert, keys}
use nativestor.Errors.{Error, plain}
use nativestor.Exec.{
  Call, run, output, Executor, Exec, pure, fail, or_panic, wrap, execute_command,
  execute_command_with_output, ◌>>=◌, ◌>>◌,
}
use nativestor.Sys.Parse.{LvInfo, parse_lines}

-- the command line of wrapExecCommand and wrapExecCommandWithOutput
abbrev pub nsenter : List String → List String
nsenter args = "nsenter" ∷ "-u" ∷ "-i" ∷ "-n" ∷ "-m" ∷ "-p" ∷ "-t" ∷ "1" ∷ args

abbrev pub lvm : List String → List String
lvm args = nsenter ("lvm" ∷ args)

-- the command line of parseOutput
abbrev pub report : String → String → List String → List String
report cmd fields args = lvm (
    cmd ∷ "-o" ∷ fields ∷ "--noheadings" ∷ "--separator= " ∷ "--units=b" ∷ "--nosuffix"
    ∷ "--unbuffered" ∷ "--nameprefixes" ∷ args)

-- `info[field]`, with the empty text for a missing field
abbrev pub field_of : String → LvInfo → String
field_of field info = get_or "" field info

-- `infoList` as the set of the values of one field
unfoldable pub collect : String → List LvInfo → Map String → Map String
unfolding insert
collect field [] found = found
collect field (info ∷ infos) found =
    collect field infos (insert (field_of field info) (field_of field info) found)

abbrev pub has_value : String → List LvInfo → Bool
has_value field infos = any (λ info. not (field_of field info == "")) infos

module _ (executor : Executor) where
  unfoldable pub parse_output : String → String → List String → Exec (List LvInfo)
  unfolding parse_lines
  parse_output cmd fields args = do
    out ← execute_command_with_output executor (report cmd fields args)
    or_panic (parse_lines out)

  unfoldable pub get_volume_groups : Exec (Map String)
  unfolding parse_output collect
  get_volume_groups = do
    infos ← wrap "parse out failed cmd:%s %s" (parse_output "vgs" "vg_name" [])
    pure (collect "vg_name" infos [])

  unfoldable pub get_physical_volume : String → Exec (Map String)
  unfolding collect
  get_physical_volume vgname = do
    infos ← wrap "parse out failed cmd:%s %s %s" (parse_output "vgs" "pv_name" (vgname ∷ []))
    pure (collect "pv_name" infos [])

  unfoldable pub check_pv_has_logical_volume : String → Exec Bool
  check_pv_has_logical_volume pvname = do
    infos ←
        wrap "parse out failed cmd:%s %s %s"
          (parse_output "pvs" "+lv_name" (pvname ∷ "--segments" ∷ []))
    pure (has_value "lv_name" infos)

  unfoldable pub check_vg_has_logical_volume : String → Exec Bool
  check_vg_has_logical_volume vgname = do
    infos ← wrap "parse out failed cmd:%s %s %s" (parse_output "vgs" "lv_name" (vgname ∷ []))
    pure (has_value "lv_name" infos)

  unfoldable pub remove_physical_volume : String → Exec (Unit {0})
  remove_physical_volume pv = execute_command executor (lvm ("pvremove" ∷ pv ∷ []))

  -- the loop of RemoveVolumeGroup
  unfoldable pub remove_each : List String → Exec (Unit {0})
  remove_each [] = pure tt
  remove_each (pv ∷ pvs) = do execute_command executor (lvm ("pvremove" ∷ pv ∷ [])); remove_each pvs

  unfoldable pub remove_checked : String → Bool → Exec (Unit {0})
  unfolding remove_each keys
  remove_checked vg_name occupied =
      if occupied then fail (plain "vg %s has some lv can not remove") else do
        pvs ← get_physical_volume vg_name
        execute_command executor (lvm ("vgremove" ∷ vg_name ∷ []))
        remove_each (keys pvs)

  unfoldable pub remove_volume_group : String → Exec (Unit {0})
  remove_volume_group vg_name = do
    occupied ← check_vg_has_logical_volume vg_name
    remove_checked vg_name occupied

  -- the loop of ShrinkVolumeGroup
  unfoldable pub check_each : List String → Exec (Unit {0})
  check_each [] = pure tt
  check_each (dev ∷ devs) = do
    occupied ← check_pv_has_logical_volume dev
    if occupied then fail (plain "pv %s has some lv can not remove") else check_each devs

  unfoldable pub shrink_volume_group : String → List String → Exec (Unit {0})
  shrink_volume_group vg_name pvs = do
    check_each pvs
    execute_command executor (lvm ("vgreduce" ∷ vg_name ∷ pvs))
    execute_command executor (lvm ("pvremove" ∷ pvs))

  unfoldable pub expand_volume_group : String → List String → Exec (Unit {0})
  expand_volume_group vg_name pvs = execute_command executor (lvm ("vgextend" ∷ vg_name ∷ pvs))

  unfoldable pub create_physical_volume : String → Exec (Unit {0})
  create_physical_volume disk_name = execute_command executor (lvm ("pvcreate" ∷ disk_name ∷ []))

  -- the loop of CreateVolumeGroup
  unfoldable pub create_each : List String → Exec (Unit {0})
  create_each [] = pure tt
  create_each (dev ∷ devs) = do
    execute_command executor (lvm ("pvcreate" ∷ dev ∷ []))
    create_each devs

  -- CreateVolumeGroup, over the names of its disks
  unfoldable pub create_volume_group : List String → String → Exec (Unit {0})
  unfolding create_each
  create_volume_group disks volume_group_name = do
    create_each disks
    execute_command executor (lvm ("vgcreate" ∷ volume_group_name ∷ disks))
