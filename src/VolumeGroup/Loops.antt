-- ===== src/VolumeGroup/Loops.antt =====
-- checkLoopDevice: the loop devices of the disks of a class, looked up among those of the node's
-- status, made where the spec asks for that. uuid.New is the parameter `fresh`, strconv.Itoa `itoa`.
pub mod Recorded
use nativestor.Prelude.{
  ℕ, suc, String, ◌==◌, Bool, true, false, set, List, [], ◌∷◌, ◌++◌, Option, none, some,
  if◌then◌else◌,
}
use nativestor.Prelude.Int.{ℤ}
use nativestor.Prelude.Maps.{Map, insert}
use nativestor.Prelude.Texts.{ends_with, concat}
use nativestor.Errors.{Error, Result, ok, err, message}
use nativestor.Exec.{Call, Executor, Exec, done, pure, attempt, ◌>>=◌}
use nativestor.Sys.Loop.{create_loop, get_loop_back_file}
use nativestor.VolumeGroup.Types.{Disk, LoopState, loop, loop_create_successful}

-- c.loopsState and c.loopMap
pub record LoopTable : Type 0 where
  pub loops : List LoopState
  pub loop_map : Map LoopState

-- getAbsoluteFileName
unfoldable pub get_absolute_file_name : String → String → String
unfolding ends_with
get_absolute_file_name path file =
    if ends_with b'/' path then concat path file else concat path (concat "/" file)

-- What the inner loop finds: no loop of that name, one that was created, or one to try again.
pub data Search : Type 0 where
  unknown : Search
  created : LoopState → Search
  retry : ℕ → Search

-- the inner loop: the first loop of that name decides
unfoldable pub search : String → ℕ → List LoopState → Search
search name index [] = unknown
search name index (l ∷ ls) =
    let later = search name (suc index) ls in
    if l.name == name
    then (if l.status == loop_create_successful then created l else retry index)
    else later

-- where the new state goes
abbrev pub store : Search → LoopState → List LoopState → List LoopState
store (retry index) s loops = set loops index s
store _ s loops = loops ++ s ∷ []

module _ (executor : Executor) (itoa : ℤ → String) (fresh : List Call → String) where
  abbrev pub new_uuid : Exec String
  new_uuid calls = (done (fresh calls), calls)

  -- the state of a loop that the job makes; after a failure too it is a success, with no device
  abbrev pub made_state : String → String → Result String → LoopState
  made_state name file (ok device) = record {
    name = name;
    file = file;
    device_name = device;
    status = loop_create_successful;
    message = "";
  }
  made_state name file (err e) = record {
    name = name;
    file = file;
    device_name = "";
    status = loop_create_successful;
    message = message e;
  }

  -- the state of a loop that is there
  abbrev pub found_state : String → Result String → LoopState
  found_state name (ok file) = record {
    name = name;
    file = file;
    device_name = name;
    status = loop_create_successful;
    message = "";
  }
  found_state name (err e) = record {
    name = name;
    file = "";
    device_name = name;
    status = loop_create_successful;
    message = message e;
  }

  abbrev pub record_made : Disk → Search → LoopTable → String → Result String → LoopTable
  record_made disk at t file answer = record {
    loops = store at (made_state disk.name file answer) t.loops;
    loop_map = insert disk.name (made_state disk.name file answer) t.loop_map;
  }

  abbrev pub make_in : Disk → Search → LoopTable → String → Exec LoopTable
  make_in disk at t file = do
    answer ← attempt (create_loop executor itoa file disk.size)
    pure (record_made disk at t file answer)

  abbrev pub make_loop : Disk → Search → LoopTable → Exec LoopTable
  make_loop disk at t = do
    file ← new_uuid
    make_in disk at t (get_absolute_file_name disk.path file)

  abbrev pub record_found : Disk → LoopTable → Result String → LoopTable
  record_found disk t answer = record t { loops = t.loops ++ found_state disk.name answer ∷ [] }

  abbrev pub adopt_loop : Disk → LoopTable → Exec LoopTable
  adopt_loop disk t = do
    answer ← attempt (get_loop_back_file executor disk.name)
    pure (record_found disk t answer)

  -- where the loop is not created: whether the job makes it
  abbrev pub check_missing : Disk → LoopTable → Search → Bool → Exec LoopTable
  check_missing disk t at true = make_loop disk at t
  check_missing disk t at false = adopt_loop disk t

  abbrev pub check_searched : Disk → LoopTable → Search → Exec LoopTable
  check_searched disk t (created l) = pure (record t { loop_map = insert l.name l t.loop_map })
  check_searched disk t at = check_missing disk t at disk.auto

  -- the step of checkLoopDevice: whether the disk is a loop
  abbrev pub check_disk : Disk → LoopTable → Bool → Exec LoopTable
  check_disk disk t false = pure t
  check_disk disk t true = check_searched disk t (search disk.name 0 t.loops)

  -- checkLoopDevice
  unfoldable pub check_loop_device : List Disk → LoopTable → Exec LoopTable
  unfolding search get_absolute_file_name insert
  check_loop_device [] t = pure t
  check_loop_device (disk ∷ disks) t = do
    t' ← check_disk disk t (disk.type_name == loop)
    check_loop_device disks t'
