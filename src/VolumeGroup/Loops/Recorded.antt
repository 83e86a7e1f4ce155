-- ===== src/VolumeGroup/Loops/Recorded.antt =====
-- What checkLoopDevice records: every loop under the status of a success.
use nativestor.Prelude.{
  ℕ, zero, suc, String, ◌≡◌, refl, Bool, true, false, set, List, [], ◌∷◌, All, All-append,
}
use nativestor.Prelude.Int.{ℤ}
use nativestor.Prelude.Texts.{split}
use nativestor.Errors.{Result, ok, err}
use nativestor.Exec.{
  Call, Executor, pure, fail, attempt, ◌>>◌, execute_command, execute_command_with_output,
}
use nativestor.Exec.Results.{
  IsCalm, >>=-IsCalm, pure-IsCalm, fail-IsCalm, execute_command-IsCalm,
  execute_command_with_output-IsCalm, Delivers, >>=-Delivers, delivered, attempt-Delivers,
  attempt-IsCalm,
}
use nativestor.Sys.Lvm.{nsenter}
use nativestor.Sys.Loop.{
  second_line, attach, set_up, read_name, truncate, create_loop, get_loop_back_file,
}
use nativestor.VolumeGroup.Types.{Disk, LoopState, loop_create_successful}
use nativestor.VolumeGroup.Loops.{
  LoopTable, Search, unknown, created, retry, store, get_absolute_file_name, new_uuid, made_state,
  found_state, record_made, make_in, make_loop, record_found, adopt_loop, check_missing, check_disk,
  check_searched, check_loop_device,
}

abbrev pub IsSuccessful : LoopState → Type 0
IsSuccessful l = l.status ≡ loop_create_successful

set-All :
    (ls : List LoopState) (i : ℕ) (s : LoopState)
    → All IsSuccessful ls
    → IsSuccessful s
    → All IsSuccessful (set ls i s)
set-All [] i s h p = tt
set-All (l ∷ ls) zero s (q, h) p = (p, h)
set-All (l ∷ ls) (suc i) s (q, h) p = (q, set-All ls i s h p)

store-All :
    (at : Search) (s : LoopState) (ls : List LoopState)
    → All IsSuccessful ls
    → IsSuccessful s
    → All IsSuccessful (store at s ls)
store-All unknown s ls h p = All-append IsSuccessful ls (s ∷ []) h (p, tt)
store-All (created l) s ls h p = All-append IsSuccessful ls (s ∷ []) h (p, tt)
store-All (retry i) s ls h p = set-All ls i s h p

module _ (executor : Executor) (itoa : ℤ → String) (fresh : List Call → String) where
  made_state-IsSuccessful :
      (name file : String) (r : Result String)
      → IsSuccessful (made_state executor itoa fresh name file r)
  made_state-IsSuccessful name file (ok d) = refl
  made_state-IsSuccessful name file (err e) = refl

  found_state-IsSuccessful :
      (name : String) (r : Result String) → IsSuccessful (found_state executor itoa fresh name r)
  found_state-IsSuccessful name (ok d) = refl
  found_state-IsSuccessful name (err e) = refl

  second_line-IsCalm : (text : String) (lines : List String) → IsCalm (second_line text lines)
  unfolding second_line
  second_line-IsCalm text [] = fail-IsCalm _
  second_line-IsCalm text (a ∷ []) = fail-IsCalm _
  second_line-IsCalm text (a ∷ b ∷ []) = pure-IsCalm _
  second_line-IsCalm text (a ∷ b ∷ c ∷ lines) = fail-IsCalm _

  attach-IsCalm :
      (filename : String) (r : Result (Unit {0})) → IsCalm (attach executor itoa filename r)
  attach-IsCalm filename (ok u) = pure-IsCalm tt
  attach-IsCalm filename (err e) =
      >>=-IsCalm (attempt (execute_command executor (nsenter ("rm" ∷ "-f" ∷ filename ∷ []))))
        (λ removed. fail e) (attempt-IsCalm _ (execute_command-IsCalm executor _))
        (λ removed. fail-IsCalm e)

  create_loop-IsCalm :
      (filename : String) (size : ℕ) → IsCalm (create_loop executor itoa filename size)
  unfolding create_loop
  create_loop-IsCalm filename size =
      >>=-IsCalm (truncate executor itoa filename size)
        (λ _. set_up executor itoa filename >> read_name executor itoa filename)
        (execute_command-IsCalm executor _)
        (λ _.
          >>=-IsCalm (set_up executor itoa filename) (λ _. read_name executor itoa filename)
            (>>=-IsCalm
              (attempt (execute_command executor (nsenter ("losetup" ∷ "-f" ∷ filename ∷ []))))
              (attach executor itoa filename) (attempt-IsCalm _ (execute_command-IsCalm executor _))
              (attach-IsCalm filename))
            (λ _.
              >>=-IsCalm (execute_command_with_output executor _)
                (λ out. second_line "get loop name failed for file" (split b'\n' out))
                (execute_command_with_output-IsCalm executor _)
                (λ out. second_line-IsCalm "get loop name failed for file" (split b'\n' out))))

  get_loop_back_file-IsCalm : (name : String) → IsCalm (get_loop_back_file executor name)
  unfolding get_loop_back_file
  get_loop_back_file-IsCalm name =
      >>=-IsCalm (execute_command_with_output executor _)
        (λ out. second_line "get loop %s back file name failed " (split b'\n' out))
        (execute_command_with_output-IsCalm executor _)
        (λ out. second_line-IsCalm "get loop %s back file name failed " (split b'\n' out))

  abbrev AllSuccessful : LoopTable → Type 0
  AllSuccessful t = All IsSuccessful t.loops

  make_loop-Delivers :
      (disk : Disk) (at : Search) (t : LoopTable)
      → AllSuccessful t
      → Delivers AllSuccessful (make_loop executor itoa fresh disk at t)
  make_loop-Delivers disk at t h =
      >>=-Delivers (λ _. Unit {0}) (new_uuid executor itoa fresh)
        (λ id. make_in executor itoa fresh disk at t (get_absolute_file_name disk.path id))
        (record { delivers = λ calls. (fresh calls, refl, tt) })
        (λ id _.
          (let file = get_absolute_file_name disk.path id in
            >>=-Delivers (λ _. Unit {0}) (attempt (create_loop executor itoa file disk.size))
              (λ answer. pure (record_made executor itoa fresh disk at t file answer))
              (attempt-Delivers _ (create_loop-IsCalm file disk.size))
              (λ answer _.
                delivered
                  (store-All at _ t.loops h (made_state-IsSuccessful disk.name file answer)))))

  adopt_loop-Delivers :
      (disk : Disk) (t : LoopTable)
      → AllSuccessful t
      → Delivers AllSuccessful (adopt_loop executor itoa fresh disk t)
  adopt_loop-Delivers disk t h =
      >>=-Delivers (λ _. Unit {0}) (attempt (get_loop_back_file executor disk.name))
        (λ answer. pure (record_found executor itoa fresh disk t answer))
        (attempt-Delivers _ (get_loop_back_file-IsCalm disk.name))
        (λ answer _.
          delivered
            (All-append IsSuccessful t.loops _ h (found_state-IsSuccessful disk.name answer, tt)))

  check_missing-Delivers :
      (disk : Disk) (t : LoopTable) (at : Search) (auto : Bool)
      → AllSuccessful t
      → Delivers AllSuccessful (check_missing executor itoa fresh disk t at auto)
  check_missing-Delivers disk t at true h = make_loop-Delivers disk at t h
  check_missing-Delivers disk t at false h = adopt_loop-Delivers disk t h

  check_searched-Delivers :
      (disk : Disk) (t : LoopTable) (at : Search)
      → AllSuccessful t
      → Delivers AllSuccessful (check_searched executor itoa fresh disk t at)
  check_searched-Delivers disk t (created l) h = delivered h
  check_searched-Delivers disk t unknown h = check_missing-Delivers disk t unknown disk.auto h
  check_searched-Delivers disk t (retry i) h = check_missing-Delivers disk t (retry i) disk.auto h

  check_disk-Delivers :
      (disk : Disk) (t : LoopTable) (b : Bool)
      → AllSuccessful t
      → Delivers AllSuccessful (check_disk executor itoa fresh disk t b)
  check_disk-Delivers disk t false h = delivered h
  check_disk-Delivers disk t true h = check_searched-Delivers disk t _ h

  -- If all the loops of the node's status are recorded as created, checkLoopDevice ends with a table
  -- that has none under another status, whether or not the loops that it made or looked up failed.
  pub check_loop_device-AllSuccessful :
      (disks : List Disk) (t : LoopTable)
      → AllSuccessful t
      → Delivers AllSuccessful (check_loop_device executor itoa fresh disks t)
  unfolding check_loop_device
  check_loop_device-AllSuccessful [] t h = delivered h
  check_loop_device-AllSuccessful (disk ∷ disks) t h =
      >>=-Delivers AllSuccessful (check_disk executor itoa fresh disk t _)
        (check_loop_device executor itoa fresh disks) (check_disk-Delivers disk t _ h)
        (λ t' h'. check_loop_device-AllSuccessful disks t' h')
