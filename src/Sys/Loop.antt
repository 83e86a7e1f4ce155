-- ===== src/Sys/Loop.antt =====
-- Loop devices: CreateLoop, GetLoopBackFile and ReSetupLoop's command of pkg/util/sys/loop.go.
use Prim.Native.String.{◌++◌}
use nativestor.Prelude.{ℕ, String, List, [], ◌∷◌}
use nativestor.Prelude.Int.{ℤ, pos, wrap_64}
use nativestor.Prelude.Texts.{split, trim, is_space}
use nativestor.Errors.{Result, ok, err, plain}
use nativestor.Exec.{
  Executor, Exec, pure, fail, attempt, execute_command, execute_command_with_output, ◌>>=◌, ◌>>◌,
}
use nativestor.Sys.Lvm.{nsenter}

-- the second of the two lines of losetup, a heading and the value
unfoldable pub second_line : String → List String → Exec String
unfolding trim
second_line text (heading ∷ value ∷ []) = pure (trim is_space value)
second_line text _ = fail (plain text)

-- `strconv.Itoa` is the parameter `itoa`.
module _ (executor : Executor) (itoa : ℤ → String) where
  abbrev pub attach : String → Result (Unit {0}) → Exec (Unit {0})
  attach filename (ok tt) = pure tt
  attach filename (err e) = do
    removed ← attempt (execute_command executor (nsenter ("rm" ∷ "-f" ∷ filename ∷ [])))
    fail e

  abbrev pub set_up : String → Exec (Unit {0})
  set_up filename = do
    answer ← attempt (execute_command executor (nsenter ("losetup" ∷ "-f" ∷ filename ∷ [])))
    attach filename answer

  abbrev pub read_name : String → Exec String
  read_name filename = do
    out ←
        execute_command_with_output executor
          (nsenter ("losetup" ∷ "-j" ∷ filename ∷ "-O" ∷ "name" ∷ []))
    second_line "get loop name failed for file" (split b'\n' out)

  abbrev pub truncate : String → ℕ → Exec (Unit {0})
  truncate filename size =
      execute_command executor
        (nsenter ("truncate" ∷ ("--size=" ++ (itoa (wrap_64 (pos size)) ++ "G")) ∷ filename ∷ []))

  -- CreateLoop
  unfoldable pub create_loop : String → ℕ → Exec String
  unfolding second_line split wrap_64
  create_loop filename size = do truncate filename size; set_up filename; read_name filename

module _ (executor : Executor) where
  -- GetLoopBackFile
  unfoldable pub get_loop_back_file : String → Exec String
  unfolding second_line split
  get_loop_back_file name = do
    out ←
        execute_command_with_output executor (nsenter ("losetup" ∷ name ∷ "-O" ∷ "back-file" ∷ []))
    second_line "get loop %s back file name failed " (split b'\n' out)
