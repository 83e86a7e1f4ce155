-- ===== src/Exec.antt =====
-- Commands that the program runs (the Executor of pkg/util/exec/exec.go). What a command does to the
-- machine is not modelled: its answer is any function of the calls made before it, latest first, so
-- the state of a run is the list of its calls. A run ends with a value, an error, or a panic of Go.
pub mod Steps
pub mod Posts
pub mod Results
use nativestor.Prelude.{ℕ, String, ◌≡◌, Option, none, some, List, [], ◌∷◌}
use nativestor.Errors.{Error, Result, ok, err, wrapped}

-- ExecuteCommand, and ExecuteCommandWithOutput: the command with its arguments.
pub data Call : Type 0 where
  run : List String → Call
  output : List String → Call

pub record Reply : Type 0 where
  pub out : String
  pub failure : Option Error

abbrev pub Executor : Type 0
Executor = List Call → Call → Reply

pub data Outcome {ℓ} (A : Type ℓ) : Type ℓ where
  done : A → Outcome A
  failed : Error → Outcome A
  panicked : Outcome A

abbrev pub Exec {ℓ} : Type ℓ → Type ℓ
Exec A = List Call → Outcome A × List Call

module _ {ℓ} {A : Type ℓ} where
  abbrev pub pure : A → Exec A
  pure a calls = (done a, calls)

  abbrev pub fail : Error → Exec A
  fail e calls = (failed e, calls)

  abbrev pub panic : Exec A
  panic calls = (panicked, calls)

  -- `none` is a panic.
  abbrev pub or_panic : Option A → Exec A
  or_panic none = panic
  or_panic (some a) = pure a

  abbrev pub recover : Outcome A → Outcome (Result A)
  recover (done a) = done (ok a)
  recover (failed e) = done (err e)
  recover panicked = panicked

  -- `r, err := m`, where the program goes on after an error.
  abbrev pub attempt : Exec A → Exec (Result A)
  attempt m calls = let (o, later) = m calls in (recover o, later)

  abbrev pub relabel : (Error → Error) → Outcome A → Outcome A
  relabel f (done a) = done a
  relabel f (failed e) = failed (f e)
  relabel f panicked = panicked

  -- errors.Wrap of an error
  abbrev pub wrap : String → Exec A → Exec A
  wrap s m calls = let (o, later) = m calls in (relabel (wrapped s) o, later)

module _ {ℓ κ} {A : Type ℓ} {B : Type κ} where
  abbrev pub and_then : Outcome A → (A → Exec B) → Exec B
  and_then (done a) f calls = f a calls
  and_then (failed e) f calls = (failed e, calls)
  and_then panicked f calls = (panicked, calls)

  infixl 5 ◌>>=◌
  abbrev pub ◌>>=◌ : Exec A → (A → Exec B) → Exec B
  ◌>>=◌ m f calls = let (o, later) = m calls in and_then o f later

infixl 5 ◌>>◌
abbrev pub ◌>>◌ {ℓ} : {B : Type ℓ} → Exec (Unit {0}) → Exec B → Exec B
m >> n = m >>= λ _. n

abbrev pub of_failure {ℓ} : {A : Type ℓ} → Option Error → A → Outcome A
of_failure none a = done a
of_failure (some e) a = failed e

module _ (executor : Executor) where
  -- executor.ExecuteCommand
  abbrev pub execute_command : List String → Exec (Unit {0})
  execute_command args calls = (of_failure (executor calls (run args)).failure tt, run args ∷ calls)

  -- executor.ExecuteCommandWithOutput; beside an error the output is dropped, as the callers do.
  abbrev pub execute_command_with_output : List String → Exec String
  execute_command_with_output args calls =
      let reply = executor calls (output args) in
      (of_failure reply.failure reply.out, output args ∷ calls)

  -- The same, for a caller that reads the output beside an error.
  abbrev pub execute_command_with_error : List String → Exec (String × Option Error)
  execute_command_with_error args calls =
      let reply = executor calls (output args) in
      (done (reply.out, reply.failure), output args ∷ calls)
