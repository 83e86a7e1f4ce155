-- ===== src/Exec/Steps.antt =====
-- What a run of a chain of commands is made of: the commands that may change the machine, and the
-- steps of a chain that succeeded.
use nativestor.Prelude.{◌⊎◌, inl, inr, String, ◌≡◌, refl, List, [], ◌∷◌, Option, none, some}
use nativestor.Errors.{Error}
use nativestor.Exec.{
  Call, run, output, Executor, Outcome, done, failed, panicked, Exec, or_panic, wrap, and_then,
  of_failure, ◌>>=◌, ◌>>◌, execute_command, execute_command_with_output,
}

-- The commands of ExecuteCommand, latest first; those whose output is read are queries.
abbrev pub runs : List Call → List (List String)
runs [] = []
runs (run args ∷ calls) = args ∷ runs calls
runs (output args ∷ calls) = runs calls

-- Computations that run only queries, whatever was called before.
abbrev pub IsQuiet {ℓ} : {A : Type ℓ} → Exec A → Type 0
IsQuiet m = (calls : List Call) → runs (m calls).1 ≡ runs calls

module _ {ℓ κ} {A : Type ℓ} {B : Type κ} where
  pub >>=-IsQuiet :
      (m : Exec A) (f : A → Exec B) → IsQuiet m → ((a : A) → IsQuiet (f a)) → IsQuiet (m >>= f)
  >>=-IsQuiet m f q r calls = from_outcome (m calls).0 (m calls).1 (q calls)
    where
      from_outcome :
          (o : Outcome A) (later : List Call)
          → runs later ≡ runs calls
          → runs (and_then o f later).1 ≡ runs calls
      from_outcome (done a) later e = rw (r a later) e
      from_outcome (failed x) later e = e
      from_outcome panicked later e = e

  -- A chain that succeeds has passed its first step.
  pub >>=-eq-done :
      (m : Exec A) (f : A → Exec B) (calls : List Call) {b : B}
      → ((m >>= f) calls).0 ≡ done b
      → (a : A) × ((m calls).0 ≡ done a)
        × ((f a (m calls).1).0 ≡ done b)
        × ((m >>= f) calls ≡ f a (m calls).1)
  >>=-eq-done m f calls {b} h = from_outcome (m calls).0 refl h
    where
      from_outcome :
          (o : Outcome A)
          → (m calls).0 ≡ o
          → (and_then o f (m calls).1).0 ≡ done b
          → (a : A) × ((m calls).0 ≡ done a)
            × ((f a (m calls).1).0 ≡ done b)
            × ((m >>= f) calls ≡ f a (m calls).1)
      from_outcome (done a) e h = (a, e, h, rw e refl)
      from_outcome (failed x) e h = cc
      from_outcome panicked e h = cc

pub or_panic-IsQuiet {ℓ} : {A : Type ℓ} (o : Option A) → IsQuiet (or_panic o)
or_panic-IsQuiet none calls = refl
or_panic-IsQuiet (some a) calls = refl

pub wrap-IsQuiet {ℓ} : {A : Type ℓ} (s : String) (m : Exec A) → IsQuiet m → IsQuiet (wrap s m)
wrap-IsQuiet s m q = q

module _ (executor : Executor) where
  pub execute_command_with_output-IsQuiet :
      (args : List String) → IsQuiet (execute_command_with_output executor args)
  execute_command_with_output-IsQuiet args calls = refl

  -- Of two commands in a row the first is run, and the second unless the first fails.
  pub execute_command-twice :
      (first second : List String) (calls : List Call)
      → let after =
          runs ((execute_command executor first >> execute_command executor second) calls).1 in
        (after ≡ first ∷ runs calls) ⊎ (after ≡ second ∷ first ∷ runs calls)
  execute_command-twice first second calls = after_first (executor calls (run first)).failure
    where
      after_first :
          (failure : Option Error)
          → let after =
              runs
                (and_then {A = Unit {0}} {B = Unit {0}}
                  (of_failure failure tt)
                  (λ _. execute_command executor second)
                  (run first ∷ calls)).1 in
            (after ≡ first ∷ runs calls) ⊎ (after ≡ second ∷ first ∷ runs calls)
      after_first none = inr refl
      after_first (some e) = inl refl
