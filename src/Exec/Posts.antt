-- ===== src/Exec/Posts.antt =====
-- What computations promise: a property of the value that they end with, and one of the commands that
-- they run.
use nativestor.Prelude.{String, ◌≡◌, refl, sym, ap, ◌∙◌, List, [], ◌∷◌, ◌++◌, All, All-append}
use nativestor.Exec.{
  Call, Outcome, done, failed, panicked, Exec, pure, attempt, and_then, ◌>>=◌, Executor,
  execute_command,
}
use nativestor.Exec.Steps.{runs, IsQuiet}

abbrev pub Ends {ℓ κ} : {A : Type ℓ} → (A → Type κ) → Outcome A → Type κ
Ends P (done a) = P a
Ends P (failed e) = Unit
Ends P panicked = Unit

-- A computation that ends with a value ends with one that has the property.
pub record Yields {ℓ κ} {A : Type ℓ} (P : A → Type κ) (m : Exec A) : Type κ where
  pub ends : (calls : List Call) → Ends P (m calls).0

module _ {ℓ κ η ι} {A : Type ℓ} {B : Type κ} where
  pub >>=-Yields :
      (P : A → Type η) {Q : B → Type ι} (m : Exec A) (f : A → Exec B)
      → Yields P m
      → ((a : A) → P a → Yields Q (f a))
      → Yields Q (m >>= f)
  >>=-Yields P {Q} m f h k = record {
    ends = λ calls. from_outcome (m calls).0 (m calls).1 (h.ends calls);
  }
    where
      from_outcome : (o : Outcome A) (later : List Call) → Ends P o → Ends Q (and_then o f later).0
      from_outcome (done a) later p = (k a p).ends later
      from_outcome (failed e) later p = tt
      from_outcome panicked later p = tt

module _ {ℓ κ ι} {A : Type ℓ} {B : Type κ} where
  -- Only the second step is to be looked at.
  pub >>=-Yields_any :
      {Q : B → Type ι} (m : Exec A) (f : A → Exec B)
      → ((a : A) → Yields Q (f a))
      → Yields Q (m >>= f)
  >>=-Yields_any {Q} m f k = record { ends = λ calls. from_outcome (m calls).0 (m calls).1 }
    where
      from_outcome : (o : Outcome A) (later : List Call) → Ends Q (and_then o f later).0
      from_outcome (done a) later = (k a).ends later
      from_outcome (failed e) later = tt
      from_outcome panicked later = tt

-- The commands that a computation runs all have the property.
pub record Runs {ℓ κ} {A : Type ℓ} (P : List String → Type κ) (m : Exec A) : Type κ where
  pub trace :
      (calls : List Call)
      → (made : List (List String)) × (runs (m calls).1 ≡ made ++ runs calls) × All P made

-- A computation that runs no command.
pub silent {ℓ κ} : {A : Type ℓ} {P : List String → Type κ} (m : Exec A) → IsQuiet m → Runs P m
silent m q = record { trace = λ calls. ([], q calls, tt) }

-- A computation that ends with a value of the property, whatever was called before.
pub ends_with_value {ℓ κ} : {A : Type ℓ} {P : A → Type κ} {a : A} → P a → Yields P (pure a)
ends_with_value p = record { ends = λ calls. p }

pub attempt-Runs {ℓ κ} :
    {A : Type ℓ} {P : List String → Type κ} {m : Exec A} → Runs P m → Runs P (attempt m)
attempt-Runs r = record { trace = r.trace }

append_assoc {ℓ} : {A : Type ℓ} (xs ys zs : List A) → (xs ++ ys) ++ zs ≡ xs ++ (ys ++ zs)
append_assoc [] ys zs = refl
append_assoc (x ∷ xs) ys zs = ap (λ l. x ∷ l) (append_assoc xs ys zs)

module _ {ℓ κ η} {A : Type ℓ} {B : Type κ} {P : List String → Type η} where
  -- The second step may use what the first one answered.
  pub >>=-Runs_answered :
      (m : Exec A) (f : A → Exec B)
      → Runs P m
      → ((a : A) (calls : List Call) → (m calls).0 ≡ done a → Runs P (f a))
      → Runs P (m >>= f)
  >>=-Runs_answered m f h k = record {
    trace = λ calls. from_outcome calls (m calls).0 (m calls).1 refl (h.trace calls);
  }
    where
      from_outcome :
          (calls : List Call)
          → (o : Outcome A) (later : List Call) → (m calls).0 ≡ o
          → (made : List (List String)) × (runs later ≡ made ++ runs calls) × All P made
          → (made : List (List String)) × (runs (and_then o f later).1 ≡ made ++ runs calls)
            × All P made
      from_outcome calls (done a) later answer (made, e, p) =
          let (more, e2, p2) = (k a calls answer).trace later in
          (
            more ++ made,
            e2 ∙ (ap (λ l. more ++ l) e ∙ sym (append_assoc more made (runs calls))),
            All-append P more made p2 p,
          )
      from_outcome calls (failed x) later answer r = r
      from_outcome calls panicked later answer r = r

  pub >>=-Runs :
      (m : Exec A) (f : A → Exec B) → Runs P m → ((a : A) → Runs P (f a)) → Runs P (m >>= f)
  >>=-Runs m f h k = >>=-Runs_answered m f h (λ a calls e. k a)

pub execute_command-Runs {κ} :
    (executor : Executor) (P : List String → Type κ) (args : List String)
    → P args
    → Runs P (execute_command executor args)
execute_command-Runs executor P args p = record { trace = λ calls. (args ∷ [], refl, (p, tt)) }
