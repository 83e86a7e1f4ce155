-- ===== src/Exec/Results.antt =====
-- Computations that never panic, and computations that always end with a value.
use nativestor.Prelude.{String, ◌≡◌, ◌≢◌, refl, ap, ◌∙◌, List, Option, none, some}
use nativestor.Errors.{Error, Result, ok, err}
use nativestor.Exec.{
  Call, Outcome, done, failed, panicked, Exec, pure, fail, attempt, recover, and_then, of_failure,
  ◌>>=◌, Executor, execute_command, execute_command_with_output,
}

-- It does not panic, whatever was called before.
pub record IsCalm {ℓ} {A : Type ℓ} (m : Exec A) : Type ℓ where
  pub calm : (calls : List Call) → (m calls).0 ≢ panicked

-- It ends with a value of the property, whatever was called before.
pub record Delivers {ℓ κ} {A : Type ℓ} (P : A → Type κ) (m : Exec A) : Type (ℓ ⊔ κ) where
  pub delivers : (calls : List Call) → (a : A) × ((m calls).0 ≡ done a) × P a

module _ {ℓ κ} {A : Type ℓ} {B : Type κ} where
  pub >>=-IsCalm :
      (m : Exec A) (f : A → Exec B) → IsCalm m → ((a : A) → IsCalm (f a)) → IsCalm (m >>= f)
  >>=-IsCalm m f h k = record {
    calm = λ calls. from_outcome (m calls).0 (m calls).1 (h.calm calls);
  }
    where
      from_outcome :
          (o : Outcome A) (later : List Call) → o ≢ panicked → (and_then o f later).0 ≢ panicked
      from_outcome (done a) later n = (k a).calm later
      from_outcome (failed e) later n = λ e. cc
      from_outcome panicked later n = λ e. n refl

module _ {ℓ κ η ι} {A : Type ℓ} {B : Type κ} where
  pub >>=-Delivers :
      (P : A → Type η) {Q : B → Type ι} (m : Exec A) (f : A → Exec B)
      → Delivers P m
      → ((a : A) → P a → Delivers Q (f a))
      → Delivers Q (m >>= f)
  >>=-Delivers P {Q} m f h k = record { delivers = λ calls. from_outcome calls (h.delivers calls) }
    where
      from_outcome :
          (calls : List Call)
          → (a : A) × ((m calls).0 ≡ done a) × P a
          → (b : B) × (((m >>= f) calls).0 ≡ done b) × Q b
      from_outcome calls (a, e, p) =
          let (b, e2, q) = (k a p).delivers (m calls).1 in
          (b, ap (λ o. (and_then o f (m calls).1).0) e ∙ e2, q)

pub delivered {ℓ κ} : {A : Type ℓ} {P : A → Type κ} {a : A} → P a → Delivers P (pure a)
delivered {a} p = record { delivers = λ calls. (a, refl, p) }

-- What may fail but does not panic delivers a result.
pub attempt-Delivers {ℓ} :
    {A : Type ℓ} (m : Exec A) → IsCalm m → Delivers (λ _. Unit {0}) (attempt m)
attempt-Delivers {A} m h = record { delivers = λ calls. from_outcome (m calls).0 (h.calm calls) }
  where
    from_outcome : (o : Outcome A) → o ≢ panicked → (r : Result A) × (recover o ≡ done r) × Unit {0}
    from_outcome (done a) n = (ok a, refl, tt)
    from_outcome (failed e) n = (err e, refl, tt)
    from_outcome panicked n = absurd (n refl)

pub attempt-IsCalm {ℓ} : {A : Type ℓ} (m : Exec A) → IsCalm m → IsCalm (attempt m)
attempt-IsCalm {A} m h = record { calm = λ calls. from_outcome (m calls).0 (h.calm calls) }
  where
    from_outcome : (o : Outcome A) → o ≢ panicked → recover o ≢ panicked
    from_outcome (done a) n e = cc
    from_outcome (failed x) n e = cc
    from_outcome panicked n e = n refl

of_failure-eq {ℓ} : {A : Type ℓ} (o : Option Error) (a : A) → of_failure o a ≢ panicked
of_failure-eq none a e = cc
of_failure-eq (some x) a e = cc

pub pure-IsCalm {ℓ} : {A : Type ℓ} (a : A) → IsCalm (pure a)
pure-IsCalm a = record { calm = λ calls e. cc }

pub fail-IsCalm {ℓ} : {A : Type ℓ} (e : Error) → IsCalm (fail {A = A} e)
fail-IsCalm e = record { calm = λ calls e. cc }

module _ (executor : Executor) (args : List String) where
  pub execute_command-IsCalm : IsCalm (execute_command executor args)
  execute_command-IsCalm = record { calm = λ calls. of_failure-eq _ _ }

  pub execute_command_with_output-IsCalm : IsCalm (execute_command_with_output executor args)
  execute_command_with_output-IsCalm = record { calm = λ calls. of_failure-eq _ _ }
