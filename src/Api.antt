-- ===== src/Api.antt =====
-- Programs that send requests to the API server. The answer to a request is any function of the
-- requests before it, latest first, so the state of a run is the list of its requests; a run ends with
-- a value or an error.
use nativestor.Prelude.{String, ◌≡◌, refl, ap, List, ◌∷◌}
use nativestor.Errors.{Error, Result, ok, err, wrapped}

abbrev pub Api {κ} : Type 0 → Type κ → Type κ
Api E A = List E → Result A × List E

abbrev pub relabel {κ} : {A : Type κ} → (Error → Error) → Result A → Result A
relabel f (ok a) = ok a
relabel f (err e) = err (f e)

module _ {κ} {E : Type 0} {A : Type κ} where
  abbrev pub pure : A → Api E A
  pure a log = (ok a, log)

  abbrev pub fail : Error → Api E A
  fail e log = (err e, log)

  -- a result that was got before
  abbrev pub of_result : Result A → Api E A
  of_result r log = (r, log)

  -- `r, err := m`, where the program goes on after an error
  abbrev pub attempt : Api E A → Api E (Result A)
  attempt m log = let (r, later) = m log in (ok r, later)

  -- errors.Wrap of an error
  abbrev pub wrap : String → Api E A → Api E A
  wrap s m log = let (r, later) = m log in (relabel (wrapped s) r, later)

  -- One request, with the server's answer to it.
  abbrev pub request : E → (List E → Result A) → Api E A
  request event answer log = (answer log, event ∷ log)

module _ {κ ι} {E : Type 0} {A : Type κ} {B : Type ι} where
  abbrev pub and_then : Result A → (A → Api E B) → Api E B
  and_then (ok a) f log = f a log
  and_then (err e) f log = (err e, log)

  infixl 5 ◌>>=◌
  abbrev pub ◌>>=◌ : Api E A → (A → Api E B) → Api E B
  ◌>>=◌ m f log = let (r, later) = m log in and_then r f later

infixl 5 ◌>>◌
abbrev pub ◌>>◌ {κ} : {E : Type 0} {B : Type κ} → Api E (Unit {0}) → Api E B → Api E B
m >> n = m >>= λ _. n

-- the error that a call returned is dropped
abbrev pub ignore {κ} : {E : Type 0} {A : Type κ} → Api E A → Api E (Unit {0})
ignore m log = let (r, later) = m log in (ok tt, later)

-- A chain that succeeds has passed its first step, and is what follows that.
pub >>=-eq-ok {κ ι} :
    {E : Type 0} {A : Type κ} {B : Type ι} (m : Api E A) (f : A → Api E B) (log : List E) {b : B}
    → ((m >>= f) log).0 ≡ ok b
    → (a : A) × ((m log).0 ≡ ok a)
      × ((f a (m log).1).0 ≡ ok b)
      × (((m >>= f) log).1 ≡ (f a (m log).1).1)
>>=-eq-ok {E} {A} {B} m f log {b} = by_answer (m log).0 refl
  where
    by_answer :
        (r : Result A)
        → (m log).0 ≡ r
        → (and_then r f (m log).1).0 ≡ ok b
        → (a : A) × ((m log).0 ≡ ok a)
          × ((f a (m log).1).0 ≡ ok b)
          × (((m >>= f) log).1 ≡ (f a (m log).1).1)
    by_answer (ok a) e h = (a, e, h, ap (λ r. (and_then r f (m log).1).1) e)
    by_answer (err x) e h = cc

pub wrap-eq-ok {κ} :
    {E : Type 0} {A : Type κ} (s : String) (m : Api E A) (log : List E) {a : A}
    → (wrap s m log).0 ≡ ok a
    → (m log).0 ≡ ok a
wrap-eq-ok {E} {A} s m log {a} = by_answer (m log).0
  where
    by_answer : (r : Result A) → relabel (wrapped s) r ≡ ok a → r ≡ ok a
    by_answer (ok x) h = cc
    by_answer (err x) h = cc
