-- ===== src/K8s/Status.antt =====
-- UpdateStatus of status.go. The object's metadata can always be read.
use nativestor.Prelude.{◌≡◌, refl, not, ◌&&◌, ◌||◌, Bool, true, false, List, if◌then◌else◌}
use nativestor.Errors.{Error, Result, ok, err, wrapped, ErrorTests}
use nativestor.Api.{Api, pure, fail, of_result, attempt, wrap, ◌>>=◌}

-- IsConflict and IsInvalid of k8s.io/apimachinery/pkg/api/errors
pub record ConflictTests : Type 0 where
  pub is_conflict : Error → Bool
  pub is_invalid : Error → Bool

-- An error has one reason: none is both.
pub record IsExclusive (t : ConflictTests) : Type 0 where
  pub one_reason : (e : Error) → (t.is_conflict e && t.is_invalid e) ≡ false

module _ {E O : Type 0} (tests : ErrorTests) (conflicts : ConflictTests)
    (update_status_of update : O → Api E O) (obj : O) where
  abbrev pub or_update : Result O → Api E O
  or_update (ok o) = pure o
  or_update (err e) = if tests.is_not_found e then update obj else fail e

  -- Status().Update, or Update where the object is not found
  abbrev pub try_update : Api E O
  try_update = attempt (update_status_of obj) >>= or_update

  abbrev pub or_retry : Result O → Api E (Unit {0})
  or_retry (ok o) = pure tt
  or_retry (err e) =
      if not (conflicts.is_conflict e) || not (conflicts.is_invalid e)
      then fail (wrapped "failed to update object %q status" e)
      else wrap "failed to update object %q status" (try_update >>= λ o. pure tt)

  unfoldable pub update_status : Api E (Unit {0})
  update_status = attempt try_update >>= or_retry

  -- UpdateStatus is one try to update the status, or the object if the status is not found: whatever
  -- error the try ends with, it is not made again, if no error is both a conflict and invalid.
  pub update_status-once :
      IsExclusive conflicts
      → (log : List E)
      → update_status log
        ≡ wrap "failed to update object %q status" (try_update >>= λ o. pure tt) log
  unfolding update_status
  update_status-once exclusive log = by_answer (try_update log).0 (try_update log).1
    where
      by_answer :
          (r : Result O) (later : List E)
          → or_retry r later
            ≡ wrap "failed to update object %q status" (of_result r >>= λ o. pure tt) later
      by_answer (ok o) later = refl
      by_answer (err e) later =
          retry (conflicts.is_conflict e) (conflicts.is_invalid e) (exclusive.one_reason e)
        where
          retry :
              (a b : Bool)
              → (a && b) ≡ false
              → ◌≡◌ {A = Result (Unit {0}) × List E}
                  ((if not a || not b
                      then fail (wrapped "failed to update object %q status" e)
                      else wrap "failed to update object %q status" (try_update >>= λ o. pure tt))
                    later)
                  (err (wrapped "failed to update object %q status" e), later)
          retry true true h = cc
          retry true false h = refl
          retry false b h = refl
