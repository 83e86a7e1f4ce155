-- ===== src/K8s/Delete.antt =====
-- delete.go, options.go, and deleteResourceAndWait of deployment.go. The times between the tries are
-- left out. A count of retries is a uint below its greatest value, with which the loop of
-- DeleteResource would not end.
pub mod Gone
use nativestor.Prelude.{
  ℕ, zero, suc, ◌+◌, String, ◌≡◌, Bool, true, false, List, Option, none, some, ltb, if◌then◌else◌,
}
use nativestor.Errors.{Error, Result, ok, err, plain, ErrorTests}
use nativestor.Api.{Api, pure, fail, attempt, ◌>>=◌, ◌>>◌}
use nativestor.K8s.Client.{fails_with}

pub record WaitOptions : Type 0 where
  pub wait : Bool
  pub retry_count : ℕ
  pub error_on_timeout : Bool

pub record DeleteOptions : Type 0 where
  pub must_delete : Bool
  pub wait_options : WaitOptions

unfoldable pub retry_count_or_default : WaitOptions → ℕ → ℕ
retry_count_or_default w def = if ltb 0 w.retry_count then w.retry_count else def

module _ {E : Type 0} (tests : ErrorTests) (delete verify : Api E (Unit {0})) where
  -- the rounds of the loop that are left; true is the answer that the object is not found
  unfoldable pub verify_each : ℕ → Api E Bool
  verify_each zero = pure false
  verify_each (suc rounds) =
      let rest = verify_each rounds in
      attempt verify >>= λ answer. if fails_with tests.is_not_found answer then pure true else rest

  abbrev timed_out : Bool → Bool → Result (Unit {0})
  timed_out true error = ok tt
  timed_out false true =
      err (plain "failed to delete %s. gave up waiting after %d retries every %v seconds. %+v")
  timed_out false false = ok tt

  abbrev pub await_deletion : DeleteOptions → WaitOptions → Api E (Unit {0})
  await_deletion opts default =
      if opts.wait_options.wait
      then (do
        deleted ←
            verify_each
              (suc (retry_count_or_default opts.wait_options (retry_count_or_default default 30)))
        (λ log. (timed_out deleted opts.wait_options.error_on_timeout, log)))
      else pure tt

  abbrev pub refuse_deletion : Bool → Error → Api E (Unit {0})
  refuse_deletion must_delete e =
      if tests.is_not_found e
      then (if must_delete
          then fail (plain "failed to delete %s; it does not exist. %+v")
          else pure tt)
      else fail (plain "failed to delete %s. %+v")

  abbrev pub after_delete : DeleteOptions → WaitOptions → Result (Unit {0}) → Api E (Unit {0})
  after_delete opts default (ok done) = await_deletion opts default
  after_delete opts default (err e) = refuse_deletion opts.must_delete e

  -- DeleteResource
  unfoldable pub delete_resource : DeleteOptions → WaitOptions → Api E (Unit {0})
  unfolding verify_each retry_count_or_default
  delete_resource opts default = attempt delete >>= after_delete opts default

  -- The loop of deleteResourceAndWait, which takes any other error as its own. `none` is the answer
  -- of an object that is still there.
  abbrev pub confirm : Result (Unit {0}) → Option (Result (Unit {0}))
  confirm (ok found) = none
  confirm (err e) =
      if tests.is_not_found e then some (ok tt) else some (err (plain "failed to get %s. %+v"))

  abbrev pub or_continue : Option (Result (Unit {0})) → Api E (Unit {0}) → Api E (Unit {0})
  or_continue none rest log = rest log
  or_continue (some r) rest log = (r, log)

  unfoldable pub confirm_each : ℕ → Api E (Unit {0})
  confirm_each zero = fail (plain "gave up waiting for %s pods to be terminated")
  confirm_each (suc rounds) =
      let rest = confirm_each rounds in
      attempt verify >>= λ answer. or_continue (confirm answer) rest

  abbrev pub removed : Result (Unit {0}) → Api E (Unit {0})
  removed (ok done) = confirm_each 45
  removed (err e) =
      if tests.is_not_found e then pure tt else fail (plain "failed to delete %s. %+v")

  unfoldable pub delete_resource_and_wait : Api E (Unit {0})
  unfolding confirm_each
  delete_resource_and_wait = attempt delete >>= removed
