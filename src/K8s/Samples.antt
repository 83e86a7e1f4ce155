-- ===== src/K8s/Samples.antt =====
-- The theorems on the helpers at a concrete API server, whose log is the number of its requests.
use nativestor.Prelude.{
  ℕ, ◌≤◌, String, ◌≡◌, refl, ◌&&◌, Bool, true, false, List, [], ◌∷◌, ◌⊎◌, none, arith,
}
use nativestor.Errors.{Error, Result, ok, err, api, conflict, invalid, missing, ErrorTests}
use nativestor.Api.{Api, pure, wrap, request, ◌>>=◌}
use nativestor.VolumeGroup.Lvmd.{ConfigMap}
use nativestor.K8s.Client.{Client, fails_with}
use nativestor.K8s.Delete.{WaitOptions, DeleteOptions, retry_count_or_default, delete_resource}
use nativestor.K8s.Delete.Gone.{
  visits, gone, retries, delete_resource-succeeds, delete_resource-gone,
}
use nativestor.K8s.Status.{
  ConflictTests, IsExclusive, update_status, try_update, update_status-once,
}
use nativestor.K8s.ConfigMap.{get_value, get_operator_setting}
use nativestor.K8s.ConfigMap.Settings.{get_operator_setting-eq-get_value}
use nativestor.K8s.Job.{Job}

abbrev is_missing : Error → Bool
is_missing (api missing s) = true
is_missing _ = false

abbrev is_conflict : Error → Bool
is_conflict (api conflict s) = true
is_conflict _ = false

abbrev is_invalid : Error → Bool
is_invalid (api invalid s) = true
is_invalid _ = false

abbrev tests : ErrorTests
tests = record { is_status = λ e. false; is_not_found = is_missing; is_already_exists = λ e. false }

abbrev conflicts : ConflictTests
conflicts = record { is_conflict = is_conflict; is_invalid = is_invalid }

exclusive : IsExclusive conflicts
exclusive = record { one_reason = one_reason }
  where
    one_reason : (e : Error) → (is_conflict e && is_invalid e) ≡ false
    one_reason (api conflict s) = refl
    one_reason (api missing s) = refl
    one_reason (api invalid s) = refl
    one_reason _ = refl

abbrev Log : Type 0
Log = List String

abbrev conflicting : String → Api String String
conflicting o = request o (λ log. err (api conflict o))

-- The status is changed by another client meanwhile.
update_status-once_example :
    update_status tests conflicts conflicting conflicting "c" []
    ≡ wrap "failed to update object %q status"
        (try_update tests conflicts conflicting conflicting "c" >>= λ o. pure tt)
        []
update_status-once_example =
    update_status-once tests conflicts conflicting conflicting "c" exclusive []

abbrev deleting : Api String (Unit {0})
deleting = request "delete" (λ log. ok tt)

-- the object is there at the first look
abbrev after_first : Log → Result (Unit {0})
after_first (a ∷ []) = ok tt
after_first _ = err (api missing "")

abbrev verifying : Api String (Unit {0})
verifying = request "get" after_first

abbrev options : DeleteOptions
options = record {
  must_delete = true;
  wait_options = record { wait = true; retry_count = 3; error_on_timeout = true };
}

abbrev defaults : WaitOptions
defaults = record { wait = true; retry_count = 20; error_on_timeout = false }

is_gone : gone tests deleting verifying (visits tests deleting verifying 1 ("delete" ∷ [])) ≡ true
is_gone = refl

delete_resource-succeeds_example :
    (delete_resource tests deleting verifying options defaults []).0 ≡ ok tt
unfolding retry_count_or_default
delete_resource-succeeds_example =
    delete_resource-succeeds tests deleting verifying options defaults [] refl 1 refl (omega arith)
      is_gone

abbrev Absent : Type 0
Absent =
    ((fails_with tests.is_not_found (deleting []).0 ≡ true) × (options.must_delete ≡ false))
    ⊎ ((k : ℕ) × (k ≤ retries tests deleting verifying options defaults)
        × (gone tests deleting verifying (visits tests deleting verifying k ("delete" ∷ []))
            ≡ true))

delete_resource-gone_example : Absent
delete_resource-gone_example =
    delete_resource-gone tests deleting verifying options defaults [] refl refl
      delete_resource-succeeds_example

abbrev job : ℕ → Job
job active = record {
  name = "prepare";
  node = "n1";
  image = "image";
  command = [];
  indexed = false;
  active = active;
  failed = 0;
  succeeded = 0;
}

abbrev settings : ConfigMap
settings = record {
  name = "setting";
  namespace = "ns";
  labels = [];
  annotations = [];
  contents = ("LOG_LEVEL", "DEBUG") ∷ [];
}

abbrev holding : {O : Type 0} → O → Client String O
holding o = record {
  get = λ n. request "get" (λ log. ok o);
  create = λ p. request "create" (λ log. ok p);
  update = λ p. request "update" (λ log. ok p);
  patch = λ p q. request "patch" (λ log. ok q);
  delete = λ n. request "delete" (λ log. ok tt);
}

abbrev poll : Api String Bool → Api String (Unit {0})
poll look = look >>= λ done. pure tt

get_operator_setting-eq-get_value_example :
    (get_operator_setting (λ n. none) tests (holding settings) "setting" "LOG_LEVEL" "INFO" []).0
    ≡ ok ("DEBUG", none)
unfolding get_value
get_operator_setting-eq-get_value_example =
    get_operator_setting-eq-get_value (λ n. none) tests (holding settings) "setting" "LOG_LEVEL"
      "INFO" []
