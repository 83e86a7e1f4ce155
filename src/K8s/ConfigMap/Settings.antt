-- ===== src/K8s/ConfigMap/Settings.antt =====
-- The two ways to read a setting of the operator.
use nativestor.Prelude.{
  String, ◌≡◌, refl, Bool, true, false, List, [], Option, none, some, if◌then◌else◌,
}
use nativestor.Prelude.Maps.{Map, lookup}
use nativestor.Errors.{Error, Result, ok, err, plain, ErrorTests}
use nativestor.VolumeGroup.Lvmd.{ConfigMap}
use nativestor.K8s.Client.{Client}
use nativestor.K8s.ConfigMap.{get_value, get_operator_setting, read_setting}

-- the settings that an answer gives, where it gives any
abbrev pub settings_of : ErrorTests → Result ConfigMap → Option (Map String)
settings_of tests (ok cm) = some cm.contents
settings_of tests (err e) = if tests.is_not_found e then some [] else none

abbrev pub value_of :
    (String → Option String) → String → String → Option (Map String) → String × Option Error
value_of lookup_env setting default none = (default, some (plain "error reading ConfigMap %q. %v"))
value_of lookup_env setting default (some settings) =
    (get_value lookup_env settings setting default, none)

module _ (lookup_env : String → Option String) {E : Type 0} (tests : ErrorTests)
    (client : Client E ConfigMap) (name setting default : String) where
  -- GetOperatorSetting answers as GetValue does on the settings of the config map, or on no settings
  -- if the config map is not found; with any other error it returns the default beside an error.
  pub get_operator_setting-eq-get_value :
      (log : List E)
      → (get_operator_setting lookup_env tests client name setting default log).0
        ≡ ok (value_of lookup_env setting default (settings_of tests (client.get name log).0))
  unfolding get_operator_setting get_value lookup
  get_operator_setting-eq-get_value log = by_answer (client.get name log).0
    where
      by_answer :
          (answer : Result ConfigMap)
          → ok (read_setting lookup_env tests setting default answer)
            ≡ ok (value_of lookup_env setting default (settings_of tests answer))
      by_answer (ok cm) = refl
      by_answer (err e) = by_test (tests.is_not_found e)
        where
          by_test :
              (b : Bool)
              → ok (
                  if b
                  then (get_value lookup_env [] setting default, none)
                  else (default, some (plain "error reading ConfigMap %q. %v")))
                ≡ ok (value_of lookup_env setting default (if b then some [] else none))
          by_test true = refl
          by_test false = refl
