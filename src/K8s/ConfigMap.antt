-- ===== src/K8s/ConfigMap.antt =====
-- configmap.go. The JSON of two config maps and the patch between them are the libraries' (Client.patch);
-- os.LookupEnv is a parameter.
pub mod Settings
use nativestor.Prelude.{
  String, ◌≡◌, refl, Bool, true, false, List, [], Option, none, some, if◌then◌else◌,
}
use nativestor.Prelude.Maps.{Map, lookup}
use nativestor.Errors.{Error, Result, ok, err, plain, ErrorTests}
use nativestor.Api.{Api, pure, fail, attempt, ignore, ◌>>=◌, ◌>>◌}
use nativestor.VolumeGroup.Lvmd.{ConfigMap}
use nativestor.K8s.Client.{Client}
use nativestor.K8s.Delete.{DeleteOptions, WaitOptions, delete_resource}

module _ {E : Type 0} (tests : ErrorTests) (client : Client E ConfigMap) where
  abbrev pub no_wait : WaitOptions
  no_wait = record { wait = false; retry_count = 0; error_on_timeout = false }

  -- DeleteConfigMap
  unfoldable pub delete_config_map : String → DeleteOptions → Api E (Unit {0})
  unfolding delete_resource
  delete_config_map name opts =
      delete_resource tests (client.delete name) (client.get name >>= λ cm. pure tt) opts
        (record { wait = false; retry_count = 20; error_on_timeout = false })

  abbrev pub create_config_map : ConfigMap → Api E (Unit {0})
  create_config_map cm = client.create cm >>= λ created. pure tt

  -- PatchConfigMap
  unfoldable pub patch_config_map : ConfigMap → ConfigMap → Api E (Unit {0})
  patch_config_map old new = client.patch old new >>= λ patched. pure tt

  abbrev pub replace : ConfigMap → Result ConfigMap → Api E (Unit {0})
  replace cm (ok existing) =
      ignore
        (delete_config_map existing.name (record { must_delete = true; wait_options = no_wait }))
      >> create_config_map cm
  replace cm (err e) = create_config_map cm

  unfoldable pub create_replaceable_config_map : ConfigMap → Api E (Unit {0})
  unfolding delete_config_map
  create_replaceable_config_map cm = attempt (client.get cm.name) >>= replace cm

  abbrev pub patch_or_create : ConfigMap → Result ConfigMap → Api E (Unit {0})
  patch_or_create cm (ok existing) = patch_config_map existing cm
  patch_or_create cm (err e) = create_config_map cm

  unfoldable pub create_or_patch_config_map : ConfigMap → Api E (Unit {0})
  unfolding patch_config_map
  create_or_patch_config_map cm = attempt (client.get cm.name) >>= patch_or_create cm

module _ (lookup_env : String → Option String) where
  abbrev or_default : String → Option String → String
  or_default default none = default
  or_default default (some value) = value

  abbrev pub or_env : String → String → Option String → String
  or_env setting default (some value) = value
  or_env setting default none = or_default default (lookup_env setting)

  -- GetValue
  unfoldable pub get_value : Map String → String → String → String
  unfolding lookup
  get_value settings setting default = or_env setting default (lookup setting settings)

  abbrev pub read_setting : ErrorTests → String → String → Result ConfigMap → String × Option Error
  read_setting tests setting default (ok cm) =
      (or_env setting default (lookup setting cm.contents), none)
  read_setting tests setting default (err e) =
      if tests.is_not_found e
      then (or_default default (lookup_env setting), none)
      else (default, some (plain "error reading ConfigMap %q. %v"))

  -- GetOperatorSetting, which returns a value beside its error
  unfoldable pub get_operator_setting :
      {E : Type 0}
      → ErrorTests
      → Client E ConfigMap
      → String
      → String
      → String
      → Api E (String × Option Error)
  unfolding lookup
  get_operator_setting tests client name setting default =
      attempt (client.get name) >>= λ answer. pure (read_setting tests setting default answer)
