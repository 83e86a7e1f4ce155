-- ===== src/VolumeGroup/Lvmd/Listed.antt =====
-- Which classes updateLvmdConf leaves in lvmd's configuration.
use nativestor.Prelude.{
  String, ◌==◌, ==-self, ◌≡◌, refl, sym, ap, ◌∙◌, List, [], ◌∷◌, ◌++◌, any, ◌&&◌, ◌||◌, some, Bool,
  true, false, All, eq_iff, if◌then◌else◌,
}
use mathlib.Core.Path.{subst}
use nativestor.Prelude.Maps.{Map, lookup, values, lookup-insert}
use nativestor.Errors.{Result, ok, ◌>>=◌, >>=-eq-ok}
use nativestor.VolumeGroup.Types.{DeviceClass, ClassState}
use nativestor.VolumeGroup.Lvmd.{
  LvmdClass, LmvdConf, ConfigMap, Codec, IsFaithful, lvmd_config_map_key, put, follow_each,
  keep_named, convert_config, convert_each, update_from, update_lvmd_conf,
}

-- There is a successful class of this name.
abbrev pub is_successful : Map ClassState → String → Bool
is_successful suc_class name = any (λ c. name == c.name) (values suc_class)

-- A class of this name and this group is in the list.
abbrev pub lists : String → String → List LvmdClass → Bool
lists name vg eles = any (λ e. (e.name == name) && (e.volume_group == vg)) eles

keep_named-All :
    (suc_class : List ClassState) (eles : List LvmdClass)
    → All (λ e. any (λ c. e.name == c.name) suc_class ≡ true) (keep_named suc_class eles)
unfolding keep_named
keep_named-All suc_class [] = tt
keep_named-All suc_class (e ∷ eles) =
    by_test (any (λ c. e.name == c.name) suc_class) refl (keep_named-All suc_class eles)
  where
    by_test :
        (b : Bool)
        → any (λ c. e.name == c.name) suc_class ≡ b
        → All (λ e. any (λ c. e.name == c.name) suc_class ≡ true) (keep_named suc_class eles)
        → All
            (λ e. any (λ c. e.name == c.name) suc_class ≡ true)
            (if b then e ∷ keep_named suc_class eles else keep_named suc_class eles)
    by_test true p h = (p, h)
    by_test false p h = h

any-append {ℓ} :
    {A : Type ℓ} (p : A → Bool) (xs ys : List A) → any p ys ≡ true → any p (xs ++ ys) ≡ true
any-append p [] ys h = h
any-append p (x ∷ xs) ys h = by_test (p x) (any-append p xs ys h)
  where
    by_test : (b : Bool) → any p (xs ++ ys) ≡ true → (b || any p (xs ++ ys)) ≡ true
    by_test true e = refl
    by_test false e = e

keep_named-lists :
    (suc_class : List ClassState) (name vg : String) (eles : List LvmdClass)
    → any (λ c. name == c.name) suc_class ≡ true
    → lists name vg eles ≡ true
    → lists name vg (keep_named suc_class eles) ≡ true
unfolding keep_named
keep_named-lists suc_class name vg [] s h = h
keep_named-lists suc_class name vg (e ∷ eles) s h =
    by_test (e.name == name) refl (e.volume_group == vg) (any (λ c. e.name == c.name) suc_class)
      refl refl h (keep_named-lists suc_class name vg eles s)
  where
    by_test :
        (a : Bool)
        → (e.name == name) ≡ a
        → (g k : Bool) → any (λ c. e.name == c.name) suc_class ≡ k
        → (e.volume_group == vg) ≡ g
        → ((a && g) || lists name vg eles) ≡ true
        → (lists name vg eles ≡ true → lists name vg (keep_named suc_class eles) ≡ true)
        → lists name vg (if k then e ∷ keep_named suc_class eles else keep_named suc_class eles)
          ≡ true
    by_test true same true true k1 g1 e1 rest = rw (same, g1) refl
    by_test true same true false k1 g1 e1 rest =
        cc (ap (λ n. any (λ c. n == c.name) suc_class) ((eq_iff e.name name).0 same), k1, s)
    by_test true same false true k1 g1 e1 rest = rw (same, g1) (rest e1)
    by_test true same false false k1 g1 e1 rest = rest e1
    by_test false same g true k1 g1 e1 rest = rw same (rest e1)
    by_test false same g false k1 g1 e1 rest = rest e1

module _ (codec : Codec) (faithful : IsFaithful codec) where
  abbrev IsListedIn : List LvmdClass → DeviceClass → Type 0
  IsListedIn eles dev = lists dev.class_name dev.vg_name eles ≡ true

  convert_config-lists :
      (dev : DeviceClass) (l : LvmdClass) (ls : List LvmdClass)
      → convert_config codec dev ≡ ok l
      → IsListedIn (l ∷ ls) dev
  unfolding convert_config
  convert_config-lists dev l ls e =
      let (bytes, written, read) = >>=-eq-ok (codec.marshal_class dev) codec.unmarshal_class e in
      let (name, group, default) = faithful.class_read_back dev bytes l written read in
      rw (name, group, ==-self dev.class_name, ==-self dev.vg_name) refl

  weaken :
      (l : LvmdClass) (ls : List LvmdClass) (devs : List DeviceClass)
      → All (IsListedIn ls) devs
      → All (IsListedIn (l ∷ ls)) devs
  weaken l ls [] h = tt
  weaken l ls (dev ∷ devs) (p, h) = (
    any-append (λ e. (e.name == dev.class_name) && (e.volume_group == dev.vg_name)) (l ∷ []) ls p,
    weaken l ls devs h,
  )

  convert_each-lists :
      (devs : List DeviceClass) (ls : List LvmdClass)
      → convert_each codec devs ≡ ok ls
      → All (IsListedIn ls) devs
  unfolding convert_each
  convert_each-lists [] ls e = tt
  convert_each-lists (dev ∷ devs) ls e =
      let (l, first, rest) =
        >>=-eq-ok (convert_config codec dev) (λ l. convert_each codec devs >>= λ ls. ok (l ∷ ls))
          e in
      let (later, others, whole) = >>=-eq-ok (convert_each codec devs) (λ ls. ok (l ∷ ls)) rest in
      subst (λ l. All (IsListedIn l) (dev ∷ devs)) (same_list whole)
        (
          convert_config-lists dev l later first,
          weaken l later devs (convert_each-lists devs later others),
        )
    where
      same_list :
          {A : Type 0} {xs ys : List A} → ◌≡◌ {A = Result (List A)} (ok xs) (ok ys) → xs ≡ ys
      same_list e = cc

  kept_lists :
      (suc_class : List ClassState) (before added : List LvmdClass) (devs : List DeviceClass)
      → All (IsListedIn added) devs
      → All
          (λ dev.
            any (λ c. dev.class_name == c.name) suc_class ≡ true
            → IsListedIn (keep_named suc_class (before ++ added)) dev)
          devs
  kept_lists suc_class before added [] h = tt
  kept_lists suc_class before added (dev ∷ devs) (p, h) = (
    λ s. keep_named-lists suc_class dev.class_name dev.vg_name (before ++ added) s (
        any-append (λ e. (e.name == dev.class_name) && (e.volume_group == dev.vg_name)) before added
          p),
    kept_lists suc_class before added devs h,
  )

  -- what the written configuration is
  abbrev pub IsUpdated : List DeviceClass → Map ClassState → ConfigMap → Type 0
  IsUpdated new_vgs suc_class cm =
      (conf : LmvdConf) × (text : String) × (lookup lvmd_config_map_key cm.contents ≡ some text)
      × (codec.unmarshal_conf text ≡ ok conf)
      × All (λ e. is_successful suc_class e.name ≡ true) conf.device_classes
      × All
          (λ dev.
            is_successful suc_class dev.class_name ≡ true → IsListedIn conf.device_classes dev)
          new_vgs

  -- If updateLvmdConf succeeds on a config map that has a configuration of lvmd, it writes one in which
  -- every class has the name of a successful class, and in which each class just created whose name is
  -- that of a successful one is listed with its group; the codecs read back what they wrote.
  pub update_lvmd_conf-IsUpdated :
      (spec new_vgs : List DeviceClass) (suc_class : Map ClassState) (cm cm' : ConfigMap)
      (old : String)
      → lookup lvmd_config_map_key cm.contents ≡ some old
      → update_lvmd_conf codec spec new_vgs suc_class cm ≡ ok cm'
      → IsUpdated new_vgs suc_class cm'
  unfolding update_lvmd_conf
  update_lvmd_conf-IsUpdated spec new_vgs suc_class cm cm' old there e =
      let write = λ (conf : LmvdConf) (added : List LvmdClass).
        codec.marshal_conf (record conf {
          device_classes =
              keep_named (values suc_class) (follow_each spec conf.device_classes ++ added);
        })
        >>= λ value. ok (put lvmd_config_map_key value cm) in
      let e' : (codec.unmarshal_conf old >>= λ conf. convert_each codec new_vgs >>= write conf)
          ≡ ok cm' =
        ap (update_from codec spec new_vgs suc_class cm) (sym there) ∙ e in
      let (conf, read, rest) =
        >>=-eq-ok (codec.unmarshal_conf old) (λ conf. convert_each codec new_vgs >>= write conf)
          e' in
      let (added, converted, rest2) = >>=-eq-ok (convert_each codec new_vgs) (write conf) rest in
      let new_conf = record conf {
        device_classes =
            keep_named (values suc_class) (follow_each spec conf.device_classes ++ added);
      } in
      let (value, written, whole) =
        >>=-eq-ok (codec.marshal_conf new_conf) (λ value. ok (put lvmd_config_map_key value cm))
          rest2 in
      let same : put lvmd_config_map_key value cm ≡ cm' = cc whole in
      (
        new_conf,
        value,
        rw (← same, lookup-insert lvmd_config_map_key lvmd_config_map_key value cm.contents) refl,
        faithful.conf_read_back new_conf value written,
        keep_named-All (values suc_class) _,
        kept_lists (values suc_class) (follow_each spec conf.device_classes) added new_vgs
            (convert_each-lists new_vgs added converted),
      )
