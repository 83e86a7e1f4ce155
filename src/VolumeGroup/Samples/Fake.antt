-- ===== src/VolumeGroup/Samples/Fake.antt =====
-- A codec for few values, to instantiate the theorems on lvmd's configuration.
use nativestor.Prelude.{
  String, ◌==◌, eqb, ◌&&◌, ◌≡◌, refl, ap, List, [], ◌∷◌, true, arith, eq_iff, if◌then◌else◌,
}
use nativestor.Errors.{Result, ok, err, plain}
use nativestor.VolumeGroup.Types.{DeviceClass}
use nativestor.VolumeGroup.Lvmd.{LvmdClass, LmvdConf, Codec, IsFaithful}

abbrev pub lvmd_class : String → LvmdClass
lvmd_class name = record {
  name = name;
  volume_group = name;
  spare_gb = 0;
  default = true;
  stripe = 0;
  stripe_size = "";
}

-- A codec for the classes that `lvmd_class` makes, and for configurations with no class or one.
abbrev pub write_class : LvmdClass → Result String
write_class c =
    if (c.volume_group == c.name)
      && ((c.stripe_size == "") && (eqb c.spare_gb 0 && (eqb c.stripe 0 && c.default)))
    then ok c.name
    else err (plain "unsupported")

abbrev pub write_conf : String → List LvmdClass → Result String
write_conf socket (c ∷ []) = if socket == "s" then write_class c else err (plain "unsupported")
write_conf socket _ = err (plain "unsupported")

write_class-read : (c : LvmdClass) (s : String) → write_class c ≡ ok s → lvmd_class s ≡ c
write_class-read c s h =
    let name : c.name ≡ s = ground arith in
    let group : c.volume_group ≡ s = ground (arith, eq_iff c.volume_group c.name) in
    let size : c.stripe_size ≡ "" = ground (arith, eq_iff c.stripe_size "") in
    let spare : c.spare_gb ≡ 0 = ground arith in
    let stripe : c.stripe ≡ 0 = ground arith in
    let default : c.default ≡ true = ground arith in
    rw (name, group, size, spare, stripe, default) refl

abbrev pub read_conf : String → LmvdConf
read_conf s = record { socket_name = "s"; device_classes = lvmd_class s ∷ [] }

write_conf-read :
    (socket : String) (es : List LvmdClass) (s : String)
    → write_conf socket es ≡ ok s
    → read_conf s ≡ record { socket_name = socket; device_classes = es }
write_conf-read socket [] s h = cc
write_conf-read socket (c ∷ []) s h =
    let same : socket ≡ "s" = ground (arith, eq_iff socket "s") in
    let written : write_class c ≡ ok s = ground (arith) in
    rw (same, ← write_class-read c s written) refl
write_conf-read socket (c ∷ d ∷ es) s h = cc

abbrev pub write_device_class : DeviceClass → Result String
write_device_class c =
    if (c.vg_name == c.class_name) && c.default then ok c.class_name else err (plain "unsupported")

abbrev pub codec : Codec
codec = record {
  marshal_status = λ state. ok state.node;
  unmarshal_status = λ s. err (plain "unsupported");
  marshal_conf = λ conf. write_conf conf.socket_name conf.device_classes;
  unmarshal_conf = λ s. ok (read_conf s);
  marshal_class = write_device_class;
  unmarshal_class = λ s. ok (lvmd_class s);
}

class-read :
    (c : DeviceClass) (s : String) (l : LvmdClass)
    → write_device_class c ≡ ok s
    → lvmd_class s ≡ l
    → (l.name ≡ c.class_name) × (l.volume_group ≡ c.vg_name) × (l.default ≡ c.default)
class-read c s l written read =
    let name : c.class_name ≡ s = ground arith in
    let group : c.vg_name ≡ s = ground (arith, eq_iff c.vg_name c.class_name) in
    let default : c.default ≡ true = ground arith in
    rw (← read, name, group, default) (refl, refl, refl)

pub faithful : IsFaithful codec
faithful = record {
  conf_read_back = λ conf s h. ap ok (write_conf-read conf.socket_name conf.device_classes s h);
  class_read_back = λ c s l written read. class-read c s l written (inside read);
}
  where
    inside : {a b : LvmdClass} → ok a ≡ ok b → a ≡ b
    inside e = cc
