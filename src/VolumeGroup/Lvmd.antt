-- ===== src/VolumeGroup/Lvmd.antt =====
-- The config map that the job writes, with the configuration of lvmd (updateLvmdConf, createLvmdConf,
-- convertConfig) and the status of the node (updateVgStatus). encoding/json and gopkg.in/yaml.v2 are
-- the parameter Codec.
pub mod Listed
use nativestor.Prelude.{
  ℕ, String, ◌==◌, ◌&&◌, Bool, true, false, not, any, select, List, [], ◌∷◌, ◌++◌, map, Option,
  none, some, ◌≡◌, if◌then◌else◌,
}
use nativestor.Prelude.Maps.{Map, lookup, insert, values}
use nativestor.Errors.{Error, Result, ok, err, ◌>>=◌}
use nativestor.VolumeGroup.Types.{DeviceClass, LoopState, ClassState, Classes, NodeStorageState}

-- DeviceClass of pkg/cluster/topolvm/type.go
pub record LvmdClass : Type 0 where
  pub name : String
  pub volume_group : String
  pub spare_gb : ℕ
  pub default : Bool
  pub stripe : ℕ
  pub stripe_size : String

pub record LmvdConf : Type 0 where
  pub socket_name : String
  pub device_classes : List LvmdClass

-- the fields of a v1.ConfigMap that the job reads or writes; `contents` is Data,
-- which the model takes to be made: into a nil map, that of a config map with no data, Go cannot write
pub record ConfigMap : Type 0 where
  pub name : String
  pub namespace : String
  pub labels : Map String
  pub annotations : Map String
  pub contents : Map String

-- json.Marshal and json.Unmarshal of the status, yaml.Marshal and yaml.Unmarshal of lvmd's
-- configuration and of a class
pub record Codec : Type 0 where
  pub marshal_status : NodeStorageState → Result String
  pub unmarshal_status : String → Result NodeStorageState
  pub marshal_conf : LmvdConf → Result String
  pub unmarshal_conf : String → Result LmvdConf
  pub marshal_class : DeviceClass → Result String
  pub unmarshal_class : String → Result LvmdClass

-- What is documented of the codecs: what was written is read back, and the two class types share the
-- yaml keys of their tags, so that a class is read back as lvmd's.
pub record IsFaithful (codec : Codec) : Type 0 where
  pub conf_read_back :
      (conf : LmvdConf) (s : String)
      → codec.marshal_conf conf ≡ ok s
      → codec.unmarshal_conf s ≡ ok conf
  pub class_read_back :
      (c : DeviceClass) (s : String) (l : LvmdClass)
      → codec.marshal_class c ≡ ok s
      → codec.unmarshal_class s ≡ ok l
      → (l.name ≡ c.class_name) × (l.volume_group ≡ c.vg_name) × (l.default ≡ c.default)

abbrev pub lvmd_config_map_key : String
lvmd_config_map_key = "lvmd.yaml"

abbrev pub vg_status_config_map_key : String
vg_status_config_map_key = "status.json"

abbrev pub lvmd_socket_path : String
lvmd_socket_path = "/run/topolvm/lvmd.sock"

abbrev pub put : String → String → ConfigMap → ConfigMap
put key value cm = record cm { contents = insert key value cm.contents }

-- the classes of lvmd whose default flag the spec has changed
abbrev follow : DeviceClass → LvmdClass → LvmdClass
follow dev ele =
    if (ele.name == dev.class_name) && not (same ele.default dev.default)
    then record ele { default = dev.default }
    else ele
  where
    same : Bool → Bool → Bool
    same true b = b
    same false b = not b

unfoldable pub follow_each : List DeviceClass → List LvmdClass → List LvmdClass
follow_each [] eles = eles
follow_each (dev ∷ devs) eles = follow_each devs (map (follow dev) eles)

-- the loop that deletes the classes with no successful group of their name
unfoldable pub keep_named : List ClassState → List LvmdClass → List LvmdClass
keep_named suc_class [] = []
keep_named suc_class (ele ∷ eles) =
    let rest = keep_named suc_class eles in
    if any (λ c. ele.name == c.name) suc_class then ele ∷ rest else rest

module _ (codec : Codec) where
  unfoldable pub convert_config : DeviceClass → Result LvmdClass
  convert_config dev = do bytes ← codec.marshal_class dev; codec.unmarshal_class bytes

  unfoldable pub convert_each : List DeviceClass → Result (List LvmdClass)
  convert_each [] = ok []
  convert_each (dev ∷ devs) = do
    class ← convert_config dev
    classes ← convert_each devs
    ok (class ∷ classes)

  unfoldable pub create_lvmd_conf : List DeviceClass → ConfigMap → Result ConfigMap
  unfolding convert_each insert
  create_lvmd_conf [] cm = ok cm
  create_lvmd_conf (dev ∷ devs) cm = do
    classes ← convert_each (dev ∷ devs)
    value ← codec.marshal_conf (record { socket_name = lvmd_socket_path; device_classes = classes })
    ok (put lvmd_config_map_key value cm)

  -- updateLvmdConf from the configuration that the config map has, if it has one
  abbrev pub update_from :
      List DeviceClass
      → List DeviceClass
      → Map ClassState
      → ConfigMap
      → Option String
      → Result ConfigMap
  update_from spec new_vgs suc_class cm none = create_lvmd_conf new_vgs cm
  update_from spec new_vgs suc_class cm (some data_lvmd) = do
    lvmd_conf ← codec.unmarshal_conf data_lvmd
    added ← convert_each new_vgs
    value ← codec.marshal_conf (record lvmd_conf {
      device_classes =
          keep_named (values suc_class) (follow_each spec lvmd_conf.device_classes ++ added);
    })
    ok (put lvmd_config_map_key value cm)

  -- updateLvmdConf, with the classes of the node's spec and those of the groups just created
  unfoldable pub update_lvmd_conf :
      List DeviceClass → List DeviceClass → Map ClassState → ConfigMap → Result ConfigMap
  unfolding create_lvmd_conf follow_each convert_each keep_named lookup insert values
  update_lvmd_conf spec new_vgs suc_class cm =
      update_from spec new_vgs suc_class cm (lookup lvmd_config_map_key cm.contents)

  -- updateVgStatus
  unfoldable pub update_vg_status :
      NodeStorageState → Classes → List LoopState → ConfigMap → Result ConfigMap
  unfolding insert values
  update_vg_status state classes loops_state cm = do
    value ← codec.marshal_status (record state {
      fail_classes = values classes.fail_class;
      success_classes = values classes.suc_class;
      loops = loops_state;
    })
    ok (put vg_status_config_map_key value cm)
