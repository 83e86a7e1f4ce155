-- ===== src/Csi/Controller/Requests.antt =====
-- The messages of csi/csi.pb.go that the handlers of driver/raw_device/controller.go read and write,
-- and the key of pkg/raw_device/constants.go.
use nativestor.Prelude.{ℕ, String, List, Option, none, some}
use nativestor.Prelude.Int.{ℤ, pos}
use nativestor.Prelude.Maps.{Map}

abbrev pub topology_node_key : String
topology_node_key = "topology.nativestor.alauda.io/node"

pub data AccessType : Type 0 where
  block : AccessType
  mount : (fs_type : String) (flags : List String) → AccessType
  unset : AccessType

-- The mode is the number of the enum, which the wire leaves open.
pub record Capability : Type 0 where
  pub access_type : AccessType
  pub access_mode : Option ℕ

pub record CapacityRange : Type 0 where
  pub required : ℤ
  pub limit : ℤ

-- The getters answer 0 on a nil range.
abbrev pub required_bytes : Option CapacityRange → ℤ
required_bytes none = pos 0
required_bytes (some r) = r.required

abbrev pub limit_bytes : Option CapacityRange → ℤ
limit_bytes none = pos 0
limit_bytes (some r) = r.limit

-- Each topology is its map of segments.
pub record Requirements : Type 0 where
  pub requisite : List (Map String)
  pub preferred : List (Map String)

pub data ContentSource : Type 0 where
  snapshot volume : String → ContentSource

pub record CreateVolumeRequest : Type 0 where
  pub name : String
  pub capacity_range : Option CapacityRange
  pub capabilities : Option (List Capability)
  pub content_source : Option ContentSource
  pub accessibility_requirements : Option Requirements

pub record CreateVolumeResponse : Type 0 where
  pub capacity_bytes : ℤ
  pub volume_id : String
  pub accessible_topology : List (Map String)

pub record GetCapacityResponse : Type 0 where
  pub available_capacity : ℤ
  pub maximum_volume_size : Option ℤ
  pub minimum_volume_size : Option ℤ

pub data RpcType : Type 0 where
  create_delete_volume get_capacity_rpc : RpcType
