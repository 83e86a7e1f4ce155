-- ===== src/Csi/Controller.antt =====
-- The RPC handlers of driver/raw_device/controller.go: CreateVolume, DeleteVolume,
-- ValidateVolumeCapabilities, GetCapacity, ControllerExpandVolume and ControllerGetCapabilities.
-- Requests hold the fields that the handlers read; a nil pointer, slice or map is `none`.
pub mod Requests
pub mod Laws
use nativestor.Prelude.{
  ℕ, String, List, [], ◌∷◌, Option, none, some, Bool, true, false, ◌==◌, eqb, if◌then◌else◌,
}
use nativestor.Prelude.Int.{ℤ, pos, ltb_ℤ, shl_30}
use nativestor.Prelude.Maps.{Map, lookup}
use nativestor.Prelude.Texts.{to_lower}
use nativestor.Errors.{
  Error, Result, ok, err, plain, grpc, invalid_argument, internal, resource_exhausted, not_found,
  unimplemented, message, ErrorTests, ◌>>=◌,
}
use nativestor.Csi.Device.{RawDeviceApi}
use nativestor.Csi.Capacity.{Capacity, convert_request_capacity, get_capacity_by_topology_label}
use nativestor.Csi.Placement.{NodeCapacity, get_max_capacity}
use nativestor.Csi.Volumes.{create_volume, get_volume, delete_volume}
use Requests.{
  AccessType, block, mount, unset, Capability, ContentSource, Requirements, CreateVolumeRequest,
  CreateVolumeResponse, GetCapacityResponse, RpcType, create_delete_volume, get_capacity_rpc,
  topology_node_key, required_bytes, limit_bytes,
}

-- the numbers of csi.VolumeCapability_AccessMode_Mode
abbrev pub single_node_writer : ℕ
single_node_writer = 1

abbrev check_mode : Option ℕ → Result (Unit {0})
check_mode none = ok tt
check_mode (some mode) =
    if eqb mode single_node_writer
    then ok tt
    else err (grpc invalid_argument "unsupported access mode: %s")

abbrev check_type : AccessType → Result (Unit {0})
check_type block = ok tt
check_type (mount fs_type flags) = ok tt
check_type unset = err (grpc invalid_argument "unknown or empty access_type")

-- the loop over the volume capabilities
unfoldable pub check_capabilities : List Capability → Result (Unit {0})
check_capabilities [] = ok tt
check_capabilities (c ∷ cs) = do
  typed ← check_type c.access_type
  moded ← check_mode c.access_mode
  check_capabilities cs

-- the loops over the preferred and the requisite topologies: the value of the first that has the key
unfoldable pub find_segment : List (Map String) → String
unfolding lookup
find_segment [] = ""
find_segment (topo ∷ topos) = elim (lookup topology_node_key topo) [
  | some v ↦ v
  | none ↦ find_segment topos
]

abbrev invalid : Error → Error
invalid e = grpc invalid_argument (message e)

-- An error of `m` is replaced.
abbrev pub map_err {ℓ} : {A : Type ℓ} → (Error → Error) → Result A → Result A
map_err f (ok a) = ok a
map_err f (err e) = err (f e)

-- what CreateVolume checks of the source and the capabilities
unfoldable pub check_request : Option ContentSource → Option (List Capability) → Result (Unit {0})
unfolding check_capabilities
check_request (some source) capabilities =
    err (grpc invalid_argument "volume_content_source not supported")
check_request none none = err (grpc invalid_argument "no volume capabilities are provided")
check_request none (some cs) = check_capabilities cs

module _ {W : Type 0} (tests : ErrorTests) (api : RawDeviceApi W) where
  abbrev node_of_largest : ℤ → NodeCapacity → Result String
  node_of_largest request_gb best =
      if best.node == ""
      then err (grpc internal "can not find any node")
      else if ltb_ℤ best.capacity (shl_30 request_gb)
      then err (grpc resource_exhausted "can not find enough volume space %d")
      else ok best.node

  abbrev node_of_requirements : Requirements → Result String
  node_of_requirements r =
      let preferred = find_segment r.preferred in
      let node = if preferred == "" then find_segment r.requisite else preferred in
      if node == ""
      then err (grpc invalid_argument "cannot find key '%s' in accessibility_requirements")
      else ok node

  -- the node of the volume
  unfoldable pub choose_node : Option Requirements → ℤ → W → Result String
  unfolding find_segment
  choose_node none request_gb w = do
    best ←
        map_err (λ e. grpc internal "failed to get max capacity node %v") (get_max_capacity api w)
    node_of_largest request_gb best
  choose_node (some r) request_gb w = node_of_requirements r

  -- An error that is no gRPC status is reported as an internal one.
  abbrev pub as_status : Error → Error
  as_status e = if tests.is_status e then e else grpc internal (message e)

  abbrev respond : String → ℤ → Result String → Result CreateVolumeResponse
  respond node request_gb reply = do
    volume_id ← map_err as_status reply
    ok (record {
      capacity_bytes = shl_30 request_gb;
      volume_id = volume_id;
      accessible_topology = ((topology_node_key, node) ∷ []) ∷ [];
    })

  -- the arguments that CreateVolume hands to createVolume
  unfoldable pub plan_volume : CreateVolumeRequest → W → Result (String × ℤ)
  plan_volume req w = do
    checked ← check_request req.content_source req.capabilities
    request_gb ← map_err invalid (
        convert_request_capacity (required_bytes req.capacity_range)
          (limit_bytes req.capacity_range))
    node ← choose_node req.accessibility_requirements request_gb w
    if req.name == "" then err (grpc invalid_argument "invalid name") else ok (node, request_gb)

  abbrev run_plan : Result (String × ℤ) → W → Result CreateVolumeResponse × W
  run_plan (err e) w = (err e, w)
  run_plan (ok (node, request_gb)) w =
      let (reply, w') = create_volume api node request_gb w in (respond node request_gb reply, w')

  -- CreateVolume. The name, in lower case, is handed on and used by nothing.
  unfoldable pub create_volume_rpc : CreateVolumeRequest → W → Result CreateVolumeResponse × W
  create_volume_rpc req w = run_plan (plan_volume req w) w

  -- DeleteVolume
  unfoldable pub delete_volume_rpc : String → W → Result (Unit {0}) × W
  delete_volume_rpc volume_id w =
      if volume_id == ""
      then (err (grpc invalid_argument "volume_id is not provided"), w)
      else (let (reply, w') = delete_volume api volume_id w in
          (do done ← map_err as_status reply; ok tt, w'))

  -- ValidateVolumeCapabilities, whose answer confirms the capabilities of the request
  unfoldable pub validate_volume_capabilities :
      String → List Capability → W → Result (List Capability)
  validate_volume_capabilities volume_id [] w =
      if volume_id == ""
      then err (grpc invalid_argument "volume id is nil")
      else err (grpc invalid_argument "volume capabilities are empty")
  validate_volume_capabilities volume_id (c ∷ cs) w =
      if volume_id == "" then err (grpc invalid_argument "volume id is nil") else do
        device ←
            map_err
              (λ e.
                if tests.is_not_found e
                then grpc not_found "LogicalVolume for volume id %s is not found"
                else grpc internal (message e))
              (get_volume api volume_id w)
        ok (c ∷ cs)

  abbrev capacity_response : Capacity → GetCapacityResponse
  capacity_response c = record {
    available_capacity = c.available;
    maximum_volume_size = some c.maximum;
    minimum_volume_size = some c.minimum;
  }

  -- GetCapacity
  unfoldable pub get_capacity : Option (Map String) → W → Result GetCapacityResponse
  get_capacity none w = err (grpc invalid_argument "must provide topology info")
  get_capacity (some segments) w = elim (lookup topology_node_key segments) [
    | none ↦ ok (record {
      available_capacity = pos 0;
      maximum_volume_size = none;
      minimum_volume_size = none;
    })
    | some v ↦ do
      c ← map_err (λ e. grpc internal (message e)) (get_capacity_by_topology_label api v w)
      ok (capacity_response c)
  ]

-- ControllerExpandVolume
unfoldable pub controller_expand_volume : String → Result (Unit {0})
controller_expand_volume volume_id = err (grpc unimplemented "")

-- ControllerGetCapabilities
unfoldable pub controller_get_capabilities : List RpcType
controller_get_capabilities = create_delete_volume ∷ get_capacity_rpc ∷ []
