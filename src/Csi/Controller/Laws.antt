-- ===== src/Csi/Controller/Laws.antt =====
-- What the RPC handlers promise: the contract of CreateVolume, and the answers of
-- ValidateVolumeCapabilities.
use nativestor.Prelude.{
  ℕ, suc, ◌*◌, ◌-◌, ◌^◌, ◌<◌, String, ◌≡◌, refl, ◌≢◌, ◌⊎◌, List, [], ◌∷◌, Option, none, some, arith,
  eq_iff, All,
}
use nativestor.Prelude.Int.{pos, pos_part, two_63, ◌≤ℤ◌, ◌<ℤ◌}
use nativestor.Errors.{Error, Result, ok, err, grpc, internal, not_found, ErrorTests, IsDocumented}
use nativestor.Csi.Device.{RawDevice, RawDeviceApi, IsApiServer, everything, set_status}
use nativestor.Csi.Volumes.{get_volume, index_of_volume}
use nativestor.Csi.Volumes.Effects.{Created}
use nativestor.Csi.Controller.Requests.{
  unset, Capability, CreateVolumeRequest, CreateVolumeResponse, required_bytes, topology_node_key,
}
use nativestor.Csi.Controller.{
  single_node_writer, map_err, create_volume_rpc, validate_volume_capabilities,
}

-- Block or mount access, by one writer where a mode is given.
abbrev pub IsSupported : Capability → Type 0
IsSupported c =
    (c.access_type ≢ unset) × ((c.access_mode ≡ none) ⊎ (c.access_mode ≡ some single_node_writer))

map_err-eq-ok {ℓ} :
    {A : Type ℓ} (f : Error → Error) (m : Result A) {a : A} → map_err f m ≡ ok a → m ≡ ok a
map_err-eq-ok f (ok b) h = h
map_err-eq-ok f (err e) h = cc

index_of_volume-absent :
    (id : String) (index : ℕ) (devs : List RawDevice) (o : Option ℕ)
    → All (λ d. d.status.name ≢ id) devs
    → index_of_volume id index devs o ≡ o
unfolding index_of_volume
index_of_volume-absent id index [] o h = refl
index_of_volume-absent id index (d ∷ ds) o (p, h) =
    ground (arith, eq_iff d.status.name id, index_of_volume-absent id (suc index) ds o)

module _ {W : Type 0} (tests : ErrorTests) (api : RawDeviceApi W) (server : IsApiServer api) where
  open server use {devices}

  -- What a request has to say, and what a success of CreateVolume promises for it.
  pub record Contract (req : CreateVolumeRequest) (w : W) (resp : CreateVolumeResponse)
      : Type 0 where
    pub no_source : req.content_source ≡ none
    pub supported : (cs : List Capability) × (req.capabilities ≡ some cs) × All IsSupported cs
    pub named : req.name ≢ ""
    pub node : String
    pub gib : ℕ
    pub created : Created api server node gib w resp.volume_id
    pub enough : required_bytes req.capacity_range ≤ℤ pos (gib * 2 ^ 30)
    pub least : (gib ≡ 1) ⊎ (pos ((gib - 1) * 2 ^ 30) <ℤ required_bytes req.capacity_range)
    pub capacity : resp.capacity_bytes ≡ pos (gib * 2 ^ 30)
    pub topology : resp.accessible_topology ≡ ((topology_node_key, node) ∷ []) ∷ []
    pub written :
        devices (create_volume_rpc tests api req w).1
        ≡ set_status resp.volume_id (record { name = resp.volume_id }) (devices w)

  abbrev pub IsInt64Sized : W → Type 0
  IsInt64Sized w = All (λ d. pos_part d.spec.size < two_63) (devices w)

  get_volume_missing :
      (id : String) (w : W) (devs : List RawDevice)
      → api.list everything w ≡ ok devs
      → All (λ d. d.status.name ≢ id) devs
      → get_volume api id w ≡ err (grpc not_found "")
  unfolding get_volume
  get_volume_missing id w devs listing absent =
      rw (listing, index_of_volume-absent id 0 devs none absent)

  -- For a volume that no listed device carries ValidateVolumeCapabilities answers Internal, with the
  -- text of the gRPC status NotFound, and not NotFound, where IsNotFound does as it is documented, the
  -- request names a volume and has a capability, and the devices can be listed.
  pub validate_volume_capabilities-missing :
      (id : String) (c : Capability) (cs : List Capability) (w : W) (devs : List RawDevice)
      → IsDocumented tests
      → id ≢ ""
      → api.list everything w ≡ ok devs
      → All (λ d. d.status.name ≢ id) devs
      → validate_volume_capabilities tests api id (c ∷ cs) w
        ≡ err (grpc internal "rpc error: code = NotFound desc = ")
  unfolding validate_volume_capabilities
  validate_volume_capabilities-missing id c cs w devs documented ne listing absent =
      rw (get_volume_missing id w devs listing absent, documented.not_found_grpc not_found "")
        (ground (arith, eq_iff id ""))
