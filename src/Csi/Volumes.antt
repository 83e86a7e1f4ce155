-- ===== src/Csi/Volumes.antt =====
-- createVolume, deleteVolume and getVolume of driver/raw_device/controller.go. The object is written
-- through the clientset, so each takes the state of the world and returns the next one.
pub mod Effects
pub mod RoundTrip
pub mod History
use nativestor.Prelude.{
  ℕ, suc, String, List, [], ◌∷◌, Option, none, some, ◌==◌, get_elem?, if◌then◌else◌,
}
use nativestor.Prelude.Int.{ℤ}
use nativestor.Errors.{Error, Result, ok, err, plain, grpc, internal, not_found, ◌>>=◌}
use nativestor.Csi.Device.{RawDevice, RawDeviceApi, everything, label_is}
use nativestor.Csi.Placement.{Match, match_devices, no_match}

-- `rawDevicelist[matchIndex]`; an index out of range would panic, and none is.
abbrev pub at_index : Error → List RawDevice → Option ℕ → Result RawDevice
at_index missing devs none = err missing
at_index missing devs (some i) = elim (get_elem? devs i) [
  | none ↦ err (plain "index out of range")
  | some dev ↦ ok dev
]

abbrev pub assigned : String → RawDevice → RawDevice
assigned volume_id dev = record dev { status = record { name = volume_id } }

-- The last index whose status has the name, as the loops have no break.
unfoldable pub index_of_volume : String → ℕ → List RawDevice → Option ℕ → Option ℕ
index_of_volume volume_id index [] found = found
index_of_volume volume_id index (ele ∷ devs) found =
    index_of_volume volume_id (suc index) devs
      (if ele.status.name == volume_id then some index else found)

module _ {W : Type 0} (api : RawDeviceApi W) where
  -- UpdateStatus, with the answer `volume_id` if it succeeds.
  abbrev pub update : String → RawDevice → W → Result String × W
  update volume_id dev w =
      let (reply, w') = api.update_status dev w in (do written ← reply; ok volume_id, w')

  abbrev pub and_update :
      (RawDevice → String) → (RawDevice → String) → Result RawDevice → W → Result String × W
  and_update status answer (err e) w = (err e, w)
  and_update status answer (ok dev) w = update (answer dev) (assigned (status dev) dev) w

  unfoldable pub create_volume : String → ℤ → W → Result String × W
  create_volume node request_gb w =
      and_update (λ dev. dev.name) (λ dev. dev.name)
        (do
          devs ← api.list (label_is "node" node) w
          at_index (grpc internal "not found match device") devs
              (match_devices request_gb 0 devs no_match).index)
        w

  unfoldable pub get_volume : String → W → Result RawDevice
  unfolding index_of_volume
  get_volume volume_id w = do
    devs ← api.list everything w
    at_index (grpc not_found "") devs (index_of_volume volume_id 0 devs none)

  unfoldable pub delete_volume : String → W → Result String × W
  unfolding get_volume
  delete_volume volume_id w =
      and_update (λ dev. "") (λ dev. "")
        (do
          devs ← api.list everything w
          at_index (grpc not_found "") devs (index_of_volume volume_id 0 devs none))
        w
