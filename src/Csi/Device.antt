-- ===== src/Csi/Device.antt =====
-- The RawDevice object (apis/rawdevice/v1/rawdevice_types.go) and the two ways by which the driver
-- reaches the objects: the lister's cache and the clientset.
use nativestor.Prelude.{
  ℕ, String, ◌≡◌, Bool, true, false, List, [], ◌∷◌, Option, none, some, ◌==◌, select, if◌then◌else◌,
}
use nativestor.Prelude.Int.{ℤ}
use nativestor.Prelude.Maps.{Map, lookup}
use nativestor.Errors.{Error, Result, ok, err}

pub record RawDeviceSpec : Type 0 where
  pub node_name : String
  pub size : ℤ
  pub type : String
  pub real_path : String
  pub major : ℕ
  pub minor : ℕ
  pub uuid : String
  pub available : Bool

pub record RawDeviceStatus : Type 0 where
  pub name : String

-- Of the metadata, the name and the labels.
pub record RawDevice : Type 0 where
  pub name : String
  pub labels : Map String
  pub spec : RawDeviceSpec
  pub status : RawDeviceStatus

-- labels.Everything(), and labels.SelectorFromSet of one pair
pub data Selector : Type 0 where
  everything : Selector
  label_is : String → String → Selector

abbrev text_is : Option String → String → Bool
text_is none v = false
text_is (some w) v = w == v

unfoldable pub matches : Selector → RawDevice → Bool
unfolding lookup
matches everything d = true
matches (label_is k v) d = text_is (lookup k d.labels) v

-- `rawDeviceLister.List` and `RawDevices().UpdateStatus`, over a state of the world.
pub record RawDeviceApi (W : Type 0) : Type 0 where
  pub list : Selector → W → Result (List RawDevice)
  pub update_status : RawDevice → W → Result RawDevice × W

-- The write of a status, as the API server documents it for a status subresource: the object of that
-- name gets the status, and keeps the rest.
unfoldable pub set_status : String → RawDeviceStatus → List RawDevice → List RawDevice
set_status n s [] = []
set_status n s (d ∷ ds) = (if d.name == n then record d { status = s } else d) ∷ set_status n s ds

-- What the API server is documented to do: an update that succeeds writes the status, one that fails
-- writes nothing.
pub record IsApiServer {W : Type 0} (api : RawDeviceApi W) : Type 0 where
  pub devices : W → List RawDevice
  pub updated :
      (d d' : RawDevice) (w : W)
      → (api.update_status d w).0 ≡ ok d'
      → devices (api.update_status d w).1 ≡ set_status d.name d.status (devices w)
  pub refused :
      (d : RawDevice) (w : W) (e : Error)
      → (api.update_status d w).0 ≡ err e
      → devices (api.update_status d w).1 ≡ devices w

-- The lister's cache, which follows the API server with a delay, has caught up with it: a list that
-- succeeds holds the objects that match.
abbrev pub IsCurrent : {W : Type 0} (api : RawDeviceApi W) → IsApiServer api → W → Type 0
IsCurrent api server w =
    (s : Selector) (ds : List RawDevice)
    → api.list s w ≡ ok ds
    → ds ≡ select (matches s) (server.devices w)
