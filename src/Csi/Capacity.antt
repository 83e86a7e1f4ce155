-- ===== src/Csi/Capacity.antt =====
-- Capacities: convertRequestCapacity, and getCapacityByTopologyLabel of
-- driver/raw_device/controller.go.
pub mod Bounds
use nativestor.Prelude.{
  ℕ, suc, String, List, [], ◌∷◌, Bool, not, ◌&&◌, ◌||◌, ◌==◌, eqb, if◌then◌else◌,
}
use nativestor.Prelude.Int.{ℤ, pos, negsuc, add_64, shr_30, ltb_ℤ, eqb_ℤ}
use nativestor.Errors.{Result, ok, err, plain, ◌>>=◌}
use nativestor.Csi.Device.{RawDevice, RawDeviceApi, label_is}

unfoldable pub convert_request_capacity : ℤ → ℤ → Result ℤ
unfolding add_64 shr_30
convert_request_capacity request_bytes limit_bytes =
    if ltb_ℤ request_bytes (pos 0)
    then err (plain "required capacity must not be negative")
    else if ltb_ℤ limit_bytes (pos 0)
    then err (plain "capacity limit must not be negative")
    else if not (eqb_ℤ limit_bytes (pos 0)) && ltb_ℤ limit_bytes request_bytes
    then err (plain "requested capacity exceeds limit capacity: request=%d limit=%d")
    else if eqb_ℤ request_bytes (pos 0)
    then ok (pos 1)
    else ok (add_64 (shr_30 (add_64 request_bytes (negsuc 0))) (pos 1))

-- A device that no volume holds and that discovery calls available.
unfoldable pub is_free : RawDevice → Bool
is_free d = not (not (d.status.name == "") || not d.spec.available)

pub record Capacity : Type 0 where
  pub available : ℤ
  pub maximum : ℤ
  pub minimum : ℤ

-- One round of the loop of getCapacityByTopologyLabel, at the position `index`.
unfoldable pub count_device : ℕ → RawDevice → Capacity → Capacity
unfolding is_free
count_device index dev c =
    let size = dev.spec.size in
    let minimum = if eqb index 0 then size else c.minimum in
    if is_free dev
    then record {
      available = add_64 c.available size;
      maximum = if ltb_ℤ c.maximum size then size else c.maximum;
      minimum = if ltb_ℤ size minimum then size else minimum;
    }
    else c

unfoldable pub count_devices : ℕ → List RawDevice → Capacity → Capacity
unfolding count_device
count_devices index [] c = c
count_devices index (dev ∷ devs) c = count_devices (suc index) devs (count_device index dev c)

abbrev pub no_capacity : Capacity
no_capacity = record { available = pos 0; maximum = pos 0; minimum = pos 0 }

unfoldable pub get_capacity_by_topology_label :
    {W : Type 0} → RawDeviceApi W → String → W → Result Capacity
unfolding count_devices
get_capacity_by_topology_label api node w = do
  devs ← api.list (label_is "node" node) w
  ok (count_devices 0 devs no_capacity)
