-- ===== src/Csi/Placement.antt =====
-- The choice of a node and of a device: getMaxCapacity, and the loop of createVolume, in
-- driver/raw_device/controller.go.
pub mod BestFit
use nativestor.Prelude.{ℕ, suc, String, List, [], ◌∷◌, Option, none, some, not, if◌then◌else◌}
use nativestor.Prelude.Int.{ℤ, pos, shr_30, ltb_ℤ, leb_ℤ, eqb_ℤ}
use nativestor.Errors.{Result, ok, ◌>>=◌}
use nativestor.Csi.Device.{RawDevice, RawDeviceApi, everything}
use nativestor.Csi.Capacity.{is_free}

pub record NodeCapacity : Type 0 where
  pub node : String
  pub capacity : ℤ

unfoldable pub larger : RawDevice → NodeCapacity → NodeCapacity
unfolding is_free
larger ele best =
    if not (is_free ele)
    then best
    else if ltb_ℤ best.capacity ele.spec.size
    then record { node = ele.spec.node_name; capacity = ele.spec.size }
    else best

unfoldable pub largest : List RawDevice → NodeCapacity → NodeCapacity
unfolding larger
largest [] best = best
largest (ele ∷ list) best = largest list (larger ele best)

unfoldable pub get_max_capacity : {W : Type 0} → RawDeviceApi W → W → Result NodeCapacity
unfolding largest
get_max_capacity api w = do
  devs ← api.list everything w
  ok (largest devs (record { node = ""; capacity = pos 0 }))

-- `matchIndex` and `matchSize`; `none` is the index -1.
pub record Match : Type 0 where
  pub index : Option ℕ
  pub size : ℤ

unfoldable pub match_device : ℤ → ℕ → RawDevice → Match → Match
match_device request_gb index dev m =
    let found : Match = record { index = some index; size = dev.spec.size } in
    let first = if eqb_ℤ m.size (pos 0) then found else m in
    if not (is_free dev)
    then m
    else if leb_ℤ request_gb (shr_30 dev.spec.size)
    then (if ltb_ℤ dev.spec.size first.size then found else first)
    else m

unfoldable pub match_devices : ℤ → ℕ → List RawDevice → Match → Match
unfolding match_device
match_devices request_gb index [] m = m
match_devices request_gb index (dev ∷ devs) m =
    match_devices request_gb (suc index) devs (match_device request_gb index dev m)

abbrev pub no_match : Match
no_match = record { index = none; size = pos 0 }
