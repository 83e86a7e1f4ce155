-- ===== src/Csi/Samples.antt =====
-- The theorems of the CSI controller at concrete devices, over a server that keeps them in a list,
-- and tests of the handlers.
use nativestor.Prelude.{
  ℕ, ◌^◌, ◌*◌, ◌-◌, ◌≤◌, String, ◌≡◌, refl, ◌≢◌, ◌↔◌, ◌⊎◌, inl, inr, List, [], ◌∷◌, some, none,
  Bool, true, false, arith, ◌==◌, ne_of_==, select, get_elem?, All, zero, suc,
}
use nativestor.Prelude.Int.{ℤ, pos, shl_30, ◌≤ℤ◌, ◌<ℤ◌}
use nativestor.Errors.{
  Error, grpc, api, missing, already_exists, internal, ok, err, ErrorTests, IsDocumented,
}
use nativestor.Csi.Device.{
  RawDevice, RawDeviceApi, IsApiServer, IsCurrent, everything, matches, set_status,
}
use nativestor.Csi.Capacity.{convert_request_capacity, is_free, count_devices, no_capacity}
use nativestor.Csi.Capacity.Bounds.{
  convert_request_capacity-accepts, convert_request_capacity-IsCeiling, count_devices-available_sum,
  count_devices-extremes, free_bytes, IsSizeOfFree,
}
use nativestor.Csi.Placement.{get_max_capacity, match_devices, no_match}
use nativestor.Csi.Placement.BestFit.{BestAt, match_devices-BestAt}
use nativestor.Csi.Volumes.{create_volume, delete_volume}
use nativestor.Csi.Volumes.Effects.{Created, create_volume-ok}
use nativestor.Csi.Volumes.History.{
  IsOwned, here, next, created, deleted, Reach-IsOwned, create_volume-keeps,
  delete_volume-create_volume, create_volume-distinct,
}
use nativestor.Csi.Controller.Requests.{
  block, CreateVolumeRequest, CreateVolumeResponse, topology_node_key,
}
use nativestor.Csi.Controller.{
  check_request, choose_node, plan_volume, create_volume_rpc, validate_volume_capabilities,
}
use nativestor.Csi.Controller.Laws.{validate_volume_capabilities-missing}

abbrev gib : ℕ → ℤ
gib n = pos (n * 2 ^ 30)

abbrev disk : String → ℕ → String → Bool → RawDevice
disk name size volume available = record {
  name = name;
  labels = ("node", "n1") ∷ [];
  spec = record {
    node_name = "n1";
    size = gib size;
    type = "disk";
    real_path = "/dev/sd";
    major = 8;
    minor = 0;
    uuid = "";
    available = available;
  };
  status = record { name = volume };
}

abbrev stock : List RawDevice
stock = disk "a" 10 "a" true ∷ disk "b" 8 "" true ∷ disk "c" 5 "" true ∷ []

-- A server without failures, whose lister is in step.
abbrev server_api : RawDeviceApi (List RawDevice)
server_api = record {
  list = λ s w. ok (select (matches s) w);
  update_status = λ d w. (ok d, set_status d.name d.status w);
}

ok-injective {ℓ} : {A : Type ℓ} {a b : A} → ok a ≡ ok b → b ≡ a
ok-injective h = cc

never {ℓ κ} : {A : Type ℓ} {P : Type κ} {a : A} {e : Error} → ok a ≡ err e → P
never h = cc

abbrev server : IsApiServer server_api
server = record { devices = λ w. w; updated = λ d d' w h. refl; refused = λ d w e h. never h }

current : (w : List RawDevice) → IsCurrent server_api server w
current w s ds h = ok-injective h

abbrev tests : ErrorTests
tests = record { is_status = is_status; is_not_found = is_missing; is_already_exists = is_there }
  where
    is_status : Error → Bool
    is_status (grpc c s) = true
    is_status _ = false

    is_missing : Error → Bool
    is_missing (api missing s) = true
    is_missing _ = false

    is_there : Error → Bool
    is_there (api already_exists s) = true
    is_there _ = false

documented : IsDocumented tests
documented = record {
  status_grpc = λ c s. refl;
  not_found_grpc = λ c s. refl;
  not_found_plain = λ s. refl;
  not_found_api = λ s. refl;
  already_exists_api = λ s. refl;
}

abbrev request : CreateVolumeRequest
request = record {
  name = "pvc";
  capacity_range = some (record { required = pos 5000000000; limit = pos 0 });
  capabilities = some (record { access_type = block; access_mode = some 1 } ∷ []);
  content_source = none;
  accessibility_requirements = none;
}

abbrev answer : CreateVolumeResponse
answer = record {
  capacity_bytes = gib 5;
  volume_id = "c";
  accessible_topology = ((topology_node_key, "n1") ∷ []) ∷ [];
}

running : Unit {0}
unfolding create_volume_rpc plan_volume check_request choose_node convert_request_capacity
    create_volume delete_volume matches set_status match_devices get_max_capacity shl_30
running = tt

-- The smallest device that holds five GiB is taken; the volume is gone after its deletion.
handler_tests :
    ((create_volume_rpc tests server_api request stock).0 ≡ ok answer)
    × ((create_volume server_api "n1" (pos 5) stock).0 ≡ ok "c")
    × ((create_volume server_api "n1" (pos 9) stock).0
        ≡ err (grpc internal "not found match device"))
    × ((delete_volume server_api "c" (create_volume server_api "n1" (pos 5) stock).1).0 ≡ ok "")
unfolding running
handler_tests = (refl, refl, refl, refl)

convert_test : convert_request_capacity (pos 5000000000) (pos 0) ≡ ok (pos 5)
unfolding convert_request_capacity
convert_test = refl

convert_request_capacity-accepts_example :
    ((g : ℤ) × (convert_request_capacity (pos 5) (pos 7) ≡ ok g))
    ↔ ((pos 0 ≤ℤ pos 5) × (pos 0 ≤ℤ pos 7) × ((pos 7 ≡ pos 0) ⊎ (pos 5 ≤ℤ pos 7)))
convert_request_capacity-accepts_example = convert_request_capacity-accepts (pos 5) (pos 7)

convert_request_capacity-IsCeiling_example :
    (k : ℕ) × (pos 5 ≡ pos k)
    × (1 ≤ k)
    × (pos 5000000000 ≤ℤ pos (k * 2 ^ 30))
    × ((k ≡ 1) ⊎ (pos ((k - 1) * 2 ^ 30) <ℤ pos 5000000000))
convert_request_capacity-IsCeiling_example =
    convert_request_capacity-IsCeiling (pos 5000000000) (pos 0) (pos 5) (omega arith) convert_test

count_devices-available_sum_example :
    (count_devices 0 stock no_capacity).available ≡ pos (free_bytes stock)
unfolding free_bytes is_free
count_devices-available_sum_example = count_devices-available_sum stock (omega arith) (omega arith)

count_devices-extremes_example :
    let ds = disk "b" 8 "" true ∷ disk "c" 5 "" true ∷ [] in
    let c = count_devices 0 ds no_capacity in
    All (λ e. is_free e ≡ true → e.spec.size ≤ℤ c.maximum) ds
    × ((c.maximum ≡ pos 0) ⊎ IsSizeOfFree ds c.maximum)
    × (is_free (disk "b" 8 "" true) ≡ true
        → All (λ e. is_free e ≡ true → c.minimum ≤ℤ e.spec.size) ds × IsSizeOfFree ds c.minimum)
    × (is_free (disk "b" 8 "" true) ≡ false → c.minimum ≡ pos 0)
count_devices-extremes_example =
    count_devices-extremes (disk "b" 8 "" true) (disk "c" 5 "" true ∷ []) (omega arith)

match_devices-BestAt_example :
    BestAt 5 stock
      (match_devices (pos 5) 0 stock no_match).index
      (match_devices (pos 5) 0 stock no_match).size
match_devices-BestAt_example = match_devices-BestAt 5 (omega arith) stock

abbrev taken : List RawDevice
taken = (create_volume server_api "n1" (pos 5) stock).1

create_volume-ok_example :
    Created server_api server "n1" 5 stock "c"
    × (taken ≡ set_status "c" (record { name = "c" }) stock)
create_volume-ok_example =
    create_volume-ok server_api server "n1" 5 stock (current stock) (omega arith) handler_tests.1

owned : IsOwned server_api server stock
owned = (inr refl, (inl refl, (inl refl, tt)))

Reach-IsOwned_example : IsOwned server_api server (delete_volume server_api "c" taken).1
Reach-IsOwned_example =
    Reach-IsOwned server_api server (next (next here (created "n1" (pos 5))) (deleted "c")) owned

differ :
    {x y d e : RawDevice}
    → some x ≡ some d
    → some y ≡ some e
    → (x.name == y.name) ≡ false
    → d.name ≡ e.name
    → d ≡ e
differ {x} {y} h k ne same = absurd (ne_of_== x.name y.name ne (cc (h, k, same)))

unique :
    (i j : ℕ) (d e : RawDevice)
    → get_elem? stock i ≡ some d
    → get_elem? stock j ≡ some e
    → d.name ≡ e.name
    → d ≡ e
unique zero zero d e h k same = cc (h, k)
unique zero (suc zero) d e h k same = differ h k refl same
unique zero (suc (suc zero)) d e h k same = differ h k refl same
unique (suc zero) zero d e h k same = differ h k refl same
unique (suc zero) (suc zero) d e h k same = cc (h, k)
unique (suc zero) (suc (suc zero)) d e h k same = differ h k refl same
unique (suc (suc zero)) zero d e h k same = differ h k refl same
unique (suc (suc zero)) (suc zero) d e h k same = differ h k refl same
unique (suc (suc zero)) (suc (suc zero)) d e h k same = cc (h, k)
unique (suc (suc (suc i))) j d e h k same = cc
unique i (suc (suc (suc j))) d e h k same = cc

create_volume-keeps_example : get_elem? taken 0 ≡ some (disk "a" 10 "a" true)
create_volume-keeps_example =
    create_volume-keeps server_api server "n1" 5 stock 0 (disk "a" 10 "a" true) (omega arith)
      (current stock) unique refl (λ e. cc)

delete_volume-create_volume_example : (delete_volume server_api "c" taken).1 ≡ stock
delete_volume-create_volume_example =
    delete_volume-create_volume server_api server "n1" 5 stock "c" (current stock) (current taken)
      (omega arith) (λ e. cc) owned unique handler_tests.1 handler_tests.3

create_volume-distinct_example : ◌≢◌ {A = String} "c" "b"
unfolding running
create_volume-distinct_example =
    create_volume-distinct server_api server "n1" "n1" 5 5 stock "c" "b" (current stock)
      (current taken) (omega arith) (omega arith) (λ e. cc) handler_tests.1 second
  where
    second : (create_volume server_api "n1" (pos 5) taken).0 ≡ ok "b"
    second = refl

validate_volume_capabilities-missing_example :
    validate_volume_capabilities tests server_api "z"
      (record { access_type = block; access_mode = none } ∷ [])
      stock
    ≡ err (grpc internal "rpc error: code = NotFound desc = ")
unfolding matches
validate_volume_capabilities-missing_example =
    validate_volume_capabilities-missing tests server_api server "z"
      (record { access_type = block; access_mode = none }) [] stock stock documented (λ e. cc)
      listing (ne_of_== "a" "z" refl, (ne_of_== "" "z" refl, (ne_of_== "" "z" refl, tt)))
  where
    listing : server_api.list everything stock ≡ ok stock
    listing = refl
