-- ===== src/Csi/Volumes/Effects.antt =====
-- What createVolume and deleteVolume write, on success and on failure.
use nativestor.Prelude.{
  ℕ, zero, suc, ◌≤◌, String, ◌≡◌, refl, ◌⊎◌, inl, inr, Bool, true, List, [], ◌∷◌, Option, none,
  some, arith, get_elem?, select, All, Bool-cases,
}
use nativestor.Prelude.Int.{ℤ, pos, ◌≤ℤ◌}
use nativestor.Errors.{Error, Result, ok, err, grpc, internal, >>=-eq-ok, ◌>>=◌}
use nativestor.Csi.Device.{
  RawDevice, RawDeviceApi, label_is, matches, set_status, IsApiServer, IsCurrent,
}
use nativestor.Csi.Placement.{match_devices, no_match}
use nativestor.Csi.Placement.BestFit.{Suits, BestAt, match_devices-BestAt}
use nativestor.Csi.Volumes.{at_index, assigned, and_update, create_volume}

abbrev Selected {ℓ} : {A : Type ℓ} → (A → Bool) → List A → A → Type ℓ
Selected p xs x = (j : ℕ) × (get_elem? xs j ≡ some x) × (p x ≡ true)

get_elem?-select_cons {ℓ} :
    {A : Type ℓ} (p : A → Bool) (y : A) (xs : List A) (i : ℕ) {x : A}
    → ((i : ℕ) → get_elem? (select p xs) i ≡ some x → Selected p xs x)
    → p y ≡ true
    → get_elem? (y ∷ select p xs) i ≡ some x
    → Selected p (y ∷ xs) x
get_elem?-select_cons p y xs zero ih py e = (zero, e, ground arith)
get_elem?-select_cons p y xs (suc i) ih py e = let (j, at, holds) = ih i e in (suc j, at, holds)

pub get_elem?-select {ℓ} :
    {A : Type ℓ} (p : A → Bool) (xs : List A) (i : ℕ) {x : A}
    → get_elem? (select p xs) i ≡ some x
    → Selected p xs x
get_elem?-select p [] i h = cc
get_elem?-select p (y ∷ xs) i {x} h = elim (Bool-cases (p y)) [
  | inl in_y ↦
      get_elem?-select_cons p y xs i (λ j. get_elem?-select p xs j {x = x}) in_y (rw in_y at h)
  | inr out_y ↦ let (j, at, holds) = get_elem?-select p xs i (rw out_y at h) in (suc j, at, holds)
]

pub at_index-eq-ok :
    (e : Error) (devs : List RawDevice) (o : Option ℕ) {d : RawDevice}
    → at_index e devs o ≡ ok d
    → (i : ℕ) × (o ≡ some i) × (get_elem? devs i ≡ some d)
at_index-eq-ok e devs none h = cc
at_index-eq-ok e devs (some i) {d} h = by_elem (get_elem? devs i) refl h
  where
    by_elem :
        (o : Option RawDevice)
        → get_elem? devs i ≡ o
        → at_index e devs (some i) ≡ ok d
        → (j : ℕ) × (some i ≡ some j) × (get_elem? devs j ≡ some d)
    by_elem none q h = ground arith
    by_elem (some x) q h = (i, refl, ground arith)

module _ {W : Type 0} (api : RawDeviceApi W) where
  module _ (server : IsApiServer api) where
    open server use {devices, updated, refused}

    -- The device that a successful createVolume took, with what the loop guarantees of it.
    pub record Created (node : String) (k : ℕ) (w : W) (id : String) : Type 0 where
      pub device : RawDevice
      pub position : ℕ
      pub stored : get_elem? (devices w) position ≡ some device
      pub on_node : matches (label_is "node" node) device ≡ true
      pub suits : Suits k device
      pub id_is_name : device.name ≡ id
      pub least :
          All
            (λ e. Suits k e → device.spec.size ≤ℤ e.spec.size)
            (select (matches (label_is "node" node)) (devices w))

    Created-of_best :
        (node : String) (k : ℕ) (w : W) {id : String} (devs : List RawDevice)
        → devs ≡ select (matches (label_is "node" node)) (devices w)
        → (o : Option ℕ) (d : RawDevice) (s : ℤ) → BestAt k devs o s
        → (i : ℕ) × (o ≡ some i) × (get_elem? devs i ≡ some d)
        → d.name ≡ id
        → Created node k w id
    Created-of_best node k w devs here none d s b (i, e, at) q = cc
    Created-of_best node k w devs here (some j) d s (c, found, suits, size, least) (i, e, at) q =
        let same : c ≡ d = ground arith in
        let (p, stored, on) =
          get_elem?-select (matches (label_is "node" node)) (devices w) i (rw here at at) in
        record {
          device = d;
          position = p;
          stored = stored;
          on_node = on;
          suits = rw same at suits;
          id_is_name = q;
          least = rw (← size, same, here) at least;
        }

    -- The call either fails and writes nothing, or writes the status of the device chosen.
    abbrev pub Outcome :
        (RawDevice → String)
        → (RawDevice → String)
        → Result RawDevice
        → W
        → Result String × W
        → Type 0
    Outcome status answer m w after =
        ((e : Error) × (after.0 ≡ err e) × (devices after.1 ≡ devices w))
        ⊎ ((d : RawDevice) × (m ≡ ok d)
            × (after.0 ≡ ok (answer d))
            × (devices after.1 ≡ set_status d.name (record { name = status d }) (devices w)))

    pub and_update-Outcome :
        (status answer : RawDevice → String) (m : Result RawDevice) (w : W)
        → Outcome status answer m w (and_update api status answer m w)
    and_update-Outcome status answer (err e) w = inl (e, refl, refl)
    and_update-Outcome status answer (ok d) w =
        by_reply (api.update_status (assigned (status d) d) w).0 refl
      where
        by_reply :
            (r : Result RawDevice)
            → (api.update_status (assigned (status d) d) w).0 ≡ r
            → Outcome status answer (ok d) w (and_update api status answer (ok d) w)
        by_reply (ok d') q = inr (d, refl, rw q refl, updated (assigned (status d) d) d' w q)
        by_reply (err e) q = inl (e, rw q refl, refused (assigned (status d) d) w e q)

    -- On success, where the lister has caught up, the volume is a device of the node that suits the request, of the least size among
    -- those; its status takes its own name, and nothing else is written.
    pub create_volume-ok :
        (node : String) (k : ℕ) (w : W) {id : String}
        → IsCurrent api server w
        → 1 ≤ k
        → (create_volume api node (pos k) w).0 ≡ ok id
        → Created node k w id
          × (devices (create_volume api node (pos k) w).1
              ≡ set_status id (record { name = id }) (devices w))
    unfolding create_volume
    create_volume-ok node k w {id} current k_pos h =
        by_outcome (and_update-Outcome (λ dev. dev.name) (λ dev. dev.name) chosen w)
      where
        chosen : Result RawDevice
        chosen = do
          devs ← api.list (label_is "node" node) w
          at_index (grpc internal "not found match device") devs
              (match_devices (pos k) 0 devs no_match).index

        after : Result String × W
        after = and_update api (λ dev. dev.name) (λ dev. dev.name) chosen w

        by_outcome :
            Outcome (λ dev. dev.name) (λ dev. dev.name) chosen w after
            → Created node k w id
              × (devices after.1 ≡ set_status id (record { name = id }) (devices w))
        by_outcome (inl (e, failed, same)) = cc (h, failed)
        by_outcome (inr (d, taken, answer, written)) =
            let named : d.name ≡ id = cc (h, answer) in
            let (devs, listing, indexed) = >>=-eq-ok (api.list (label_is "node" node) w) _ taken in
            (
              Created-of_best node k w devs (current (label_is "node" node) devs listing)
                  (match_devices (pos k) 0 devs no_match).index d _
                  (match_devices-BestAt k k_pos devs) (at_index-eq-ok _ devs _ indexed) named,
              rw (written, named) refl,
            )
