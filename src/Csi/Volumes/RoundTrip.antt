-- ===== src/Csi/Volumes/RoundTrip.antt =====
-- Volumes over time: what createVolume and deleteVolume keep, and how deletion undoes creation.
use mathlib.Core.List.{append-nil, append_assoc}
use nativestor.Prelude.{
  ℕ, zero, suc, String, ◌≡◌, refl, ◌≢◌, ◌⊎◌, List, [], ◌∷◌, ◌++◌, Option, none, some, Bool, true,
  false, arith, eq_iff, ◌==◌, length, get_elem?, All, All-append, get_elem?-append_last,
  get_elem?-append_left, length-append, if◌then◌else◌,
}
use nativestor.Csi.Device.{RawDevice, RawDeviceStatus, set_status}
use nativestor.Csi.Volumes.{index_of_volume}

-- A device is unassigned, or the volume on it has the device's name.
abbrev pub HasOwnName : RawDevice → Type 0
HasOwnName d = (d.status.name ≡ "") ⊎ (d.status.name ≡ d.name)

pub set_status-HasOwnName :
    (id : String) (s : RawDeviceStatus) (ds : List RawDevice)
    → (s.name ≡ "") ⊎ (s.name ≡ id)
    → All HasOwnName ds
    → All HasOwnName (set_status id s ds)
unfolding set_status
set_status-HasOwnName id s [] c h = tt
set_status-HasOwnName id s (d ∷ ds) c (own, h) =
    (ground (arith, eq_iff d.name id), set_status-HasOwnName id s ds c h)

-- A write over devices that have the status already changes none of them.
pub set_status-keeps :
    (id : String) (s : RawDeviceStatus) (ds : List RawDevice) (i : ℕ) {d : RawDevice}
    → get_elem? ds i ≡ some d
    → (d.name ≡ id → d.status ≡ s)
    → get_elem? (set_status id s ds) i ≡ some d
unfolding set_status
set_status-keeps id s [] i h same = cc
set_status-keeps id s (x ∷ ds) zero {d} h same =
    let is_d : x ≡ d = ground arith in rw is_d (ground (arith, eq_iff d.name id))
set_status-keeps id s (x ∷ ds) (suc i) h same = set_status-keeps id s ds i h same

pub set_status-twice :
    (id : String) (s t : RawDeviceStatus) (ds : List RawDevice)
    → All (λ d. d.name ≡ id → d.status ≡ t) ds
    → set_status id t (set_status id s ds) ≡ ds
unfolding set_status
set_status-twice id s t [] h = refl
set_status-twice id s t (d ∷ ds) (p, h) =
    ground (arith, eq_iff d.name id, set_status-twice id s t ds h)

-- After a write every device of the name has the status.
pub set_status-held :
    (id : String) (ds : List RawDevice)
    → All (λ d. d.name ≡ id → d.status.name ≡ id) (set_status id (record { name = id }) ds)
unfolding set_status
set_status-held id [] = tt
set_status-held id (d ∷ ds) = (λ h. ground (arith, eq_iff d.name id), set_status-held id ds)

-- The loop of deleteVolume finds a device whose status has the name.
abbrev pub FoundAt : String → List RawDevice → Option ℕ → Type 0
FoundAt id seen none = All (λ d. d.status.name ≢ id) seen
FoundAt id seen (some i) = (d : RawDevice) × (get_elem? seen i ≡ some d) × (d.status.name ≡ id)

FoundAt-next :
    (id : String) (seen : List RawDevice) (x : RawDevice) (o : Option ℕ)
    → FoundAt id seen o
    → FoundAt id (seen ++ x ∷ []) (if x.status.name == id then some (length seen) else o)
FoundAt-next id seen x o f = by_test (x.status.name == id) refl o f
  where
    by_test :
        (b : Bool)
        → (x.status.name == id) ≡ b
        → (o : Option ℕ) → FoundAt id seen o
        → FoundAt id (seen ++ x ∷ []) (if b then some (length seen) else o)
    by_test true e o f = (x, get_elem?-append_last seen x, (eq_iff x.status.name id).0 e)
    by_test false e none f = All-append _ seen _ f (λ p. cc (e, (eq_iff x.status.name id).1 p), tt)
    by_test false e (some i) (d, at, named) = (d, get_elem?-append_left seen _ i at, named)

length-snoc : (seen : List RawDevice) (x : RawDevice) → length (seen ++ x ∷ []) ≡ suc (length seen)
length-snoc seen x = omega (arith, length-append {0} seen (x ∷ []))

pub index_of_volume-FoundAt :
    (id : String) (seen rest : List RawDevice) (o : Option ℕ)
    → FoundAt id seen o
    → FoundAt id (seen ++ rest) (index_of_volume id (length seen) rest o)
unfolding index_of_volume
index_of_volume-FoundAt id seen [] o f = rw append-nil f
index_of_volume-FoundAt id seen (x ∷ rest) o f =
    let next = if x.status.name == id then some (length seen) else o in
    let ih = index_of_volume-FoundAt id (seen ++ x ∷ []) rest next (FoundAt-next id seen x o f) in
    rw (length-snoc seen x, append_assoc) at ih

pub FoundAt-device :
    (id : String) (devs : List RawDevice) (o : Option ℕ) (d : RawDevice)
    → FoundAt id devs o
    → (i : ℕ) × (o ≡ some i) × (get_elem? devs i ≡ some d)
    → d.status.name ≡ id
FoundAt-device id devs none d f (i, e, at) = cc
FoundAt-device id devs (some j) d (c, found, named) (i, e, at) = ground arith
