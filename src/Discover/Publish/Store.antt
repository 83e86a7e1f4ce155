-- ===== src/Discover/Publish/Store.antt =====
-- What the API server and the lister do about raw devices, over a list of devices.
use nativestor.Prelude.{
  String, ◌==◌, ==-self, ◌≡◌, ◌≢◌, refl, ap, Bool, true, false, select, List, [], ◌∷◌, ◌++◌, none,
  some, All, All-select, eq_iff, arith, if◌then◌else◌,
}
use nativestor.Errors.{Error, ok, err}
use nativestor.Csi.Device.{RawDevice, Selector, matches}
use nativestor.Discover.Publish.{DaemonApi}

-- The volume that holds the device of a name; none is "".
unfoldable pub holder : String → List RawDevice → String
holder n [] = ""
holder n (d ∷ ds) = if d.name == n then d.status.name else holder n ds

-- a write of the main resource, which leaves the status
unfoldable pub put_spec : RawDevice → List RawDevice → List RawDevice
put_spec new [] = []
put_spec new (d ∷ ds) =
    (if d.name == new.name then record d { labels = new.labels; spec = new.spec } else d)
    ∷ put_spec new ds

unfoldable pub without : String → List RawDevice → List RawDevice
without n [] = []
without n (d ∷ ds) = let rest = without n ds in if d.name == n then rest else d ∷ rest

-- No two devices have one name.
abbrev pub Unique : List RawDevice → Type 0
Unique [] = Unit
Unique (d ∷ ds) = All (λ (e : RawDevice). (d.name == e.name) ≡ false) ds × Unique ds

-- What the API server and a lister in step with it do: a call that fails writes nothing; a creation
-- that succeeds adds the device, an update writes all but the status, a deletion takes the device away.
pub record IsStore {W : Type 0} (api : DaemonApi W) : Type 0 where
  pub devices : W → List RawDevice
  pub unique : (w : W) → Unique (devices w)
  pub listed :
      (s : Selector) (w : W) (ds : List RawDevice)
      → api.list s w ≡ ok ds
      → ds ≡ select (matches s) (devices w)
  pub created :
      (d d' : RawDevice) (w : W)
      → (api.create d w).0 ≡ ok d'
      → devices (api.create d w).1 ≡ devices w ++ d ∷ []
  pub uncreated :
      (d : RawDevice) (w : W) (e : Error)
      → (api.create d w).0 ≡ err e
      → devices (api.create d w).1 ≡ devices w
  pub updated :
      (d d' : RawDevice) (w : W)
      → (api.update d w).0 ≡ ok d'
      → devices (api.update d w).1 ≡ put_spec d (devices w)
  pub unchanged :
      (d : RawDevice) (w : W) (e : Error)
      → (api.update d w).0 ≡ err e
      → devices (api.update d w).1 ≡ devices w
  pub deleted :
      (n : String) (w : W)
      → (api.delete n w).0 ≡ none
      → devices (api.delete n w).1 ≡ without n (devices w)
  pub undeleted :
      (n : String) (w : W) (e : Error)
      → (api.delete n w).0 ≡ some e
      → devices (api.delete n w).1 ≡ devices w

pub holder-put_spec :
    (n : String) (new : RawDevice) (ds : List RawDevice) → holder n (put_spec new ds) ≡ holder n ds
unfolding holder put_spec
holder-put_spec n new [] = refl
holder-put_spec n new (d ∷ ds) = by_test (d.name == new.name) (holder-put_spec n new ds)
  where
    by_test :
        (b : Bool)
        → holder n (put_spec new ds) ≡ holder n ds
        → holder n
            ((if b then record d { labels = new.labels; spec = new.spec } else d) ∷ put_spec new ds)
          ≡ holder n (d ∷ ds)
    by_test true h = ap (λ t. if d.name == n then d.status.name else t) h
    by_test false h = ap (λ t. if d.name == n then d.status.name else t) h

pub holder-append :
    (n : String) (ds es : List RawDevice) → holder n ds ≢ "" → holder n (ds ++ es) ≡ holder n ds
unfolding holder
holder-append n [] es h = absurd (h refl)
holder-append n (d ∷ ds) es h = by_test (d.name == n) h (holder-append n ds es)
  where
    by_test :
        (b : Bool)
        → (if b then d.status.name else holder n ds) ≢ ""
        → (holder n ds ≢ "" → holder n (ds ++ es) ≡ holder n ds)
        → (if b then d.status.name else holder n (ds ++ es))
          ≡ (if b then d.status.name else holder n ds)
    by_test true h later = refl
    by_test false h later = later h

pub holder-without :
    (n m : String) (ds : List RawDevice)
    → holder n (without m ds) ≡ (if m == n then "" else holder n ds)
unfolding holder without
holder-without n m [] = ground arith
holder-without n m (d ∷ ds) =
    ground (arith, holder-without n m ds, eq_iff d.name m, eq_iff d.name n, eq_iff m n)

-- In a list of unique names, a selected device is held by what its own status says.
pub select-holder :
    (p : RawDevice → Bool) (ds : List RawDevice)
    → Unique ds
    → All (λ (d : RawDevice). holder d.name ds ≡ d.status.name) (select p ds)
unfolding holder
select-holder p [] u = tt
select-holder p (d ∷ ds) (u, v) = by_test (p d) (
    beyond (select p ds) (All-select (λ (e : RawDevice). (d.name == e.name) ≡ false) p ds u)
      (select-holder p ds v))
  where
    beyond :
        (es : List RawDevice)
        → All (λ (e : RawDevice). (d.name == e.name) ≡ false) es
        → All (λ (e : RawDevice). holder e.name ds ≡ e.status.name) es
        → All (λ (e : RawDevice). holder e.name (d ∷ ds) ≡ e.status.name) es
    beyond [] f h = tt
    beyond (e ∷ es) (q, f) (k, h) = (rw q k, beyond es f h)

    by_test :
        (b : Bool)
        → All (λ (e : RawDevice). holder e.name (d ∷ ds) ≡ e.status.name) (select p ds)
        → All
            (λ (e : RawDevice). holder e.name (d ∷ ds) ≡ e.status.name)
            (if b then d ∷ select p ds else select p ds)
    by_test true h = (rw (==-self d.name) refl, h)
    by_test false h = h
