-- ===== src/Csi/Placement/BestFit.antt =====
-- The device that the loop of createVolume selects.
use mathlib.Core.List.{append-nil, append_assoc}
use nativestor.Prelude.{
  ℕ, suc, ◌*◌, ◌^◌, ◌≤◌, ◌≡◌, refl, ◌↔◌, ◌⊎◌, inl, inr, Bool, true, false, ◌&&◌, List, [], ◌∷◌,
  ◌++◌, Option, none, some, ◌≢◌, ◌∙◌, arith, eq_iff, length, get_elem?, All, All-append, Bool-cases,
  get_elem?-append_last, get_elem?-append_left, length-append,
}
use nativestor.Prelude.Int.{ℤ, pos, negsuc, ◌≤ℤ◌, ltb_ℤ, leb_ℤ, shr_30}
use nativestor.Csi.Device.{RawDevice}
use nativestor.Csi.Capacity.{is_free}
use nativestor.Csi.Placement.{Match, match_device, match_devices, no_match}

-- The device is available, belongs to no volume, and holds k GiB.
pub record Suits (k : ℕ) (d : RawDevice) : Type 0 where
  pub unassigned : d.status.name ≡ ""
  pub available : d.spec.available ≡ true
  pub fits : pos (k * 2 ^ 30) ≤ℤ d.spec.size

abbrev test : ℕ → RawDevice → Bool
test k d = is_free d && leb_ℤ (pos k) (shr_30 d.spec.size)

shr_30_iff : (k : ℕ) (s : ℤ) → (leb_ℤ (pos k) (shr_30 s) ≡ true) ↔ (pos (k * 2 ^ 30) ≤ℤ s)
unfolding shr_30
shr_30_iff k (pos n) = ground arith
shr_30_iff k (negsuc n) = ground arith

Suits-of_test : (k : ℕ) (d : RawDevice) → test k d ≡ true → Suits k d
unfolding is_free
Suits-of_test k d h = ground (arith, eq_iff d.status.name "", shr_30_iff k d.spec.size)

test_of_Suits : (k : ℕ) (d : RawDevice) → Suits k d → test k d ≡ true
unfolding is_free
test_of_Suits k d h = ground (arith, eq_iff d.status.name "", shr_30_iff k d.spec.size)

-- What the variables of the loop say of the devices that it has seen.
abbrev pub BestAt : ℕ → List RawDevice → Option ℕ → ℤ → Type 0
BestAt k seen none s = (s ≡ pos 0) × All (λ d. ¬ Suits k d) seen
BestAt k seen (some i) s =
    (d : RawDevice) × (get_elem? seen i ≡ some d)
    × Suits k d
    × (d.spec.size ≡ s)
    × All (λ e. Suits k e → s ≤ℤ e.spec.size) seen

module _ (k : ℕ) (seen : List RawDevice) (x : RawDevice) where
  skipped : (o : Option ℕ) (s : ℤ) → ¬ Suits k x → BestAt k seen o s → BestAt k (seen ++ x ∷ []) o s
  skipped none s no_x (z, none_suits) = (z, All-append _ seen _ none_suits (no_x, tt))
  skipped (some i) s no_x (d, at, suits, size, least) = (
    d,
    get_elem?-append_left seen _ i at,
    suits,
    size,
    All-append _ seen _ least (λ p. absurd (no_x p), tt),
  )

  kept :
      (i : ℕ) (s : ℤ)
      → s ≤ℤ x.spec.size
      → BestAt k seen (some i) s
      → BestAt k (seen ++ x ∷ []) (some i) s
  kept i s le (d, at, suits, size, least) =
      (d, get_elem?-append_left seen _ i at, suits, size, All-append _ seen _ least (λ _. le, tt))

  least_of_none :
      (xs : List RawDevice) (s : ℤ)
      → All (λ d. ¬ Suits k d) xs
      → All (λ e. Suits k e → s ≤ℤ e.spec.size) xs
  least_of_none [] s h = tt
  least_of_none (y ∷ xs) s (p, h) = (λ q. absurd (p q), least_of_none xs s h)

  least_of_lt :
      (xs : List RawDevice) (s t : ℤ)
      → t ≤ℤ s
      → All (λ e. Suits k e → s ≤ℤ e.spec.size) xs
      → All (λ e. Suits k e → t ≤ℤ e.spec.size) xs
  least_of_lt [] s t le h = tt
  least_of_lt (y ∷ xs) s t le (p, h) = (λ q. let r = p q in omega arith, least_of_lt xs s t le h)

  taken :
      (o : Option ℕ) (s : ℤ)
      → Suits k x
      → (o ≡ none) ⊎ (x.spec.size ≤ℤ s)
      → BestAt k seen o s
      → BestAt k (seen ++ x ∷ []) (some (length seen)) x.spec.size
  taken none s suits c (z, none_suits) = (
    x,
    get_elem?-append_last seen x,
    suits,
    refl,
    All-append _ seen _ (least_of_none seen x.spec.size none_suits) (λ _. omega arith, tt),
  )
  taken (some i) s suits (inl e) b = cc
  taken (some i) s suits (inr le) (d, at, d_suits, size, least) = (
    x,
    get_elem?-append_last seen x,
    suits,
    refl,
    All-append _ seen _ (least_of_lt seen s x.spec.size le least) (λ _. omega arith, tt),
  )

module _ (k : ℕ) (index : ℕ) (x : RawDevice) (m : Match) where
  abbrev found : Match
  found = record { index = some index; size = x.spec.size }

  match-no : test k x ≡ false → match_device (pos k) index x m ≡ m
  unfolding match_device
  match-no h = ground arith

  match-first : test k x ≡ true → m.size ≡ pos 0 → match_device (pos k) index x m ≡ found
  unfolding match_device
  match-first h z = ground arith

  match-less :
      test k x ≡ true → ltb_ℤ x.spec.size m.size ≡ true → match_device (pos k) index x m ≡ found
  unfolding match_device
  match-less h z = ground arith

  match-more :
      test k x ≡ true
      → ltb_ℤ x.spec.size m.size ≡ false
      → m.size ≢ pos 0
      → match_device (pos k) index x m ≡ m
  unfolding match_device
  match-more h z nz = ground arith

module _ (k : ℕ) (k_pos : 1 ≤ k) where
  size-ne-zero : (d : RawDevice) → Suits k d → d.spec.size ≢ pos 0
  size-ne-zero d suits e = let fits = rw e at suits.fits in omega arith

  step_some :
      (seen : List RawDevice) (x : RawDevice) (i : ℕ) (s : ℤ)
      → test k x ≡ true
      → BestAt k seen (some i) s
      → let m = match_device (pos k) (length seen) x (record { index = some i; size = s }) in
        BestAt k (seen ++ x ∷ []) m.index m.size
  step_some seen x i s h (d, at, suits, size, least) =
      let m : Match = record { index = some i; size = s } in
      elim (Bool-cases (ltb_ℤ x.spec.size s)) [
        | inl less ↦ rw (match-less k (length seen) x m h less) (
            taken k seen x (some i) s (Suits-of_test k x h) (inr (ground arith))
              (d, at, suits, size, least))
        | inr more ↦
            rw (match-more k (length seen) x m h more (λ z. size-ne-zero d suits (size ∙ z)))
              (kept k seen x i s (ground arith) (d, at, suits, size, least))
      ]

  step :
      (seen : List RawDevice) (x : RawDevice) (o : Option ℕ) (s : ℤ)
      → BestAt k seen o s
      → let m = match_device (pos k) (length seen) x (record { index = o; size = s }) in
        BestAt k (seen ++ x ∷ []) m.index m.size
  step seen x o s b = elim (Bool-cases (test k x)) [
    | inl h ↦ by_index o s h b
    | inr h ↦
        rw (match-no k (length seen) x (record { index = o; size = s }) h)
          (skipped k seen x o s (λ q. cc (h, test_of_Suits k x q)) b)
  ]
    where
      by_index :
          (o : Option ℕ) (s : ℤ)
          → test k x ≡ true
          → BestAt k seen o s
          → let m = match_device (pos k) (length seen) x (record { index = o; size = s }) in
            BestAt k (seen ++ x ∷ []) m.index m.size
      by_index none s h (z, no_suit) =
          rw (match-first k (length seen) x (record { index = none; size = s }) h z)
            (taken k seen x none s (Suits-of_test k x h) (inl refl) (z, no_suit))
      by_index (some i) s h b = step_some seen x i s h b

  loop :
      (seen rest : List RawDevice) (m : Match)
      → BestAt k seen m.index m.size
      → let m' = match_devices (pos k) (length seen) rest m in
        BestAt k (seen ++ rest) m'.index m'.size
  unfolding match_devices
  loop seen [] m b = rw append-nil b
  loop seen (x ∷ rest) m b =
      let next = match_device (pos k) (length seen) x m in
      let ih = loop (seen ++ x ∷ []) rest next (step seen x m.index m.size b) in
      rw (length_snoc seen x, append_assoc) at ih
    where
      length_snoc :
          (seen : List RawDevice) (x : RawDevice) → length (seen ++ x ∷ []) ≡ suc (length seen)
      length_snoc seen x = omega (arith, length-append {0} seen (x ∷ []))

  -- The loop selects a device that suits the request, and no device that suits is smaller; it
  -- selects none only if no device suits.
  pub match_devices-BestAt :
      (devs : List RawDevice)
      → BestAt k devs
          (match_devices (pos k) 0 devs no_match).index
          (match_devices (pos k) 0 devs no_match).size
  match_devices-BestAt devs = loop [] devs no_match (refl, tt)
