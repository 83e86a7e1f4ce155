-- ===== src/Csi/Capacity/Bounds.antt =====
-- What convertRequestCapacity and getCapacityByTopologyLabel compute.
use nativestor.Prelude.{
  ℕ, zero, suc, ◌+◌, ◌-◌, ◌*◌, ◌/◌, ◌^◌, ◌≤◌, ◌<◌, ◌≡◌, refl, ap, ◌∙◌, ◌≢◌, ◌↔◌, ◌⊎◌, inl, inr,
  true, false, List, [], ◌∷◌, arith, All, Among, Bool-cases, if◌then◌else◌,
}
use nativestor.Prelude.Int.{
  ℤ, pos, negsuc, pos_part, neg_part, two_63, ◌≤ℤ◌, ◌<ℤ◌, add_64, add_64-pos, eq_pos, shr_30,
}
use nativestor.Errors.{ok}
use nativestor.Csi.Device.{RawDevice}
use nativestor.Csi.Capacity.{
  Capacity, convert_request_capacity, is_free, count_device, count_devices, no_capacity,
}

abbrev IsAdmissible : ℤ → ℤ → Type 0
IsAdmissible r l = (pos 0 ≤ℤ r) × (pos 0 ≤ℤ l) × ((l ≡ pos 0) ⊎ (r ≤ℤ l))

IsAdmissible-of_accepted : (r l g : ℤ) → convert_request_capacity r l ≡ ok g → IsAdmissible r l
unfolding convert_request_capacity
IsAdmissible-of_accepted (pos n) (pos m) g h = ground arith
IsAdmissible-of_accepted (pos n) (negsuc m) g h = ground arith
IsAdmissible-of_accepted (negsuc n) l g h = ground arith

accepted_of_IsAdmissible :
    (r l : ℤ) → IsAdmissible r l → (g : ℤ) × (convert_request_capacity r l ≡ ok g)
unfolding convert_request_capacity
accepted_of_IsAdmissible (negsuc n) l h = absurd (omega arith)
accepted_of_IsAdmissible (pos n) (negsuc m) h = absurd (omega arith)
accepted_of_IsAdmissible (pos zero) (pos m) h = (pos 1, ground arith)
accepted_of_IsAdmissible (pos (suc n)) (pos m) h =
    (add_64 (shr_30 (add_64 (pos (suc n)) (negsuc 0))) (pos 1), ground arith)

-- The request is accepted exactly when no bound is negative and a limit that is given is not passed.
pub convert_request_capacity-accepts :
    (r l : ℤ)
    → ((g : ℤ) × (convert_request_capacity r l ≡ ok g))
      ↔ ((pos 0 ≤ℤ r) × (pos 0 ≤ℤ l) × ((l ≡ pos 0) ⊎ (r ≤ℤ l)))
convert_request_capacity-accepts r l =
    (λ (g, h). IsAdmissible-of_accepted r l g h, accepted_of_IsAdmissible r l)

-- An accepted request of n bytes becomes the least number of GiB, at least one, that holds them.
pub convert_request_capacity-IsCeiling :
    (r l g : ℤ)
    → pos_part r < two_63
    → convert_request_capacity r l ≡ ok g
    → (k : ℕ) × (g ≡ pos k)
      × (1 ≤ k)
      × (r ≤ℤ pos (k * 2 ^ 30))
      × ((k ≡ 1) ⊎ (pos ((k - 1) * 2 ^ 30) <ℤ r))
unfolding convert_request_capacity
convert_request_capacity-IsCeiling (negsuc n) l g h e = ground arith
convert_request_capacity-IsCeiling (pos zero) l g h e =
    (1, ground arith, omega arith, omega arith, inl refl)
convert_request_capacity-IsCeiling (pos (suc n)) l g h e =
    (n / 2 ^ 30 + 1, ground arith, omega arith, omega arith, inr (omega arith))

abbrev size_of : RawDevice → ℕ
size_of d = pos_part d.spec.size

-- The size in bytes is not negative.
abbrev pub IsSized : RawDevice → Type 0
IsSized d = neg_part d.spec.size ≡ 0

-- The bytes on the free devices of a list.
unfoldable pub free_bytes : List RawDevice → ℕ
free_bytes [] = 0
free_bytes (d ∷ ds) = (if is_free d then size_of d else 0) + free_bytes ds

module _ (index : ℕ) (d : RawDevice) (c : Capacity) where
  count_device-free :
      is_free d ≡ true → (count_device index d c).available ≡ add_64 c.available d.spec.size
  unfolding count_device
  count_device-free h = ground arith

  count_device-taken : is_free d ≡ false → count_device index d c ≡ c
  unfolding count_device
  count_device-taken h = ground arith

  count_device-maximum :
      (c.maximum ≤ℤ (count_device index d c).maximum)
      × (is_free d ≡ true → d.spec.size ≤ℤ (count_device index d c).maximum)
  unfolding count_device
  count_device-maximum = (ground arith, λ h. ground arith)

  count_device-minimum :
      (index ≢ 0 → (count_device index d c).minimum ≤ℤ c.minimum)
      × (is_free d ≡ true → (count_device index d c).minimum ≤ℤ d.spec.size)
  unfolding count_device
  count_device-minimum = (λ h. ground arith, λ h. ground arith)

  count_device-minimum_zero :
      index ≢ 0 → c.minimum ≡ pos 0 → IsSized d → (count_device index d c).minimum ≡ pos 0
  unfolding count_device
  count_device-minimum_zero h z s = ground arith

add_size :
    (t : ℕ) (d : RawDevice) (a : ℤ)
    → a ≡ pos t
    → IsSized d
    → t + size_of d < two_63
    → add_64 a d.spec.size ≡ pos (t + size_of d)
add_size t d a e s lt = rw (e, eq_pos d.spec.size s) (add_64-pos t (size_of d) lt)

count_devices-available :
    (index t : ℕ) (ds : List RawDevice) (c : Capacity)
    → All IsSized ds
    → c.available ≡ pos t
    → t + free_bytes ds < two_63
    → (count_devices index ds c).available ≡ pos (t + free_bytes ds)
unfolding count_devices free_bytes
count_devices-available index t [] c s h lt = rw h (ap pos (omega arith))
count_devices-available index t (d ∷ ds) c (s, ss) h lt = elim (Bool-cases (is_free d)) [
  | inl free ↦
      let now = count_device-free index d c free ∙ add_size t d c.available h s (ground arith) in
      count_devices-available (suc index) (t + size_of d) ds (count_device index d c) ss now
        (ground arith)
      ∙ ap pos (ground arith)
  | inr taken ↦
      ap (λ (x : Capacity). (count_devices (suc index) ds x).available)
        (count_device-taken index d c taken)
      ∙ count_devices-available (suc index) t ds c ss h (ground arith)
      ∙ ap pos (ground arith)
]

-- The capacity of a node is the sum of the sizes of its free devices, where that is an int64.
pub count_devices-available_sum :
    (ds : List RawDevice)
    → All IsSized ds
    → free_bytes ds < two_63
    → (count_devices 0 ds no_capacity).available ≡ pos (free_bytes ds)
count_devices-available_sum ds s lt =
    count_devices-available 0 0 ds no_capacity s refl (omega arith) ∙ ap pos (omega arith)

count_devices-maximum :
    (index : ℕ) (ds : List RawDevice) (c : Capacity)
    → (c.maximum ≤ℤ (count_devices index ds c).maximum)
      × All (λ e. is_free e ≡ true → e.spec.size ≤ℤ (count_devices index ds c).maximum) ds
unfolding count_devices
count_devices-maximum index [] c = (omega arith, tt)
count_devices-maximum index (d ∷ ds) c =
    let (here, free) = count_device-maximum index d c in
    let (above, rest) = count_devices-maximum (suc index) ds (count_device index d c) in
    (omega arith, (λ h. let le = free h in omega arith, rest))

count_devices-minimum :
    (index : ℕ) (ds : List RawDevice) (c : Capacity)
    → index ≢ 0
    → ((count_devices index ds c).minimum ≤ℤ c.minimum)
      × All (λ e. is_free e ≡ true → (count_devices index ds c).minimum ≤ℤ e.spec.size) ds
unfolding count_devices
count_devices-minimum index [] c nz = (omega arith, tt)
count_devices-minimum index (d ∷ ds) c nz =
    let (here, free) = count_device-minimum index d c in
    let at = here nz in
    let (below, rest) =
      count_devices-minimum (suc index) ds (count_device index d c) (omega arith) in
    (omega arith, (λ h. let le = free h in omega arith, rest))

count_devices-minimum_zero :
    (index : ℕ) (ds : List RawDevice) (c : Capacity)
    → index ≢ 0
    → All IsSized ds
    → c.minimum ≡ pos 0
    → (count_devices index ds c).minimum ≡ pos 0
unfolding count_devices
count_devices-minimum_zero index [] c nz s z = z
count_devices-minimum_zero index (d ∷ ds) c nz (s, ss) z =
    count_devices-minimum_zero (suc index) ds (count_device index d c) (omega arith) ss
      (count_device-minimum_zero index d c nz z s)

-- A free device of the list has the size.
abbrev pub IsSizeOfFree : List RawDevice → ℤ → Type 0
IsSizeOfFree ds size = (e : RawDevice) × Among ds e × (is_free e ≡ true) × (size ≡ e.spec.size)

IsSizeOfFree-cons :
    (d : RawDevice) (ds : List RawDevice) (size : ℤ)
    → IsSizeOfFree ds size
    → IsSizeOfFree (d ∷ ds) size
IsSizeOfFree-cons d ds size (e, (i, at), free, same) = (e, (suc i, at), free, same)

module _ (index : ℕ) (d : RawDevice) (c : Capacity) where
  count_device-maximum_of :
      ((count_device index d c).maximum ≡ c.maximum)
      ⊎ ((is_free d ≡ true) × ((count_device index d c).maximum ≡ d.spec.size))
  unfolding count_device
  count_device-maximum_of = ground arith

  count_device-minimum_of :
      ((index ≢ 0) × ((count_device index d c).minimum ≡ c.minimum))
      ⊎ (((is_free d ≡ true) × ((count_device index d c).minimum ≡ d.spec.size))
          ⊎ ((is_free d ≡ false) × ((count_device index d c).minimum ≡ c.minimum)))
  unfolding count_device
  count_device-minimum_of = ground arith

count_devices-maximum_of :
    (index : ℕ) (ds : List RawDevice) (c : Capacity)
    → ((count_devices index ds c).maximum ≡ c.maximum)
      ⊎ IsSizeOfFree ds (count_devices index ds c).maximum
unfolding count_devices
count_devices-maximum_of index [] c = inl refl
count_devices-maximum_of index (d ∷ ds) c =
    elim (count_devices-maximum_of (suc index) ds (count_device index d c)) [
      | inr found ↦ inr (IsSizeOfFree-cons d ds _ found)
      | inl same ↦ elim (count_device-maximum_of index d c) [
        | inl kept ↦ inl (same ∙ kept)
        | inr (free, taken) ↦ inr (d, (0, refl), free, same ∙ taken)
      ]
    ]

count_devices-minimum_of :
    (index : ℕ) (ds : List RawDevice) (c : Capacity)
    → ((count_devices index ds c).minimum ≡ c.minimum)
      ⊎ IsSizeOfFree ds (count_devices index ds c).minimum
unfolding count_devices
count_devices-minimum_of index [] c = inl refl
count_devices-minimum_of index (d ∷ ds) c =
    elim (count_devices-minimum_of (suc index) ds (count_device index d c)) [
      | inr found ↦ inr (IsSizeOfFree-cons d ds _ found)
      | inl same ↦ elim (count_device-minimum_of index d c) [
        | inl (later, kept) ↦ inl (same ∙ kept)
        | inr (inl (free, taken)) ↦ inr (d, (0, refl), free, same ∙ taken)
        | inr (inr (held, kept)) ↦ inl (same ∙ kept)
      ]
    ]

-- No free device is larger than the maximum, which is the size of a free device, or 0. The minimum is
-- right only if the first device listed is free: then it is the size of a free device, and no free
-- device is smaller; if not, it is 0. Sizes are not negative.
pub count_devices-extremes :
    (d : RawDevice) (ds : List RawDevice)
    → All IsSized (d ∷ ds)
    → let c = count_devices 0 (d ∷ ds) no_capacity in
      All (λ e. is_free e ≡ true → e.spec.size ≤ℤ c.maximum) (d ∷ ds)
      × ((c.maximum ≡ pos 0) ⊎ IsSizeOfFree (d ∷ ds) c.maximum)
      × (is_free d ≡ true
          → All (λ e. is_free e ≡ true → c.minimum ≤ℤ e.spec.size) (d ∷ ds)
            × IsSizeOfFree (d ∷ ds) c.minimum)
      × (is_free d ≡ false → c.minimum ≡ pos 0)
unfolding count_devices
count_devices-extremes d ds (s, ss) =
    let first = count_device 0 d no_capacity in
    let (low, free) = count_device-minimum 0 d no_capacity in
    let (below, rest) = count_devices-minimum 1 ds first (omega arith) in
    (
      (count_devices-maximum 0 (d ∷ ds) no_capacity).1,
      count_devices-maximum_of 0 (d ∷ ds) no_capacity,
      λ h. (
        (λ _. let le = free h in omega arith, rest),
        attained h (count_devices-minimum_of 1 ds first),
      ),
      λ h.
          count_devices-minimum_zero 1 ds first (omega arith) ss
            (ap (λ (c : Capacity). c.minimum) (count_device-taken 0 d no_capacity h)),
    )
  where
    least : ℤ
    least = (count_devices 1 ds (count_device 0 d no_capacity)).minimum

    attained :
        is_free d ≡ true
        → (least ≡ (count_device 0 d no_capacity).minimum) ⊎ IsSizeOfFree ds least
        → IsSizeOfFree (d ∷ ds) least
    attained h (inr found) = IsSizeOfFree-cons d ds _ found
    attained h (inl same) = elim (count_device-minimum_of 0 d no_capacity) [
      | inl (later, kept) ↦ absurd (later refl)
      | inr (inl (free, taken)) ↦ (d, (0, refl), free, same ∙ taken)
      | inr (inr (held, kept)) ↦ cc (h, held)
    ]
