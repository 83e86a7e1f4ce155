-- ===== src/Prelude/Int.antt =====
-- Go's int64: an integer, and the wrap-around that each operation may make. `negsuc n` is -(n + 1).
use Prim.Native.Nat.{ℕ, suc, ◌+◌, ◌-◌, ◌*◌, ◌/◌, ◌%◌, ◌^◌, ◌≤◌, ◌<◌}
use mathlib.Core.Path.{◌≡◌, refl}
use mathlib.Core.Bool.{Bool}
use native.Mathlib.Omega.{arith}
use nativestor.Prelude.Tests.{ltb, leb, eqb, if◌then◌else◌}

pub data ℤ : Type 0 where
  pos : ℕ → ℤ
  negsuc : ℕ → ℤ

abbrev pub pos_part : ℤ → ℕ
pos_part (pos n) = n
pos_part (negsuc n) = 0

abbrev pub neg_part : ℤ → ℕ
neg_part (pos n) = 0
neg_part (negsuc n) = suc n

abbrev pub sub_ℕ : ℕ → ℕ → ℤ
sub_ℕ a b = if leb b a then pos (a - b) else negsuc (b - a - 1)

abbrev pub two_63 : ℕ
two_63 = 2 ^ 63

abbrev pub two_64 : ℕ
two_64 = 2 ^ 64

-- The value of a 64-bit pattern, read as a signed number.
abbrev pub signed : ℕ → ℤ
signed m = if ltb m two_63 then pos m else negsuc (two_64 - m - 1)

unfoldable pub wrap_64 : ℤ → ℤ
wrap_64 (pos n) = signed (n % two_64)
wrap_64 (negsuc n) = signed (two_64 - 1 - n % two_64)

-- a + b
unfoldable pub add_64 : ℤ → ℤ → ℤ
unfolding wrap_64
add_64 a b = wrap_64 (sub_ℕ (pos_part a + pos_part b) (neg_part a + neg_part b))

-- a << 30
unfoldable pub shl_30 : ℤ → ℤ
unfolding wrap_64
shl_30 (pos n) = wrap_64 (pos (n * 2 ^ 30))
shl_30 (negsuc n) = wrap_64 (negsuc (suc n * 2 ^ 30 - 1))

-- a >> 30, which rounds down
unfoldable pub shr_30 : ℤ → ℤ
shr_30 (pos n) = pos (n / 2 ^ 30)
shr_30 (negsuc n) = negsuc (n / 2 ^ 30)

abbrev pub ◌≤ℤ◌ : ℤ → ℤ → Type 0
a ≤ℤ b = pos_part a + neg_part b ≤ pos_part b + neg_part a

abbrev pub ◌<ℤ◌ : ℤ → ℤ → Type 0
a <ℤ b = pos_part a + neg_part b < pos_part b + neg_part a

infix 50 ◌≤ℤ◌ ◌<ℤ◌
abbrev pub ltb_ℤ : ℤ → ℤ → Bool
ltb_ℤ a b = ltb (pos_part a + neg_part b) (pos_part b + neg_part a)

abbrev pub leb_ℤ : ℤ → ℤ → Bool
leb_ℤ a b = leb (pos_part a + neg_part b) (pos_part b + neg_part a)

abbrev pub eqb_ℤ : ℤ → ℤ → Bool
eqb_ℤ a b = eqb (pos_part a + neg_part b) (pos_part b + neg_part a)

-- The values that an int64 can hold.
abbrev pub IsInt64 : ℤ → Type 0
IsInt64 a = (pos_part a < two_63) × (neg_part a ≤ two_63)

pub wrap_64_of_IsInt64 : (a : ℤ) → IsInt64 a → wrap_64 a ≡ a
unfolding wrap_64
wrap_64_of_IsInt64 (pos n) h = ground arith
wrap_64_of_IsInt64 (negsuc n) h = ground arith

pub wrap_64-IsInt64 : (a : ℤ) → IsInt64 (wrap_64 a)
unfolding wrap_64
wrap_64-IsInt64 (pos n) = ground arith
wrap_64-IsInt64 (negsuc n) = ground arith

pub add_64-pos : (a b : ℕ) → a + b < two_63 → add_64 (pos a) (pos b) ≡ pos (a + b)
unfolding add_64
add_64-pos a b h = ground arith

pub eq_pos : (a : ℤ) → neg_part a ≡ 0 → a ≡ pos (pos_part a)
eq_pos (pos n) h = refl
eq_pos (negsuc n) h = absurd (omega arith)
