-- ===== src/Prelude/Maps.antt =====
-- Go's `map[string]V`: an association list with one entry to a key. Go ranges over a map in an order
-- that it leaves open; the model ranges in the list's order, and theorems hold for every list.
use Prim.Native.String.{String}
use mathlib.Core.Path.{◌≡◌, refl}
use mathlib.Core.Bool.{Bool, true, false}
use mathlib.Core.Option.{Option, none, some}
use mathlib.Core.List.{List, [], ◌∷◌}
use native.Mathlib.Omega.{arith}
use text.Mathlib.Text.{◌==◌}
use text.Mathlib.TextEquality.{eq_iff}
use nativestor.Prelude.Tests.{if◌then◌else◌, ==-self}
use nativestor.Prelude.Lists.{All}

abbrev pub Map {ℓ} : Type ℓ → Type ℓ
Map V = List (String × V)

module _ {ℓ} {V : Type ℓ} where
  -- `v, ok := m[key]`
  unfoldable pub lookup : String → Map V → Option V
  lookup key [] = none
  lookup key ((own, value) ∷ rest) = if own == key then some value else lookup key rest

  -- `m[key] = value`
  unfoldable pub insert : String → V → Map V → Map V
  insert key value [] = (key, value) ∷ []
  insert key value ((own, old) ∷ rest) =
      let later = insert key value rest in
      if own == key then (own, value) ∷ rest else (own, old) ∷ later

  -- `delete(m, key)`
  unfoldable pub erase : String → Map V → Map V
  erase key [] = []
  erase key ((own, value) ∷ rest) =
      let later = erase key rest in if own == key then later else (own, value) ∷ later

  abbrev pub is_some : Option V → Bool
  is_some none = false
  is_some (some value) = true

  -- `_, ok := m[key]`
  abbrev pub has : String → Map V → Bool
  has key m = is_some (lookup key m)

  -- `m[key]`, with the zero value for a missing key
  abbrev pub get_or : V → String → Map V → V
  get_or zero_value key m = elim (lookup key m) [ none ↦ zero_value | some v ↦ v ]

  unfoldable pub keys : Map V → List String
  keys [] = []
  keys ((own, value) ∷ rest) = own ∷ keys rest

  unfoldable pub values : Map V → List V
  values [] = []
  values ((own, value) ∷ rest) = value ∷ values rest

  module _ (key other : String) where
    pub lookup-erase :
        (m : Map V) → lookup other (erase key m) ≡ (if key == other then none else lookup other m)
    unfolding lookup erase
    lookup-erase [] = ground arith
    lookup-erase ((own, value) ∷ rest) =
        ground (arith, lookup-erase rest, eq_iff own key, eq_iff own other, eq_iff key other)

    pub lookup-insert :
        (new : V) (m : Map V)
        → lookup other (insert key new m) ≡ (if key == other then some new else lookup other m)
    unfolding lookup insert
    lookup-insert new [] = refl
    lookup-insert new ((own, value) ∷ rest) =
        ground (arith, lookup-insert new rest, eq_iff own key, eq_iff own other, eq_iff key other)

    pub has-erase :
        (m : Map V) → has other (erase key m) ≡ (if key == other then false else has other m)
    has-erase m = rw (lookup-erase m) (by_test (key == other))
      where
        by_test :
            (b : Bool)
            → is_some (if b then none else lookup other m) ≡ (if b then false else has other m)
        by_test true = refl
        by_test false = refl

    pub has-insert :
        (new : V) (m : Map V)
        → has other (insert key new m) ≡ (if key == other then true else has other m)
    has-insert new m = rw (lookup-insert new m) (by_test (key == other))
      where
        by_test :
            (b : Bool)
            → is_some (if b then some new else lookup other m) ≡ (if b then true else has other m)
        by_test true = refl
        by_test false = refl

  pub has-insert_self : (key : String) (new : V) (m : Map V) → has key (insert key new m) ≡ true
  has-insert_self key new m = rw (has-insert key key new m, ==-self key) refl

-- An insertion keeps a predicate of every entry.
pub insert-All {ℓ κ} :
    {V : Type ℓ} (P : String × V → Type κ) (key : String) (new : V) (m : Map V)
    → P (key, new)
    → All P m
    → All P (insert key new m)
unfolding insert
insert-All P key new [] p h = (p, tt)
insert-All P key new ((own, old) ∷ rest) p (q, h) =
    by_test (own == key) refl (insert-All P key new rest p h)
  where
    by_test :
        (b : Bool)
        → (own == key) ≡ b
        → All P (insert key new rest)
        → All P (if b then (own, new) ∷ rest else (own, old) ∷ insert key new rest)
    by_test true e later = (rw ((eq_iff own key).0 e) p, h)
    by_test false e later = (q, later)
