-- ===== src/Operator/Monitor/Kept.antt =====
-- The entries of the cluster's status across a check: what is kept and what is added.
use mathlib.Core.List.{append_assoc}
use nativestor.Prelude.{
  String, ◌==◌, ◌||◌, Bool, true, false, any, List, [], ◌∷◌, ◌++◌, map, ◌≡◌, refl, ap, ◌∙◌, All,
  All-append, ==-self, if◌then◌else◌,
}
use nativestor.VolumeGroup.Types.{NodeStorageState}
use nativestor.Operator.Monitor.{set_phase, merge_one}
use nativestor.Operator.Monitor.Merged.{IsFresh}

-- the entry without its phase
abbrev pub bare : NodeStorageState → NodeStorageState
bare n = record n { phase = "" }

abbrev pub named : String → List NodeStorageState → Bool
named key = any (λ (item : NodeStorageState). item.node == key)

-- The new list is the old one, but for the phases, with entries of no class after it.
abbrev pub Extends : List NodeStorageState → List NodeStorageState → Type 0
Extends old new =
    (added : List NodeStorageState) × (map bare new ≡ map bare old ++ added) × All IsFresh added

append_nil : (xs : List NodeStorageState) → xs ≡ xs ++ []
append_nil [] = refl
append_nil (x ∷ xs) = ap (λ t. x ∷ t) (append_nil xs)

pub Extends-of_bare :
    (old new : List NodeStorageState) → map bare new ≡ map bare old → Extends old new
Extends-of_bare old new e = ([], e ∙ append_nil (map bare old), tt)

pub Extends-trans : (a b c : List NodeStorageState) → Extends a b → Extends b c → Extends a c
Extends-trans a b c (x, p, h) (y, q, k) =
    (x ++ y, q ∙ ap (λ t. t ++ y) p ∙ append_assoc (map bare a) x y, All-append IsFresh x y h k)

module _ (key phase : String) where
  bare-set_phase : (item : NodeStorageState) → bare (set_phase key phase item) ≡ bare item
  bare-set_phase item = by_test (item.node == key)
    where
      by_test : (b : Bool) → bare (if b then record item { phase = phase } else item) ≡ bare item
      by_test true = refl
      by_test false = refl

  map-bare-set_phase :
      (status : List NodeStorageState)
      → map bare (map (set_phase key phase) status) ≡ map bare status
  map-bare-set_phase [] = refl
  map-bare-set_phase (item ∷ status) = cc (bare-set_phase item, map-bare-set_phase status)

  named-set_phase :
      (other : String) (status : List NodeStorageState)
      → named other (map (set_phase key phase) status) ≡ named other status
  named-set_phase other [] = refl
  named-set_phase other (item ∷ status) =
      rw (same_node (item.node == key))
        (ap (λ b. (item.node == other) || b) (named-set_phase other status))
    where
      same_node : (b : Bool) → (if b then record item { phase = phase } else item).node ≡ item.node
      same_node true = refl
      same_node false = refl

map-bare-append :
    (status : List NodeStorageState) (n : NodeStorageState)
    → map bare (status ++ n ∷ []) ≡ map bare status ++ bare n ∷ []
map-bare-append [] n = refl
map-bare-append (item ∷ status) n = ap (λ t. bare item ∷ t) (map-bare-append status n)

named-append :
    (key : String) (status more : List NodeStorageState)
    → named key (status ++ more) ≡ (named key status || named key more)
named-append key [] more = refl
named-append key (item ∷ status) more =
    ap (λ b. (item.node == key) || b) (named-append key status more)
    ∙ by_cases (item.node == key) (named key status)
  where
    by_cases : (a b : Bool) → (a || (b || named key more)) ≡ ((a || b) || named key more)
    by_cases true b = refl
    by_cases false b = refl

module _ (key : String) (val : NodeStorageState) where
  pub merge_one-Extends :
      (status : List NodeStorageState) → IsFresh val → Extends status (merge_one key val status)
  unfolding merge_one
  merge_one-Extends status f = by_test (named key status)
    where
      by_test :
          (b : Bool)
          → Extends status (if b then map (set_phase key val.phase) status else status ++ val ∷ [])
      by_test true =
          Extends-of_bare status (map (set_phase key val.phase) status)
            (map-bare-set_phase key val.phase status)
      by_test false = (bare val ∷ [], map-bare-append status val, (f, tt))

  pub merge_one-named :
      (other : String) (status : List NodeStorageState)
      → named other status ≡ true
      → named other (merge_one key val status) ≡ true
  unfolding merge_one
  merge_one-named other status h = by_test (named key status)
    where
      by_test :
          (b : Bool)
          → named other (if b then map (set_phase key val.phase) status else status ++ val ∷ [])
            ≡ true
      by_test true = named-set_phase key val.phase other status ∙ h
      by_test false = named-append other status (val ∷ []) ∙ ap (λ b. b || named other (val ∷ [])) h

  pub merge_one-named_self :
      (status : List NodeStorageState)
      → val.node ≡ key
      → named key (merge_one key val status) ≡ true
  unfolding merge_one
  merge_one-named_self status e = by_test (named key status) refl
    where
      last : (b : Bool) → (b || ((val.node == key) || false)) ≡ true
      last true = refl
      last false = rw (e, ==-self key) refl

      by_test :
          (b : Bool)
          → named key status ≡ b
          → named key (if b then map (set_phase key val.phase) status else status ++ val ∷ [])
            ≡ true
      by_test true t = named-set_phase key val.phase key status ∙ t
      by_test false t = named-append key status (val ∷ []) ∙ last (named key status)
