-- ===== src/Operator/Finalizer.antt =====
-- finalizer.go of pkg/operator/controller. `remove` ranges over the list that it was given while it
-- moves the elements of the same array: the model keeps the array, and the length of the list that is
-- left. The object's metadata can always be read; buildFinalizerName is in finalizer_name.
pub mod Removed
use nativestor.Prelude.{
  ℕ, zero, suc, ◌+◌, ◌-◌, String, ◌==◌, ◌≡◌, Bool, true, false, List, [], ◌∷◌, ◌++◌, any, Option,
  none, some, leb, length, get_elem?, if◌then◌else◌,
}
use nativestor.Prelude.Texts.{to_lower, concat}
use nativestor.Errors.{Error, Result, ok, err}
use nativestor.Api.{Api, pure, wrap, ◌>>=◌, ◌>>◌}
use nativestor.Operator.Types.{Cluster}

unfoldable pub contains : List String → String → Bool
contains list s = any (λ v. v == s) list

-- `append(a[:i], a[i+1:len]...)` in the array of `a`: the elements from i + 1 to len move down by one.
unfoldable pub shift_down : ℕ → ℕ → List String → List String
shift_down i len [] = []
shift_down zero len (x ∷ []) = x ∷ []
shift_down zero zero (x ∷ y ∷ a) = x ∷ y ∷ a
shift_down zero (suc zero) (x ∷ y ∷ a) = x ∷ y ∷ a
shift_down zero (suc (suc len)) (x ∷ y ∷ a) = y ∷ shift_down zero (suc len) (y ∷ a)
shift_down (suc i) zero (x ∷ a) = x ∷ a
shift_down (suc i) (suc len) (x ∷ a) = x ∷ shift_down i len a

unfoldable pub take : ℕ → List String → List String
take zero a = []
take (suc n) [] = []
take (suc n) (x ∷ a) = x ∷ take n a

-- The rounds of the loop that are left, at index i; `none` is the panic of `list[i+1:]` where the list
-- has become too short.
unfoldable pub remove_from : String → ℕ → ℕ → ℕ → List String → Option (List String)
unfolding shift_down take
remove_from s zero i len a = some (take len a)
remove_from s (suc rounds) i len a = elim (get_elem? a i) [
  | none ↦ none
  | some v ↦
      let kept = remove_from s rounds (i + 1) len a in
      let moved = remove_from s rounds (i + 1) (len - 1) (shift_down i len a) in
      if v == s then (if leb (i + 1) len then moved else none) else kept
]

unfoldable pub remove : List String → String → Option (List String)
unfolding remove_from
remove list s = remove_from s (length list) 0 (length list) list

-- buildFinalizerName
unfoldable pub finalizer_name : String → String
unfolding to_lower
finalizer_name kind = concat (to_lower kind) ".topolvm.cybozu.com"
