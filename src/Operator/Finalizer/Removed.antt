-- ===== src/Operator/Finalizer/Removed.antt =====
-- `remove` on a list that has the finalizer once, which is what the API server keeps.
use nativestor.Prelude.{
  ℕ, zero, suc, ◌+◌, ◌-◌, ◌<◌, String, ◌==◌, ==-self, ◌≡◌, refl, ap, ◌∙◌, false, List, [], ◌∷◌,
  ◌++◌, some, length, length-append, get_elem?, get_elem?-append_left, All, arith,
}
use nativestor.Operator.Finalizer.{shift_down, take, remove_from, remove}

module _ (s : String) where
  abbrev pub Differs : String → Type 0
  Differs v = (v == s) ≡ false

  -- the element at a position is there and is another text
  abbrev AvoidsAt : List String → ℕ → Type 0
  AvoidsAt a k = (v : String) × (get_elem? a k ≡ some v) × Differs v

  step_kept :
      (rounds i len : ℕ) (a : List String) (v : String)
      → get_elem? a i ≡ some v
      → Differs v
      → remove_from s (suc rounds) i len a ≡ remove_from s rounds (i + 1) len a
  unfolding remove_from
  step_kept rounds i len a v e d = ground arith

  step_moved :
      (rounds i len : ℕ) (a : List String)
      → get_elem? a i ≡ some s
      → i < len
      → remove_from s (suc rounds) i len a
        ≡ remove_from s rounds (i + 1) (len - 1) (shift_down i len a)
  unfolding remove_from
  step_moved rounds i len a e l = ground (arith, ==-self s)

  -- Where nothing is met, nothing is removed.
  remove_from-none :
      (rounds i len : ℕ) (a : List String)
      → ((j : ℕ) → j < rounds → AvoidsAt a (i + j))
      → remove_from s rounds i len a ≡ some (take len a)
  unfolding remove_from
  remove_from-none zero i len a h = refl
  remove_from-none (suc rounds) i len a h =
      first (h 0 (omega arith))
        (remove_from-none rounds (i + 1) len a (λ j l. rw (shifted j) (h (suc j) (omega arith))))
    where
      shifted : (j : ℕ) → i + 1 + j ≡ i + suc j
      shifted j = omega arith

      same : i + 0 ≡ i
      same = omega arith

      first :
          AvoidsAt a (i + 0)
          → remove_from s rounds (i + 1) len a ≡ some (take len a)
          → remove_from s (suc rounds) i len a ≡ some (take len a)
      first (v, e, d) later = step_kept rounds i len a v (rw same at e) d ∙ later

  All-AvoidsAt : (a : List String) (j : ℕ) → All Differs a → j < length a → AvoidsAt a j
  All-AvoidsAt [] j h l = absurd (omega arith)
  All-AvoidsAt (x ∷ a) zero (d, h) l = (x, refl, d)
  All-AvoidsAt (x ∷ a) (suc j) (d, h) l = All-AvoidsAt a j h (omega arith)

  -- What moves down over the first element.
  shift_down-All :
      (y : String) (post : List String)
      → All Differs (y ∷ post)
      → All Differs (shift_down 0 (length (y ∷ post)) (y ∷ post))
  unfolding shift_down
  shift_down-All y [] h = h
  shift_down-All y (z ∷ post) (d, h) = (h.0, shift_down-All z post h)

  length-shift_down : (i len : ℕ) (a : List String) → length (shift_down i len a) ≡ length a
  unfolding shift_down
  length-shift_down i len [] = refl
  length-shift_down zero len (x ∷ []) = refl
  length-shift_down zero zero (x ∷ y ∷ a) = refl
  length-shift_down zero (suc zero) (x ∷ y ∷ a) = refl
  length-shift_down zero (suc (suc len)) (x ∷ y ∷ a) =
      ap suc (length-shift_down zero (suc len) (y ∷ a))
  length-shift_down (suc i) zero (x ∷ a) = refl
  length-shift_down (suc i) (suc len) (x ∷ a) = ap suc (length-shift_down i len a)

  shift_down-append :
      (pre rest : List String)
      → shift_down (length pre) (length (pre ++ rest)) (pre ++ rest)
        ≡ pre ++ shift_down 0 (length rest) rest
  unfolding shift_down
  shift_down-append [] rest = refl
  shift_down-append (x ∷ pre) rest = ap (λ t. x ∷ t) (shift_down-append pre rest)

  take-append :
      (pre post more : List String)
      → take (length (pre ++ post)) (pre ++ more) ≡ pre ++ take (length post) more
  unfolding take
  take-append [] post more = refl
  take-append (x ∷ pre) post more = ap (λ t. x ∷ t) (take-append pre post more)

  take-shift_down :
      (x : String) (post : List String)
      → take (length post) (shift_down 0 (length (x ∷ post)) (x ∷ post)) ≡ post
  unfolding take shift_down
  take-shift_down x [] = refl
  take-shift_down x (y ∷ post) = ap (λ t. y ∷ t) (take-shift_down y post)

  get_elem?-append_right :
      (pre a : List String) (j : ℕ) → get_elem? (pre ++ a) (length pre + j) ≡ get_elem? a j
  get_elem?-append_right [] a j = ap (get_elem? a) (omega arith)
  get_elem?-append_right (x ∷ pre) a j = rw (moved (length pre)) (get_elem?-append_right pre a j)
    where
      moved : (n : ℕ) → suc n + j ≡ suc (n + j)
      moved n = omega arith

  -- The loop walks over elements that differ.
  remove_from-walk :
      (k rounds i len : ℕ) (a : List String)
      → ((j : ℕ) → j < k → AvoidsAt a (i + j))
      → remove_from s (k + rounds) i len a ≡ remove_from s rounds (i + k) len a
  unfolding remove_from
  remove_from-walk zero rounds i len a h = rw (zero_left rounds, zero_right i) refl
    where
      zero_left : (n : ℕ) → 0 + n ≡ n
      zero_left n = omega arith

      zero_right : (n : ℕ) → n + 0 ≡ n
      zero_right n = omega arith
  remove_from-walk (suc k) rounds i len a h = rw more (
      first (h 0 (omega arith))
        (remove_from-walk k rounds (i + 1) len a (λ j l. rw (shifted j) (h (suc j) (omega arith)))))
    where
      more : suc k + rounds ≡ suc (k + rounds)
      more = omega arith

      shifted : (j : ℕ) → i + 1 + j ≡ i + suc j
      shifted j = omega arith

      same : i + 0 ≡ i
      same = omega arith

      first :
          AvoidsAt a (i + 0)
          → remove_from s (k + rounds) (i + 1) len a ≡ remove_from s rounds (i + 1 + k) len a
          → remove_from s (suc (k + rounds)) i len a ≡ remove_from s rounds (i + suc k) len a
      first (v, e, d) later =
          step_kept (k + rounds) i len a v (rw same at e) d
          ∙ (later ∙ ap (λ n. remove_from s rounds n len a) (shifted k))

  take_all : (list : List String) → take (length list) list ≡ list
  unfolding take
  take_all [] = refl
  take_all (x ∷ list) = ap (λ t. x ∷ t) (take_all list)

  -- a list without the finalizer
  pub remove-absent : (list : List String) → All Differs list → remove list s ≡ some list
  unfolding remove
  remove-absent list h =
      remove_from-none (length list) 0 (length list) list
        (λ j l. rw (zero_left j) (All-AvoidsAt list j h l))
      ∙ ap some (take_all list)
    where
      zero_left : (n : ℕ) → 0 + n ≡ n
      zero_left n = omega arith

  AvoidsAt-moved :
      (pre post : List String)
      → All Differs post
      → (j : ℕ) → j < length post
      → AvoidsAt (pre ++ shift_down 0 (length (s ∷ post)) (s ∷ post)) (length pre + 1 + j)
  unfolding shift_down
  AvoidsAt-moved pre [] h j l = absurd (omega arith)
  AvoidsAt-moved pre (y ∷ post) h j l =
      moved (All-AvoidsAt tail j (shift_down-All y post h) (rw same_length l))
    where
      tail : List String
      tail = shift_down 0 (length (y ∷ post)) (y ∷ post)

      same_length : length tail ≡ length (y ∷ post)
      same_length = length-shift_down 0 (length (y ∷ post)) (y ∷ post)

      right : length pre + 1 + j ≡ length pre + suc j
      right = omega arith

      moved : AvoidsAt tail j → AvoidsAt (pre ++ y ∷ tail) (length pre + 1 + j)
      moved (v, e, d) = (v, rw right (get_elem?-append_right pre (y ∷ tail) (suc j) ∙ e), d)

  -- Where the finalizer stands once in a list, `remove` does not panic, and takes it out.
  pub remove-once :
      (pre post : List String)
      → All Differs pre
      → All Differs post
      → remove (pre ++ s ∷ post) s ≡ some (pre ++ post)
  unfolding remove
  remove-once pre post h k =
      ap (λ n. remove_from s n 0 len list) (length-append pre (s ∷ post))
      ∙ (remove_from-walk (length pre) (suc (length post)) 0 len list walked
          ∙ (ap (λ n. remove_from s (suc (length post)) n len list) zero_left ∙ removed))
    where
      list : List String
      list = pre ++ s ∷ post

      len : ℕ
      len = length (pre ++ s ∷ post)

      moved : List String
      moved = pre ++ shift_down 0 (length (s ∷ post)) (s ∷ post)

      zero_left : 0 + length pre ≡ length pre
      zero_left = omega arith

      walked : (j : ℕ) → j < length pre → AvoidsAt list (0 + j)
      walked j l = rw (zero_left_of j) (in_front (All-AvoidsAt pre j h l))
        where
          zero_left_of : (n : ℕ) → 0 + n ≡ n
          zero_left_of n = omega arith

          in_front : AvoidsAt pre j → AvoidsAt list j
          in_front (v, e, d) = (v, get_elem?-append_left pre (s ∷ post) j e, d)

      here : get_elem? list (length pre) ≡ some s
      here = ap (get_elem? list) zero_right ∙ get_elem?-append_right pre (s ∷ post) 0
        where
          zero_right : length pre ≡ length pre + 0
          zero_right = omega arith

      inside : length pre < len
      inside = omega (arith, length-append pre (s ∷ post))

      fewer : len - 1 ≡ length (pre ++ post)
      fewer = omega (arith, length-append pre (s ∷ post), length-append pre post)

      removed : remove_from s (suc (length post)) (length pre) len list ≡ some (pre ++ post)
      removed =
          step_moved (length post) (length pre) len list here inside
          ∙ (rw (shift_down-append pre (s ∷ post), fewer)
                (remove_from-none (length post) (length pre + 1) (length (pre ++ post)) moved
                  (AvoidsAt-moved pre post k))
              ∙ ap some (
                  take-append pre post (shift_down 0 (length (s ∷ post)) (s ∷ post))
                  ∙ ap (λ t. pre ++ t) (take-shift_down s post)))
