-- ===== src/Discover/Udev.antt =====
-- matchUdevEvent of discover.go. regexp.MatchString is a parameter: the pattern and the text, with the
-- error of a pattern that does not parse.
use nativestor.Prelude.{
  String, ◌≡◌, refl, ap, ◌∙◌, ◌&&◌, ◌||◌, not, Bool, true, false, any, List, [], ◌∷◌, if◌then◌else◌,
}
use nativestor.Errors.{Result, ok, err, plain, ◌>>=◌}

module _ (match_string : String → String → Result Bool) (text : String) where
  abbrev searched : Result Bool → Result Bool
  searched (ok b) = ok b
  searched (err e) = err (plain "failed to search string: %v")

  -- the loop over the exclusions
  unfoldable pub has_exclusion : List String → Result Bool
  has_exclusion [] = ok false
  has_exclusion (exclusion ∷ exclusions) =
      let rest = has_exclusion exclusions in
      searched (match_string exclusion text) >>= λ matched. if matched then ok true else rest

  unfoldable pub match_udev_event : List String → List String → Result Bool
  unfolding has_exclusion
  match_udev_event [] exclusions = ok false
  match_udev_event (match ∷ matches) exclusions =
      let rest = match_udev_event matches exclusions in
      searched (match_string match text) >>= λ matched.
      if matched
      then (has_exclusion exclusions >>= λ excluded. if excluded then rest else ok true)
      else rest

-- a search in which every pattern parses
abbrev pub parses : (String → String → Bool) → String → String → Result Bool
parses search pattern s = ok (search pattern s)

module _ (search : String → String → Bool) (text : String) where
  has_exclusion-any :
      (exclusions : List String)
      → has_exclusion (parses search) text exclusions ≡ ok (any (λ e. search e text) exclusions)
  unfolding has_exclusion
  has_exclusion-any [] = refl
  has_exclusion-any (e ∷ exclusions) = by_test (search e text) (has_exclusion-any exclusions)
    where
      by_test :
          (b : Bool)
          → has_exclusion (parses search) text exclusions ≡ ok (any (λ e. search e text) exclusions)
          → (if b then ok true else has_exclusion (parses search) text exclusions)
            ≡ ok (b || any (λ e. search e text) exclusions)
      by_test true h = refl
      by_test false h = h

  -- Where every pattern parses, an event is matched exactly if one of the patterns to match is found in
  -- it and none of the exclusions.
  pub match_udev_event-any :
      (matches exclusions : List String)
      → match_udev_event (parses search) text matches exclusions
        ≡ ok (any (λ m. search m text) matches && not (any (λ e. search e text) exclusions))
  unfolding match_udev_event
  match_udev_event-any [] exclusions = refl
  match_udev_event-any (m ∷ matches) exclusions = rw (has_exclusion-any exclusions) (
      by_test (search m text) (any (λ e. search e text) exclusions)
        (match_udev_event-any matches exclusions))
    where
      rest : Result Bool
      rest = match_udev_event (parses search) text matches exclusions

      found : Bool
      found = any (λ p. search p text) matches

      and_false : (c : Bool) → (c && false) ≡ false
      and_false true = refl
      and_false false = refl

      by_test :
          (a b : Bool)
          → rest ≡ ok (found && not b)
          → (if a then (if b then rest else ok true) else rest) ≡ ok ((a || found) && not b)
      by_test true true h = h ∙ ap ok (and_false found)
      by_test true false h = refl
      by_test false b h = h
