-- ===== src/Prelude/Texts.antt =====
-- Go's package strings, for the calls that the program makes: Split at one character, TrimSpace,
-- Trim of one character, Replace of one character by nothing, ToLower, Contains, HasPrefix.
-- A text is a list of characters. Where Go slices bytes (`k[5:]`) the model drops characters, which
-- is the same for the ASCII field names of lvm.
use Prim.Native.Char.{Char, code}
use Prim.Native.String.{String, [], ◌∷◌, ◌++◌}
use mathlib.Core.Bool.{Bool, true, false, ◌&&◌, ◌||◌}
use mathlib.Core.Option.{Option, none, some}
use mathlib.Core.List.{List}
use Prim.Native.Nat.{ℕ, zero, suc}
use nativestor.Prelude.Tests.{eqb, leb, if◌then◌else◌}

-- `strings.Split(s, sep)`: always at least one part.
abbrev pub into_first : Char → List String → List String
into_first c List.[] = List.◌∷◌ (c ∷ []) List.[]
into_first c (List.◌∷◌ part parts) = List.◌∷◌ (c ∷ part) parts

unfoldable pub split : ℕ → String → List String
split sep [] = List.◌∷◌ "" List.[]
split sep (c ∷ s) =
    let rest = split sep s in if eqb (code c) sep then List.◌∷◌ "" rest else into_first c rest

-- unicode.IsSpace
abbrev pub is_space : Char → Bool
is_space c =
    let n = code c in
    eqb n 32
    || (leb 9 n && leb n 13)
    || eqb n 0x85
    || eqb n 0xa0
    || eqb n 0x1680
    || (leb 0x2000 n && leb n 0x200a)
    || eqb n 0x2028
    || eqb n 0x2029
    || eqb n 0x202f
    || eqb n 0x205f
    || eqb n 0x3000

pub trim_left : (Char → Bool) → String → String
trim_left p [] = []
trim_left p (c ∷ s) = let rest = trim_left p s in if p c then rest else c ∷ s

abbrev pub is_empty : String → Bool
is_empty [] = true
is_empty (c ∷ s) = false

pub trim_right : (Char → Bool) → String → String
trim_right p [] = []
trim_right p (c ∷ s) = let rest = trim_right p s in if is_empty rest && p c then [] else c ∷ rest

-- `strings.TrimFunc(s, p)`
unfoldable pub trim : (Char → Bool) → String → String
unfolding trim_left trim_right
trim p s = trim_right p (trim_left p s)

-- `strings.Replace(s, c, "", -1)` of one character
unfoldable pub remove_char : ℕ → String → String
remove_char n [] = []
remove_char n (c ∷ s) = let rest = remove_char n s in if eqb (code c) n then rest else c ∷ rest

-- `strings.ToLower` of the ASCII letters; the model leaves other characters as they are.
abbrev translate : String → String → Char → Char
translate [] _ c = c
translate (u ∷ us) [] c = c
translate (u ∷ us) (l ∷ ls) c = if eqb (code u) (code c) then l else translate us ls c

unfoldable pub to_lower : String → String
to_lower [] = []
to_lower (c ∷ s) =
    translate "ABCDEFGHIJKLMNOPQRSTUVWXYZ" "abcdefghijklmnopqrstuvwxyz" c ∷ to_lower s

-- `s[n:]`; `none` is the panic of a text that is too short.
unfoldable pub drop_chars : ℕ → String → Option String
drop_chars zero s = some s
drop_chars (suc n) [] = none
drop_chars (suc n) (c ∷ s) = drop_chars n s

-- `strings.HasPrefix(s, p)`
unfoldable pub has_prefix : String → String → Bool
has_prefix s [] = true
has_prefix [] (d ∷ p) = false
has_prefix (c ∷ s) (d ∷ p) = eqb (code c) (code d) && has_prefix s p

-- `strings.HasSuffix(s, p)` for a `p` of one character
unfoldable pub ends_with : ℕ → String → Bool
ends_with n [] = false
ends_with n (c ∷ s) = let rest = ends_with n s in if is_empty s then eqb (code c) n else rest

-- `strings.Contains(s, p)`
unfoldable pub contains : String → String → Bool
unfolding has_prefix
contains [] p = has_prefix [] p
contains (c ∷ s) p = has_prefix (c ∷ s) p || contains s p

abbrev pub code_is : ℕ → Char → Bool
code_is n c = eqb (code c) n

-- `a + b` of texts, under a name of its own beside the append of lists
abbrev pub concat : String → String → String
concat a b = a ++ b
