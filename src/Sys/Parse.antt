-- ===== src/Sys/Parse.antt =====
-- The parsers of command output: parseLines and parseOneLine of pkg/util/sys/lvm.go.
use nativestor.Prelude.{String, ◌==◌, List, [], ◌∷◌, Option, none, some, ◌≡◌, refl, if◌then◌else◌}
use nativestor.Prelude.Texts.{split, trim, is_space, to_lower, drop_chars, code_is}
use nativestor.Prelude.Maps.{Map, insert}

-- LVInfo
abbrev pub LvInfo : Type 0
LvInfo = Map String

infixl 5 ◌>>=◌
abbrev ◌>>=◌ {ℓ κ} : {A : Type ℓ} {B : Type κ} → Option A → (A → Option B) → Option B
◌>>=◌ none f = none
◌>>=◌ (some a) f = f a

-- `kv[0]` and `kv[1]`; the second index panics where the token has no "=".
abbrev first_two : List String → Option (String × String)
first_two (k ∷ v ∷ rest) = some (k, v)
first_two _ = none

-- a token LVM2_KEY='value' of a line; `none` is a panic
unfoldable pub parse_token : String → Option (String × String)
unfolding split drop_chars to_lower trim
parse_token token = do
  (k, v) ← first_two (split b'=' token)
  key ← drop_chars 5 k
  some (to_lower key, trim (code_is 39) v)

unfoldable pub parse_tokens : List String → LvInfo → Option LvInfo
unfolding parse_token insert
parse_tokens [] info = some info
parse_tokens (token ∷ tokens) info =
    let rest = λ (i : LvInfo). parse_tokens tokens i in
    if token == "" then rest info else do (k, v) ← parse_token token; rest (insert k v info)

unfoldable pub parse_one_line : String → Option LvInfo
unfolding parse_tokens split trim
parse_one_line line = parse_tokens (split b' ' (trim is_space line)) []

unfoldable pub parse_each : List String → Option (List LvInfo)
unfolding parse_one_line
parse_each [] = some []
parse_each (line ∷ lines) =
    let rest = parse_each lines in
    if line == "" then rest else do info ← parse_one_line line; infos ← rest; some (info ∷ infos)

unfoldable pub parse_lines : String → Option (List LvInfo)
unfolding parse_each split
parse_lines output = parse_each (split b'\n' output)

parse_test :
    parse_lines "  LVM2_PV_NAME='/dev/sda'\n  LVM2_PV_NAME='/dev/sdb' LVM2_VG_NAME=''\n"
    ≡ some ((("pv_name", "/dev/sda") ∷ []) ∷ (("pv_name", "/dev/sdb") ∷ ("vg_name", "") ∷ []) ∷ [])
unfolding parse_lines
parse_test = refl

-- A token with no "=" stops the program.
parse_panic : parse_lines "oops" ≡ none
unfolding parse_lines
parse_panic = refl
