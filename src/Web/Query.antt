-- ===== src/Web/Query.antt =====
-- The query strings of src/api_server.cpp.
pub mod Encoded
use wh_repeater.Common.{
  ℕ, zero, suc, ◌+◌, ◌-◌, ◌*◌, ◌/◌, ◌%◌, ◌<◌, ◌≤◌, Bool, true, false, not, ◌&&◌, ◌||◌, Option, none,
  some, List, [], ◌∷◌, ◌++◌, ltb, leb, ◌==◌, if◌then◌else◌, ◌≡◌, refl, ap, arith, text_eq, before,
  behind, split,
}
use wh_repeater.Domain.{Text}

-- A digit's value; `none` is -1.
unfoldable pub hex_value : ℕ → Option ℕ
hex_value ch =
    if leb 48 ch && leb ch 57
    then some (ch - 48)
    else if leb 97 ch && leb ch 102
    then some (10 + ch - 97)
    else if leb 65 ch && leb ch 70
    then some (10 + ch - 65)
    else none

-- The byte that two digits stand for.
abbrev pub hex_byte : Option ℕ → Option ℕ → Option ℕ
hex_byte (some high) (some low) = some (high * 16 + low)
hex_byte _ _ = none

-- One round of `urlDecode` puts its byte first; a valid escape takes its two digits along.
abbrev pub put_escape : Option ℕ → ℕ → Text → Text → Text
put_escape none ch kept skipped = ch ∷ kept
put_escape (some byte) ch kept skipped = byte ∷ skipped

unfoldable pub url_decode : Text → Text
url_decode [] = []
url_decode (ch ∷ []) = (if ch == 43 then 32 else ch) ∷ []
url_decode (ch ∷ a ∷ []) = (if ch == 43 then 32 else ch) ∷ url_decode (a ∷ [])
url_decode (ch ∷ a ∷ b ∷ rest) =
    let kept : Text = url_decode (a ∷ b ∷ rest) in
    let skipped : Text = url_decode rest in
    if ch == 43
    then 32 ∷ kept
    else if ch == 37
    then put_escape (hex_byte (hex_value a) (hex_value b)) ch kept skipped
    else ch ∷ kept

-- The value of an item, empty where it has no "=".
abbrev pub value_of : Option Text → Text
value_of none = []
value_of (some value) = value

-- The loop over the items.
unfoldable pub find_item : Text → List Text → Option Text
find_item name [] = none
find_item name (item ∷ items) =
    if text_eq (before 61 item) name
    then some (url_decode (value_of (behind 61 item)))
    else find_item name items

abbrev pub find_in : Text → Option Text → Option Text
find_in name none = none
find_in name (some query) = find_item name (split 38 query)

unfoldable pub query_parameter : Text → Text → Option Text
query_parameter path name = find_in name (behind 63 path)

abbrev pub bool_of : Option Text → Option Bool
bool_of none = none
bool_of (some value) =
    if text_eq value (116 ∷ 114 ∷ 117 ∷ 101 ∷ [])
      || text_eq value (49 ∷ [])
      || text_eq value (121 ∷ 101 ∷ 115 ∷ [])
    then some true
    else if text_eq value (102 ∷ 97 ∷ 108 ∷ 115 ∷ 101 ∷ [])
        || text_eq value (48 ∷ [])
        || text_eq value (110 ∷ 111 ∷ [])
    then some false
    else none

unfoldable pub query_bool : Text → Text → Option Bool
query_bool path name = bool_of (query_parameter path name)
