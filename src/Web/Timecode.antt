-- ===== src/Web/Timecode.antt =====
-- The time codes of src/api_server.cpp.
pub mod Digits
pub mod RoundTrip
use wh_repeater.Common.{
  decimal, ℕ, zero, suc, ◌+◌, ◌-◌, ◌*◌, ◌/◌, ◌%◌, ◌<◌, ◌≤◌, Bool, true, false, not, ◌&&◌, ◌||◌,
  Option, none, some, List, [], ◌∷◌, ◌++◌, ltb, leb, ◌==◌, if◌then◌else◌, ◌≡◌, refl, ap, arith,
  text_eq, before, behind, split, length, replicate,
}
use wh_repeater.Common.Int.{ℤ, pos, negsuc}
use wh_repeater.Domain.{Text}

abbrev pub is_digit : ℕ → Bool
is_digit ch = leb 48 ch && leb ch 57

-- " ", "\t", "\r" and "\n".
abbrev pub is_blank : ℕ → Bool
is_blank ch = ch == 32 || ch == 9 || ch == 13 || ch == 10

abbrev pub skip_blanks : Text → Text
skip_blanks [] = []
skip_blanks (ch ∷ rest) = if is_blank ch then skip_blanks rest else ch ∷ rest

-- The blanks at the end go: a blank is kept only before something that is kept.
abbrev pub put_kept : ℕ → Text → Text
put_kept ch [] = if is_blank ch then [] else ch ∷ []
put_kept ch (x ∷ rest) = ch ∷ x ∷ rest

abbrev pub drop_blanks : Text → Text
drop_blanks [] = []
drop_blanks (ch ∷ rest) = put_kept ch (drop_blanks rest)

abbrev pub trim_json : Text → Text
trim_json value = drop_blanks (skip_blanks value)

-- The number is not bounded here; the source's is as long as it fits 63 bits.
unfoldable pub parse_digits : ℕ → Text → Option ℕ
parse_digits parsed [] = some parsed
parse_digits parsed (ch ∷ rest) =
    if is_digit ch then parse_digits (parsed * 10 + (ch - 48)) rest else none

abbrev pub parse_whole : Text → Option ℕ
parse_whole [] = none
parse_whole (ch ∷ rest) = parse_digits 0 (ch ∷ rest)

-- The digits behind the point, three at most, with zeros for those that are missing.
unfoldable pub fraction_digits : ℕ → ℕ → Text → ℕ
fraction_digits zero fraction text = fraction
fraction_digits (suc missing) fraction [] = fraction_digits missing (fraction * 10) []
fraction_digits (suc missing) fraction (ch ∷ rest) =
    if is_digit ch
    then fraction_digits missing (fraction * 10 + (ch - 48)) rest
    else fraction_digits missing (fraction * 10) []

abbrev pub fraction_of : Option Text → ℕ
fraction_of none = 0
fraction_of (some fraction) = fraction_digits 3 0 fraction

infixl 5 ◌>>=◌
abbrev pub ◌>>=◌ {ℓ κ} : {A : Type ℓ} {B : Type κ} → Option A → (A → Option B) → Option B
none >>= f = none
some a >>= f = f a

unfoldable pub seconds_of : Text → Option ℕ
seconds_of text = do
  seconds ← parse_whole (before 46 text)
  some (seconds * 1000 + fraction_of (behind 46 text))

-- One, two or three parts: the seconds, the minutes before them and the hours before those.
unfoldable pub position_of : List Text → Option ℕ
position_of (s ∷ []) = seconds_of s
position_of (m ∷ s ∷ []) = do
  seconds ← seconds_of s
  minutes ← parse_whole m
  some (seconds + minutes * 60 * 1000)
position_of (h ∷ m ∷ s ∷ []) = do
  seconds ← seconds_of s
  minutes ← parse_whole m
  hours ← parse_whole h
  some (seconds + minutes * 60 * 1000 + hours * 60 * 60 * 1000)
position_of _ = none

abbrev pub parts_of : Text → Option ℕ
parts_of [] = none
parts_of (ch ∷ rest) = position_of (split 58 (ch ∷ rest))

unfoldable pub parse_timecode : Text → Option ℕ
parse_timecode text = parts_of (trim_json text)

-- `std::setw` and `std::setfill('0')`.
abbrev pub padded : ℕ → ℕ → Text
padded width n = replicate (width - length (decimal n n)) 48 ++ decimal n n

unfoldable pub format_total : ℕ → Text
format_total total =
    padded 2 (total / 3600000)
    ++ 58
      ∷ (padded 2 (total % 3600000 / 60000)
          ++ 58
            ∷ (padded 2 (total % 3600000 % 60000 / 1000)
                ++ 46 ∷ padded 3 (total % 3600000 % 60000 % 1000)))

unfoldable pub format_timecode : ℤ → Text
format_timecode (pos total) = format_total total
format_timecode (negsuc n) = format_total 0
