-- ===== src/Config/Json/Strings.antt =====
-- The strings that src/config.cpp writes, and what its JSON parser reads in them.
use wh_repeater.Common.{
  ℕ, ◌+◌, ◌/◌, ◌%◌, ◌<◌, Bool, true, false, ◌&&◌, ◌||◌, Option, none, some, [], ◌∷◌, ◌++◌, length,
  ltb, leb, ◌==◌, if◌then◌else◌, ◌≡◌, refl, ap, sym, ◌∙◌, arith, Bool-cases, Option-cases, inl, inr,
  append_assoc, append-nil,
}
use wh_repeater.Domain.{Text}
use wh_repeater.Config.Json.{
  failed, parsed, unsupported_escape, expect, skip_space, escape_of, escaped, string_rounds,
  parse_string,
}

-- The letter of a two-character escape.
unfoldable pub short_escape : ℕ → Option ℕ
short_escape ch =
    if ch == 34
    then some 34
    else if ch == 92
    then some 92
    else if ch == 8
    then some 98
    else if ch == 12
    then some 102
    else if ch == 10
    then some 110
    else if ch == 13
    then some 114
    else if ch == 9
    then some 116
    else none

abbrev pub hex_char : ℕ → ℕ
hex_char d = if ltb d 10 then 48 + d else 87 + d

-- What the default of the switch writes.
abbrev pub write_other : Bool → ℕ → Text
write_other true ch = 92 ∷ 117 ∷ 48 ∷ 48 ∷ hex_char (ch / 16 % 16) ∷ hex_char (ch % 16) ∷ []
write_other false ch = ch ∷ []

abbrev pub write_escape : Option ℕ → ℕ → Text
write_escape (some letter) ch = 92 ∷ letter ∷ []
write_escape none ch = write_other (ltb ch 32) ch

unfoldable pub write_rounds : Text → Text
write_rounds [] = []
write_rounds (ch ∷ rest) = write_escape (short_escape ch) ch ++ write_rounds rest

unfoldable pub json_string : Text → Text
json_string value = 34 ∷ (write_rounds value ++ 34 ∷ [])

-- The characters that are written as the parser reads them: all but the control characters with no
-- short escape.
abbrev pub is_readable : ℕ → Bool
is_readable ch = leb 32 ch || ch == 8 || ch == 9 || ch == 10 || ch == 12 || ch == 13

abbrev pub all_readable : Text → Bool
all_readable [] = true
all_readable (ch ∷ rest) = is_readable ch && all_readable rest

escape_of-short_escape :
    (ch letter : ℕ) → short_escape ch ≡ some letter → escape_of letter ≡ some ch
unfolding short_escape escape_of
escape_of-short_escape ch letter h = ground arith

short_escape-readable : (ch letter : ℕ) → short_escape ch ≡ some letter → is_readable ch ≡ true
unfolding short_escape
short_escape-readable ch letter h = ground arith

-- A character with no short escape is readable when it is written as it is, and is then neither a quote
-- nor a backslash.
no_escape-readable :
    (ch : ℕ)
    → short_escape ch ≡ none
    → ltb ch 32 ≡ false
    → (is_readable ch ≡ true) × (((ch == 34) ≡ false) × ((ch == 92) ≡ false))
unfolding short_escape
no_escape-readable ch h k = (ground arith, (ground arith, ground arith))

no_escape-unreadable : (ch : ℕ) → short_escape ch ≡ none → ltb ch 32 ≡ true → is_readable ch ≡ false
unfolding short_escape
no_escape-unreadable ch h k = ground arith

rounds_escape :
    (value : Text) (letter : ℕ) (more : Text)
    → string_rounds value (92 ∷ letter ∷ more)
      ≡ escaped (escape_of letter) (λ c. string_rounds (value ++ c ∷ []) more)
unfolding string_rounds
rounds_escape value letter more = refl

rounds_plain :
    (value : Text) (ch : ℕ) (more : Text)
    → 0 < length more
    → (ch == 34) ≡ false
    → (ch == 92) ≡ false
    → string_rounds value (ch ∷ more) ≡ string_rounds (value ++ ch ∷ []) more
unfolding string_rounds
rounds_plain value ch [] l h k = ground arith
rounds_plain value ch (m ∷ ms) l h k = rw h (rw k refl)

escape_of_u : escape_of 117 ≡ none
unfolding escape_of
escape_of_u = refl

-- One character, as it is written, with the rest of the string.
string_rounds-write_escape :
    (value : Text) (ch : ℕ) (more : Text)
    → 0 < length more
    → string_rounds value (write_escape (short_escape ch) ch ++ more) ≡ (
        if is_readable ch then string_rounds (value ++ ch ∷ []) more else failed unsupported_escape)
string_rounds-write_escape value ch more l = elim (Option-cases (short_escape ch)) [
  | inr (letter, e) ↦ rw e (
      rw (short_escape-readable ch letter e) (
        rounds_escape value letter more
        ∙ ap (λ o. escaped o (λ c. string_rounds (value ++ c ∷ []) more))
            (escape_of-short_escape ch letter e)))
  | inl e ↦ rw e (elim (Bool-cases (ltb ch 32)) [
    | inl k ↦ rw k (
        rw (no_escape-unreadable ch e k) (
          rounds_escape value 117 (48 ∷ 48 ∷ hex_char (ch / 16 % 16) ∷ hex_char (ch % 16) ∷ more)
          ∙ ap
              (λ o. escaped o (λ c.
                string_rounds (value ++ c ∷ [])
                  (48 ∷ 48 ∷ hex_char (ch / 16 % 16) ∷ hex_char (ch % 16) ∷ more)))
              escape_of_u))
    | inr k ↦
        let (r, (q, b)) = no_escape-readable ch e k in
        rw k (rw r (rounds_plain value ch more l q b))
  ])
]

length-closed : (value rest : Text) → 0 < length (value ++ 34 ∷ rest)
length-closed [] rest = omega arith
length-closed (ch ∷ value) rest = omega arith

rounds_quote : (value rest : Text) → string_rounds value (34 ∷ rest) ≡ parsed value rest
unfolding string_rounds
rounds_quote value [] = refl
rounds_quote value (ch ∷ rest) = refl

if_and :
    {A : Type 0} (a b : Bool) (x y : A)
    → (if a then if b then x else y else y) ≡ (if a && b then x else y)
if_and true b x y = refl
if_and false b x y = refl

string_rounds-write_rounds :
    (before value rest : Text)
    → string_rounds before (write_rounds value ++ 34 ∷ rest)
      ≡ (if all_readable value then parsed (before ++ value) rest else failed unsupported_escape)
unfolding write_rounds
string_rounds-write_rounds before [] rest =
    rounds_quote before rest ∙ ap (λ v. parsed v rest) (sym (append-nil before))
string_rounds-write_rounds before (ch ∷ value) rest =
    ap (string_rounds before)
      (append_assoc (write_escape (short_escape ch) ch) (write_rounds value) (34 ∷ rest))
    ∙ string_rounds-write_escape before ch (write_rounds value ++ 34 ∷ rest)
        (length-closed (write_rounds value) rest)
    ∙ ap (λ r. if is_readable ch then r else failed unsupported_escape)
        (string_rounds-write_rounds (before ++ ch ∷ []) value rest
          ∙ ap (λ v. if all_readable value then parsed v rest else failed unsupported_escape)
              (append_assoc before (ch ∷ []) value))
    ∙ if_and (is_readable ch) (all_readable value) (parsed (before ++ ch ∷ value) rest)
        (failed unsupported_escape)

-- What `parseString` makes of a string that `jsonString` has written, with more text behind it: the string itself, with that text left, as long as no control character but \b, \t, \n, \f and \r is in it. With another control character it throws, as the parser does not know the \u00XX that `jsonString` writes for it.
pub parse_string-json_string :
    (value rest : Text)
    → parse_string (json_string value ++ rest)
      ≡ (if all_readable value then parsed value rest else failed unsupported_escape)
unfolding parse_string json_string expect skip_space
parse_string-json_string value rest =
    ap (string_rounds []) (append_assoc (write_rounds value) (34 ∷ []) rest)
    ∙ string_rounds-write_rounds [] value rest
