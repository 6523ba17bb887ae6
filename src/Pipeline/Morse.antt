-- ===== src/Pipeline/Morse.antt =====
-- The Morse keying of src/media_pipeline.cpp. A code is its symbols, `true` for a dash, and a keying is
-- its units, `true` for the tone.
pub mod Alphabet
pub mod Timing
use wh_repeater.Common.{
  ℕ, ◌+◌, ◌-◌, Bool, true, false, not, ◌&&◌, ◌||◌, List, [], ◌∷◌, ◌++◌, length, replicate, leb,
  ◌==◌, if◌then◌else◌,
}
use wh_repeater.Domain.{Text}

-- The characters with their codes, by the alphabet.
abbrev pub morse_table : List (ℕ × List Bool)
morse_table =
    (65, false ∷ true ∷ [])
    ∷ (66, true ∷ false ∷ false ∷ false ∷ [])
    ∷ (67, true ∷ false ∷ true ∷ false ∷ [])
    ∷ (68, true ∷ false ∷ false ∷ [])
    ∷ (69, false ∷ [])
    ∷ (70, false ∷ false ∷ true ∷ false ∷ [])
    ∷ (71, true ∷ true ∷ false ∷ [])
    ∷ (72, false ∷ false ∷ false ∷ false ∷ [])
    ∷ (73, false ∷ false ∷ [])
    ∷ (74, false ∷ true ∷ true ∷ true ∷ [])
    ∷ (75, true ∷ false ∷ true ∷ [])
    ∷ (76, false ∷ true ∷ false ∷ false ∷ [])
    ∷ (77, true ∷ true ∷ [])
    ∷ (78, true ∷ false ∷ [])
    ∷ (79, true ∷ true ∷ true ∷ [])
    ∷ (80, false ∷ true ∷ true ∷ false ∷ [])
    ∷ (81, true ∷ true ∷ false ∷ true ∷ [])
    ∷ (82, false ∷ true ∷ false ∷ [])
    ∷ (83, false ∷ false ∷ false ∷ [])
    ∷ (84, true ∷ [])
    ∷ (85, false ∷ false ∷ true ∷ [])
    ∷ (86, false ∷ false ∷ false ∷ true ∷ [])
    ∷ (87, false ∷ true ∷ true ∷ [])
    ∷ (88, true ∷ false ∷ false ∷ true ∷ [])
    ∷ (89, true ∷ false ∷ true ∷ true ∷ [])
    ∷ (90, true ∷ true ∷ false ∷ false ∷ [])
    ∷ (48, true ∷ true ∷ true ∷ true ∷ true ∷ [])
    ∷ (49, false ∷ true ∷ true ∷ true ∷ true ∷ [])
    ∷ (50, false ∷ false ∷ true ∷ true ∷ true ∷ [])
    ∷ (51, false ∷ false ∷ false ∷ true ∷ true ∷ [])
    ∷ (52, false ∷ false ∷ false ∷ false ∷ true ∷ [])
    ∷ (53, false ∷ false ∷ false ∷ false ∷ false ∷ [])
    ∷ (54, true ∷ false ∷ false ∷ false ∷ false ∷ [])
    ∷ (55, true ∷ true ∷ false ∷ false ∷ false ∷ [])
    ∷ (56, true ∷ true ∷ true ∷ false ∷ false ∷ [])
    ∷ (57, true ∷ true ∷ true ∷ true ∷ false ∷ [])
    ∷ (47, true ∷ false ∷ false ∷ true ∷ false ∷ [])
    ∷ []

-- `std::toupper`, in the C locale.
abbrev pub to_upper : ℕ → ℕ
to_upper ch = if leb 97 ch && leb ch 122 then ch - 32 else ch

abbrev pub code_in : ℕ → List (ℕ × List Bool) → List Bool
code_in ch [] = []
code_in ch ((c, code) ∷ rest) = if c == ch then code else code_in ch rest

unfoldable pub morse_for : ℕ → List Bool
morse_for ch = code_in (to_upper ch) morse_table

abbrev pub is_space : ℕ → Bool
is_space ch = ch == 32 || leb 9 ch && leb ch 13

-- The loop over a code's symbols.
unfoldable pub code_units : List Bool → List Bool
code_units [] = []
code_units (symbol ∷ []) = replicate (if symbol then 3 else 1) true
code_units (symbol ∷ next ∷ rest) =
    replicate (if symbol then 3 else 1) true ++ false ∷ code_units (next ∷ rest)

-- The gap before a character that is not the first.
abbrev pub gap : Bool → List Bool → List Bool
gap true units = units ++ replicate 3 false
gap false units = units

-- A space adds to a gap, but for one before all characters.
abbrev pub add_space : List Bool → List Bool
add_space [] = []
add_space (unit ∷ units) = (unit ∷ units) ++ replicate 4 false

-- The loop over the text, with the units so far and whether a character has been keyed.
unfoldable pub tone_loop : List Bool → Bool → Text → List Bool
tone_loop units had_symbol [] = units
tone_loop units had_symbol (ch ∷ text) =
    let spaced = tone_loop (add_space units) had_symbol text in
    let passed = tone_loop units had_symbol text in
    let keyed = tone_loop (gap had_symbol units ++ code_units (morse_for ch)) true text in
    if is_space ch then spaced else if length (morse_for ch) == 0 then passed else keyed

unfoldable pub morse_tone_units : Text → List Bool
morse_tone_units text = tone_loop [] false text ++ replicate 7 false
