-- ===== src/Pipeline/Morse/Alphabet.antt =====
-- The Morse alphabet by its tree, against the codes of src/media_pipeline.cpp.
use wh_repeater.Common.{
  ℕ, zero, suc, ◌+◌, ◌-◌, ◌/◌, ◌%◌, Bool, true, false, ◌||◌, ◌&&◌, not, Option, none, some, List,
  [], ◌∷◌, ◌++◌, length, ◌==◌, if◌then◌else◌, ◌≡◌, refl, ap, ◌∙◌, inl, inr, subst, sym, arith, text,
  Bool-cases, ==_iff,
}
use wh_repeater.Domain.{Text}
use wh_repeater.Pipeline.Morse.{morse_table, to_upper, code_in, morse_for, is_space}

-- The tree, level by level from its root: a dot goes from a character to the left below it and a dash to
-- the right. A blank has no character.
abbrev pub tree : Text
tree =
    text " "
    ++ text "ET"
    ++ text "IANM"
    ++ text "SURWDKGO"
    ++ text "HVF L PJBXCYZQ  "
    ++ text "54 3   2       16 /     7   8 90"

abbrev index_of : ℕ → ℕ → Text → Option ℕ
index_of ch n [] = none
index_of ch n (c ∷ cs) = if c == ch then some n else index_of ch (n + 1) cs

-- The way from the root to a place: below place n are the places 2 n + 1 and 2 n + 2. A way has five
-- steps at most.
abbrev way : ℕ → ℕ → List Bool → List Bool
way zero place below = below
way (suc steps) place below =
    let longer = way steps ((place - 1) / 2) ((place % 2 == 0) ∷ below) in
    if place == 0 then below else longer

abbrev way_to : Option ℕ → List Bool
way_to none = []
way_to (some place) = way 5 place []

-- The symbols of a character, `true` for a dash.
abbrev pub code_of : ℕ → List Bool
code_of ch = way_to (index_of (to_upper ch) 0 tree)

abbrev pub stands_in : ℕ → Text → Bool
stands_in ch [] = false
stands_in ch (c ∷ cs) = c == ch || stands_in ch cs

-- A character of the tree.
abbrev pub IsKeyed : ℕ → Type 0
IsKeyed ch = ((to_upper ch == 32) ≡ false) × (stands_in (to_upper ch) tree ≡ true)

-- The table's code of a character against the way to it.
abbrev same_code : List Bool → List Bool → Bool
same_code [] [] = true
same_code (true ∷ a) (true ∷ b) = same_code a b
same_code (false ∷ a) (false ∷ b) = same_code a b
same_code _ _ = false

same_code-eq : (a b : List Bool) → same_code a b ≡ true → a ≡ b
same_code-eq [] [] e = refl
same_code-eq [] (y ∷ b) e = absurd (cc)
same_code-eq (true ∷ a) [] e = absurd (cc)
same_code-eq (false ∷ a) [] e = absurd (cc)
same_code-eq (true ∷ a) (true ∷ b) e = ap (◌∷◌ true) (same_code-eq a b e)
same_code-eq (false ∷ a) (false ∷ b) e = ap (◌∷◌ false) (same_code-eq a b e)
same_code-eq (true ∷ a) (false ∷ b) e = absurd (cc)
same_code-eq (false ∷ a) (true ∷ b) e = absurd (cc)

abbrev is_right : ℕ → Bool
is_right c =
    c == 32
    || not (is_space c)
      && not (length (code_in c morse_table) == 0)
      && same_code (code_in c morse_table) (way_to (index_of c 0 tree))

abbrev all_right : Text → Bool
all_right [] = true
all_right (c ∷ cs) = is_right c && all_right cs

tree_right : all_right tree ≡ true
tree_right = refl

stands_in-right :
    (ch : ℕ) (cs : Text) → all_right cs ≡ true → stands_in ch cs ≡ true → is_right ch ≡ true
stands_in-right ch [] all e = absurd (cc)
stands_in-right ch (c ∷ cs) all e =
    let (right, rest) = both (is_right c) (all_right cs) all in
    elim (Bool-cases (c == ch)) [
      | inl h ↦ subst (λ x. is_right x ≡ true) ((==_iff c ch).0 h) right
      | inr h ↦ stands_in-right ch cs rest (ground arith)
    ]
  where
    both : (a b : Bool) → a && b ≡ true → (a ≡ true) × (b ≡ true)
    both true b e = (refl, e)
    both false b e = absurd (cc)

-- The parts of a test of a character that is no blank.
right_parts :
    (blank space empty equal : Bool)
    → blank ≡ false
    → (blank || not space && not empty && equal) ≡ true
    → (space ≡ false) × (empty ≡ false) × (equal ≡ true)
right_parts true space empty equal b e = absurd (cc)
right_parts false true empty equal b e = absurd (cc)
right_parts false false true equal b e = absurd (cc)
right_parts false false false equal b e = (refl, refl, e)

is_space-to_upper : (ch : ℕ) → is_space (to_upper ch) ≡ is_space ch
is_space-to_upper ch = ground arith

pub IsKeyed-morse_for :
    (ch : ℕ)
    → IsKeyed ch
    → (is_space ch ≡ false) × ((length (morse_for ch) == 0) ≡ false) × (morse_for ch ≡ code_of ch)
unfolding morse_for
IsKeyed-morse_for ch k =
    let c = to_upper ch in
    let (space, some_code, equal) =
      right_parts (c == 32) (is_space c) (length (code_in c morse_table) == 0)
        (same_code (code_in c morse_table) (way_to (index_of c 0 tree))) k.0
        (stands_in-right c tree tree_right k.1) in
    (
      sym (is_space-to_upper ch) ∙ space,
      some_code,
      same_code-eq (code_in c morse_table) (way_to (index_of c 0 tree)) equal,
    )
