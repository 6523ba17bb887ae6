-- ===== src/Config/Json/Ends.antt =====
-- The tokens of the JSON parser of src/config.cpp: each takes something of its text or fails.
use wh_repeater.Common.{
  ℕ, ◌+◌, ◌<◌, ◌≤◌, Bool, true, false, ◌||◌, Option, none, some, [], ◌∷◌, ◌++◌, length,
  length-append, ◌==◌, if◌then◌else◌, text_eq, ◌≡◌, refl, arith, Bool-cases, inl, inr,
}
use wh_repeater.Domain.{Text}
use wh_repeater.Config.Json.{
  Result, out_of_fuel, failed, parsed, ◌>>=◌, is_space, is_digit, skip_space, peek, expected,
  expect, consume_literal, escape_of, escaped, string_rounds, parse_string, digits, optional,
  fraction, number_of, parse_number,
}

-- A result, and what it leaves is shorter than a bound: an error, or a value.
abbrev pub Shortens : {A : Type 0} → ℕ → Result A → Type 0
Shortens n out_of_fuel = ⊥
Shortens n (failed e) = Unit
Shortens n (parsed a rest) = length rest < n

pub Shortens-le : {A : Type 0} (m n : ℕ) (r : Result A) → m ≤ n → Shortens m r → Shortens n r
Shortens-le m n out_of_fuel l h = h
Shortens-le m n (failed e) l h = tt
Shortens-le m n (parsed a rest) l h = omega arith

pub bind-Shortens :
    {A B : Type 0} (m n : ℕ) (r : Result A) (f : A → Text → Result B)
    → Shortens m r
    → ((a : A) (rest : Text) → length rest < m → Shortens n (f a rest))
    → Shortens n (r >>= f)
bind-Shortens m n out_of_fuel f h k = h
bind-Shortens m n (failed e) f h k = tt
bind-Shortens m n (parsed a rest) f h k = k a rest h

pub if-Shortens :
    {A : Type 0} (n : ℕ) (b : Bool) (x y : Result A)
    → (b ≡ true → Shortens n x)
    → (b ≡ false → Shortens n y)
    → Shortens n (if b then x else y)
if-Shortens n true x y h k = h refl
if-Shortens n false x y h k = k refl

pub length-skip_space : (text : Text) → length (skip_space text) ≤ length text
unfolding skip_space
length-skip_space [] = omega arith
length-skip_space (ch ∷ rest) = elim (Bool-cases (is_space ch)) [
  | inl e ↦ rw e (let l = length-skip_space rest in omega arith)
  | inr e ↦ rw e (omega arith)
]

pub peek-length : (ch : ℕ) (text rest : Text) → peek ch text ≡ some rest → length rest < length text
peek-length ch [] rest h = ground arith
peek-length ch (x ∷ text) rest h = ground arith

pub expected-Shortens :
    (n : ℕ) (o : Option Text)
    → ((rest : Text) → o ≡ some rest → length rest < n)
    → Shortens n (expected o)
expected-Shortens n none h = tt
expected-Shortens n (some rest) h = h rest refl

pub expect-Shortens : (ch : ℕ) (text : Text) → Shortens (length text) (expect ch text)
unfolding expect
expect-Shortens ch text = expected-Shortens (length text) (peek ch (skip_space text)) (λ rest e.
    let l = length-skip_space text in
    let k = peek-length ch (skip_space text) rest e in omega arith)

pub consume_literal-Shortens :
    {A : Type 0} (n : ℕ) (value : A) (literal text : Text)
    → length text < n
    → Shortens n (consume_literal value literal text)
unfolding consume_literal
consume_literal-Shortens n value [] text h = h
consume_literal-Shortens n value (ch ∷ literal) [] h = tt
consume_literal-Shortens n value (ch ∷ literal) (x ∷ text) h =
    if-Shortens n (x == ch) _ _ (λ _. consume_literal-Shortens n value literal text (omega arith))
      (λ _. tt)

-- A literal of a character at least.
pub literal-Shortens :
    {A : Type 0} (value : A) (ch : ℕ) (literal : Text) (x : ℕ) (text : Text)
    → Shortens (length (x ∷ text)) (consume_literal value (ch ∷ literal) (x ∷ text))
unfolding consume_literal
literal-Shortens value ch literal x text =
    if-Shortens (length (x ∷ text)) (x == ch) _ _
      (λ _. consume_literal-Shortens (length (x ∷ text)) value literal text (omega arith)) (λ _. tt)

pub escaped-Shortens :
    (n : ℕ) (o : Option ℕ) (more : ℕ → Result Text)
    → ((c : ℕ) → Shortens n (more c))
    → Shortens n (escaped o more)
escaped-Shortens n none more h = tt
escaped-Shortens n (some c) more h = h c

pub string_rounds-Shortens : (value text : Text) → Shortens (length text) (string_rounds value text)
unfolding string_rounds
string_rounds-Shortens value [] = tt
string_rounds-Shortens value (ch ∷ []) =
    if-Shortens 1 (ch == 34) _ _ (λ _. omega arith)
      (λ _. if-Shortens 1 (ch == 92) _ _ (λ _. tt) (λ _. tt))
string_rounds-Shortens value (ch ∷ next ∷ rest) =
    let n = length (ch ∷ next ∷ rest) in
    if-Shortens n (ch == 34) _ _ (λ _. omega arith)
      (λ _.
        if-Shortens n (ch == 92) _ _
          (λ _. escaped-Shortens n (escape_of next) _ (λ c.
            Shortens-le (length rest) n (string_rounds (value ++ c ∷ []) rest) (omega arith)
              (string_rounds-Shortens (value ++ c ∷ []) rest)))
          (λ _.
            Shortens-le (length (next ∷ rest)) n (string_rounds (value ++ ch ∷ []) (next ∷ rest))
              (omega arith) (string_rounds-Shortens (value ++ ch ∷ []) (next ∷ rest))))

pub parse_string-Shortens : (text : Text) → Shortens (length text) (parse_string text)
unfolding parse_string
parse_string-Shortens text =
    bind-Shortens (length text) (length text) (expect 34 text) _ (expect-Shortens 34 text)
      (λ _ rest h.
        Shortens-le (length rest) (length text) (string_rounds [] rest) (omega arith)
          (string_rounds-Shortens [] rest))

-- What is read of a number and what is left are the text.
length-digits : (text : Text) → length (digits text).0 + length (digits text).1 ≡ length text
unfolding digits
length-digits [] = omega arith
length-digits (ch ∷ rest) = elim (Bool-cases (is_digit ch)) [
  | inl e ↦ rw e (let l = length-digits rest in omega arith)
  | inr e ↦ rw e (omega arith)
]

length-optional :
    (ch : ℕ) (text : Text) → length (optional ch text).0 + length (optional ch text).1 ≡ length text
length-optional ch [] = omega arith
length-optional ch (x ∷ rest) = elim (Bool-cases (x == ch)) [
  | inl e ↦ rw e (omega arith)
  | inr e ↦ rw e (omega arith)
]

length-fraction : (text : Text) → length (fraction text).0 + length (fraction text).1 ≡ length text
length-fraction [] = omega arith
length-fraction (x ∷ rest) = elim (Bool-cases (x == 46)) [
  | inl e ↦ rw e (let l = length-digits rest in omega arith)
  | inr e ↦ rw e (omega arith)
]

pub number_of-Shortens :
    {D : Type 0} (n : ℕ) (o : Option D) (rest : Text)
    → length rest < n
    → Shortens n (number_of o rest)
number_of-Shortens n none rest h = tt
number_of-Shortens n (some d) rest h = h

text_eq-nil : (text : Text) → text_eq text [] ≡ false → 0 < length text
text_eq-nil [] h = ground arith
text_eq-nil (x ∷ text) h = omega arith

pub parse_number-Shortens :
    {D : Type 0} (stod : Text → Option D) (text : Text)
    → Shortens (length text) (parse_number stod text)
unfolding parse_number
parse_number-Shortens stod text =
    let sign = optional 45 text in
    let whole = digits sign.1 in
    let part = fraction whole.1 in
    let read = sign.0 ++ whole.0 ++ part.0 in
    if-Shortens (length text) (text_eq read [] || text_eq read (45 ∷ [])) _ _ (λ _. tt)
      (λ e.
        let l = text_eq-nil read (ground arith) in
        let a = length-optional 45 text in
        let b = length-digits sign.1 in
        let c = length-fraction whole.1 in
        let d = length-append (sign.0 ++ whole.0) part.0 in
        let g = length-append sign.0 whole.0 in
        number_of-Shortens (length text) (stod read) part.1 (omega arith))
