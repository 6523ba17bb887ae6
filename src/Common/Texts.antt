-- ===== src/Common/Texts.antt =====
-- Lists of bytes and characters: their equality test, and the search for a character.
use wh_repeater.Common.Tests.{ltb, ◌==◌, ==_iff, ==_refl, &&-true, if◌then◌else◌}
use Prim.Native.Char.{code}
use Prim.Native.String.{String}
use Prim.Native.Nat.{ℕ, zero, suc, ◌+◌, ◌/◌, ◌%◌}
use mathlib.Core.Path.{◌≡◌, refl, ap, ◌∙◌}
use mathlib.Core.Bool.{Bool, true, false, ◌&&◌}
use mathlib.Core.Option.{Option, none, some}
use mathlib.Core.List.{List, [], ◌∷◌, ◌++◌}

-- The bytes of an ASCII text.
abbrev pub text : String → List ℕ
text String.[] = []
text (String.◌∷◌ c s) = code c ∷ text s

-- A number in decimal digits, as a stream and `std::to_string` print it; the fuel is the number itself.
unfoldable pub decimal : ℕ → ℕ → List ℕ
decimal zero n = (48 + n % 10) ∷ []
decimal (suc fuel) n =
    let rest : List ℕ = decimal fuel (n / 10) in
    if ltb n 10 then (48 + n) ∷ [] else rest ++ (48 + n % 10) ∷ []

abbrev pub text_eq : List ℕ → List ℕ → Bool
text_eq [] [] = true
text_eq (x ∷ xs) (y ∷ ys) = x == y && text_eq xs ys
text_eq _ _ = false

pub text_eq_refl : (t : List ℕ) → text_eq t t ≡ true
text_eq_refl [] = refl
text_eq_refl (x ∷ xs) = rw (==_refl x) (text_eq_refl xs)

pub text_eq→eq : (s t : List ℕ) → text_eq s t ≡ true → s ≡ t
text_eq→eq [] [] e = refl
text_eq→eq [] (y ∷ ys) e = absurd (cc)
text_eq→eq (x ∷ xs) [] e = absurd (cc)
text_eq→eq (x ∷ xs) (y ∷ ys) e =
    let (a, b) = &&-true (x == y) (text_eq xs ys) e in
    ap (λ z. z ∷ xs) ((==_iff x y).0 a) ∙ ap (◌∷◌ y) (text_eq→eq xs ys b)

-- What stands before the first of a character, all of it if there is none, and what stands behind it.
abbrev pub before : ℕ → List ℕ → List ℕ
before c [] = []
before c (x ∷ xs) = if x == c then [] else x ∷ before c xs

abbrev pub behind : ℕ → List ℕ → Option (List ℕ)
behind c [] = none
behind c (x ∷ xs) = if x == c then some xs else behind c xs

abbrev pub put_first : ℕ → List (List ℕ) → List (List ℕ)
put_first x [] = (x ∷ []) ∷ []
put_first x (part ∷ parts) = (x ∷ part) ∷ parts

-- The parts between the separators, the empty ones too.
abbrev pub split : ℕ → List ℕ → List (List ℕ)
split c [] = [] ∷ []
split c (x ∷ xs) = if x == c then [] ∷ split c xs else put_first x (split c xs)

-- It does not occur.
abbrev pub Lacks : ℕ → List ℕ → Type 0
Lacks c [] = Unit
Lacks c (x ∷ xs) = ((x == c) ≡ false) × Lacks c xs

pub Lacks-append : (c : ℕ) (xs ys : List ℕ) → Lacks c xs → Lacks c ys → Lacks c (xs ++ ys)
Lacks-append c [] ys h k = k
Lacks-append c (x ∷ xs) ys h k = (h.0, Lacks-append c xs ys h.1 k)

pub before-append : (c : ℕ) (xs ys : List ℕ) → Lacks c xs → before c (xs ++ c ∷ ys) ≡ xs
before-append c [] ys h = rw (==_refl c) refl
before-append c (x ∷ xs) ys h = rw h.0 (ap (◌∷◌ x) (before-append c xs ys h.1))

pub behind-append : (c : ℕ) (xs ys : List ℕ) → Lacks c xs → behind c (xs ++ c ∷ ys) ≡ some ys
behind-append c [] ys h = rw (==_refl c) refl
behind-append c (x ∷ xs) ys h = rw h.0 (behind-append c xs ys h.1)

pub before-Lacks : (c : ℕ) (xs : List ℕ) → Lacks c xs → before c xs ≡ xs
before-Lacks c [] h = refl
before-Lacks c (x ∷ xs) h = rw h.0 (ap (◌∷◌ x) (before-Lacks c xs h.1))

pub behind-Lacks : (c : ℕ) (xs : List ℕ) → Lacks c xs → behind c xs ≡ none
behind-Lacks c [] h = refl
behind-Lacks c (x ∷ xs) h = rw h.0 (behind-Lacks c xs h.1)

pub split-Lacks : (c : ℕ) (xs : List ℕ) → Lacks c xs → split c xs ≡ xs ∷ []
split-Lacks c [] h = refl
split-Lacks c (x ∷ xs) h = rw h.0 (ap (put_first x) (split-Lacks c xs h.1))

pub split-append : (c : ℕ) (xs ys : List ℕ) → Lacks c xs → split c (xs ++ c ∷ ys) ≡ xs ∷ split c ys
split-append c [] ys h = rw (==_refl c) refl
split-append c (x ∷ xs) ys h = rw h.0 (ap (put_first x) (split-append c xs ys h.1))
