-- ===== src/Web/Timecode/Digits.antt =====
-- Numbers in the time codes of src/api_server.cpp: what is printed is read again.
use wh_repeater.Common.{
  decimal, lt→ltb, ℕ, zero, suc, ◌+◌, ◌-◌, ◌*◌, ◌/◌, ◌%◌, ◌<◌, ◌≤◌, Bool, true, false, Option, none,
  some, [], ◌∷◌, Bool-cases, inl, inr, ◌++◌, ltb, if◌then◌else◌, ◌≡◌, refl, ap, ◌∙◌, arith, Lacks,
  length, length-append, length-replicate, replicate, All,
}
use wh_repeater.Domain.{Text}
use wh_repeater.Web.Timecode.{is_digit, parse_digits, parse_whole, fraction_digits, ◌>>=◌, padded}

pub if_bind :
    {A B : Type 0} (b : Bool) (o : Option A) (f : A → Option B)
    → (if b then (o >>= f) else none) ≡ ((if b then o else none) >>= f)
if_bind true o f = refl
if_bind false o f = refl

pub parse_digits-append :
    (acc : ℕ) (xs ys : Text)
    → parse_digits acc (xs ++ ys) ≡ (parse_digits acc xs >>= (λ v. parse_digits v ys))
unfolding parse_digits
parse_digits-append acc [] ys = refl
parse_digits-append acc (x ∷ xs) ys =
    ap (λ o. if is_digit x then o else none) (parse_digits-append (acc * 10 + (x - 48)) xs ys)
    ∙ if_bind (is_digit x) (parse_digits (acc * 10 + (x - 48)) xs) (λ v. parse_digits v ys)

pub parse_digits-zeros :
    (k : ℕ) (xs : Text) → parse_digits 0 (replicate k 48 ++ xs) ≡ parse_digits 0 xs
unfolding parse_digits
parse_digits-zeros zero xs = refl
parse_digits-zeros (suc k) xs = parse_digits-zeros k xs

pub parse_digits_one : (acc d : ℕ) → d < 10 → parse_digits acc ((48 + d) ∷ []) ≡ some (acc * 10 + d)
unfolding parse_digits
parse_digits_one acc d h = ground arith

-- With fuel enough for its division by ten, a number's digits are its own.
pub parse_digits-decimal : (fuel n : ℕ) → n ≤ fuel → parse_digits 0 (decimal fuel n) ≡ some n
unfolding decimal
parse_digits-decimal zero n h = parse_digits_one 0 (n % 10) (omega arith) ∙ ap some (omega arith)
parse_digits-decimal (suc fuel) n h = elim (Bool-cases (ltb n 10)) [
  | inl e ↦ rw e (parse_digits_one 0 n (ground arith) ∙ ap some (omega arith))
  | inr e ↦ rw e (
      parse_digits-append 0 (decimal fuel (n / 10)) ((48 + n % 10) ∷ [])
      ∙ ap (λ o. o >>= (λ v. parse_digits v ((48 + n % 10) ∷ [])))
          (parse_digits-decimal fuel (n / 10) (ground arith))
      ∙ parse_digits_one (n / 10) (n % 10) (omega arith)
      ∙ ap some (omega arith))
]

abbrev pub IsDigits : Text → Type 0
IsDigits text = All (λ ch. is_digit ch ≡ true) text

pub append-IsDigits : (xs ys : Text) → IsDigits xs → IsDigits ys → IsDigits (xs ++ ys)
append-IsDigits [] ys h k = k
append-IsDigits (x ∷ xs) ys h k = (h.0, append-IsDigits xs ys h.1 k)

pub zeros-IsDigits : (k : ℕ) → IsDigits (replicate k 48)
zeros-IsDigits zero = tt
zeros-IsDigits (suc k) = (refl, zeros-IsDigits k)

pub decimal-IsDigits : (fuel n : ℕ) → IsDigits (decimal fuel n)
unfolding decimal
decimal-IsDigits zero n = (ground arith, tt)
decimal-IsDigits (suc fuel) n = elim (Bool-cases (ltb n 10)) [
  | inl e ↦ rw e (ground arith, tt)
  | inr e ↦ rw e (
      append-IsDigits (decimal fuel (n / 10)) ((48 + n % 10) ∷ []) (decimal-IsDigits fuel (n / 10))
        (ground arith, tt))
]

pub padded-IsDigits : (width n : ℕ) → IsDigits (padded width n)
padded-IsDigits width n =
    append-IsDigits (replicate (width - length (decimal n n)) 48) (decimal n n)
      (zeros-IsDigits (width - length (decimal n n))) (decimal-IsDigits n n)

pub IsDigits-Lacks : (c : ℕ) (xs : Text) → is_digit c ≡ false → IsDigits xs → Lacks c xs
IsDigits-Lacks c [] e h = tt
IsDigits-Lacks c (x ∷ xs) e h = (ground arith, IsDigits-Lacks c xs e h.1)

-- A number takes the width at least, and no more when its digits are no more.
pub length-padded :
    (width n : ℕ) → length (padded width n) ≡ width - length (decimal n n) + length (decimal n n)
length-padded width n =
    length-append (replicate (width - length (decimal n n)) 48) (decimal n n)
    ∙ ap (λ k. k + length (decimal n n)) (length-replicate (width - length (decimal n n)) 48)

pub length-decimal_step :
    (most : ℕ) (n : ℕ)
    → ((fuel : ℕ) → length (decimal fuel (n / 10)) ≤ most)
    → 1 ≤ most
    → (fuel : ℕ) → length (decimal fuel n) ≤ most + 1
unfolding decimal
length-decimal_step most n h k zero = omega arith
length-decimal_step most n h k (suc fuel) = elim (Bool-cases (ltb n 10)) [
  | inl e ↦ rw e (omega arith)
  | inr e ↦ rw e (
      let l = h fuel in
      let k = length-append (decimal fuel (n / 10)) ((48 + n % 10) ∷ []) in omega arith)
]

pub length-decimal_digit : (n : ℕ) → n < 10 → (fuel : ℕ) → length (decimal fuel n) ≤ 1
unfolding decimal
length-decimal_digit n h zero = omega arith
length-decimal_digit n h (suc fuel) = rw (lt→ltb n 10 h) (omega arith)

pub length-decimal : (n : ℕ) → n < 1000 → (fuel : ℕ) → length (decimal fuel n) ≤ 3
length-decimal n h =
    length-decimal_step 2 n
      (length-decimal_step 1 (n / 10) (length-decimal_digit (n / 10 / 10) (omega arith))
        (omega arith))
      (omega arith)

pub parse_digits-padded : (width n : ℕ) → parse_digits 0 (padded width n) ≡ some n
parse_digits-padded width n =
    parse_digits-zeros (width - length (decimal n n)) (decimal n n)
    ∙ parse_digits-decimal n n (omega arith)

pub parse_whole-parse_digits :
    (xs : Text) (n : ℕ) → parse_digits 0 xs ≡ some n → 0 < length xs → parse_whole xs ≡ some n
parse_whole-parse_digits [] n h k = ground arith
parse_whole-parse_digits (x ∷ xs) n h k = h

pub parse_whole-padded : (n : ℕ) → parse_whole (padded 2 n) ≡ some n
parse_whole-padded n =
    parse_whole-parse_digits (padded 2 n) n (parse_digits-padded 2 n)
      (let e = length-padded 2 n in omega arith)

-- Digits behind the point that are all there are a number.
pub fraction_digits-parse_digits :
    (acc n : ℕ) (xs : Text)
    → IsDigits xs
    → parse_digits acc xs ≡ some n
    → fraction_digits (length xs) acc xs ≡ n
unfolding parse_digits fraction_digits
fraction_digits-parse_digits acc n [] d h = ground arith
fraction_digits-parse_digits acc n (x ∷ xs) d h =
    rw d.0 (fraction_digits-parse_digits (acc * 10 + (x - 48)) n xs d.1 (rw d.0 at h))
