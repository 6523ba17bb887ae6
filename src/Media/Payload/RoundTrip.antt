-- ===== src/Media/Payload/RoundTrip.antt =====
-- What a reader makes of what a writer wrote.
use wh_repeater.Common.{
  ℕ, zero, suc, ◌*◌, ◌/◌, ◌%◌, ◌^◌, ◌<◌, Bool, true, false, not, Option, none, some, [], ◌∷◌, ◌++◌,
  length, length-append, take, drop, ltb, ◌==◌, ◌≡◌, refl, ap, sym, subst, ◌∙◌, arith, append_assoc,
}
use wh_repeater.Domain.{Text}
use wh_repeater.Media.Payload.{
  Bytes, Reader, ◌>>=◌, pure, append_pod, number, append_bool, append_string, append_optional,
  read_bytes, read_pod, read_bool, read_string, read_optional, read_enum,
}

-- A reader takes exactly these bytes off any payload that begins with them, and gives the value.
pub record Reads {A : Type 0} (r : Reader A) (bs : Bytes) (a : A) : Type 0 where
  pub run : (rest : Bytes) → r (bs ++ rest) ≡ some (a, rest)

pub Reads-then :
    {A B : Type 0} {r : Reader A} (k : A → Reader B) {bs cs : Bytes} {a : A} {b : B}
    → Reads r bs a
    → Reads (k a) cs b
    → Reads (r >>= k) (bs ++ cs) b
Reads-then {r} k {bs} {cs} h g = record {
  run =
      λ rest. ap (r >>= k) (append_assoc bs cs rest) ∙ rw (h.run (cs ++ rest), ◌>>=◌) (g.run rest);
}

pub Reads-last :
    {A B : Type 0} {r : Reader A} (f : A → B) {bs : Bytes} {a : A}
    → Reads r bs a
    → Reads (r >>= λ x. pure (f x)) bs (f a)
Reads-last f h = record { run = λ rest. rw (h.run rest, ◌>>=◌) refl }

-- The numbers of so many bytes.
abbrev pub limit : ℕ → ℕ
limit zero = 1
limit (suc size) = 256 * limit size

length-append_pod : (size n : ℕ) → length (append_pod size n) ≡ size
length-append_pod zero n = refl
length-append_pod (suc size) n = ap suc (length-append_pod size (n / 256))

number-append_pod : (size n : ℕ) → n < limit size → number (append_pod size n) ≡ n
number-append_pod zero n h = omega arith
number-append_pod (suc size) n h =
    let e = number-append_pod size (n / 256) (omega arith) in omega arith

take-append_front : (xs ys : Bytes) → take (length xs) (xs ++ ys) ≡ xs
take-append_front [] ys = refl
take-append_front (x ∷ xs) ys = ap (◌∷◌ x) (take-append_front xs ys)

drop-append_front : (xs ys : Bytes) → drop (length xs) (xs ++ ys) ≡ ys
drop-append_front [] ys = refl
drop-append_front (x ∷ xs) ys = drop-append_front xs ys

read_bytes-Reads : (bs : Bytes) → Reads (read_bytes (length bs)) bs bs
unfolding read_bytes
read_bytes-Reads bs = record { run = go }
  where
    go : (rest : Bytes) → read_bytes (length bs) (bs ++ rest) ≡ some (bs, rest)
    go rest =
        let l = length-append bs rest in
        let e : ltb (length (bs ++ rest)) (length bs) ≡ false = ground arith in
        rw e (
          ap (λ x. some (x, drop (length bs) (bs ++ rest))) (take-append_front bs rest)
          ∙ ap (λ x. some (bs, x)) (drop-append_front bs rest))

pub read_pod-Reads : (size n : ℕ) → n < limit size → Reads (read_pod size) (append_pod size n) n
unfolding read_pod
read_pod-Reads size n h =
    subst (Reads (read_pod size) (append_pod size n)) (number-append_pod size n h) (
      Reads-last number (
        subst (λ k. Reads (read_bytes k) (append_pod size n) (append_pod size n))
          (length-append_pod size n) (read_bytes-Reads (append_pod size n))))

pub read_bool-Reads : (b : Bool) → Reads read_bool (append_bool b) b
unfolding read_bool
read_bool-Reads true = Reads-last (λ v. not (v == 0)) (read_pod-Reads 1 1 (omega arith))
read_bool-Reads false = Reads-last (λ v. not (v == 0)) (read_pod-Reads 1 0 (omega arith))

pub read_string-Reads : (t : Text) → length t < 2 ^ 32 → Reads read_string (append_string t) t
unfolding read_string
read_string-Reads t h =
    let e : length t % 2 ^ 32 ≡ length t = omega arith in
    subst (λ n. Reads read_string (append_pod 4 n ++ t) t) (sym e)
      (Reads-then _ (read_pod-Reads 4 (length t) (omega arith)) (read_bytes-Reads t))

pub read_enum-Reads :
    {A : Type 0} (of : ℕ → Option A) (n : ℕ) (a : A)
    → n < limit 4
    → of n ≡ some a
    → Reads (read_enum of) (append_pod 4 n) a
unfolding read_enum
read_enum-Reads of n a h e = record {
  run = λ rest. rw ((read_pod-Reads 4 n h).run rest, read_enum) (rw e refl);
}

pub read_optional-none :
    {A : Type 0} (r : Reader A) → Reads (read_optional r) (append_bool false) none
unfolding read_optional
read_optional-none r = record { run = λ rest. rw ((read_bool-Reads false).run rest, ◌>>=◌) refl }

pub read_optional-some :
    {A : Type 0} (r : Reader A) (bs : Bytes) (a : A)
    → Reads r bs a
    → Reads (read_optional r) (append_bool true ++ bs) (some a)
unfolding read_optional
read_optional-some r bs a h = Reads-then _ (read_bool-Reads true) (Reads-last some h)

-- A condition on what is there.
abbrev pub Present : {A : Type 0} → (A → Type 0) → Option A → Type 0
Present P none = Unit
Present P (some a) = P a

pub read_optional-Reads :
    {A : Type 0} (P : A → Type 0) (r : Reader A) (append : A → Bytes)
    → ((a : A) → P a → Reads r (append a) a)
    → (o : Option A) → Present P o
    → Reads (read_optional r) (append_optional append o) o
read_optional-Reads P r append h none p = read_optional-none r
read_optional-Reads P r append h (some a) p = read_optional-some r (append a) a (h a p)
