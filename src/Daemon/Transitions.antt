-- ===== src/Daemon/Transitions.antt =====
-- The record of receiver transitions of src/daemon.cpp: a deque, its newest entry first.
use wh_repeater.Common.{
  ℕ, zero, suc, ◌+◌, ◌-◌, ◌≤◌, false, Option, none, some, List, [], ◌∷◌, length, take, ltb,
  if◌then◌else◌, ◌≡◌, ◌<◌, refl, ap, sym, length-take, ltb→lt, ◌∙◌, arith, Bool-cases, inl, inr,
}

abbrev pub transition_limit : ℕ
transition_limit = 32

abbrev pub pop_back {ℓ} : {A : Type ℓ} → List A → List A
pop_back [] = []
pop_back (x ∷ []) = []
pop_back (x ∷ y ∷ xs) = x ∷ pop_back (y ∷ xs)

module _ {ℓ} {A : Type ℓ} where
  -- `while (transitions.size() > 32) transitions.pop_back();`, on fuel; `none` means it ran out.
  unfoldable pub trim : ℕ → List A → Option (List A)
  trim zero transitions = none
  trim (suc fuel) transitions =
      let rest = trim fuel (pop_back transitions) in
      if ltb transition_limit (length transitions) then rest else some transitions

  -- The length of the deque is enough fuel.
  unfoldable pub append_transition : A → List A → Option (List A)
  append_transition transition transitions =
      trim (suc (length (transition ∷ transitions))) (transition ∷ transitions)

  unfoldable pub append_all : List A → List A → Option (List A)
  append_all [] transitions = some transitions
  append_all (t ∷ ts) transitions = elim (append_transition t transitions) [
    | none ↦ none
    | some next ↦ append_all ts next
  ]

  length-pop_back : (xs : List A) → length (pop_back xs) ≡ length xs - 1
  length-pop_back [] = omega arith
  length-pop_back (x ∷ []) = omega arith
  length-pop_back (x ∷ y ∷ xs) = let l = length-pop_back (y ∷ xs) in omega arith

  take-pop_back : (n : ℕ) (xs : List A) → n < length xs → take n (pop_back xs) ≡ take n xs
  take-pop_back zero xs h = refl
  take-pop_back (suc n) [] h = refl
  take-pop_back (suc n) (x ∷ []) h = absurd (omega (arith, h))
  take-pop_back (suc n) (x ∷ y ∷ xs) h = ap (◌∷◌ x) (take-pop_back n (y ∷ xs) (omega arith))

  take_short : (n : ℕ) (xs : List A) → length xs ≤ n → take n xs ≡ xs
  take_short zero [] h = refl
  take_short zero (x ∷ xs) h = absurd (omega (arith, h))
  take_short (suc n) [] h = refl
  take_short (suc n) (x ∷ xs) h = ap (◌∷◌ x) (take_short n xs (omega arith))

  take-take-suc : (n : ℕ) (xs : List A) → take n (take (suc n) xs) ≡ take n xs
  take-take-suc zero xs = refl
  take-take-suc (suc n) [] = refl
  take-take-suc (suc n) (x ∷ xs) = ap (◌∷◌ x) (take-take-suc n xs)

  take-take : (n : ℕ) (xs : List A) → take n (take n xs) ≡ take n xs
  take-take zero xs = refl
  take-take (suc n) [] = refl
  take-take (suc n) (x ∷ xs) = ap (◌∷◌ x) (take-take n xs)

  take_cons :
      (n : ℕ) (t : A) (xs ys : List A) → take n xs ≡ take n ys → take n (t ∷ xs) ≡ take n (t ∷ ys)
  take_cons zero t xs ys e = refl
  take_cons (suc n) t xs ys e =
      ap (◌∷◌ t) (sym (take-take-suc n xs) ∙ ap (take n) e ∙ take-take-suc n ys)

  -- The entries onto the earlier ones, the last one in front.
  abbrev pub newest_first : List A → List A → List A
  newest_first [] old = old
  newest_first (t ∷ ts) old = newest_first ts (t ∷ old)

  take-newest_first :
      (n : ℕ) (ts xs ys : List A)
      → take n xs ≡ take n ys
      → take n (newest_first ts xs) ≡ take n (newest_first ts ys)
  take-newest_first n [] xs ys e = e
  take-newest_first n (t ∷ ts) xs ys e =
      take-newest_first n ts (t ∷ xs) (t ∷ ys) (take_cons n t xs ys e)

  trim_lem :
      (fuel : ℕ) (xs : List A)
      → length xs ≤ fuel + transition_limit
      → trim (suc fuel) xs ≡ some (take transition_limit xs)
  unfolding trim
  trim_lem zero xs h =
      let e : ltb transition_limit (length xs) ≡ false = ground arith in
      rw e (ap some (sym (take_short transition_limit xs (omega arith))))
  trim_lem (suc fuel) xs h = elim (Bool-cases (ltb transition_limit (length xs))) [
    | inl e ↦
        let l = length-pop_back xs in
        let lt = ltb→lt transition_limit (length xs) e in
        rw e (
          trim_lem fuel (pop_back xs) (omega arith)
          ∙ ap some (take-pop_back transition_limit xs lt))
    | inr e ↦
        let le : length xs ≤ transition_limit = ground arith in
        rw e (ap some (sym (take_short transition_limit xs le)))
  ]

  append_transition_lem :
      (t : A) (ts : List A) → append_transition t ts ≡ some (take transition_limit (t ∷ ts))
  unfolding append_transition
  append_transition_lem t ts = trim_lem (length (t ∷ ts)) (t ∷ ts) (omega arith)

  -- The record never runs out of fuel: onto at most 32 entries, any number of further transitions
  -- leaves the newest 32 of all of them, the latest in front.
  pub append_all_lem :
      (ts old : List A)
      → length old ≤ transition_limit
      → append_all ts old ≡ some (take transition_limit (newest_first ts old))
  unfolding append_all
  append_all_lem [] old h = ap some (sym (take_short transition_limit old h))
  append_all_lem (t ∷ ts) old h =
      let next = take transition_limit (t ∷ old) in
      let l = length-take transition_limit (t ∷ old) in
      rw (append_all, append_transition_lem t old)
        (append_all_lem ts next (omega arith)
          ∙ ap some (
              take-newest_first transition_limit ts next (t ∷ old)
                (take-take transition_limit (t ∷ old))))
