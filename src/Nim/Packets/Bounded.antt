-- ===== src/Nim/Packets/Bounded.antt =====
-- The queue of a receiver as a bounded first-in, first-out buffer.
use wh_repeater.Common.{
  ℕ, zero, suc, ◌+◌, ◌-◌, ◌≤◌, List, [], ◌∷◌, ◌++◌, length, drop, ◌≡◌, refl, ap, sym, subst, ◌∙◌,
  arith, leb, if◌then◌else◌, Bool-cases, length-append, length-drop, inl, inr, append_assoc,
  append-nil,
}
use wh_repeater.Nim.Packets.{pop_front}

-- The last `n` elements.
abbrev pub keep_last {ℓ} : {A : Type ℓ} → ℕ → List A → List A
keep_last n xs = drop (length xs - n) xs

module _ {ℓ} {A : Type ℓ} where
  -- A write to a full queue drops the oldest element.
  abbrev pub push_bounded : ℕ → List A → A → List A
  push_bounded cap q x = if leb cap (length q) then pop_front q ++ x ∷ [] else q ++ x ∷ []

  drop-append_drop :
      (m k : ℕ) (xs ys : List A)
      → m ≤ length xs
      → drop k (drop m xs ++ ys) ≡ drop (m + k) (xs ++ ys)
  drop-append_drop zero k xs ys h = ap (λ (n : ℕ). drop n (xs ++ ys)) (omega arith)
  drop-append_drop (suc m) k [] ys h = absurd (omega arith)
  drop-append_drop (suc m) k (x ∷ xs) ys h =
      drop-append_drop m k xs ys (omega arith) ∙ ap (λ (n : ℕ). drop n (x ∷ (xs ++ ys))) suc_out
    where
      suc_out : suc (m + k) ≡ suc m + k
      suc_out = omega arith

  keep_last-append :
      (n : ℕ) (xs ys : List A) → keep_last n (keep_last n xs ++ ys) ≡ keep_last n (xs ++ ys)
  keep_last-append n xs ys =
      drop-append_drop (length xs - n) (length (keep_last n xs ++ ys) - n) xs ys (omega arith)
      ∙ ap (λ (k : ℕ). drop k (xs ++ ys))
          (omega (
            arith,
            length-append (keep_last n xs) ys,
            length-append xs ys,
            length-drop (length xs - n) xs,
          ))

  drop-one : (q : List A) (x : A) → 1 ≤ length q → drop 1 (q ++ x ∷ []) ≡ pop_front q ++ x ∷ []
  drop-one [] x h = absurd (omega arith)
  drop-one (y ∷ q) x h = refl

  push_bounded_lem :
      (cap : ℕ) (q : List A) (x : A)
      → 1 ≤ cap
      → length q ≤ cap
      → push_bounded cap q x ≡ keep_last cap (q ++ x ∷ [])
  push_bounded_lem cap q x h k = elim (Bool-cases (leb cap (length q))) [
    | inr room ↦
        let none_dropped : length (q ++ x ∷ []) - cap ≡ 0 =
          ground (arith, room, length-append q (x ∷ [])) in
        rw room (ap (λ (n : ℕ). drop n (q ++ x ∷ [])) (sym none_dropped))
    | inl full ↦
        let one_dropped : length (q ++ x ∷ []) - cap ≡ 1 =
          ground (arith, full, length-append q (x ∷ [])) in
        rw full (
          sym (drop-one q x (ground (arith, full)))
          ∙ ap (λ (n : ℕ). drop n (q ++ x ∷ [])) (sym one_dropped))
  ]

  pub length-keep_last : (n : ℕ) (xs : List A) → length (keep_last n xs) ≤ n
  length-keep_last n xs = omega (arith, length-drop (length xs - n) xs)

  unfoldable pub push_all : ℕ → List A → List A → List A
  push_all cap q [] = q
  push_all cap q (x ∷ xs) = push_all cap (push_bounded cap q x) xs

  pub push_all_lem :
      (cap : ℕ) (q xs : List A)
      → 1 ≤ cap
      → length q ≤ cap
      → push_all cap q xs ≡ keep_last cap (q ++ xs)
  unfolding push_all
  push_all_lem cap q [] h k =
      let all_kept : length (q ++ []) - cap ≡ 0 = omega (arith, length-append q []) in
      sym (append-nil q) ∙ ap (λ (n : ℕ). drop n (q ++ [])) (sym all_kept)
  push_all_lem cap q (x ∷ xs) h k =
      let e = push_bounded_lem cap q x h k in
      push_all_lem cap (push_bounded cap q x) xs h
        (subst (λ (r : List A). length r ≤ cap) (sym e) (length-keep_last cap (q ++ x ∷ [])))
      ∙ ap (λ r. keep_last cap (r ++ xs)) e
      ∙ keep_last-append cap (q ++ x ∷ []) xs
      ∙ ap (keep_last cap) (append_assoc q (x ∷ []) xs)
