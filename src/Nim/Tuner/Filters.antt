-- ===== src/Nim/Tuner/Filters.antt =====
-- The charge pump and the filters of the tuner, which come from tables.
use wh_repeater.Common.{
  ℕ, zero, suc, ◌*◌, ◌/◌, ◌%◌, ◌^◌, ◌≤◌, ◌<◌, true, some, List, [], ◌∷◌, get_elem?, ◌≡◌, arith, leb,
  inl, inr, All, Bool-cases,
}
use wh_repeater.Nim.Tuner.{
  charge_pump_for_vco, count_reaching, cfhf_table, high_pass_filter_for_frequency,
}

-- A higher VCO frequency never gets a smaller charge pump current.
pub charge_pump_for_vco_mono : (a b : ℕ) → a ≤ b → charge_pump_for_vco a ≤ charge_pump_for_vco b
unfolding charge_pump_for_vco
charge_pump_for_vco_mono a b h = ground arith

-- The rows of the table as ranges, each from its lower to its upper end.
abbrev pub icp_rows : List (ℕ × ℕ × ℕ)
icp_rows =
    (2380000, 2472000, 0)
    ∷ (2473000, 2700000, 1)
    ∷ (2701000, 3021000, 2)
    ∷ (3022000, 3387000, 3)
    ∷ (3388000, 3845000, 5)
    ∷ (3846000, 4394000, 6)
    ∷ (4395000, 4760000, 7)
    ∷ []

-- Every row of the table is met over its whole range, lower end included, though the code reads the
-- upper ends only.
pub charge_pump_for_vco-rows :
    (vco : ℕ) → All (λ r. r.0 ≤ vco → vco ≤ r.1 → charge_pump_for_vco vco ≡ r.2) icp_rows
unfolding charge_pump_for_vco
charge_pump_for_vco-rows vco = ground arith

-- The entries fall along the list and stay under `m`.
abbrev Falls : ℕ → List ℕ → Type 0
Falls m [] = Unit {0}
Falls m (x ∷ xs) = (x ≤ m) × Falls x xs

-- `k` is the place of the last entry that reaches `v`.
abbrev pub Reaches : ℕ → List ℕ → ℕ → Type 0
Reaches v xs k = (i x : ℕ) → get_elem? xs i ≡ some x → ((i < k → v ≤ x) × (k ≤ i → x < v))

Falls-le : (m : ℕ) (xs : List ℕ) (i x : ℕ) → Falls m xs → get_elem? xs i ≡ some x → x ≤ m
Falls-le m [] i x f e = cc
Falls-le m (y ∷ xs) zero x f e = ground (arith, f.0)
Falls-le m (y ∷ xs) (suc i) x f e = omega (arith, f.0, Falls-le y xs i x f.1 e)

count_reaching-Reaches : (v m : ℕ) (xs : List ℕ) → Falls m xs → Reaches v xs (count_reaching v xs)
unfolding count_reaching
count_reaching-Reaches v m [] f i x e = cc
count_reaching-Reaches v m (y ∷ xs) f i x e = elim (Bool-cases (leb v y)) [
  | inl reach ↦ rw reach (reaching reach (λ k z d. count_reaching-Reaches v y xs f.1 k z d) i e)
  | inr short ↦ rw short (
    λ h. absurd (omega arith),
    λ h. let le = Falls-le y (y ∷ xs) i x (omega arith, f.1) e in ground (arith, short, le),
  )
]
  where
    reaching :
        leb v y ≡ true
        → ((k z : ℕ)
            → get_elem? xs k ≡ some z
            → (k < count_reaching v xs → v ≤ z) × (count_reaching v xs ≤ k → z < v))
        → (j : ℕ) → get_elem? (y ∷ xs) j ≡ some x
        → (j < suc (count_reaching v xs) → v ≤ x) × (suc (count_reaching v xs) ≤ j → x < v)
    reaching reach ih zero h = (λ k. ground (arith, reach), λ k. absurd (omega arith))
    reaching reach ih (suc j) h =
        let (below, above) = ih j x h in (λ k. below (omega arith), λ k. above (omega arith))

-- The filter is the last entry of the falling table that still reaches three times the frequency in
-- MHz, or entry 0 where none does; every later entry is below.
pub high_pass_filter_for_frequency_lem :
    (freq i x : ℕ)
    → 3 * freq < 2 ^ 32
    → get_elem? cfhf_table i ≡ some x
    → let k = high_pass_filter_for_frequency freq in
      (1 ≤ k → i ≤ k → 3 * freq / 1000 ≤ x) × (k < i → x < 3 * freq / 1000)
unfolding high_pass_filter_for_frequency
high_pass_filter_for_frequency_lem freq i x h e =
    let (below, above) =
      count_reaching-Reaches (3 * freq % 2 ^ 32 / 1000) 6796 cfhf_table (omega arith) i x e in
    (λ a b. within below a b, λ a. beyond above a)
  where
    count : ℕ
    count = count_reaching (3 * freq % 2 ^ 32 / 1000) cfhf_table

    within :
        (i < count → 3 * freq % 2 ^ 32 / 1000 ≤ x)
        → 1 ≤ high_pass_filter_for_frequency freq
        → i ≤ high_pass_filter_for_frequency freq
        → 3 * freq / 1000 ≤ x
    within below a b = ground arith

    beyond :
        (count ≤ i → x < 3 * freq % 2 ^ 32 / 1000)
        → high_pass_filter_for_frequency freq < i
        → x < 3 * freq / 1000
    beyond above a = ground arith
