-- ===== src/Config/Rates/Mux.antt =====
-- The rate of the multiplex in src/config.cpp: it is there, exact, and within the bits of the symbols.
use wh_repeater.Common.{
  ℕ, ◌*◌, ◌/◌, ◌^◌, ◌≤◌, ◌<◌, Bool, true, false, some, List, [], ◌∷◌, ◌==◌, if◌then◌else◌, ◌≡◌,
  refl, ap, ◌∙◌, inl, inr, arith, text, text_eq, text_eq→eq, Bool-cases, All, subst, sym,
}
use native.Mathlib.Nat.{mul-le-mul, mul-le-mul_left, div-le_of_le-mul}
use wh_repeater.Domain.{Text}
use wh_repeater.Pluto.Sink.{PlutoConfig}
use wh_repeater.Config.Rates.{
  fec_fraction, parse_fec, fec_values, any_of, constellation_bits, mux_rate, u64,
  calculate_pluto_mux_rate_kbps,
}

-- A fraction that the table of values has.
record IsFec (fec : Text) : Type 0 where
  numerator : ℕ
  denominator : ℕ
  parsed : fec_fraction fec ≡ some (numerator, denominator)
  positive : 1 ≤ numerator
  proper : numerator ≤ denominator
  small : denominator ≤ 10

abbrev Fits : Text → Type 0
Fits fec = text_eq fec (text "auto") ≡ false → IsFec fec

any_of-All :
    (P : Text → Type 0) (value : Text) (names : List Text)
    → All P names
    → any_of value names ≡ true
    → P value
any_of-All P value [] all e = absurd (cc)
any_of-All P value (name ∷ names) all e = elim (Bool-cases (text_eq value name)) [
  | inl h ↦ subst P (sym (text_eq→eq value name h)) all.0
  | inr h ↦ any_of-All P value names all.1 (ground arith)
]

entry : (fec : Text) (n d : ℕ) → fec_fraction fec ≡ some (n, d) → 1 ≤ n → n ≤ d → d ≤ 10 → Fits fec
entry fec n d e l p s h = record {
  numerator = n;
  denominator = d;
  parsed = e;
  positive = l;
  proper = p;
  small = s;
}

table : All Fits fec_values
unfolding fec_fraction
table = (
  λ h. absurd (cc),
  (
    entry (text "1/4") 1 4 refl (omega arith) (omega arith) (omega arith),
    (
      entry (text "1/3") 1 3 refl (omega arith) (omega arith) (omega arith),
      (
        entry (text "2/5") 2 5 refl (omega arith) (omega arith) (omega arith),
        (
          entry (text "1/2") 1 2 refl (omega arith) (omega arith) (omega arith),
          (
            entry (text "3/5") 3 5 refl (omega arith) (omega arith) (omega arith),
            (
              entry (text "2/3") 2 3 refl (omega arith) (omega arith) (omega arith),
              (
                entry (text "3/4") 3 4 refl (omega arith) (omega arith) (omega arith),
                (
                  entry (text "4/5") 4 5 refl (omega arith) (omega arith) (omega arith),
                  (
                    entry (text "5/6") 5 6 refl (omega arith) (omega arith) (omega arith),
                    (
                      entry (text "7/8") 7 8 refl (omega arith) (omega arith) (omega arith),
                      (entry (text "8/9") 8 9 refl (omega arith) (omega arith) (omega arith), tt),
                    ),
                  ),
                ),
              ),
            ),
          ),
        ),
      ),
    ),
  ),
)

parse_fec-Fits : (fec : Text) → parse_fec fec ≡ some fec → Fits fec
unfolding parse_fec fec_fraction
parse_fec-Fits fec e = elim (Bool-cases (any_of fec fec_values)) [
  | inl h ↦ any_of-All Fits fec fec_values table h
  | inr h ↦ elim (Bool-cases (text_eq fec (text "9/10"))) [
    | inl k ↦
        subst Fits (sym (text_eq→eq fec (text "9/10") k))
          (entry (text "9/10") 9 10 refl (omega arith) (omega arith) (omega arith))
    | inr k ↦ absurd (ground arith)
  ]
]

constellation_bits-bound :
    (system constellation : Text) (bits : ℕ)
    → constellation_bits system constellation ≡ some bits
    → bits ≤ 5
unfolding constellation_bits
constellation_bits-bound system constellation bits e = ground arith

-- The rate of the multiplex in kbit/s, without wraps.
abbrev pub exact_rate : Bool → ℕ → ℕ → ℕ → ℕ → ℕ
exact_rate is_dvbs symbol_rate bits n d =
    (if is_dvbs then symbol_rate * bits * n * 188 / (d * 204) else symbol_rate * bits * n / d)
    / 1000

mux_rate_lem :
    (is_dvbs : Bool) (symbol_rate bits n d : ℕ)
    → symbol_rate < 2 ^ 32
    → bits ≤ 5
    → 1 ≤ n
    → n ≤ d
    → d ≤ 10
    → (mux_rate is_dvbs symbol_rate (some (n, d)) (some bits)
        ≡ some (exact_rate is_dvbs symbol_rate bits n d))
      × (exact_rate is_dvbs symbol_rate bits n d * 1000 ≤ symbol_rate * bits)
mux_rate_lem is_dvbs symbol_rate bits n d s b l p q =
    let s' : symbol_rate ≤ 2 ^ 32 = omega arith in
    let n' : n ≤ 10 = omega arith in
    let x : symbol_rate * bits ≤ 2 ^ 32 * 5 = mul-le-mul s' b in
    let y : symbol_rate * bits * n ≤ 2 ^ 32 * 5 * 10 = mul-le-mul x n' in
    let z : symbol_rate * bits * n ≤ symbol_rate * bits * d =
      mul-le-mul_left (symbol_rate * bits) p in
    rates is_dvbs x y z
  where
    rates :
        (is_dvbs : Bool)
        → symbol_rate * bits ≤ 2 ^ 32 * 5
        → symbol_rate * bits * n ≤ 2 ^ 32 * 5 * 10
        → symbol_rate * bits * n ≤ symbol_rate * bits * d
        → (mux_rate is_dvbs symbol_rate (some (n, d)) (some bits)
            ≡ some (exact_rate is_dvbs symbol_rate bits n d))
          × (exact_rate is_dvbs symbol_rate bits n d * 1000 ≤ symbol_rate * bits)
    rates true x y z =
        let m : symbol_rate * bits * n * 188 ≤ d * 204 * (symbol_rate * bits) = omega arith in
        let most : symbol_rate * bits * n * 188 / (d * 204) ≤ symbol_rate * bits =
          div-le_of_le-mul (d * 204) m in
        let e : u64 (u64 (symbol_rate * bits * n) * 188) ≡ symbol_rate * bits * n * 188 =
          omega arith in
        let g : (d * 204 == 0) ≡ false = ground arith in
        (rw (e, g) (ap some (omega arith)), omega arith)
    rates false x y z =
        let m : symbol_rate * bits * n ≤ d * (symbol_rate * bits) = omega arith in
        let most : symbol_rate * bits * n / d ≤ symbol_rate * bits = div-le_of_le-mul d m in
        let e : u64 (symbol_rate * bits * n) ≡ symbol_rate * bits * n = omega arith in
        let g : (d == 0) ≡ false = ground arith in (rw (e, g) (ap some (omega arith)), omega arith)

-- For a symbol rate of 32 bits, an explicit FEC of the configuration and a constellation that is known:
-- the rate of the multiplex is there, and it is the symbols' bits times the FEC, for DVB-S times 188/204
-- for the outer code, rounded down to bits and then to kilobits. No intermediate result wraps, and the
-- rate is not above the bits of the symbols.
pub calculate_pluto_mux_rate_kbps_lem :
    (config : PlutoConfig) (bits : ℕ)
    → config.symbol_rate_s < 2 ^ 32
    → parse_fec config.fec ≡ some config.fec
    → text_eq config.fec (text "auto") ≡ false
    → constellation_bits config.system config.constellation ≡ some bits
    → (n : ℕ) × ((d : ℕ) × ((fec_fraction config.fec ≡ some (n, d))
          × (let rate =
                exact_rate (text_eq config.system (text "dvbs")) config.symbol_rate_s bits n d in
              (calculate_pluto_mux_rate_kbps config ≡ some rate)
              × (rate * 1000 ≤ config.symbol_rate_s * bits))))
unfolding calculate_pluto_mux_rate_kbps
calculate_pluto_mux_rate_kbps_lem config bits s fec explicit known =
    let f = parse_fec-Fits config.fec fec explicit in
    let b = constellation_bits-bound config.system config.constellation bits known in
    let is_dvbs = text_eq config.system (text "dvbs") in
    let (e, most) =
      mux_rate_lem is_dvbs config.symbol_rate_s bits f.numerator f.denominator s b f.positive
        f.proper f.small in
    (
      f.numerator,
      (
        f.denominator,
        (
          f.parsed,
          (
            ap
                  (λ q.
                    mux_rate is_dvbs config.symbol_rate_s q
                      (constellation_bits config.system config.constellation))
                  f.parsed
                ∙ ap (mux_rate is_dvbs config.symbol_rate_s (some (f.numerator, f.denominator)))
                    known
                ∙ e,
            most,
          ),
        ),
      ),
    )
