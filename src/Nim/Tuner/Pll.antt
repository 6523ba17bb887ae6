-- ===== src/Nim/Tuner/Pll.antt =====
-- The synthesiser settings of the tuner.
use wh_repeater.Common.{
  subst, ℕ, ◌+◌, ◌-◌, ◌*◌, ◌/◌, ◌%◌, ◌^◌, ◌≤◌, ◌<◌, Bool, ◌≡◌, arith, leb, if◌then◌else◌,
}
use wh_repeater.Nim.Tuner.{
  Synthesis, u8, TunerRegisters, divider_for_frequency, charge_pump_for_vco, synthesise,
  tuner_registers, symbol_rate_registers, carrier_registers, carrier_limit,
}

-- The VCO frequency without the wrap of the shift.
abbrev pub vco_of : ℕ → ℕ
vco_of freq =
    freq
    * (if leb freq 299000
        then 16
        else if leb freq 596000
        then 8
        else if leb freq 1191000
        then 4
        else 2)

synthesise-vco : (freq : ℕ) → freq ≤ 2150000 → (synthesise freq).vco ≡ vco_of freq
unfolding synthesise divider_for_frequency
synthesise-vco freq h = ground arith

-- The VCO stays between 2.38 GHz and 4.784 GHz over the tuner's input range, on every divider.
pub synthesise-vco_range :
    (freq : ℕ)
    → 149000 ≤ freq
    → freq ≤ 2150000
    → (2380000 ≤ (synthesise freq).vco) × ((synthesise freq).vco ≤ 4784000)
synthesise-vco_range freq h k = rw (synthesise-vco freq k) (vco_of_bounds freq h k)
  where
    vco_of_bounds : (f : ℕ) → 149000 ≤ f → f ≤ 2150000 → (2380000 ≤ vco_of f) × (vco_of f ≤ 4784000)
    vco_of_bounds f low high = ground arith

Steps : ℕ → ℕ → ℕ → Type 0
Steps vco n f =
    (n < 2 ^ 9)
    × (f < 2 ^ 18)
    × ((n * 2 ^ 18 + f) * 30000 ≤ 2 * vco * 2 ^ 18)
    × (2 * vco * 2 ^ 18 < (n * 2 ^ 18 + f + 1) * 30000)

steps_lem :
    (vco : ℕ)
    → vco ≤ 4784000
    → Steps vco
        (vco * 2 % 2 ^ 32 / 30000 % 2 ^ 16)
        (vco * 2 % 2 ^ 32 % 30000 * 2 ^ 18 / 30000 % 2 ^ 32)
unfolding Steps
steps_lem vco h = (omega arith, omega arith, omega arith, omega arith)

-- Over the tuner's range the divider settings n and f fit their 9 and 18 bits, no step of their
-- computation wraps, and n + f / 2^18 is the multiple of 30 MHz next below twice the VCO frequency,
-- to within one unit of f.
pub synthesise_exact :
    (freq : ℕ)
    → 149000 ≤ freq
    → freq ≤ 2150000
    → let s = synthesise freq in
      (s.n < 2 ^ 9)
      × (s.f < 2 ^ 18)
      × ((s.n * 2 ^ 18 + s.f) * 30000 ≤ 2 * vco_of freq * 2 ^ 18)
      × (2 * vco_of freq * 2 ^ 18 < (s.n * 2 ^ 18 + s.f + 1) * 30000)
unfolding synthesise Steps
synthesise_exact freq h k =
    subst
      (λ (v : ℕ).
        Steps v ((synthesise freq).vco * 2 % 2 ^ 32 / 30000 % 2 ^ 16)
          ((synthesise freq).vco * 2 % 2 ^ 32 % 30000 * 2 ^ 18 / 30000 % 2 ^ 32))
      (synthesise-vco freq k) (steps_lem (synthesise freq).vco (synthesise-vco_range freq h k).1)

-- What the tuner reads from its registers.
pub record Decoded : Type 0 where
  pub n : ℕ
  pub f : ℕ
  pub icp : ℕ
  pub p : ℕ

abbrev pub decode : TunerRegisters → Decoded
decode r = record {
  n = r.n_low + r.f_low % 2 * 2 ^ 8;
  f = r.f_low / 2 + r.f_middle * 2 ^ 7 + r.f_high % 2 ^ 3 * 2 ^ 15;
  icp = r.f_high / 2 ^ 4 % 2 ^ 3;
  p = r.divider / 2 ^ 5 % 2 ^ 2;
}

n_field : (n f : ℕ) → n < 512 → n % 256 + u8 (f % 128 * 2 + n / 256 % 2) % 2 * 256 ≡ n
n_field n f h = omega arith

f_field :
    (n f icp : ℕ)
    → f < 262144
    → icp < 8
    → u8 (f % 128 * 2 + n / 256 % 2) / 2
        + u8 (f / 128 % 256) * 128
        + u8 (f / 32768 % 8 + icp * 16 + 8) % 8 * 32768
      ≡ f
f_field n f icp h k = omega arith

icp_field : (f icp : ℕ) → icp < 8 → u8 (f / 32768 % 8 + icp * 16 + 8) / 16 % 8 ≡ icp
icp_field f icp h = omega arith

p_field :
    (p low_pass : ℕ)
    → low_pass / 32 % 4 ≡ 0
    → low_pass < 256
    → p < 4
    → u8 (p * 32 + low_pass) / 32 % 4 ≡ p
p_field p low_pass h k l = omega arith

tuner_registers_lem :
    (low_pass : ℕ) (s : Synthesis)
    → low_pass / 2 ^ 5 % 2 ^ 2 ≡ 0
    → low_pass < 2 ^ 8
    → s.n < 2 ^ 9
    → s.f < 2 ^ 18
    → s.icp < 2 ^ 3
    → s.p < 2 ^ 2
    → decode (tuner_registers low_pass s) ≡ record { n = s.n; f = s.f; icp = s.icp; p = s.p }
unfolding tuner_registers
tuner_registers_lem low_pass s h k a b c d = λ i. record {
  n = n_field s.n s.f a i;
  f = f_field s.n s.f s.icp b c i;
  icp = icp_field s.f s.icp c i;
  p = p_field s.p low_pass h k d i;
}

charge_pump-lt : (vco : ℕ) → charge_pump_for_vco vco < 2 ^ 3
unfolding charge_pump_for_vco
charge_pump-lt vco = ground arith

divider-lt : (freq : ℕ) → divider_for_frequency freq < 2 ^ 2
unfolding divider_for_frequency
divider-lt freq = ground arith

-- The bytes that are written for a frequency in range, with a low-pass setting that leaves the
-- divider's two bits clear, hold the settings n, f, charge pump and divider unchanged: no field spills
-- into another.
pub decode-tuner_registers :
    (freq low_pass : ℕ)
    → 149000 ≤ freq
    → freq ≤ 2150000
    → low_pass / 2 ^ 5 % 2 ^ 2 ≡ 0
    → low_pass < 2 ^ 8
    → let s = synthesise freq in
      decode (tuner_registers low_pass s) ≡ record { n = s.n; f = s.f; icp = s.icp; p = s.p }
decode-tuner_registers freq low_pass h k l m =
    let (n, f, _, _) = synthesise_exact freq h k in
    tuner_registers_lem low_pass (synthesise freq) l m n f
      (unfold synthesise in charge_pump-lt (synthesise freq).vco)
      (unfold synthesise in divider-lt freq)

-- For symbol rates below 65536 kS the two bytes are the high and low half of the rate in units of
-- 135 MHz / 2^16, rounded down; nothing wraps.
pub symbol_rate_registers_lem :
    (symbol_rate_ks : ℕ)
    → symbol_rate_ks < 65536
    → let (high, low) = symbol_rate_registers symbol_rate_ks in
      (high < 2 ^ 8)
      × (low < 2 ^ 8)
      × ((high * 2 ^ 8 + low) * 135000 ≤ symbol_rate_ks * 2 ^ 16)
      × (symbol_rate_ks * 2 ^ 16 < (high * 2 ^ 8 + low + 1) * 135000)
unfolding symbol_rate_registers
symbol_rate_registers_lem symbol_rate_ks h = (omega arith, omega arith, omega arith, omega arith)

-- The lower carrier limit is the upper one negated, in two's complement of 16 bits, whatever the symbol
-- rate.
pub carrier_registers_lem :
    (symbol_rate_ks : ℕ) (calibrated : Bool)
    → symbol_rate_ks < 2 ^ 32
    → let r = carrier_registers symbol_rate_ks calibrated in
      (r.up0 + r.up1 * 2 ^ 8 + (r.low0 + r.low1 * 2 ^ 8)) % 2 ^ 16 ≡ 0
unfolding carrier_registers
carrier_registers_lem symbol_rate_ks calibrated h =
    negated (carrier_limit symbol_rate_ks calibrated) (ground arith)
  where
    negated :
        (limit : ℕ)
        → limit < 2 ^ 48
        → (limit % 2 ^ 8
              + limit / 2 ^ 8 % 2 ^ 8 * 2 ^ 8
              + ((2 ^ 64 - limit) % 2 ^ 8 + (2 ^ 64 - limit) / 2 ^ 8 % 2 ^ 8 * 2 ^ 8))
            % 2 ^ 16
          ≡ 0
    negated limit k = omega arith
