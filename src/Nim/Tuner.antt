-- ===== src/Nim/Tuner.antt =====
-- The register values that src/nim_controller.cpp computes for the STV6120 tuner and the STV0910
-- demodulator. A `uint32_t` shift wraps; fields that share a register do not overlap, so `|` is a sum.
pub mod Pll
pub mod Filters
mod Examples
use wh_repeater.Common.{
  ℕ, zero, suc, ◌+◌, ◌-◌, ◌*◌, ◌/◌, ◌%◌, ◌^◌, Bool, true, false, not, ◌&&◌, Option, none, some,
  List, [], ◌∷◌, length, ◌==◌, ltb, leb, if◌then◌else◌, find_if,
}
use wh_repeater.Domain.{
  ScanTarget, ReceiverState, found_header, locked_dvbs, locked_dvbs2, searching,
}

abbrev pub u8 : ℕ → ℕ
u8 n = n % 2 ^ 8

abbrev pub u16 : ℕ → ℕ
u16 n = n % 2 ^ 16

abbrev pub u32 : ℕ → ℕ
u32 n = n % 2 ^ 32

abbrev pub nim_tuner_xtal_khz : ℕ
nim_tuner_xtal_khz = 30000

-- `rdiv_`, which is 1 for the crystal of 30 MHz.
abbrev pub rdiv : ℕ
rdiv = if leb 27000 nim_tuner_xtal_khz then 1 else 0

-- The intermediate frequency: the distance from the local oscillator, if there is one.
unfoldable pub tuner_frequency_khz : ScanTarget → ℕ
tuner_frequency_khz t =
    if t.local_oscillator_khz == 0
    then t.frequency_khz
    else if ltb t.local_oscillator_khz t.frequency_khz
    then t.frequency_khz - t.local_oscillator_khz
    else t.local_oscillator_khz - t.frequency_khz

unfoldable pub divider_for_frequency : ℕ → ℕ
divider_for_frequency freq =
    if leb freq 299000 then 3 else if leb freq 596000 then 2 else if leb freq 1191000 then 1 else 0

-- The upper ends and the values of `stv6120IcpLookup`; its lower ends are not read.
abbrev pub icp_lookup : List (ℕ × ℕ)
icp_lookup =
    (2472000, 0)
    ∷ (2700000, 1)
    ∷ (3021000, 2)
    ∷ (3387000, 3)
    ∷ (3845000, 5)
    ∷ (4394000, 6)
    ∷ (4760000, 7)
    ∷ []

-- The first row that reaches the frequency, or the last row.
unfoldable pub charge_pump_for_vco : ℕ → ℕ
charge_pump_for_vco vco = elim (find_if (λ row. leb vco row.0) icp_lookup) [
  | none ↦ 7
  | some row ↦ row.1
]

abbrev pub cfhf_table : List ℕ
cfhf_table =
    6796 ∷ 5828 ∷ 4778 ∷ 4118 ∷ 3513 ∷ 3136 ∷ 2794 ∷ 2562 ∷ 2331 ∷ 2169 ∷ 2006 ∷ 1890 ∷ 1771 ∷ 1680
    ∷ 1586 ∷ 1514 ∷ 1433 ∷ 1374 ∷ 1310 ∷ 1262 ∷ 1208 ∷ 1167 ∷ 1122 ∷ 1087 ∷ 1049 ∷ 1018 ∷ 983 ∷ 956
    ∷ 926 ∷ 902 ∷ 875 ∷ 854 ∷ []

-- The `while` loop: how many entries from the front are at least `v`.
unfoldable pub count_reaching : ℕ → List ℕ → ℕ
count_reaching v [] = zero
count_reaching v (x ∷ xs) = let rest = count_reaching v xs in if leb v x then suc rest else zero

unfoldable pub high_pass_filter_for_frequency : ℕ → ℕ
high_pass_filter_for_frequency freq =
    let cfhf = count_reaching (u32 (3 * freq) / 1000) cfhf_table in
    if cfhf == 0 then 0 else cfhf - 1

-- What `setTunerFrequency` computes, and the bytes that it writes.
pub record Synthesis : Type 0 where
  pub p : ℕ
  pub vco : ℕ
  pub n : ℕ
  pub f : ℕ
  pub icp : ℕ
  pub cfhf : ℕ

unfoldable pub synthesise : ℕ → Synthesis
synthesise freq =
    let p = divider_for_frequency freq in
    let vco = u32 (freq * 2 ^ (p + 1)) in
    let scaled = u32 (vco * 2 ^ rdiv) in
    record {
      p = p;
      vco = vco;
      n = u16 (scaled / nim_tuner_xtal_khz);
      f = u32 (scaled % nim_tuner_xtal_khz * 2 ^ 18 / nim_tuner_xtal_khz);
      icp = charge_pump_for_vco vco;
      cfhf = high_pass_filter_for_frequency freq;
    }

-- The bytes for CTRL3 to CTRL8 of tuner 1, or CTRL12 to CTRL17 of tuner 2. `low_pass` is `ctrl7_` or
-- `ctrl16_`, whose bits 5 and 6 are clear; `ctrl8_` and `ctrl17_` are 0.
pub record TunerRegisters : Type 0 where
  pub n_low : ℕ
  pub f_low : ℕ
  pub f_middle : ℕ
  pub f_high : ℕ
  pub divider : ℕ
  pub filter : ℕ

unfoldable pub tuner_registers : ℕ → Synthesis → TunerRegisters
tuner_registers low_pass s = record {
  n_low = s.n % 2 ^ 8;
  f_low = u8 (s.f % 2 ^ 7 * 2 + s.n / 2 ^ 8 % 2);
  f_middle = u8 (s.f / 2 ^ 7 % 2 ^ 8);
  f_high = u8 (s.f / 2 ^ 15 % 2 ^ 3 + s.icp * 2 ^ 4 + 8);
  divider = u8 (s.p * 2 ^ 5 + low_pass);
  filter = u8 s.cfhf;
}

-- `setupTimingLoop`: the high and the low byte of the symbol rate.
unfoldable pub symbol_rate_registers : ℕ → ℕ × ℕ
symbol_rate_registers symbol_rate_ks =
    let sr = u16 (u32 (symbol_rate_ks * 2 ^ 16) / 135 / 1000) in (sr / 2 ^ 8, sr % 2 ^ 8)

-- The limit of `setupCarrierLoop`.
abbrev pub carrier_limit : ℕ → Bool → ℕ
carrier_limit symbol_rate_ks calibrated =
    (if calibrated then symbol_rate_ks / 2 else 1000) * 65536 / 135000

-- The bytes of the upper and of the lower carrier limit, low byte first; the lower one is the
-- negative limit in two's complement.
pub record CarrierRegisters : Type 0 where
  pub up0 : ℕ
  pub up1 : ℕ
  pub low0 : ℕ
  pub low1 : ℕ

unfoldable pub carrier_registers : ℕ → Bool → CarrierRegisters
carrier_registers symbol_rate_ks calibrated =
    let limit = carrier_limit symbol_rate_ks calibrated in
    let low_limit = 2 ^ 64 - limit in
    record {
      up0 = limit % 2 ^ 8;
      up1 = limit / 2 ^ 8 % 2 ^ 8;
      low0 = low_limit % 2 ^ 8;
      low1 = low_limit / 2 ^ 8 % 2 ^ 8;
    }

unfoldable pub state_from_header_mode : ℕ → ReceiverState
state_from_header_mode header_mode =
    let mode = header_mode / 2 ^ 5 % 2 ^ 2 in
    if mode == 1
    then found_header
    else if mode == 2
    then locked_dvbs2
    else if mode == 3
    then locked_dvbs
    else searching

-- `readMerDb` in tenths of a decibel, from the two bytes that it reads.
unfoldable pub mer_tenths : ℕ → ℕ → Option ℕ
mer_tenths high low =
    if high / 2 ^ 2 % 2 == 0
    then none
    else let raw = high % 2 ^ 2 * 2 ^ 8 + low in if raw == 0 then none else some raw
