-- ===== src/Nim/Tuner/Examples.antt =====
-- The tuner's settings at concrete frequencies.
use wh_repeater.Common.{◌+◌, ◌*◌, ◌^◌, ◌≤◌, ◌<◌, ◌≡◌, refl, arith}
use wh_repeater.Nim.Tuner.{
  synthesise, divider_for_frequency, charge_pump_for_vco, high_pass_filter_for_frequency,
  count_reaching,
}
use wh_repeater.Nim.Tuner.Pll.{vco_of, synthesise_exact}

synthesise_exact_example :
    let s = synthesise 437000 in
    (s.n < 2 ^ 9)
    × (s.f < 2 ^ 18)
    × ((s.n * 2 ^ 18 + s.f) * 30000 ≤ 2 * vco_of 437000 * 2 ^ 18)
    × (2 * vco_of 437000 * 2 ^ 18 < (s.n * 2 ^ 18 + s.f + 1) * 30000)
synthesise_exact_example = synthesise_exact 437000 (omega arith) (omega arith)

synthesise_run :
    synthesise 437000 ≡ record { p = 2; vco = 3496000; n = 233; f = 17476; icp = 5; cfhf = 17 }
unfolding synthesise divider_for_frequency charge_pump_for_vco high_pass_filter_for_frequency
    count_reaching
synthesise_run = refl
