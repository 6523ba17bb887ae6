-- ===== src/Config/RateExamples.antt =====
-- The rate of a multiplex of 333 kilosymbols in QPSK with a FEC of 2/3.
use wh_repeater.Common.{ℕ, ◌*◌, ◌≤◌, false, some, [], ◌≡◌, refl, arith, text}
use wh_repeater.Common.Int.{pos}
use wh_repeater.Pluto.Sink.{PlutoConfig}
use wh_repeater.Config.Rates.{
  parse_fec, fec_fraction, constellation_bits, calculate_pluto_mux_rate_kbps,
}
use wh_repeater.Config.Rates.Mux.{exact_rate, calculate_pluto_mux_rate_kbps_lem}

abbrev qpsk : PlutoConfig
qpsk = record {
  address = text "230.10.0.1";
  port = 1234;
  mqtt_enabled = false;
  mqtt_protocol = text "tezuka";
  mqtt_device_id = [];
  callsign = text "GB3GV";
  system = text "dvbs2";
  tx_frequency_hz = 2400000000;
  symbol_rate_s = 333000;
  tx_gain_db = pos 0;
  nco_hz = pos 0;
  digital_gain_db = pos 0;
  fir_filter = false;
  pilots = false;
  frame = text "long";
  fec_mode = text "fixed";
  constellation = text "qpsk";
  fec = text "2/3";
}

calculate_pluto_mux_rate_kbps_example :
    (n : ℕ) × ((d : ℕ) × ((fec_fraction (text "2/3") ≡ some (n, d))
        × ((calculate_pluto_mux_rate_kbps qpsk ≡ some (exact_rate false 333000 2 n d))
            × (exact_rate false 333000 2 n d * 1000 ≤ 333000 * 2))))
unfolding parse_fec constellation_bits
calculate_pluto_mux_rate_kbps_example =
    calculate_pluto_mux_rate_kbps_lem qpsk 2 (omega arith) refl refl refl

rate_444 : calculate_pluto_mux_rate_kbps qpsk ≡ some 444
unfolding calculate_pluto_mux_rate_kbps fec_fraction constellation_bits
rate_444 = refl
