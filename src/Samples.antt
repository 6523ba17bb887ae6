-- ===== src/Samples.antt =====
-- Concrete receivers, statuses and targets, for the tests of the other modules.
pub use wh_repeater.Common.{text}
use wh_repeater.Common.{ℕ, true, false, Option, none, some, [], ◌∷◌, ltb, ◌≡◌, arith}
use wh_repeater.Domain.{
  Real, ScanTarget, ReceiverId, ReceiverState, ReceiverStatus, ReceiverConfig, top, dvbs2,
}

-- Decibels in tenths, for concrete runs.
pub tenths_irrefl : (a : ℕ) → ltb a a ≡ false
tenths_irrefl a = ground arith

pub tenths_trans : (a b c : ℕ) → ltb a b ≡ true → ltb b c ≡ true → ltb a c ≡ true
tenths_trans a b c h k = ground arith

abbrev pub tenths : Real
tenths = record {
  Carrier = ℕ;
  zero = 0;
  lt = ltb;
  lt_irrefl = tenths_irrefl;
  lt_trans = tenths_trans;
}

abbrev pub sample_target : ScanTarget
sample_target = record {
  frequency_khz = 1249000;
  symbol_rate_ks = 333;
  local_oscillator_khz = 0;
  antenna = top;
  system = dvbs2;
  fec = text "auto";
  label = text "GB3XX";
}

-- A receiver's report with the given state and MER.
abbrev pub sample_status : ReceiverId → ReceiverState → Option ℕ → ReceiverStatus ℕ
sample_status id state mer = record {
  receiver = id;
  state = state;
  target = some sample_target;
  mer_db = mer;
  d_number_db = none;
  service_name = none;
  modulation = none;
  transport_packets = 0;
  continuity_errors = 0;
  updated_at = 0;
}

abbrev pub sample_config : ReceiverId → ReceiverConfig
sample_config id = record {
  receiver = id;
  enabled = true;
  targets = sample_target ∷ record sample_target { frequency_khz = 1255000 } ∷ [];
  dwell_time = 1500;
  hang_time = 5000;
}
