-- ===== src/Domain.antt =====
-- include/whrepeater/types.hpp, and the part of include/whrepeater/config.hpp that the other
-- modules read. `double` is a type `D` that each record takes; a `time_point` counts clock ticks
-- from the clock's epoch, and a duration is a number of the same ticks.
use wh_repeater.Common.{ℕ, Bool, true, false, Option, List, ◌≡◌}

-- `std::string`: its bytes.
abbrev pub Text : Type 0
Text = List ℕ

pub data Antenna : Type 0 where
  top bottom : Antenna

pub data DvbSystem : Type 0 where
  dvbs dvbs2 unknown : DvbSystem

pub data ReceiverState : Type 0 where
  idle searching found_header locked_dvbs locked_dvbs2 lost timeout fault : ReceiverState

pub record ScanTarget : Type 0 where
  pub frequency_khz : ℕ
  pub symbol_rate_ks : ℕ
  pub local_oscillator_khz : ℕ
  pub antenna : Antenna
  pub system : DvbSystem
  pub fec : Text
  pub label : Text

-- The wrapped `int`; receivers are numbered from 0 upwards.
abbrev pub ReceiverId : Type 0
ReceiverId = ℕ

pub record ReceiverStatus (D : Type 0) : Type 0 where
  pub receiver : ReceiverId
  pub state : ReceiverState
  pub target : Option ScanTarget
  pub mer_db : Option D
  pub d_number_db : Option D
  pub service_name : Option Text
  pub modulation : Option Text
  pub transport_packets : ℕ
  pub continuity_errors : ℕ
  pub updated_at : ℕ

pub record ActiveInput (D : Type 0) : Type 0 where
  pub receiver : ReceiverId
  pub target : ScanTarget
  pub status : ReceiverStatus D

pub record ReceiverConfig : Type 0 where
  pub receiver : ReceiverId
  pub enabled : Bool
  pub targets : List ScanTarget
  pub dwell_time : ℕ
  pub hang_time : ℕ

-- `double` under `<`, as far as the program relies on it: both laws hold for NaN too.
pub record Real : Type 1 where
  pub Carrier : Type 0
  pub zero : Carrier
  pub lt : Carrier → Carrier → Bool
  pub lt_irrefl : (a : Carrier) → lt a a ≡ false
  pub lt_trans : (a b c : Carrier) → lt a b ≡ true → lt b c ≡ true → lt a c ≡ true

-- `state == lockedDvbs || state == lockedDvbs2`.
abbrev pub is_locked : ReceiverState → Bool
is_locked locked_dvbs = true
is_locked locked_dvbs2 = true
is_locked _ = false
