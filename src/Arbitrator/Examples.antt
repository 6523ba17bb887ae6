-- ===== src/Arbitrator/Examples.antt =====
-- The arbitrator at concrete statuses.
use wh_repeater.Common.{ℕ, none, some, List, [], ◌∷◌, ◌≡◌, refl, ◌⊎◌}
use wh_repeater.Domain.{ReceiverStatus, ActiveInput, locked_dvbs, locked_dvbs2}
use wh_repeater.Samples.{tenths, sample_target, sample_status, sample_config}
use wh_repeater.Arbitrator.{
  Config, SignalArbitrator, new, choose, choose_best, best_of, consider, is_better, is_usable,
  receiver_priority, active_input,
}
use wh_repeater.Arbitrator.Choice.{Held, Scanned, choose-Held_or_Scanned, choose-sticky}

abbrev config : Config ℕ
config = record {
  receivers = sample_config 1 ∷ sample_config 2 ∷ [];
  minimum_mer_db = 20;
  minimum_d_number_db = 0;
}

-- Receiver 1 is below the minimum MER, receivers 2 and 3 are usable.
abbrev report : List (ReceiverStatus ℕ)
report =
    sample_status 1 locked_dvbs2 (some 15)
    ∷ sample_status 3 locked_dvbs (some 90)
    ∷ sample_status 2 locked_dvbs2 (some 40)
    ∷ []

abbrev chosen : ActiveInput ℕ
chosen = active_input tenths (sample_status 2 locked_dvbs2 (some 40)) sample_target

abbrev holding : SignalArbitrator ℕ
holding = record { config = config; active_receiver = some 2 }

report_choice : choose tenths (new config) report ≡ (holding, some chosen)
unfolding choose choose_best best_of consider is_better is_usable receiver_priority new
report_choice = refl

-- Later receiver 1 is strong too.
abbrev later : List (ReceiverStatus ℕ)
later = sample_status 1 locked_dvbs2 (some 120) ∷ sample_status 2 locked_dvbs2 none ∷ []

choose-Held_or_Scanned_example :
    Held tenths (new config) holding report chosen
    ⊎ Scanned tenths (new config) holding report chosen
choose-Held_or_Scanned_example =
    choose-Held_or_Scanned tenths (new config) holding report chosen report_choice

choose-sticky_example :
    (j : ActiveInput ℕ) × (choose tenths holding later ≡ (holding, some j))
    × (j.receiver ≡ 2)
    × (j.status ≡ sample_status 2 locked_dvbs2 none)
unfolding is_usable new
choose-sticky_example =
    choose-sticky tenths (new config) holding report later chosen
      (sample_status 2 locked_dvbs2 none) report_choice refl refl
