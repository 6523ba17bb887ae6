-- ===== src/Arbitrator.antt =====
-- src/signal_arbitrator.cpp: the choice of the receiver that drives the output.
pub mod Best
pub mod Choice
mod Examples
use wh_repeater.Common.{
  ℕ, zero, suc, Bool, true, false, not, ◌&&◌, ◌||◌, Option, none, some, List, [], ◌∷◌, length, ◌==◌,
  ltb, if◌then◌else◌, find_if, is_some,
}
use wh_repeater.Domain.{
  ReceiverId, ReceiverStatus, ScanTarget, ActiveInput, ReceiverConfig, Real, is_locked,
}

-- The members of `RepeaterConfig` that the arbitrator reads.
pub record Config (D : Type 0) : Type 0 where
  pub receivers : List ReceiverConfig
  pub minimum_mer_db : D
  pub minimum_d_number_db : D

pub record SignalArbitrator (D : Type 0) : Type 0 where
  pub config : Config D
  pub active_receiver : Option ReceiverId

-- The constructor: no receiver is active.
unfoldable pub new : {D : Type 0} → Config D → SignalArbitrator D
new config = record { config = config; active_receiver = none }

-- `std::distance` to the receiver's entry, or the number of entries where it has none.
unfoldable pub receiver_priority : List ReceiverConfig → ReceiverId → ℕ
receiver_priority [] id = zero
receiver_priority (c ∷ cs) id =
    let rest = receiver_priority cs id in if c.receiver == id then zero else suc rest

module _ (real : Real) where
  open real use {Carrier, lt}

  -- `value.has_value() && *value < minimum`.
  abbrev pub is_below : Option Carrier → Carrier → Bool
  is_below none minimum = false
  is_below (some v) minimum = lt v minimum

  unfoldable pub is_usable : Config Carrier → ReceiverStatus Carrier → Bool
  is_usable config status =
      if not (is_locked status.state)
      then false
      else if is_below status.mer_db config.minimum_mer_db
      then false
      else if is_below status.d_number_db config.minimum_d_number_db
      then false
      else true

  abbrev pub active_input : ReceiverStatus Carrier → ScanTarget → ActiveInput Carrier
  active_input status target = record {
    receiver = status.receiver;
    target = target;
    status = status;
  }

  -- The test and the return of `activeForReceiver`, at the entry that the search found.
  abbrev pub input_of : Config Carrier → ReceiverStatus Carrier → Option (ActiveInput Carrier)
  input_of config status =
      if is_usable config status
      then elim status.target [ none ↦ none | some target ↦ some (active_input status target) ]
      else none

  unfoldable pub active_for_receiver :
      Config Carrier → List (ReceiverStatus Carrier) → ReceiverId → Option (ActiveInput Carrier)
  active_for_receiver config statuses id = elim (find_if (λ s. s.receiver == id) statuses) [
    | none ↦ none
    | some status ↦ input_of config status
  ]

  -- `merDb.value_or(0.0)`.
  abbrev pub mer_or_zero : ReceiverStatus Carrier → Carrier
  mer_or_zero status = elim status.mer_db [ none ↦ real.zero | some v ↦ v ]

  -- The comparison of the loop: a lower place in the configuration, or the same and a higher MER.
  unfoldable pub is_better : Config Carrier → ReceiverStatus Carrier → ReceiverStatus Carrier → Bool
  is_better config status best =
      let priority = receiver_priority config.receivers status.receiver in
      let best_priority = receiver_priority config.receivers best.receiver in
      ltb priority best_priority
      || priority == best_priority && lt (mer_or_zero best) (mer_or_zero status)

  -- What one round of the loop leaves in `best`.
  unfoldable pub consider :
      Config Carrier
      → ReceiverStatus Carrier
      → Option (ReceiverStatus Carrier)
      → Option (ReceiverStatus Carrier)
  consider config status best =
      if not (is_usable config status) || not (is_some status.target) then best else elim best [
        | none ↦ some status
        | some b ↦ if is_better config status b then some status else some b
      ]

  unfoldable pub best_of :
      Config Carrier
      → Option (ReceiverStatus Carrier)
      → List (ReceiverStatus Carrier)
      → Option (ReceiverStatus Carrier)
  best_of config best [] = best
  best_of config best (status ∷ statuses) = best_of config (consider config status best) statuses

  -- What follows the loop. The loop keeps no status without a target; `*best->target` at one
  -- would be undefined, and reads as no input here.
  abbrev pub finish :
      SignalArbitrator Carrier
      → Option (ReceiverStatus Carrier)
      → SignalArbitrator Carrier × Option (ActiveInput Carrier)
  finish a none = (a, none)
  finish a (some best) = (
    record a { active_receiver = some best.receiver },
    elim best.target [ none ↦ none | some target ↦ some (active_input best target) ],
  )

  -- The scan of all the statuses, with no receiver held.
  unfoldable pub choose_best :
      SignalArbitrator Carrier
      → List (ReceiverStatus Carrier)
      → SignalArbitrator Carrier × Option (ActiveInput Carrier)
  unfolding best_of
  choose_best a statuses = finish a (best_of a.config none statuses)

  -- The held receiver, if it still has a usable signal; else the hold is dropped before the scan.
  abbrev pub choose_held :
      SignalArbitrator Carrier
      → List (ReceiverStatus Carrier)
      → Option (ActiveInput Carrier)
      → SignalArbitrator Carrier × Option (ActiveInput Carrier)
  choose_held a statuses none = choose_best (record a { active_receiver = none }) statuses
  choose_held a statuses (some active) = (a, some active)

  abbrev pub choose_from :
      SignalArbitrator Carrier
      → List (ReceiverStatus Carrier)
      → Option ReceiverId
      → SignalArbitrator Carrier × Option (ActiveInput Carrier)
  choose_from a statuses none = choose_best a statuses
  choose_from a statuses (some id) =
      choose_held a statuses (active_for_receiver a.config statuses id)

  unfoldable pub choose :
      SignalArbitrator Carrier
      → List (ReceiverStatus Carrier)
      → SignalArbitrator Carrier × Option (ActiveInput Carrier)
  choose a statuses = choose_from a statuses a.active_receiver
