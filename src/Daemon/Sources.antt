-- ===== src/Daemon/Sources.antt =====
-- The choice between the tuners and the analogue input in the loop of src/daemon.cpp, in a build that
-- has the media pipeline.
pub mod Priority
pub mod Hold
pub mod Debounce
use wh_repeater.Common.{
  ℕ, ◌+◌, ◌-◌, Bool, true, false, not, ◌&&◌, Option, none, some, List, [], ◌∷◌, ltb, ◌==◌, is_some,
  if◌then◌else◌,
}
use wh_repeater.Domain.{ReceiverId, ReceiverConfig, ActiveInput}

abbrev pub analogue_sync_debounce : ℕ
analogue_sync_debounce = 1500

pub data ActiveSourceFamily : Type 0 where
  nim_or_gateway analogue : ActiveSourceFamily

-- The debounce of the analogue lock: the new `analogueLockedSince`, and the lock that passes.
unfoldable pub gate : Option ℕ → Bool → ℕ → Option ℕ × Bool
gate locked_since false now = (none, false)
gate none true now = (some now, not (ltb (now - now) analogue_sync_debounce))
gate (some since) true now = (some since, not (ltb (now - since) analogue_sync_debounce))

unfoldable pub hang_time_for_receiver : List ReceiverConfig → ReceiverId → ℕ
hang_time_for_receiver [] receiver = 5000
hang_time_for_receiver (entry ∷ entries) receiver =
    if entry.receiver == receiver then entry.hang_time else hang_time_for_receiver entries receiver

pub record Selection (D : Type 0) : Type 0 where
  pub active : Option (ActiveInput D)
  pub family : Option ActiveSourceFamily
  pub held : Option (ActiveInput D)
  pub held_until : ℕ

abbrev pub no_selection : {D : Type 0} → Selection D
no_selection = record { active = none; family = none; held = none; held_until = 0 }

-- What the loop's locals and configuration give a round: `capture` is the receiver number of the
-- analogue input.
pub record Round (D : Type 0) : Type 0 where
  pub receivers : List ReceiverConfig
  pub capture : ReceiverId
  pub now : ℕ
  pub nim_active : Option (ActiveInput D)
  pub analogue_active : Option (ActiveInput D)

module _ {D : Type 0} where
  -- The analogue family goes on with its input, or with the held one while its time lasts.
  abbrev pub keep_analogue : Round D → Selection D → Selection D
  keep_analogue round s = elim (round.analogue_active) [
    | some a ↦ record s { active = some a }
    | none ↦
        if is_some s.held && ltb round.now s.held_until
        then record s { active = s.held }
        else record s { active = none; held = none; family = none }
  ]

  abbrev pub keep_nim : Round D → Selection D → Selection D
  keep_nim round s = elim (round.nim_active) [
    | some a ↦ record s { active = some a }
    | none ↦ record s { active = none; family = none }
  ]

  -- The first `if` chain: does the family of the last round go on?
  abbrev pub keep_family : Option ActiveSourceFamily → Round D → Selection D → Selection D
  keep_family none round s = record s { active = none }
  keep_family (some nim_or_gateway) round s = keep_nim round s
  keep_family (some analogue) round s = keep_analogue round s

  abbrev pub hold : Round D → ActiveInput D → Selection D → Selection D
  hold round a s = record s {
    held = some a;
    held_until = round.now + hang_time_for_receiver round.receivers a.receiver;
  }

  abbrev pub take_analogue : Round D → Selection D → Selection D
  take_analogue round s = elim (round.analogue_active) [
    | some a ↦ hold round a (record s { active = some a; family = some analogue })
    | none ↦ s
  ]

  abbrev pub take_any : Round D → Selection D → Selection D
  take_any round s = elim (round.nim_active) [
    | some a ↦ record s { active = some a; family = some nim_or_gateway; held = none }
    | none ↦ take_analogue round s
  ]

  abbrev pub hold_again : Round D → Selection D → Selection D
  hold_again round s = elim (round.analogue_active) [ some a ↦ hold round a s | none ↦ s ]

  -- The second `if` chain: a family is taken when none is left, and the hold is renewed.
  abbrev pub take_family :
      Option (ActiveInput D) → Option ActiveSourceFamily → Round D → Selection D → Selection D
  take_family none none round s = take_any round s
  take_family active (some analogue) round s = hold_again round s
  take_family active family round s = s

  -- The two statements behind the selection.
  abbrev pub settle : Option (ActiveInput D) → Round D → Selection D → Selection D
  settle none round s = record s { family = none }
  settle (some a) round s =
      if not (a.receiver == round.capture) then record s { held = none } else s

  unfoldable pub select : Round D → Selection D → Selection D
  select round s =
      let kept = keep_family s.family round s in
      let taken = take_family kept.active kept.family round kept in settle taken.active round taken
