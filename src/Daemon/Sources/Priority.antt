-- ===== src/Daemon/Sources/Priority.antt =====
-- The order in which a round prefers its inputs.
use wh_repeater.Common.{Option, none, some, is_some, ltb, if◌then◌else◌, ◌≡◌, arith}
use wh_repeater.Domain.{ActiveInput}
use wh_repeater.Daemon.Sources.{ActiveSourceFamily, analogue, Selection, Round, select}

abbrev pub or_else {ℓ} : {A : Type ℓ} → Option A → Option A → Option A
or_else none b = b
or_else (some a) b = some a

module _ {D : Type 0} where
  -- The held input, while its time lasts.
  abbrev pub still_held : Round D → Selection D → Option (ActiveInput D)
  still_held round s = if ltb round.now s.held_until then s.held else none

  abbrev pub preferred : Option ActiveSourceFamily → Round D → Selection D → Option (ActiveInput D)
  preferred (some analogue) round s =
      or_else round.analogue_active (or_else (still_held round s) round.nim_active)
  preferred family round s = or_else round.nim_active round.analogue_active

  -- A round whose last family is the analogue one gives the analogue input, else the input that is
  -- held while its time lasts, else the tuners' one; every other round gives the tuners' input, else
  -- the analogue one. A family is remembered exactly when there is an input.
  pub select-active :
      (round : Round D) (s : Selection D)
      → ((select round s).active ≡ preferred s.family round s)
        × (is_some (select round s).family ≡ is_some (preferred s.family round s))
  unfolding select
  select-active round s = ground arith
