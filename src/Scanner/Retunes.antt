-- ===== src/Scanner/Retunes.antt =====
-- One receiver of the scan scheduler, over a history of ticks.
use wh_repeater.Common.{
  ℕ, ◌+◌, ◌≤◌, Bool, true, false, Option, none, some, List, [], ◌∷◌, ◌≡◌, arith,
}
use wh_repeater.Domain.{ScanTarget, ReceiverConfig}
use wh_repeater.Scanner.{Cursor, default_cursor, step}

-- What the scheduler sees of a receiver at one tick: whether it reports a lock, and the time.
abbrev pub Observation : Type 0
Observation = Bool × ℕ

abbrev pub record_call : ℕ → Option ScanTarget → List (ℕ × ScanTarget) → List (ℕ × ScanTarget)
record_call now none calls = calls
record_call now (some target) calls = (now, target) ∷ calls

-- The calls of `tune` for one receiver over a history, each with its time.
unfoldable pub watch : ReceiverConfig → Cursor → List Observation → Cursor × List (ℕ × ScanTarget)
watch receiver cursor [] = (cursor, [])
watch receiver cursor ((locked, now) ∷ os) =
    let (cursor', target) = step receiver locked now cursor in
    let (last, rest) = watch receiver cursor' os in (last, record_call now target rest)

-- The times of a history do not go back behind `t`.
abbrev pub InOrder : ℕ → List Observation → Type 0
InOrder t [] = Unit {0}
InOrder t ((locked, now) ∷ os) = (t ≤ now) × InOrder now os

-- The first call is not before `earliest`, and each later one at least `dwell` after the last.
abbrev pub Spaced : ℕ → ℕ → List (ℕ × ScanTarget) → Type 0
Spaced dwell earliest [] = Unit {0}
Spaced dwell earliest ((now, t) ∷ calls) = (earliest ≤ now) × Spaced dwell (now + dwell) calls

-- No call is due before `earliest`, seen at time `t`.
record Waits (receiver : ReceiverConfig) (earliest t : ℕ) (c : Cursor) : Type 0 where
  near : earliest ≤ t + receiver.dwell_time
  due : c.tuned ≡ true → earliest ≤ c.next_retune
  untuned : c.tuned ≡ false → earliest ≤ t

-- After a step at `now`, with the call that it made.
After : ReceiverConfig → ℕ → ℕ → Cursor × Option ScanTarget → Type 0
After receiver earliest now (c, none) = Waits receiver earliest now c
After receiver earliest now (c, some t) =
    (earliest ≤ now) × Waits receiver (now + receiver.dwell_time) now c

step-After :
    (receiver : ReceiverConfig) (earliest t now : ℕ) (locked : Bool) (c : Cursor)
    → t ≤ now
    → Waits receiver earliest t c
    → After receiver earliest now (step receiver locked now c)
unfolding step After
step-After receiver earliest t now locked c h w = ground arith

watch-Spaced :
    (receiver : ReceiverConfig) (earliest t : ℕ) (c : Cursor) (os : List Observation)
    → InOrder t os
    → Waits receiver earliest t c
    → Spaced receiver.dwell_time earliest (watch receiver c os).1
unfolding watch After
watch-Spaced receiver earliest t c [] h w = tt
watch-Spaced receiver earliest t c ((locked, now) ∷ os) h w =
    let r = step receiver locked now c in
    split (r.1) (step-After receiver earliest t now locked c h.0 w)
      (λ e. watch-Spaced receiver e now r.0 os h.1)
  where
    split :
        (o : Option ScanTarget)
        → After receiver earliest now ((step receiver locked now c).0, o)
        → ((e : ℕ)
            → Waits receiver e now (step receiver locked now c).0
            → Spaced receiver.dwell_time e (watch receiver (step receiver locked now c).0 os).1)
        → Spaced receiver.dwell_time earliest
            (record_call now o (watch receiver (step receiver locked now c).0 os).1)
    split none a rest = rest earliest a
    split (some target) a rest = (a.0, rest (now + receiver.dwell_time) a.1)

default_Waits : (receiver : ReceiverConfig) → Waits receiver 0 0 default_cursor
default_Waits receiver = ground arith

-- From a fresh scheduler on, over any history whose times do not go back, two calls of `tune` for a
-- receiver are at least its dwell time apart, whatever locks and losses come between.
pub watch-default-Spaced :
    (receiver : ReceiverConfig) (os : List Observation)
    → InOrder 0 os
    → Spaced receiver.dwell_time 0 (watch receiver default_cursor os).1
watch-default-Spaced receiver os h =
    watch-Spaced receiver 0 0 default_cursor os h (default_Waits receiver)
