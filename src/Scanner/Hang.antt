-- ===== src/Scanner/Hang.antt =====
-- Lock hold, hang time and the return to the scan.
use wh_repeater.Common.{
  ℕ, ◌+◌, ◌≤◌, ◌<◌, Bool, true, false, Option, none, some, List, [], ◌∷◌, length, ◌≡◌, ◌≢◌, refl,
  ap, sym, ◌∙◌, ◌⊎◌, inl, inr, arith, All,
}
use wh_repeater.Domain.{ScanTarget, ReceiverConfig}
use wh_repeater.Scanner.{Cursor, default_cursor, target_at, step}
use wh_repeater.Scanner.Retunes.{Observation, InOrder, watch, record_call}
use wh_repeater.Scanner.Rotation.{target_at-some}

-- While the hang time of `receiver` lasts.
Hangs : ℕ → Cursor → Type 0
Hangs until c = (c.was_locked ≡ false) × (c.hang_until ≡ until)

step_hanging :
    (receiver : ReceiverConfig) (until now : ℕ) (c : Cursor)
    → now < until
    → Hangs until c
    → ((step receiver false now c).1 ≡ none) × Hangs until (step receiver false now c).0
unfolding step Hangs
step_hanging receiver until now c h k = ground arith

step_lost :
    (receiver : ReceiverConfig) (now : ℕ) (c : Cursor)
    → 0 < receiver.hang_time
    → c.was_locked ≡ true
    → ((step receiver false now c).1 ≡ none)
      × Hangs (now + receiver.hang_time) (step receiver false now c).0
unfolding step Hangs
step_lost receiver now c h k = ground arith

step_locked :
    (receiver : ReceiverConfig) (now : ℕ) (c : Cursor)
    → ((step receiver true now c).1 ≡ none) × ((step receiver true now c).0.was_locked ≡ true)
unfolding step
step_locked receiver now c = (refl, refl)

watch_hanging :
    (receiver : ReceiverConfig) (until : ℕ) (c : Cursor) (os : List Observation)
    → Hangs until c
    → All (λ o. (o.0 ≡ false) × (o.1 < until)) os
    → (watch receiver c os).1 ≡ []
unfolding watch
watch_hanging receiver until c [] k h = refl
watch_hanging receiver until c ((true, now) ∷ os) k h = cc (h.0.0)
watch_hanging receiver until c ((false, now) ∷ os) k h =
    let (quiet, still) = step_hanging receiver until now c h.0.1 k in
    ap (λ o. record_call now o (watch receiver (step receiver false now c).0 os).1) quiet
    ∙ watch_hanging receiver until (step receiver false now c).0 os still h.1

-- A lock that is seen at each of the times, before the rest of a history.
abbrev pub held_at : List ℕ → List Observation → List Observation
held_at [] os = os
held_at (now ∷ times) os = (true, now) ∷ held_at times os

watch_held :
    (receiver : ReceiverConfig) (c : Cursor) (times : List ℕ) (t : ℕ) (os : List Observation)
    → 0 < receiver.hang_time
    → c.was_locked ≡ true
    → All (λ o. (o.0 ≡ false) × (o.1 < t + receiver.hang_time)) os
    → (watch receiver c (held_at times ((false, t) ∷ os))).1 ≡ []
unfolding watch
watch_held receiver c [] t os h k q =
    let (quiet, hung) = step_lost receiver t c h k in
    ap (λ o. record_call t o (watch receiver (step receiver false t c).0 os).1) quiet
    ∙ watch_hanging receiver (t + receiver.hang_time) (step receiver false t c).0 os hung q
watch_held receiver c (now ∷ times) t os h k q =
    let (quiet, held) = step_locked receiver now c in
    ap
      (λ o.
        record_call now o
          (watch receiver (step receiver true now c).0 (held_at times ((false, t) ∷ os))).1)
      quiet
    ∙ watch_held receiver (step receiver true now c).0 times t os h held q

-- A receiver that reports a lock is not retuned, nor is it from the loss of the lock at `t` until
-- its hang time has passed, whatever the cursor was before.
pub watch-locked_quiet :
    (receiver : ReceiverConfig) (c : Cursor) (now : ℕ) (times : List ℕ) (t : ℕ)
    (os : List Observation)
    → 0 < receiver.hang_time
    → All (λ o. (o.0 ≡ false) × (o.1 < t + receiver.hang_time)) os
    → (watch receiver c ((true, now) ∷ held_at times ((false, t) ∷ os))).1 ≡ []
unfolding watch
watch-locked_quiet receiver c now times t os h q =
    let (quiet, held) = step_locked receiver now c in
    ap
      (λ o.
        record_call now o
          (watch receiver (step receiver true now c).0 (held_at times ((false, t) ∷ os))).1)
      quiet
    ∙ watch_held receiver (step receiver true now c).0 times t os h held q

-- Nothing that a receiver waits for lies further ahead than its dwell or hang time.
record Near (receiver : ReceiverConfig) (t : ℕ) (c : Cursor) : Type 0 where
  near_retune : c.next_retune ≤ t + receiver.dwell_time
  near_hang : c.hang_until ≤ t + receiver.hang_time

step-Near :
    (receiver : ReceiverConfig) (t now : ℕ) (locked : Bool) (c : Cursor)
    → t ≤ now
    → Near receiver t c
    → Near receiver now (step receiver locked now c).0
unfolding step
step-Near receiver t now locked c h n = ground arith

-- The time of the last observation, or `t` of none.
abbrev pub last_time : ℕ → List Observation → ℕ
last_time t [] = t
last_time t ((locked, now) ∷ os) = last_time now os

watch-Near :
    (receiver : ReceiverConfig) (t : ℕ) (c : Cursor) (os : List Observation)
    → InOrder t os
    → Near receiver t c
    → Near receiver (last_time t os) (watch receiver c os).0
unfolding watch
watch-Near receiver t c [] h n = n
watch-Near receiver t c ((locked, now) ∷ os) h n =
    watch-Near receiver now (step receiver locked now c).0 os h.1
      (step-Near receiver t now locked c h.0 n)

step_after_loss :
    (receiver : ReceiverConfig) (t a b : ℕ) (c : Cursor)
    → Near receiver t c
    → t ≤ a
    → a + receiver.dwell_time ≤ b
    → a + receiver.hang_time ≤ b
    → let r = step receiver false a c in
      (r.1 ≢ none) ⊎ ((step receiver false b r.0).1 ≡ target_at receiver.targets r.0.index)
unfolding step
step_after_loss receiver t a b c n h k l = ground arith

default_Near : (receiver : ReceiverConfig) → Near receiver 0 default_cursor
default_Near receiver = ground arith

record_call-ne-nil :
    (a b : ℕ) (o p : Option ScanTarget)
    → (o ≢ none) ⊎ ((t : ScanTarget) × (p ≡ some t))
    → record_call a o (record_call b p []) ≢ []
record_call-ne-nil a b none p (inl h) = absurd (h refl)
record_call-ne-nil a b none p (inr (t, e)) = λ q. cc (ap (λ s. record_call b s []) (sym e) ∙ q)
record_call-ne-nil a b (some s) p h = λ q. cc

-- After any history, a receiver that shows no lock at `a` and again at `b`, with its dwell time and
-- its hang time passed in between, has been tuned to a target by then: no state keeps the scan from
-- going on.
pub watch-live :
    (receiver : ReceiverConfig) (os : List Observation) (a b : ℕ)
    → 0 < length receiver.targets
    → InOrder 0 os
    → last_time 0 os ≤ a
    → a + receiver.dwell_time ≤ b
    → a + receiver.hang_time ≤ b
    → (watch receiver (watch receiver default_cursor os).0 ((false, a) ∷ (false, b) ∷ [])).1 ≢ []
unfolding watch
watch-live receiver os a b h ord last k l =
    let c = (watch receiver default_cursor os).0 in
    let near = watch-Near receiver 0 default_cursor os ord (default_Near receiver) in
    let first = step receiver false a c in
    let second = step receiver false b first.0 in
    record_call-ne-nil a b first.1 second.1 (
      called (step_after_loss receiver (last_time 0 os) a b c near last k l)
        (target_at-some receiver.targets first.0.index h))
  where
    called :
        {o p q : Option ScanTarget}
        → (o ≢ none) ⊎ (p ≡ q)
        → (t : ScanTarget) × (q ≡ some t)
        → (o ≢ none) ⊎ ((t : ScanTarget) × (p ≡ some t))
    called (inl made) there = inl made
    called (inr same) (t, there) = inr (t, same ∙ there)
