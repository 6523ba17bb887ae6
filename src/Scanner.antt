-- ===== src/Scanner.antt =====
-- src/scan_scheduler.cpp: scan target rotation, dwell, lock hold and hang time. A call
-- `nim.tune(receiver, target)` is an entry of the list that `tick` returns, in the order of the calls.
pub mod Retunes
pub mod Rotation
pub mod Hang
pub mod Fleet
mod Examples
use wh_repeater.Common.{
  ℕ, zero, suc, ◌+◌, ◌%◌, Bool, true, false, not, ◌||◌, Option, none, some, List, [], ◌∷◌, ◌++◌,
  length, get_elem?, ◌==◌, ltb, leb, if◌then◌else◌, find_if,
}
use wh_repeater.Domain.{ReceiverId, ReceiverStatus, ScanTarget, ReceiverConfig, is_locked}

pub record Cursor : Type 0 where
  pub index : ℕ
  pub next_retune : ℕ
  pub hang_until : ℕ
  pub tuned : Bool
  pub was_locked : Bool

abbrev pub default_cursor : Cursor
default_cursor = record {
  index = 0;
  next_retune = 0;
  hang_until = 0;
  tuned = false;
  was_locked = false;
}

-- `cursors_[id]` adds a default entry for a missing key, so the map is a total function.
pub record ScanScheduler : Type 0 where
  pub receivers : List ReceiverConfig
  pub cursors : ReceiverId → Cursor

unfoldable pub new : List ReceiverConfig → ScanScheduler
new receivers = record { receivers = receivers; cursors = λ id. default_cursor }

-- `receiver.targets[cursor.index % receiver.targets.size()]`; `none` is a read out of range.
abbrev pub target_at : List ScanTarget → ℕ → Option ScanTarget
target_at targets index = get_elem? targets (index % length targets)

-- The last `if` of the loop's body.
unfoldable pub retune : ReceiverConfig → ℕ → Cursor → Cursor × Option ScanTarget
retune receiver now cursor =
    if not cursor.tuned || leb cursor.next_retune now
    then (
      record cursor {
        index = (cursor.index + 1) % length receiver.targets;
        next_retune = now + receiver.dwell_time;
        tuned = true;
      },
      target_at receiver.targets cursor.index,
    )
    else (cursor, none)

-- `if (cursor.wasLocked) { … }`: the signal has just been lost.
unfoldable pub begin_hang : ReceiverConfig → ℕ → Cursor → Cursor
begin_hang receiver now cursor =
    if cursor.was_locked
    then record cursor { was_locked = false; hang_until = now + receiver.hang_time }
    else cursor

-- The loop's body behind the look-up of the receiver's status, with the target it tunes to.
unfoldable pub step : ReceiverConfig → Bool → ℕ → Cursor → Cursor × Option ScanTarget
unfolding begin_hang retune
step receiver locked now cursor =
    if locked
    then (
      record cursor { was_locked = true; hang_until = 0; next_retune = now + receiver.dwell_time },
      none,
    )
    else let hung = begin_hang receiver now cursor in
      if ltb now hung.hang_until then (hung, none) else retune receiver now hung

abbrev pub no_targets : List ScanTarget → Bool
no_targets [] = true
no_targets (t ∷ ts) = false

-- `statusIt != end && isLocked(statusIt->state)`.
unfoldable pub reports_lock : {D : Type 0} → List (ReceiverStatus D) → ReceiverId → Bool
reports_lock statuses id = elim (find_if (λ s. s.receiver == id) statuses) [
  | none ↦ false
  | some status ↦ is_locked status.state
]

abbrev pub update : (ReceiverId → Cursor) → ReceiverId → Cursor → ReceiverId → Cursor
update cursors id cursor other = if other == id then cursor else cursors other

abbrev pub tune_call : ReceiverId → Option ScanTarget → List (ReceiverId × ScanTarget)
tune_call id none = []
tune_call id (some target) = (id, target) ∷ []

-- One round of the loop over the receivers.
unfoldable pub visit :
    {D : Type 0}
    → List (ReceiverStatus D)
    → ℕ
    → ReceiverConfig
    → (ReceiverId → Cursor)
    → (ReceiverId → Cursor) × List (ReceiverId × ScanTarget)
visit statuses now receiver cursors =
    if not receiver.enabled || no_targets receiver.targets
    then (cursors, [])
    else let id = receiver.receiver in
      let (cursor, target) = step receiver (reports_lock statuses id) now (cursors id) in
      (update cursors id cursor, tune_call id target)

unfoldable pub visit_all :
    {D : Type 0}
    → List (ReceiverStatus D)
    → ℕ
    → List ReceiverConfig
    → (ReceiverId → Cursor)
    → (ReceiverId → Cursor) × List (ReceiverId × ScanTarget)
visit_all statuses now [] cursors = (cursors, [])
visit_all statuses now (receiver ∷ receivers) cursors =
    let (first, calls) = visit statuses now receiver cursors in
    let (last, rest) = visit_all statuses now receivers first in (last, calls ++ rest)

unfoldable pub tick :
    {D : Type 0}
    → ScanScheduler
    → List (ReceiverStatus D)
    → ℕ
    → ScanScheduler × List (ReceiverId × ScanTarget)
tick s statuses now =
    let (cursors, calls) = visit_all statuses now s.receivers s.cursors in
    (record s { cursors = cursors }, calls)
