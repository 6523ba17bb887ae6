-- ===== src/Nim/Watch/Progress.antt =====
-- A lock counts only with recent progress of the valid packets.
use wh_repeater.Common.{
  ℕ, ◌+◌, ◌≤◌, ◌<◌, Bool, true, false, List, [], ◌∷◌, ◌≡◌, refl, ◌⊎◌, arith, ◌==◌, leb, ◌&&◌,
  if◌then◌else◌,
}
use wh_repeater.Nim.Watch.{ValidPacketWatch, refresh, baseline}

-- One poll of a locked receiver: its counter of valid packets, and the time.
abbrev pub Poll : Type 0
Poll = ℕ × ℕ

-- The watch after some polls, and the answer to the last of them.
unfoldable pub poll_all : ValidPacketWatch → Bool → List Poll → ValidPacketWatch × Bool
poll_all w answer [] = (w, answer)
poll_all w answer ((valid, now) ∷ polls) =
    let (w', fresh) = refresh w valid now in poll_all w' fresh polls

-- The times of the polls do not go back behind `t`.
abbrev pub InOrder : ℕ → List Poll → Type 0
InOrder t [] = Unit {0}
InOrder t ((valid, now) ∷ polls) = (t ≤ now) × InOrder now polls

-- The time of the last poll, or `t` of none.
abbrev pub last_time : ℕ → List Poll → ℕ
last_time t [] = t
last_time t ((valid, now) ∷ polls) = last_time now polls

-- The time of the last poll that showed another count than the one before it, or `t` of none.
abbrev pub last_change : ℕ → ℕ → List Poll → ℕ
last_change t count [] = t
last_change t count ((valid, now) ∷ polls) =
    last_change (if valid == count then t else now) valid polls

-- Whether any poll showed another count than the one before it.
abbrev pub changed : Bool → ℕ → List Poll → Bool
changed so_far count [] = so_far
changed so_far count ((valid, now) ∷ polls) =
    changed (if valid == count then so_far else true) valid polls

-- What the watch knows of the polls so far: the last count, and, while it trusts the lock, the time
-- of the last change; it stops to trust it 9 seconds after.
record Knows (count change time : ℕ) (moved : Bool) (w : ValidPacketWatch) : Type 0 where
  was_seen : w.seen ≡ true
  last_count : w.valid_packets ≡ count
  trusted : w.has_progress ≡ true → (w.last_progress ≡ change) × (moved ≡ true)
  unsuppressed : w.has_progress ≡ true → w.suppress_until ≡ 0
  untrusted : w.has_progress ≡ false → (moved ≡ false) ⊎ (change + 9000 < time)

refresh-Knows :
    (count change time valid now : ℕ) (moved : Bool) (w : ValidPacketWatch)
    → time ≤ now
    → Knows count change time moved w
    → Knows valid
        (if valid == count then change else now)
        now
        (if valid == count then moved else true)
        (refresh w valid now).0
unfolding refresh
refresh-Knows count change time valid now moved w h k = ground arith

refresh_answer :
    (count change time valid now : ℕ) (moved : Bool) (w : ValidPacketWatch)
    → time ≤ now
    → Knows count change time moved w
    → (refresh w valid now).1 ≡ (
        (if valid == count then moved else true)
        && leb now ((if valid == count then change else now) + 9000))
unfolding refresh
refresh_answer count change time valid now moved w h k = ground arith

poll_all_lem :
    (count change time : ℕ) (moved answer : Bool) (w : ValidPacketWatch) (polls : List Poll)
    → InOrder time polls
    → Knows count change time moved w
    → answer ≡ (moved && leb time (change + 9000))
    → (poll_all w answer polls).1 ≡ (
        changed moved count polls
        && leb (last_time time polls) (last_change change count polls + 9000))
unfolding poll_all
poll_all_lem count change time moved answer w [] h k e = e
poll_all_lem count change time moved answer w ((valid, now) ∷ polls) h k e =
    poll_all_lem valid (if valid == count then change else now) now
      (if valid == count then moved else true) (refresh w valid now).1 (refresh w valid now).0 polls
      h.1 (refresh-Knows count change time valid now moved w h.0 k)
      (refresh_answer count change time valid now moved w h.0 k)

-- After the baseline that each tuning takes at count `count` and time `t`, over any polls whose times
-- do not go back, a lock passes as fresh exactly when the counter of valid packets has moved since
-- and its last move was seen at most nine seconds before.
pub poll_all-baseline :
    (w : ValidPacketWatch) (preserve : Bool) (count t : ℕ) (polls : List Poll)
    → InOrder t polls
    → (poll_all (baseline w preserve count t) false polls).1
      ≡ (changed false count polls && leb (last_time t polls) (last_change t count polls + 9000))
unfolding baseline
poll_all-baseline w preserve count t polls h =
    poll_all_lem count t t false false (baseline w preserve count t) polls h (ground arith) refl
