-- ===== src/Nim/Watch.antt =====
-- `validTransportFresh` and `baselineValidPacketWatch` of src/nim_controller.cpp: whether a locked
-- receiver has delivered valid packets lately. A tick of the clock is a millisecond; a difference of
-- times that would be negative is 0 here, which passes and fails the same tests.
pub mod Progress
mod Examples
use wh_repeater.Common.{
  ℕ, ◌+◌, ◌-◌, Bool, true, false, not, ◌||◌, List, [], ◌∷◌, ◌==◌, ltb, leb, if◌then◌else◌,
}

abbrev pub valid_transport_timeout : ℕ
valid_transport_timeout = 1500

abbrev pub stale_transport_lock_grace : ℕ
stale_transport_lock_grace = 7500

abbrev pub false_lock_suppress_duration : ℕ
false_lock_suppress_duration = 5000

pub record ValidPacketWatch : Type 0 where
  pub valid_packets : ℕ
  pub last_progress : ℕ
  pub suppress_until : ℕ
  pub seen : Bool
  pub has_progress : Bool

abbrev pub default_watch : ValidPacketWatch
default_watch = record {
  valid_packets = 0;
  last_progress = 0;
  suppress_until = 0;
  seen = false;
  has_progress = false;
}

-- The function behind its test of the index, for the watch of one receiver.
unfoldable pub refresh : ValidPacketWatch → ℕ → ℕ → ValidPacketWatch × Bool
refresh w valid_packets now =
    if not w.seen
    then (record w { seen = true; valid_packets = valid_packets; last_progress = now }, false)
    else if not (valid_packets == w.valid_packets)
    then (
      record w {
        valid_packets = valid_packets;
        last_progress = now;
        suppress_until = 0;
        has_progress = true;
      },
      true,
    )
    else if not w.has_progress
    then (
      if ltb valid_transport_timeout (now - w.last_progress)
          then record w { suppress_until = now + false_lock_suppress_duration }
          else w,
      false,
    )
    else if ltb now w.suppress_until
    then (w, false)
    else if ltb valid_transport_timeout (now - w.last_progress)
    then if leb (now - w.last_progress) (valid_transport_timeout + stale_transport_lock_grace)
      then (w, true)
      else (
        record w { suppress_until = now + false_lock_suppress_duration; has_progress = false },
        false,
      )
    else (w, true)

abbrev pub update : (ℕ → ValidPacketWatch) → ℕ → ValidPacketWatch → ℕ → ValidPacketWatch
update watches i w j = if j == i then w else watches j

-- The array of the watches is a function of the index.
unfoldable pub valid_transport_fresh :
    (ℕ → ValidPacketWatch) → ℕ → ℕ → ℕ → (ℕ → ValidPacketWatch) × Bool
valid_transport_fresh watches receiver valid_packets now =
    if receiver == 0 || ltb 4 receiver
    then (watches, false)
    else let i = receiver - 1 in
      let (w, fresh) = refresh (watches i) valid_packets now in (update watches i w, fresh)

-- The new watch of a receiver whose counter stands at `valid_packets`.
unfoldable pub baseline : ValidPacketWatch → Bool → ℕ → ℕ → ValidPacketWatch
baseline w preserve_suppression valid_packets now = record {
  valid_packets = valid_packets;
  last_progress = now;
  suppress_until = if preserve_suppression then w.suppress_until else 0;
  seen = true;
  has_progress = false;
}

unfoldable pub baseline_valid_packet_watch :
    (ℕ → ValidPacketWatch) → ℕ → Bool → ℕ → ℕ → ℕ → ValidPacketWatch
baseline_valid_packet_watch watches receiver preserve_suppression valid_packets now =
    if receiver == 0 || ltb 4 receiver
    then watches
    else let i = receiver - 1 in
      update watches i (baseline (watches i) preserve_suppression valid_packets now)
