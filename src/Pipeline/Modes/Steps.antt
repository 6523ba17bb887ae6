-- ===== src/Pipeline/Modes/Steps.antt =====
-- Runs of MediaPipeline: what its threads do in any order.
use wh_repeater.Common.{ℕ, ◌+◌, if◌then◌else◌, ◌≤◌, Bool, Option, none, List, [], ◌∷◌, length, ◌≡◌}
use wh_repeater.Common.Int.{ℤ}
use wh_repeater.Domain.{Text, ActiveInput}
use wh_repeater.Pipeline.State.{is_analogue, Config, MediaPipeline, max_queued_bytes}
use wh_repeater.Pipeline.Modes.{
  enter_fallback_video, tick, admit, queue_input, select, set_beacon_allowed, set_access_notice,
  set_access_notice_end_tone, stop_fallback_video, seek_fallback_video, reconfigure_pluto,
  set_session_stream_info, set_fallback_video_status, take_stream_info_update,
  take_fallback_video_status_update, analogue_finished, live_finished, take_queue, video_finished,
  take_seek, acquisition_timed_out,
}

-- The sections under the mutex that change a member of the pipeline, but for the request that ends its
-- worker, in any order. A `write` is an `admitting`, and a `queueing` if the
-- packet is admitted, with other threads' sections in between.
pub data Command (D : Type 0) : Type 0 where
  selecting : Option (ActiveInput D) → Command D
  allowing_beacon : Bool → Command D
  noticing : Option Text → Bool → Command D
  ending_tone : Bool → Command D
  playing : Text → Command D
  stopping : Command D
  seeking : ℤ → Command D
  reconfiguring : Bool → Command D
  ticking : ℕ → Command D
  admitting : ℕ → ℕ → Command D
  queueing : List ℕ → Command D
  informing : Option Text → Command D
  reporting : Option Text → Command D
  taking_info : Command D
  taking_status : Command D
  ending_analogue : ℕ → Command D
  ending_live : ℕ → Option Text → Command D
  ending_video : Command D
  taking_seek : Command D
  missing_video : Option Text → Command D
  taking_queue : Command D

module _ {D : Type 0} (config : Config) where
  unfoldable pub run : Command D → MediaPipeline D → MediaPipeline D
  run (selecting input) s = select input s
  run (allowing_beacon allowed) s = set_beacon_allowed allowed s
  run (noticing notice end_tone) s = set_access_notice notice end_tone s
  run (ending_tone end_tone) s = set_access_notice_end_tone end_tone s
  run (playing path) s = enter_fallback_video path s
  run stopping s = stop_fallback_video s
  run (seeking position) s = seek_fallback_video position s
  run (reconfiguring enabled) s = reconfigure_pluto enabled s
  run (ticking now) s = tick config now s
  run (admitting now later) s = (admit now later s).0
  run (queueing packet) s = queue_input packet s
  run (informing info) s = set_session_stream_info info s
  run (reporting status) s = set_fallback_video_status status s
  run taking_info s = (take_stream_info_update s).0
  run taking_status s = (take_fallback_video_status_update s).0
  run (ending_analogue now) s = analogue_finished now s
  run (ending_live now indicator) s = live_finished now indicator s
  run ending_video s = video_finished s
  run taking_seek s = (take_seek s).0
  run (missing_video indicator) s = acquisition_timed_out indicator s
  run taking_queue s = (take_queue s).0

  unfoldable pub run_all : List (Command D) → MediaPipeline D → MediaPipeline D
  run_all [] s = s
  run_all (c ∷ cs) s = run_all cs (run c s)

-- Until when the received stream is not tried again, by what has happened: five seconds from its last end,
-- and no longer once no input is selected.
abbrev pub live_step : {D : Type 0} → Command D → ℕ → ℕ
live_step (ending_live now indicator) time = now + 5000
live_step (selecting none) time = 0
live_step c time = time

pub live_until : {D : Type 0} → ℕ → List (Command D) → ℕ
live_until time [] = time
live_until time (c ∷ cs) = live_until (live_step c time) cs

-- Until when the analogue input is not: two seconds from the last end of a capture that was found while
-- the pipeline was in analogue mode.
abbrev pub capture_step : {D : Type 0} → Command D → ℕ → Bool → ℕ
capture_step (ending_analogue now) time in_analogue = if in_analogue then now + 2000 else time
capture_step c time in_analogue = time

pub capture_until : {D : Type 0} → Config → MediaPipeline D → ℕ → List (Command D) → ℕ
capture_until config s time [] = time
capture_until config s time (c ∷ cs) =
    capture_until config (run config c s) (capture_step c time (is_analogue s.mode)) cs

-- A packet that the queue can hold at all.
abbrev pub Fits : {D : Type 0} → Command D → Type 0
Fits (queueing packet) = length packet ≤ max_queued_bytes
Fits _ = Unit

pub record Sound {D : Type 0} (s : MediaPipeline D) : Type 0 where
  pub told : s.output_on ≡ s.transmit_enabled
  pub queue_room : length s.input_queue ≤ max_queued_bytes

module _ {D : Type 0} (config : Config) where
  -- The times that the pipeline keeps after a command.
  record Keeps (c : Command D) (s s' : MediaPipeline D) : Type 0 where
    live : s'.live_retry_after ≡ live_step c s.live_retry_after
    capture : s'.analogue_retry_after ≡ capture_step c s.analogue_retry_after (is_analogue s.mode)
