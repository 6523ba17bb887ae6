-- ===== src/Pipeline/Modes.antt =====
-- The modes of MediaPipeline in src/media_pipeline.cpp. Each section under the mutex is a step, so that a
-- sequence of them stands for any interleaving of the threads. Of the output's calls only those that
-- switch the transmitter are kept; the encoders and the waiting are left out.
pub mod Decision
pub mod Steps
pub mod Video
use wh_repeater.Common.{
  ℕ, zero, suc, ◌+◌, ◌*◌, Bool, true, false, not, ◌&&◌, ◌||◌, Option, none, some, List, [], ◌∷◌,
  ◌++◌, is_some, length, ltb, ◌==◌, if◌then◌else◌, text_eq, max,
}
use wh_repeater.Common.Int.{ℤ, pos_part}
use wh_repeater.Domain.{Text, ReceiverId, ActiveInput}
use wh_repeater.Pipeline.State.{
  Mode, idle, retransmit, analogue, fallback_video, fallback, Config, MediaPipeline, null_text,
  is_analogue_input, is_fallback, is_fallback_video, is_retransmit, is_analogue, is_idle, same,
  max_queued_bytes, same_info, pending_of,
}

module _ {D : Type 0} where
  -- `beaconAllowed_ || accessNotice_.has_value()`.
  abbrev pub beacon_or_notice : MediaPipeline D → Bool
  beacon_or_notice s = s.beacon_allowed || is_some s.access_notice

  unfoldable pub enter_retransmit : ℕ → MediaPipeline D → MediaPipeline D
  enter_retransmit now s = if is_retransmit s.mode && s.transmit_enabled then s else record s {
    last_input = now;
    mode = retransmit;
    transmit_enabled = true;
    stream_indicator = none;
    output_on = true;
  }

  unfoldable pub enter_analogue : ℕ → MediaPipeline D → MediaPipeline D
  enter_analogue now s = if is_analogue s.mode && s.transmit_enabled then s else record s {
    last_input = now;
    input_queue = [];
    mode = analogue;
    transmit_enabled = true;
    output_on = true;
  }

  unfoldable pub enter_fallback_video : Text → MediaPipeline D → MediaPipeline D
  enter_fallback_video path s = if length path == 0 then s else record s {
    input_queue = [];
    fallback_video_path = some path;
    pending_fallback_video_seek = none;
    fallback_video_status = none;
    pending_fallback_video_status = some null_text;
    mode = fallback_video;
    transmit_enabled = true;
    output_on = true;
  }

  unfoldable pub enter_fallback : Bool → MediaPipeline D → MediaPipeline D
  enter_fallback transmit s =
      if is_fallback s.mode && same s.transmit_enabled transmit then s else record s {
        input_queue = [];
        pending_fallback_video_seek = none;
        fallback_video_status = none;
        pending_fallback_video_status = some null_text;
        mode = fallback;
        transmit_enabled = transmit;
        output_on = transmit;
      }

  unfoldable pub enter_idle : MediaPipeline D → MediaPipeline D
  enter_idle s =
      if is_idle s.mode
      then s
      else record s { mode = idle; transmit_enabled = false; output_on = false }

  -- What both `tick` and `write` do first when an input is active.
  unfoldable pub drop_video : MediaPipeline D → MediaPipeline D
  drop_video s =
      if is_fallback_video s.mode
      then record s {
        fallback_video_path = none;
        pending_fallback_video_seek = none;
        fallback_video_status = none;
        pending_fallback_video_status = some null_text;
      }
      else s

  -- The branch of `tick` for an active input.
  unfoldable pub tick_input : Config → ℕ → ActiveInput D → MediaPipeline D → MediaPipeline D
  tick_input config now input s =
      if is_analogue_input config input
      then if ltb now s.analogue_retry_after
        then enter_fallback (beacon_or_notice s) s
        else enter_analogue now s
      else if ltb now s.live_retry_after
      then enter_fallback true s
      else enter_retransmit now s

  -- And with none, which leaves a video alone.
  unfoldable pub tick_alone : Config → MediaPipeline D → MediaPipeline D
  tick_alone config s =
      if is_fallback_video s.mode
      then s
      else if config.fallback_enabled
      then enter_fallback (beacon_or_notice s) s
      else enter_idle s

  abbrev pub tick_with : Config → ℕ → Option (ActiveInput D) → MediaPipeline D → MediaPipeline D
  tick_with config now none s = tick_alone config s
  tick_with config now (some input) s = tick_input config now input (drop_video s)

  unfoldable pub tick : Config → ℕ → MediaPipeline D → MediaPipeline D
  tick config now s = tick_with config now s.active s

  -- The section of `write` under its own lock, with its two readings of the clock: the new state, and
  -- whether the packet goes on to `queueInput`.
  unfoldable pub admit : ℕ → ℕ → MediaPipeline D → MediaPipeline D × Bool
  admit now later s =
      if not (is_some s.active)
      then (s, false)
      else if ltb now s.live_retry_after
      then (drop_video s, false)
      else (enter_retransmit later (record (drop_video s) { last_input = later }), true)

  unfoldable pub queue_input : List ℕ → MediaPipeline D → MediaPipeline D
  queue_input packet s =
      let queue =
        if ltb max_queued_bytes (length s.input_queue + length packet) then [] else s.input_queue in
      record s { input_queue = queue ++ packet }

  unfoldable pub select : Option (ActiveInput D) → MediaPipeline D → MediaPipeline D
  select none s = record s {
    active = none;
    stream_indicator = none;
    session_stream_info = none;
    pending_session_stream_info = none;
    live_retry_after = 0;
  }
  select (some input) s = record s { active = some input }

  unfoldable pub set_beacon_allowed : Bool → MediaPipeline D → MediaPipeline D
  set_beacon_allowed allowed s = record s { beacon_allowed = allowed }

  unfoldable pub set_access_notice : Option Text → Bool → MediaPipeline D → MediaPipeline D
  set_access_notice notice end_tone s = record s {
    access_notice = notice;
    access_notice_end_tone = is_some notice && end_tone;
  }

  unfoldable pub set_access_notice_end_tone : Bool → MediaPipeline D → MediaPipeline D
  set_access_notice_end_tone end_tone s = record s {
    access_notice_end_tone = is_some s.access_notice && end_tone;
  }

  unfoldable pub stop_fallback_video : MediaPipeline D → MediaPipeline D
  stop_fallback_video s =
      if not (is_fallback_video s.mode)
      then s
      else enter_fallback (beacon_or_notice s) (record s {
        fallback_video_path = none;
        pending_fallback_video_seek = none;
        fallback_video_status = none;
        pending_fallback_video_status = some null_text;
      })

  unfoldable pub seek_fallback_video : ℤ → MediaPipeline D → MediaPipeline D
  seek_fallback_video position s = record s {
    pending_fallback_video_seek = some (pos_part position);
  }

  unfoldable pub reconfigure_pluto : Bool → MediaPipeline D → MediaPipeline D
  reconfigure_pluto enabled s = record s { transmit_enabled = enabled; output_on = enabled }

  unfoldable pub set_session_stream_info : Option Text → MediaPipeline D → MediaPipeline D
  set_session_stream_info info s =
      if same_info s.session_stream_info info
      then s
      else record s { session_stream_info = info; pending_session_stream_info = info }

  unfoldable pub set_fallback_video_status : Option Text → MediaPipeline D → MediaPipeline D
  set_fallback_video_status status s =
      if same_info s.fallback_video_status status
        && same_info s.pending_fallback_video_status (pending_of status)
      then s
      else record s {
        fallback_video_status = status;
        pending_fallback_video_status = pending_of status;
      }

  unfoldable pub take_stream_info_update : MediaPipeline D → MediaPipeline D × Option Text
  take_stream_info_update s =
      (record s { pending_session_stream_info = none }, s.pending_session_stream_info)

  unfoldable pub take_fallback_video_status_update : MediaPipeline D → MediaPipeline D × Option Text
  take_fallback_video_status_update s =
      (record s { pending_fallback_video_status = none }, s.pending_fallback_video_status)

  -- The worker finds that the analogue capture has ended.
  unfoldable pub analogue_finished : ℕ → MediaPipeline D → MediaPipeline D
  analogue_finished now s =
      if is_analogue s.mode
      then record s {
        analogue_retry_after = now + 2000;
        mode = fallback;
        transmit_enabled = beacon_or_notice s;
        output_on = beacon_or_notice s;
      }
      else s

  -- The worker finds that the playback of the video has ended.
  unfoldable pub video_finished : MediaPipeline D → MediaPipeline D
  video_finished s =
      if is_fallback_video s.mode
      then record s {
        fallback_video_path = none;
        mode = fallback;
        transmit_enabled = beacon_or_notice s;
        output_on = beacon_or_notice s;
      }
      else s

  -- It takes the seek that waits, at the start of its round.
  unfoldable pub take_seek : MediaPipeline D → MediaPipeline D × Option ℕ
  take_seek s = (record s { pending_fallback_video_seek = none }, s.pending_fallback_video_seek)

  -- It finds that no video could be decoded for too long, with what it then shows of the input of its
  -- round, if there is one.
  unfoldable pub acquisition_timed_out : Option Text → MediaPipeline D → MediaPipeline D
  acquisition_timed_out none s = s
  acquisition_timed_out (some indicator) s = record s { stream_indicator = some indicator }

  -- It finds that the transcoder of the received stream has ended, with what it then shows.
  unfoldable pub live_finished : ℕ → Option Text → MediaPipeline D → MediaPipeline D
  live_finished now indicator s = record s {
    live_retry_after = now + 5000;
    stream_indicator = indicator;
    mode = fallback;
    transmit_enabled = true;
    output_on = true;
    input_queue = [];
  }

  -- It takes what is queued for the transcoder.
  unfoldable pub take_queue : MediaPipeline D → MediaPipeline D × List ℕ
  take_queue s = (record s { input_queue = [] }, s.input_queue)
