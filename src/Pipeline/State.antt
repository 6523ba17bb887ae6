-- ===== src/Pipeline/State.antt =====
-- What MediaPipeline of src/media_pipeline.cpp keeps. `output_on` is what the output was last told by
-- `setTransmitEnabled` or `reconfigureTransmitter`. Times are milliseconds.
use wh_repeater.Common.{
  ℕ, ◌*◌, Bool, true, false, not, ◌||◌, Option, none, some, List, [], ◌∷◌, ◌==◌, text_eq,
}
use wh_repeater.Domain.{Text, ReceiverId, ActiveInput}

pub data Mode : Type 0 where
  idle retransmit analogue fallback_video fallback : Mode

-- What of the configuration the modes depend on: `capture` is the receiver of the analogue input.
pub record Config : Type 0 where
  pub fallback_enabled : Bool
  pub capture : ReceiverId

pub record MediaPipeline (D : Type 0) : Type 0 where
  pub active : Option (ActiveInput D)
  pub last_input : ℕ
  pub live_retry_after : ℕ
  pub analogue_retry_after : ℕ
  pub mode : Mode
  pub beacon_allowed : Bool
  pub transmit_enabled : Bool
  pub access_notice : Option Text
  pub access_notice_end_tone : Bool
  pub stream_indicator : Option Text
  pub session_stream_info : Option Text
  pub pending_session_stream_info : Option Text
  pub fallback_video_path : Option Text
  pub pending_fallback_video_seek : Option ℕ
  pub fallback_video_status : Option Text
  pub pending_fallback_video_status : Option Text
  pub input_queue : List ℕ
  pub output_on : Bool

abbrev pub new_pipeline : {D : Type 0} → MediaPipeline D
new_pipeline = record {
  active = none;
  last_input = 0;
  live_retry_after = 0;
  analogue_retry_after = 0;
  mode = idle;
  beacon_allowed = true;
  transmit_enabled = false;
  access_notice = none;
  access_notice_end_tone = false;
  stream_indicator = none;
  session_stream_info = none;
  pending_session_stream_info = none;
  fallback_video_path = none;
  pending_fallback_video_seek = none;
  fallback_video_status = none;
  pending_fallback_video_status = none;
  input_queue = [];
  output_on = false;
}

-- "null" and "SD analogue".
abbrev pub null_text : Text
null_text = 110 ∷ 117 ∷ 108 ∷ 108 ∷ []

abbrev pub sd_analogue : Text
sd_analogue = 83 ∷ 68 ∷ 32 ∷ 97 ∷ 110 ∷ 97 ∷ 108 ∷ 111 ∷ 103 ∷ 117 ∷ 101 ∷ []

abbrev pub is_text : Text → Option Text → Bool
is_text t none = false
is_text t (some u) = text_eq u t

unfoldable pub is_analogue_input : {D : Type 0} → Config → ActiveInput D → Bool
is_analogue_input config input =
    input.receiver == config.capture || is_text sd_analogue input.status.modulation

abbrev pub is_fallback : Mode → Bool
is_fallback fallback = true
is_fallback _ = false

abbrev pub is_fallback_video : Mode → Bool
is_fallback_video fallback_video = true
is_fallback_video _ = false

abbrev pub is_retransmit : Mode → Bool
is_retransmit retransmit = true
is_retransmit _ = false

abbrev pub is_analogue : Mode → Bool
is_analogue analogue = true
is_analogue _ = false

abbrev pub is_idle : Mode → Bool
is_idle idle = true
is_idle _ = false

abbrev pub same : Bool → Bool → Bool
same true b = b
same false b = not b

abbrev pub max_queued_bytes : ℕ
max_queued_bytes = 32 * 1024 * 1024

abbrev pub same_info : Option Text → Option Text → Bool
same_info none none = true
same_info (some t) (some u) = text_eq t u
same_info _ _ = false

abbrev pub pending_of : Option Text → Option Text
pending_of none = some null_text
pending_of (some status) = some status
