-- ===== src/Media/State.antt =====
-- What MediaProcess of src/media_process.cpp keeps: its message types and limits, what its system calls
-- answer, and its members.
use wh_repeater.Common.{ℕ, ◌*◌, Bool, Option, ◌==◌, if◌then◌else◌}
use wh_repeater.Domain.{Text}
use wh_repeater.Media.Payload.{Bytes}

abbrev pub shutdown : ℕ
shutdown = 1

abbrev pub select_message : ℕ
select_message = 2

abbrev pub beacon_message : ℕ
beacon_message = 3

abbrev pub notice_message : ℕ
notice_message = 4

abbrev pub play_fallback_video_message : ℕ
play_fallback_video_message = 5

abbrev pub stop_fallback_video_message : ℕ
stop_fallback_video_message = 6

abbrev pub tick_message : ℕ
tick_message = 7

abbrev pub transport_stream_message : ℕ
transport_stream_message = 8

abbrev pub preview_message : ℕ
preview_message = 9

abbrev pub seek_fallback_video_message : ℕ
seek_fallback_video_message = 11

abbrev pub notice_end_tone_message : ℕ
notice_end_tone_message = 13

abbrev pub reconfigure_pluto_message : ℕ
reconfigure_pluto_message = 14

abbrev pub max_transport_payload : ℕ
max_transport_payload = 188 * 340

abbrev pub max_buffered_transport : ℕ
max_buffered_transport = 188 * 65536

-- The second `send`, behind a `poll`: done, not possible, or the socket is closed.
pub data Retry : Type 0 where
  done not_ready reset : Retry

-- What a call of sendMessage meets: whether `waitpid` finds that the process has ended, and what
-- `send` gives: all sent, no room now, a closed socket, or another error or a short write.
pub data Sending : Type 0 where
  all_sent : Sending
  no_room : Retry → Sending
  closed : Sending
  other : Sending

pub record Answer : Type 0 where
  pub ended : Bool
  pub sending : Sending

-- The members, and three records of what happened: `seen` is the payload of the last message of each
-- type that the running process was sent, `delivered` the transport bytes that any process was sent,
-- and `calls` numbers the calls of sendMessage. The last payloads are kept by their message's type,
-- and the active input as its payload.
pub record MediaProcess : Type 0 where
  pub active : Bytes
  pub beacon_allowed : Bool
  pub preview_enabled : Bool
  pub access_notice : Option Text
  pub access_notice_end_tone : Bool
  pub fallback_video_path : Option Text
  pub fallback_video_seek : Option ℕ
  pub transport_buffer : Bytes
  pub last : ℕ → Option Bytes
  pub seen : ℕ → Option Bytes
  pub delivered : Bytes
  pub calls : ℕ

abbrev pub put : (ℕ → Option Bytes) → ℕ → Option Bytes → ℕ → Option Bytes
put f k v j = if j == k then v else f j
