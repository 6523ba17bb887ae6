-- ===== src/Media/Process.antt =====
-- MediaProcess of src/media_process.cpp: what the daemon asks of the media process, and how it tells a
-- new process everything again when one has ended. `waitpid`, `send` and `poll` are a parameter, which
-- answers each call of sendMessage; `socketpair` and `fork` are taken to succeed, and the messages
-- that come back from the process are left out.

pub mod Known
pub mod Returns
pub mod Commands
pub mod Transport
pub mod Backlog
use wh_repeater.Common.{
  text_eq, ℕ, zero, suc, ◌+◌, ◌-◌, ◌*◌, ◌/◌, ◌%◌, ◌^◌, Bool, true, false, not, ◌&&◌, ◌||◌, Option,
  none, some, is_some, List, [], ◌∷◌, ◌++◌, length, take, drop, ltb, leb, ◌==◌, if◌then◌else◌, min,
}
use wh_repeater.Domain.{Text}
use wh_repeater.Media.State.{
  select_message, beacon_message, notice_message, play_fallback_video_message,
  stop_fallback_video_message, tick_message, transport_stream_message, preview_message,
  seek_fallback_video_message, notice_end_tone_message, reconfigure_pluto_message,
  max_transport_payload, max_buffered_transport, Sending, Answer, MediaProcess, put, done,
  not_ready, reset, all_sent, no_room, closed, other,
}
use wh_repeater.Media.Payload.{Bytes, append_pod, append_bool, append_string}

-- `last.has_value() && *last == payload`.
abbrev pub is_last : Option Bytes → Bytes → Bool
is_last none payload = false
is_last (some q) payload = text_eq q payload

infixl 5 ◌>>=◌
abbrev pub ◌>>=◌ : {A B : Type 0} → Option A → (A → Option B) → Option B
none >>= f = none
some a >>= f = f a

-- A call of sendMessage with a type, a payload and whether it is essential: the state and its result.
-- `none` means that the fuel ran out.
abbrev pub Send : Type 0
Send = ℕ → Bytes → Bool → MediaProcess → Option (MediaProcess × Bool)

abbrev pub keep : ℕ → Bytes → Option (MediaProcess × Bool) → Option MediaProcess
keep k payload none = none
keep k payload (some (p, false)) = some p
keep k payload (some (p, true)) = some (record p { last = put p.last k (some payload) })

abbrev pub drop_result : Option (MediaProcess × Bool) → Option MediaProcess
drop_result none = none
drop_result (some (p, sent)) = some p

-- `if (sendMessage(k, payload, true)) { last = payload; }`.
unfoldable pub send_and_keep : Send → ℕ → Bytes → MediaProcess → Option MediaProcess
send_and_keep send k payload p = keep k payload (send k payload true p)

unfoldable pub send_plain : Send → ℕ → Bytes → Bool → MediaProcess → Option MediaProcess
send_plain send k payload essential p = drop_result (send k payload essential p)

abbrev pub notice_payload : Option Text → Bytes
notice_payload none = []
notice_payload (some t) = append_string t

unfoldable pub replay_seek : Send → Option ℕ → MediaProcess → Option MediaProcess
replay_seek send none p = some p
replay_seek send (some position) p =
    send_plain send seek_fallback_video_message (append_pod 8 position) true p

unfoldable pub replay_video : Send → Option Text → MediaProcess → Option MediaProcess
replay_video send none p = some p
replay_video send (some path) p = do
  p₁ ← send_plain send play_fallback_video_message (append_string path) true p
  replay_seek send p₁.fallback_video_seek p₁

unfoldable pub replay_state : Send → MediaProcess → Option MediaProcess
replay_state send p = do
  p₁ ← send_and_keep send select_message p.active p
  p₂ ← send_and_keep send beacon_message (append_bool p₁.beacon_allowed) p₁
  p₃ ← send_and_keep send notice_message (notice_payload p₂.access_notice) p₂
  p₄ ← send_and_keep send notice_end_tone_message (append_bool p₃.access_notice_end_tone) p₃
  p₅ ← send_and_keep send preview_message (append_bool p₄.preview_enabled) p₄
  replay_video send p₅.fallback_video_path p₅

-- The members that `startChild` resets: the last payloads but the end tone's. A new process has seen
-- nothing.
abbrev pub forget : MediaProcess → MediaProcess
forget p = record p {
  last = λ k. if k == notice_end_tone_message then p.last k else none;
  seen = λ k. none;
}

unfoldable pub start_child : Send → MediaProcess → Option MediaProcess
start_child send p = replay_state send (forget p)

unfoldable pub ensure_running : Send → Bool → MediaProcess → Option MediaProcess
ensure_running send ended p = if ended then start_child send p else some p

unfoldable pub sent_now : ℕ → Bytes → MediaProcess → MediaProcess
sent_now k payload p = record p {
  seen = put p.seen k (some payload);
  delivered = if k == transport_stream_message then p.delivered ++ payload else p.delivered;
}

-- What follows the `send`.
unfoldable pub settle_send :
    Send → Sending → ℕ → Bytes → Bool → MediaProcess → Option (MediaProcess × Bool)
settle_send send all_sent k payload essential p = some (sent_now k payload p, true)
settle_send send (no_room retry) k payload false p = some (p, false)
settle_send send (no_room done) k payload true p = some (sent_now k payload p, true)
settle_send send (no_room not_ready) k payload true p = some (p, false)
settle_send send (no_room reset) k payload true p = do p' ← start_child send p; some (p', false)
settle_send send closed k payload essential p = do p' ← start_child send p; some (p', false)
settle_send send other k payload essential p = some (p, false)

abbrev pub settle_result :
    Send → Sending → ℕ → Bytes → Bool → Option MediaProcess → Option (MediaProcess × Bool)
settle_result send sending k payload essential none = none
settle_result send sending k payload essential (some p) =
    settle_send send sending k payload essential p

abbrev pub keep_bytes : ℕ
keep_bytes = max_buffered_transport / 2 - max_buffered_transport / 2 % 188

-- The end of `write`: a backlog loses its oldest bytes.
unfoldable pub bound_backlog : MediaProcess → MediaProcess
bound_backlog p =
    if ltb max_buffered_transport (length p.transport_buffer)
    then record p {
      transport_buffer = drop (length p.transport_buffer - keep_bytes) p.transport_buffer;
    }
    else p

-- What the loop of `flushTransportBuffer` does with the result of a send.
abbrev pub flush_step :
    (MediaProcess → Option MediaProcess) → Option (MediaProcess × Bool) → Option MediaProcess
flush_step more none = none
flush_step more (some (p, false)) = some p
flush_step more (some (p, true)) =
    more (record p { transport_buffer = drop max_transport_payload p.transport_buffer })

module _ (os : ℕ → Answer) where
  -- `sendMessage`: a new process is told everything by the same function, so each level of fuel is a
  -- start of a process within the start of another.
  unfoldable pub send_message : ℕ → Send
  send_message zero k payload essential p = none
  send_message (suc fuel) k payload essential p =
      let answer = os p.calls in
      settle_result (send_message fuel) answer.sending k payload essential
        (ensure_running (send_message fuel) answer.ended (record p { calls = p.calls + 1 }))

  -- A message that is sent only when its payload is not the last one of its kind.
  unfoldable pub send_changed : ℕ → ℕ → Bytes → MediaProcess → Option MediaProcess
  send_changed fuel k payload p =
      if is_last (p.last k) payload then some p else send_and_keep (send_message fuel) k payload p

  -- `select`, with the input as its payload.
  unfoldable pub select : ℕ → Bytes → MediaProcess → Option MediaProcess
  select fuel input p = send_changed fuel select_message input (record p { active = input })

  unfoldable pub set_beacon_allowed : ℕ → Bool → MediaProcess → Option MediaProcess
  set_beacon_allowed fuel allowed p =
      send_changed fuel beacon_message (append_bool allowed) (record p { beacon_allowed = allowed })

  unfoldable pub set_access_notice : ℕ → Option Text → Bool → MediaProcess → Option MediaProcess
  set_access_notice fuel notice end_tone p =
      let p₀ = record p {
        access_notice = notice;
        access_notice_end_tone = is_some notice && end_tone;
      } in
      do
        p₁ ← send_changed fuel notice_message (notice_payload notice) p₀
        send_changed fuel notice_end_tone_message (append_bool p₁.access_notice_end_tone) p₁

  unfoldable pub set_preview_enabled : ℕ → Bool → MediaProcess → Option MediaProcess
  set_preview_enabled fuel enabled p =
      send_changed fuel preview_message (append_bool enabled)
        (record p { preview_enabled = enabled })

  unfoldable pub play_fallback_video : ℕ → Text → MediaProcess → Option MediaProcess
  play_fallback_video fuel path p =
      send_plain (send_message fuel) play_fallback_video_message (append_string path) true
        (record p { fallback_video_path = some path; fallback_video_seek = none })

  unfoldable pub stop_fallback_video : ℕ → MediaProcess → Option MediaProcess
  stop_fallback_video fuel p =
      send_plain (send_message fuel) stop_fallback_video_message [] true
        (record p { fallback_video_path = none; fallback_video_seek = none })

  -- The position is at 0 or after: the source takes the maximum of a signed one and 0.
  unfoldable pub seek_fallback_video : ℕ → ℕ → MediaProcess → Option MediaProcess
  seek_fallback_video fuel position p =
      send_plain (send_message fuel) seek_fallback_video_message (append_pod 8 position) true
        (record p { fallback_video_seek = some position })

  unfoldable pub reconfigure_pluto : ℕ → Bool → MediaProcess → Option MediaProcess
  reconfigure_pluto fuel transmit_enabled p =
      send_plain (send_message fuel) reconfigure_pluto_message (append_bool transmit_enabled) true p

  -- The loop of `flushTransportBuffer`: each round that goes on shortens the buffer, so that its
  -- length is enough for `rounds`.
  unfoldable pub flush_rounds : ℕ → ℕ → Bool → MediaProcess → Option MediaProcess
  flush_rounds fuel zero essential p = some p
  flush_rounds fuel (suc rounds) essential p =
      let chunk = take max_transport_payload p.transport_buffer in
      let after =
        flush_step (flush_rounds fuel rounds essential)
          (send_message fuel transport_stream_message chunk essential p) in
      if length p.transport_buffer == 0 then some p else after

  unfoldable pub flush_transport_buffer : ℕ → Bool → MediaProcess → Option MediaProcess
  flush_transport_buffer fuel essential p =
      flush_rounds fuel (length p.transport_buffer) essential p

  unfoldable pub write : ℕ → Bytes → MediaProcess → Option MediaProcess
  write fuel [] p = some p
  write fuel (b ∷ bs) p = do
    p' ←
        flush_transport_buffer fuel false
          (record p { transport_buffer = p.transport_buffer ++ b ∷ bs })
    some (bound_backlog p')

  -- The message at the end of `tick`, behind a flush.
  unfoldable pub tick : ℕ → MediaProcess → Option MediaProcess
  tick fuel p = do
    p' ← flush_transport_buffer fuel false p
    send_plain (send_message fuel) tick_message [] false p'

-- What the daemon asks for.
pub data Command : Type 0 where
  selects : Bytes → Command
  allows_beacon : Bool → Command
  notices : Option Text → Bool → Command
  previews : Bool → Command
  plays : Text → Command
  stops : Command
  seeks : ℕ → Command
  reconfigures : Bool → Command
  writes : Bytes → Command
  ticks : Command

unfoldable pub run : (ℕ → Answer) → ℕ → Command → MediaProcess → Option MediaProcess
run os fuel (selects input) p = select os fuel input p
run os fuel (allows_beacon allowed) p = set_beacon_allowed os fuel allowed p
run os fuel (notices notice tone) p = set_access_notice os fuel notice tone p
run os fuel (previews enabled) p = set_preview_enabled os fuel enabled p
run os fuel (plays path) p = play_fallback_video os fuel path p
run os fuel stops p = stop_fallback_video os fuel p
run os fuel (seeks position) p = seek_fallback_video os fuel position p
run os fuel (reconfigures enabled) p = reconfigure_pluto os fuel enabled p
run os fuel (writes packet) p = write os fuel packet p
run os fuel ticks p = tick os fuel p

unfoldable pub run_all : (ℕ → Answer) → ℕ → List Command → MediaProcess → Option MediaProcess
run_all os fuel [] p = some p
run_all os fuel (c ∷ cs) p = do p' ← run os fuel c p; run_all os fuel cs p'
