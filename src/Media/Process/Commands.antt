-- ===== src/Media/Process/Commands.antt =====
-- The daemon's commands, each with what it keeps.
use wh_repeater.Common.{
  ℕ, zero, suc, ◌+◌, ◌++◌, ◌&&◌, is_some, ◌≤◌, ◌<◌, Bool, true, false, Option, none, some, List, [],
  ◌∷◌, length, take, drop, ◌==◌, Bool-cases, ltb, ◌≡◌, refl, arith, inl, inr,
}
use wh_repeater.Domain.{Text}
use wh_repeater.Media.Payload.{Bytes, append_pod, append_bool, append_string}
use wh_repeater.Media.State.{
  MediaProcess, Answer, transport_stream_message, max_transport_payload, max_buffered_transport,
  select_message, beacon_message, notice_message, notice_end_tone_message, preview_message,
  play_fallback_video_message, stop_fallback_video_message, seek_fallback_video_message,
  reconfigure_pluto_message, tick_message,
}
use wh_repeater.Media.Process.{
  notice_payload, send_and_keep, send_plain, send_message, select, set_beacon_allowed,
  set_access_notice, set_preview_enabled, play_fallback_video, stop_fallback_video,
  seek_fallback_video, reconfigure_pluto, write, tick, bound_backlog, flush_step, Command, selects,
  allows_beacon, notices, previews, plays, stops, seeks, reconfigures, writes, ticks, run, run_all,
  flush_rounds, flush_transport_buffer, send_changed, is_last, ◌>>=◌,
}
use wh_repeater.Media.Process.Known.{
  kept, Known, KnownAfter, Sent, send_and_keep-KnownAfter, send_plain-KnownAfter,
  send_message-Sound, unkept-Known,
}
use wh_repeater.Media.Process.Returns.{
  CalmFrom, Went, WentSending, Live, send_and_keep-Went, send_plain-Went, send_message-Went,
}

-- A returned state in which the daemon knows what the process was told.
abbrev pub Fine : ℕ → Option MediaProcess → Type 0
Fine c none = ⊥
Fine c (some p) = (c ≤ p.calls) × Known p

fine : (c : ℕ) (m : Option MediaProcess) → Went c m → KnownAfter m → Fine c m
fine c none w k = absurd w
fine c (some p) w k = (w, k)

bind-Fine :
    (c : ℕ) (m : Option MediaProcess) (f : MediaProcess → Option MediaProcess)
    → Fine c m
    → ((p : MediaProcess) → c ≤ p.calls → Known p → Fine c (f p))
    → Fine c (m >>= f)
bind-Fine c none f h g = absurd h
bind-Fine c (some p) f h g = g p h.0 h.1

Fine-le : (b c : ℕ) (m : Option MediaProcess) → b ≤ c → Fine c m → Fine b m
Fine-le b c none h f = absurd f
Fine-le b c (some p) h f = (omega (arith, f.0), f.1)

module _ (os : ℕ → Answer) (n : ℕ) (still : CalmFrom os n) (fuel : ℕ) (enough : n < fuel) where
  live : (c : ℕ) → Live c (send_message os fuel)
  live c k payload e p h =
      weaken (send_message os fuel k payload e p)
        (send_message-Went os n still fuel k payload e p (omega arith) (omega arith))
    where
      weaken : (r : Option (MediaProcess × Bool)) → WentSending (p.calls + 1) r → WentSending c r
      weaken none w = absurd w
      weaken (some (p', b)) w = omega arith

  send_plain-Fine :
      (k : ℕ) (payload : Bytes) (e : Bool) (p : MediaProcess)
      → kept k ≡ false
      → Known p
      → Fine p.calls (send_plain (send_message os fuel) k payload e p)
  send_plain-Fine k payload e p u v =
      fine p.calls (send_plain (send_message os fuel) k payload e p)
        (send_plain-Went p.calls (send_message os fuel) (live p.calls) k payload e p (omega arith))
        (send_plain-KnownAfter (send_message os fuel) k payload e p u (send_message-Sound os fuel)
          v)

  send_changed-Fine :
      (k : ℕ) (payload : Bytes) (p : MediaProcess)
      → Known p
      → Fine p.calls (send_changed os fuel k payload p)
  unfolding send_changed
  send_changed-Fine k payload p v = elim (Bool-cases (is_last (p.last k) payload)) [
    | inl same ↦ rw same (omega arith, v)
    | inr new ↦ rw new (
        fine p.calls (send_and_keep (send_message os fuel) k payload p)
          (send_and_keep-Went p.calls (send_message os fuel) (live p.calls) k payload p
            (omega arith))
          (send_and_keep-KnownAfter (send_message os fuel) k payload p (send_message-Sound os fuel)
            v))
  ]

  flush_step-Fine :
      (c : ℕ) (more : MediaProcess → Option MediaProcess) (chunk : Bytes)
      (r : Option (MediaProcess × Bool))
      → WentSending c r
      → Sent transport_stream_message chunk r
      → ((p : MediaProcess) → c ≤ p.calls → Known p → Fine c (more p))
      → Fine c (flush_step more r)
  flush_step-Fine c more chunk none w s g = absurd w
  flush_step-Fine c more chunk (some (p, false)) w s g = (w, s)
  flush_step-Fine c more chunk (some (p, true)) w s g =
      g (record p { transport_buffer = drop max_transport_payload p.transport_buffer }) w
        (unkept-Known transport_stream_message chunk p refl s.0)

  flush_rounds-Fine :
      (rounds : ℕ) (e : Bool) (p : MediaProcess)
      → Known p
      → Fine p.calls (flush_rounds os fuel rounds e p)
  unfolding flush_rounds
  flush_rounds-Fine zero e p v = (omega arith, v)
  flush_rounds-Fine (suc rounds) e p v = elim (Bool-cases (length p.transport_buffer == 0)) [
    | inl none_left ↦ rw none_left (omega arith, v)
    | inr more ↦ rw more (
        flush_step-Fine p.calls (flush_rounds os fuel rounds e)
          (take max_transport_payload p.transport_buffer)
          (send_message os fuel transport_stream_message
            (take max_transport_payload p.transport_buffer) e p)
          (live p.calls transport_stream_message (take max_transport_payload p.transport_buffer) e p
            (omega arith))
          (send_message-Sound os fuel transport_stream_message
            (take max_transport_payload p.transport_buffer) e p v)
          (λ q h w.
            Fine-le p.calls q.calls (flush_rounds os fuel rounds e q) h
              (flush_rounds-Fine rounds e q w)))
  ]

  bound_backlog-Fine :
      (c : ℕ) (p : MediaProcess) → c ≤ p.calls → Known p → Fine c (some (bound_backlog p))
  unfolding bound_backlog
  bound_backlog-Fine c p h v =
      elim (Bool-cases (ltb max_buffered_transport (length p.transport_buffer))) [
        | inl e ↦ rw e (h, v)
        | inr e ↦ rw e (h, v)
      ]

  pub write-Fine :
      (packet : Bytes) (p : MediaProcess) → Known p → Fine p.calls (write os fuel packet p)
  unfolding write flush_transport_buffer
  write-Fine [] p v = (omega arith, v)
  write-Fine (b ∷ bs) p v =
      bind-Fine p.calls _ (λ q. some (bound_backlog q))
        (flush_rounds-Fine (length (p.transport_buffer ++ b ∷ bs)) false
          (record p { transport_buffer = p.transport_buffer ++ b ∷ bs }) v)
        (λ q h w. bound_backlog-Fine p.calls q h w)

  set_access_notice-Fine :
      (notice : Option Text) (tone : Bool) (p : MediaProcess)
      → Known p
      → Fine p.calls (set_access_notice os fuel notice tone p)
  unfolding set_access_notice
  set_access_notice-Fine notice tone p v =
      bind-Fine p.calls _
        (λ q. send_changed os fuel notice_end_tone_message (append_bool q.access_notice_end_tone) q)
        (send_changed-Fine notice_message (notice_payload notice)
          (record p { access_notice = notice; access_notice_end_tone = is_some notice && tone }) v)
        (λ q h w.
          Fine-le p.calls q.calls
            (send_changed os fuel notice_end_tone_message (append_bool q.access_notice_end_tone) q)
            h
            (send_changed-Fine notice_end_tone_message (append_bool q.access_notice_end_tone) q w))

  tick-Fine : (p : MediaProcess) → Known p → Fine p.calls (tick os fuel p)
  unfolding tick flush_transport_buffer
  tick-Fine p v =
      bind-Fine p.calls _ (λ q. send_plain (send_message os fuel) tick_message [] false q)
        (flush_rounds-Fine (length p.transport_buffer) false p v)
        (λ q h w.
          Fine-le p.calls q.calls (send_plain (send_message os fuel) tick_message [] false q) h
            (send_plain-Fine tick_message [] false q refl w))

  run-Fine : (command : Command) (p : MediaProcess) → Known p → Fine p.calls (run os fuel command p)
  unfolding run select set_beacon_allowed set_preview_enabled play_fallback_video
      stop_fallback_video seek_fallback_video reconfigure_pluto
  run-Fine (selects input) p v =
      send_changed-Fine select_message input (record p { active = input }) v
  run-Fine (allows_beacon b) p v =
      send_changed-Fine beacon_message (append_bool b) (record p { beacon_allowed = b }) v
  run-Fine (notices notice tone) p v = set_access_notice-Fine notice tone p v
  run-Fine (previews b) p v =
      send_changed-Fine preview_message (append_bool b) (record p { preview_enabled = b }) v
  run-Fine (plays path) p v =
      send_plain-Fine play_fallback_video_message (append_string path) true
        (record p { fallback_video_path = some path; fallback_video_seek = none }) refl v
  run-Fine stops p v =
      send_plain-Fine stop_fallback_video_message [] true
        (record p { fallback_video_path = none; fallback_video_seek = none }) refl v
  run-Fine (seeks n) p v =
      send_plain-Fine seek_fallback_video_message (append_pod 8 n) true
        (record p { fallback_video_seek = some n }) refl v
  run-Fine (reconfigures b) p v =
      send_plain-Fine reconfigure_pluto_message (append_bool b) true p refl v
  run-Fine (writes packet) p v = write-Fine packet p v
  run-Fine ticks p v = tick-Fine p v

  run_all-Fine :
      (commands : List Command) (p : MediaProcess)
      → Known p
      → Fine p.calls (run_all os fuel commands p)
  unfolding run_all
  run_all-Fine [] p v = (omega arith, v)
  run_all-Fine (c ∷ cs) p v =
      bind-Fine p.calls (run os fuel c p) (run_all os fuel cs) (run-Fine c p v)
        (λ q h w. Fine-le p.calls q.calls (run_all os fuel cs q) h (run_all-Fine cs q w))

-- If the media process stays from some call on, whatever it did before, and the fuel is above that
-- call's number, then any commands to the fresh daemon side all return; and in the end every payload
-- that is kept as the last one of its kind, but for the end tone's, is what the running process was
-- last sent: a repeated command is left out only when the process has it.
pub run_all-Known :
    (os : ℕ → Answer) (n fuel : ℕ) (commands : List Command) (p : MediaProcess)
    → CalmFrom os n
    → n < fuel
    → ((k : ℕ) → p.last k ≡ none)
    → (q : MediaProcess) × (run_all os fuel commands p ≡ some q) × Known q
run_all-Known os n fuel commands p still enough fresh =
    outcome (run_all os fuel commands p) refl
      (run_all-Fine os n still fuel enough commands p (λ k e. inl (fresh k)))
  where
    outcome :
        (m : Option MediaProcess)
        → run_all os fuel commands p ≡ m
        → Fine p.calls m
        → (q : MediaProcess) × (run_all os fuel commands p ≡ some q) × Known q
    outcome none e f = absurd f
    outcome (some q) e f = (q, e, f.1)
