-- ===== src/Media/Process/Transport.antt =====
-- The transport stream on its way to the media process.
use wh_repeater.Common.{
  append_assoc, take-append-drop, ◌∙◌, ◌++◌, ℕ, zero, suc, ◌+◌, Bool, true, false, Option, none,
  some, length, take, drop, ◌==◌, Bool-cases, if◌then◌else◌, ◌≡◌, refl, ap, inl, inr,
}
use wh_repeater.Domain.{Text}
use wh_repeater.Media.Payload.{Bytes, append_pod, append_bool, append_string}
use wh_repeater.Media.State.{
  MediaProcess, Sending, all_sent, no_room, done, not_ready, reset, closed, other, Answer,
  transport_stream_message, max_transport_payload,
}
use wh_repeater.Media.Process.{
  keep, drop_result, settle_result, notice_payload, Send, send_and_keep, send_plain, replay_seek,
  replay_video, replay_state, forget, start_child, ensure_running, sent_now, settle_send,
  send_message, flush_step, flush_rounds, ◌>>=◌,
}

-- These bytes wait, and those have gone.
abbrev Carries : Bytes → Bytes → MediaProcess → Type 0
Carries waiting gone p = (p.transport_buffer ≡ waiting) × (p.delivered ≡ gone)

abbrev CarriesAfter : Bytes → Bytes → Option MediaProcess → Type 0
CarriesAfter waiting gone none = Unit
CarriesAfter waiting gone (some p) = Carries waiting gone p

-- What has gone after a send with this result.
abbrev gone_after : ℕ → Bytes → Bytes → Bool → Bytes
gone_after k payload gone sent =
    if sent then if k == transport_stream_message then gone ++ payload else gone else gone

abbrev CarriesSent : ℕ → Bytes → Bytes → Bytes → Option (MediaProcess × Bool) → Type 0
CarriesSent k payload waiting gone none = Unit
CarriesSent k payload waiting gone (some (p, sent)) =
    Carries waiting (gone_after k payload gone sent) p

abbrev Moves : Send → Type 0
Moves send =
    (k : ℕ) (payload : Bytes) (e : Bool) (waiting gone : Bytes) (p : MediaProcess)
    → Carries waiting gone p
    → CarriesSent k payload waiting gone (send k payload e p)

bind-CarriesAfter :
    (w g : Bytes) (m : Option MediaProcess) (f : MediaProcess → Option MediaProcess)
    → CarriesAfter w g m
    → ((p : MediaProcess) → Carries w g p → CarriesAfter w g (f p))
    → CarriesAfter w g (m >>= f)
bind-CarriesAfter w g none f h k = tt
bind-CarriesAfter w g (some p) f h k = k p h

keep-CarriesAfter :
    (w g : Bytes) (k : ℕ) (payload : Bytes) (r : Option (MediaProcess × Bool))
    → (k == transport_stream_message) ≡ false
    → CarriesSent k payload w g r
    → CarriesAfter w g (keep k payload r)
keep-CarriesAfter w g k payload none u h = tt
keep-CarriesAfter w g k payload (some (p, false)) u h = h
keep-CarriesAfter w g k payload (some (p, true)) u h = (h.0, h.1 ∙ rw u refl)

drop_result-CarriesAfter :
    (w g : Bytes) (k : ℕ) (payload : Bytes) (r : Option (MediaProcess × Bool))
    → (k == transport_stream_message) ≡ false
    → CarriesSent k payload w g r
    → CarriesAfter w g (drop_result r)
drop_result-CarriesAfter w g k payload none u h = tt
drop_result-CarriesAfter w g k payload (some (p, false)) u h = h
drop_result-CarriesAfter w g k payload (some (p, true)) u h = (h.0, h.1 ∙ rw u refl)

module _ (send : Send) (moves : Moves send) (w g : Bytes) where
  send_and_keep-CarriesAfter :
      (k : ℕ) (payload : Bytes) (p : MediaProcess)
      → (k == transport_stream_message) ≡ false
      → Carries w g p
      → CarriesAfter w g (send_and_keep send k payload p)
  unfolding send_and_keep
  send_and_keep-CarriesAfter k payload p u h =
      keep-CarriesAfter w g k payload (send k payload true p) u (moves k payload true w g p h)

  send_plain-CarriesAfter :
      (k : ℕ) (payload : Bytes) (e : Bool) (p : MediaProcess)
      → (k == transport_stream_message) ≡ false
      → Carries w g p
      → CarriesAfter w g (send_plain send k payload e p)
  unfolding send_plain
  send_plain-CarriesAfter k payload e p u h =
      drop_result-CarriesAfter w g k payload (send k payload e p) u (moves k payload e w g p h)

  replay_seek-CarriesAfter :
      (o : Option ℕ) (p : MediaProcess) → Carries w g p → CarriesAfter w g (replay_seek send o p)
  unfolding replay_seek
  replay_seek-CarriesAfter none p h = h
  replay_seek-CarriesAfter (some n) p h = send_plain-CarriesAfter 11 (append_pod 8 n) true p refl h

  replay_video-CarriesAfter :
      (o : Option Text) (p : MediaProcess)
      → Carries w g p
      → CarriesAfter w g (replay_video send o p)
  unfolding replay_video
  replay_video-CarriesAfter none p h = h
  replay_video-CarriesAfter (some path) p h =
      bind-CarriesAfter w g _ (λ q. replay_seek send q.fallback_video_seek q)
        (send_plain-CarriesAfter 5 (append_string path) true p refl h)
        (λ q v. replay_seek-CarriesAfter q.fallback_video_seek q v)

  start_child-CarriesAfter :
      (p : MediaProcess) → Carries w g p → CarriesAfter w g (start_child send p)
  unfolding start_child replay_state
  start_child-CarriesAfter p h =
      bind-CarriesAfter w g _ _ (send_and_keep-CarriesAfter 2 p.active (forget p) refl h) (λ p₁ h₁.
        bind-CarriesAfter w g _ _
          (send_and_keep-CarriesAfter 3 (append_bool p₁.beacon_allowed) p₁ refl h₁)
          (λ p₂ h₂.
            bind-CarriesAfter w g _ _
              (send_and_keep-CarriesAfter 4 (notice_payload p₂.access_notice) p₂ refl h₂)
              (λ p₃ h₃.
                bind-CarriesAfter w g _ _
                  (send_and_keep-CarriesAfter 13 (append_bool p₃.access_notice_end_tone) p₃ refl h₃)
                  (λ p₄ h₄.
                    bind-CarriesAfter w g _ _
                      (send_and_keep-CarriesAfter 9 (append_bool p₄.preview_enabled) p₄ refl h₄)
                      (λ p₅ h₅. replay_video-CarriesAfter p₅.fallback_video_path p₅ h₅)))))

sent_now-Carries :
    (k : ℕ) (payload w g : Bytes) (p : MediaProcess)
    → Carries w g p
    → Carries w (gone_after k payload g true) (sent_now k payload p)
unfolding sent_now
sent_now-Carries k payload w g p h =
    (h.0, ap (λ x. if k == transport_stream_message then x ++ payload else x) h.1)

unsent-CarriesSent :
    (k : ℕ) (payload w g : Bytes) (m : Option MediaProcess)
    → CarriesAfter w g m
    → CarriesSent k payload w g (m >>= λ p. some (p, false))
unsent-CarriesSent k payload w g none h = tt
unsent-CarriesSent k payload w g (some p) h = h

module _ (send : Send) (moves : Moves send) (k : ℕ) (payload w g : Bytes) where
  settle_send-CarriesSent :
      (s : Sending) (e : Bool) (p : MediaProcess)
      → Carries w g p
      → CarriesSent k payload w g (settle_send send s k payload e p)
  unfolding settle_send
  settle_send-CarriesSent all_sent e p h = sent_now-Carries k payload w g p h
  settle_send-CarriesSent (no_room r) false p h = h
  settle_send-CarriesSent (no_room done) true p h = sent_now-Carries k payload w g p h
  settle_send-CarriesSent (no_room not_ready) true p h = h
  settle_send-CarriesSent (no_room reset) true p h =
      unsent-CarriesSent k payload w g (start_child send p)
        (start_child-CarriesAfter send moves w g p h)
  settle_send-CarriesSent closed e p h =
      unsent-CarriesSent k payload w g (start_child send p)
        (start_child-CarriesAfter send moves w g p h)
  settle_send-CarriesSent other e p h = h

  settle_result-CarriesSent :
      (s : Sending) (e : Bool) (m : Option MediaProcess)
      → CarriesAfter w g m
      → CarriesSent k payload w g (settle_result send s k payload e m)
  settle_result-CarriesSent s e none h = tt
  settle_result-CarriesSent s e (some p) h = settle_send-CarriesSent s e p h

ensure_running-CarriesAfter :
    (send : Send) (ended : Bool) (w g : Bytes) (p : MediaProcess)
    → Moves send
    → Carries w g p
    → CarriesAfter w g (ensure_running send ended p)
unfolding ensure_running
ensure_running-CarriesAfter send true w g p m h = start_child-CarriesAfter send m w g p h
ensure_running-CarriesAfter send false w g p m h = h

module _ (os : ℕ → Answer) where
  send_message-Moves : (fuel : ℕ) → Moves (send_message os fuel)
  unfolding send_message
  send_message-Moves zero k payload e w g p h = tt
  send_message-Moves (suc fuel) k payload e w g p h =
      settle_result-CarriesSent (send_message os fuel) (send_message-Moves fuel) k payload w g
        (os p.calls).sending e
        (ensure_running (send_message os fuel) (os p.calls).ended
          (record p { calls = p.calls + 1 }))
        (ensure_running-CarriesAfter (send_message os fuel) (os p.calls).ended w g
          (record p { calls = p.calls + 1 }) (send_message-Moves fuel) h)

  -- What has gone, followed by what waits.
  abbrev pub stream : MediaProcess → Bytes
  stream p = p.delivered ++ p.transport_buffer

  abbrev pub Same : Bytes → Option MediaProcess → Type 0
  Same s none = Unit
  Same s (some p) = stream p ≡ s

  flush_step-Same :
      (s : Bytes) (more : MediaProcess → Option MediaProcess) (w g : Bytes)
      (r : Option (MediaProcess × Bool))
      → g ++ w ≡ s
      → CarriesSent transport_stream_message (take max_transport_payload w) w g r
      → ((p : MediaProcess) → stream p ≡ s → Same s (more p))
      → Same s (flush_step more r)
  flush_step-Same s more w g none e h k = tt
  flush_step-Same s more w g (some (p, false)) e h k =
      ap (λ x. x ++ p.transport_buffer) h.1 ∙ ap (λ x. g ++ x) h.0 ∙ e
  flush_step-Same s more w g (some (p, true)) e h k =
      k (record p { transport_buffer = drop max_transport_payload p.transport_buffer })
        (ap (λ x. x ++ drop max_transport_payload p.transport_buffer) h.1
          ∙ ap (λ x. (g ++ take max_transport_payload w) ++ drop max_transport_payload x) h.0
          ∙ append_assoc g (take max_transport_payload w) (drop max_transport_payload w)
          ∙ ap (λ x. g ++ x) (take-append-drop max_transport_payload w)
          ∙ e)

  pub flush_rounds-Same :
      (fuel rounds : ℕ) (e : Bool) (s : Bytes) (p : MediaProcess)
      → stream p ≡ s
      → Same s (flush_rounds os fuel rounds e p)
  unfolding flush_rounds
  flush_rounds-Same fuel zero e s p h = h
  flush_rounds-Same fuel (suc rounds) e s p h = elim (Bool-cases (length p.transport_buffer == 0)) [
    | inl none_left ↦ rw none_left h
    | inr more ↦ rw more (
        flush_step-Same s (flush_rounds os fuel rounds e) p.transport_buffer p.delivered
          (send_message os fuel transport_stream_message
            (take max_transport_payload p.transport_buffer) e p)
          h
          (send_message-Moves fuel transport_stream_message
            (take max_transport_payload p.transport_buffer) e p.transport_buffer p.delivered p
            (refl, refl))
          (λ q k. flush_rounds-Same fuel rounds e s q k))
  ]
