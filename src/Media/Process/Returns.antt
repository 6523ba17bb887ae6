-- ===== src/Media/Process/Returns.antt =====
-- Starting a process within the start of another ends.
use wh_repeater.Common.{
  ℕ, zero, suc, ◌+◌, ◌≤◌, ◌<◌, Bool, true, false, Option, none, some, Bool-cases, ltb, ltb→lt, ◌≡◌,
  refl, arith, inl, inr,
}
use wh_repeater.Domain.{Text}
use wh_repeater.Media.Payload.{Bytes, append_pod, append_bool, append_string}
use wh_repeater.Media.State.{
  MediaProcess, Sending, all_sent, no_room, done, not_ready, reset, closed, other, Answer,
}
use wh_repeater.Media.Process.{
  keep, drop_result, settle_result, notice_payload, Send, send_and_keep, send_plain, replay_seek,
  replay_video, replay_state, forget, start_child, ensure_running, sent_now, settle_send,
  send_message, ◌>>=◌,
}

-- The process neither ends nor closes its socket.
abbrev pub calm : Sending → Bool
calm closed = false
calm (no_room reset) = false
calm _ = true

pub record Calm (a : Answer) : Type 0 where
  pub runs : a.ended ≡ false
  pub is_open : calm a.sending ≡ true

-- From a call on the process stays.
abbrev pub CalmFrom : (ℕ → Answer) → ℕ → Type 0
CalmFrom os n = (i : ℕ) → n ≤ i → Calm (os i)

-- A result is there, and the calls did not go back.
abbrev pub Went : ℕ → Option MediaProcess → Type 0
Went c none = ⊥
Went c (some p) = c ≤ p.calls

abbrev pub WentSending : ℕ → Option (MediaProcess × Bool) → Type 0
WentSending c none = ⊥
WentSending c (some (p, b)) = c ≤ p.calls

abbrev pub Live : ℕ → Send → Type 0
Live c send =
    (k : ℕ) (payload : Bytes) (e : Bool) (p : MediaProcess)
    → c ≤ p.calls
    → WentSending c (send k payload e p)

pub bind-Went :
    (c : ℕ) (m : Option MediaProcess) (f : MediaProcess → Option MediaProcess)
    → Went c m
    → ((p : MediaProcess) → c ≤ p.calls → Went c (f p))
    → Went c (m >>= f)
bind-Went c none f h g = absurd h
bind-Went c (some p) f h g = g p h

keep-Went :
    (c k : ℕ) (payload : Bytes) (r : Option (MediaProcess × Bool))
    → WentSending c r
    → Went c (keep k payload r)
keep-Went c k payload none h = absurd h
keep-Went c k payload (some (p, false)) h = h
keep-Went c k payload (some (p, true)) h = h

drop_result-Went :
    (c : ℕ) (r : Option (MediaProcess × Bool)) → WentSending c r → Went c (drop_result r)
drop_result-Went c none h = absurd h
drop_result-Went c (some (p, b)) h = h

module _ (c : ℕ) (send : Send) (live : Live c send) where
  pub send_and_keep-Went :
      (k : ℕ) (payload : Bytes) (p : MediaProcess)
      → c ≤ p.calls
      → Went c (send_and_keep send k payload p)
  unfolding send_and_keep
  send_and_keep-Went k payload p h =
      keep-Went c k payload (send k payload true p) (live k payload true p h)

  pub send_plain-Went :
      (k : ℕ) (payload : Bytes) (e : Bool) (p : MediaProcess)
      → c ≤ p.calls
      → Went c (send_plain send k payload e p)
  unfolding send_plain
  send_plain-Went k payload e p h = drop_result-Went c (send k payload e p) (live k payload e p h)

  replay_seek-Went : (o : Option ℕ) (p : MediaProcess) → c ≤ p.calls → Went c (replay_seek send o p)
  unfolding replay_seek
  replay_seek-Went none p h = h
  replay_seek-Went (some n) p h = send_plain-Went 11 (append_pod 8 n) true p h

  replay_video-Went :
      (o : Option Text) (p : MediaProcess) → c ≤ p.calls → Went c (replay_video send o p)
  unfolding replay_video
  replay_video-Went none p h = h
  replay_video-Went (some path) p h =
      bind-Went c _ (λ q. replay_seek send q.fallback_video_seek q)
        (send_plain-Went 5 (append_string path) true p h)
        (λ q w. replay_seek-Went q.fallback_video_seek q w)

  replay_state-Went : (p : MediaProcess) → c ≤ p.calls → Went c (replay_state send p)
  unfolding replay_state
  replay_state-Went p h = bind-Went c _ _ (send_and_keep-Went 2 p.active p h) (λ p₁ h₁.
      bind-Went c _ _ (send_and_keep-Went 3 (append_bool p₁.beacon_allowed) p₁ h₁) (λ p₂ h₂.
        bind-Went c _ _ (send_and_keep-Went 4 (notice_payload p₂.access_notice) p₂ h₂) (λ p₃ h₃.
          bind-Went c _ _ (send_and_keep-Went 13 (append_bool p₃.access_notice_end_tone) p₃ h₃)
            (λ p₄ h₄.
              bind-Went c _ _ (send_and_keep-Went 9 (append_bool p₄.preview_enabled) p₄ h₄)
                (λ p₅ h₅. replay_video-Went p₅.fallback_video_path p₅ h₅)))))

  start_child-Went : (p : MediaProcess) → c ≤ p.calls → Went c (start_child send p)
  unfolding start_child
  start_child-Went p h = replay_state-Went (forget p) h

unsent-Went :
    (c : ℕ) (m : Option MediaProcess) → Went c m → WentSending c (m >>= λ p. some (p, false))
unsent-Went c none h = absurd h
unsent-Went c (some p) h = h

-- With a calm answer, or with a live `send` below for the new process.
settle_send-Went :
    (c : ℕ) (send : Send) (s : Sending) (k : ℕ) (payload : Bytes) (e : Bool) (p : MediaProcess)
    → (calm s ≡ false → Live c send)
    → c ≤ p.calls
    → WentSending c (settle_send send s k payload e p)
unfolding settle_send sent_now
settle_send-Went c send all_sent k payload e p l h = h
settle_send-Went c send (no_room r) k payload false p l h = h
settle_send-Went c send (no_room done) k payload true p l h = h
settle_send-Went c send (no_room not_ready) k payload true p l h = h
settle_send-Went c send (no_room reset) k payload true p l h =
    unsent-Went c (start_child send p) (start_child-Went c send (l refl) p h)
settle_send-Went c send closed k payload e p l h =
    unsent-Went c (start_child send p) (start_child-Went c send (l refl) p h)
settle_send-Went c send other k payload e p l h = h

settle_result-Went :
    (c : ℕ) (send : Send) (s : Sending) (k : ℕ) (payload : Bytes) (e : Bool)
    (m : Option MediaProcess)
    → (calm s ≡ false → Live c send)
    → Went c m
    → WentSending c (settle_result send s k payload e m)
settle_result-Went c send s k payload e none l h = absurd h
settle_result-Went c send s k payload e (some p) l h = settle_send-Went c send s k payload e p l h

ensure_running-Went :
    (c : ℕ) (send : Send) (ended : Bool) (p : MediaProcess)
    → (ended ≡ true → Live c send)
    → c ≤ p.calls
    → Went c (ensure_running send ended p)
unfolding ensure_running
ensure_running-Went c send true p l h = start_child-Went c send (l refl) p h
ensure_running-Went c send false p l h = h

WentSending-le :
    (b c : ℕ) (r : Option (MediaProcess × Bool)) → b ≤ c → WentSending c r → WentSending b r
WentSending-le b c none h w = absurd w
WentSending-le b c (some (p, s)) h w = omega arith

module _ (os : ℕ → Answer) (n : ℕ) (still : CalmFrom os n) where
  closed_before : (i : ℕ) → calm (os i).sending ≡ false → i < n
  closed_before i rough = elim (Bool-cases (ltb i n)) [
    | inl e ↦ ltb→lt i n e
    | inr e ↦
        let le : n ≤ i = ground arith in
        let open_there = (still i le).is_open in absurd (ground (arith, rough, open_there))
  ]

  ended_before : (i : ℕ) → (os i).ended ≡ true → i < n
  ended_before i over = elim (Bool-cases (ltb i n)) [
    | inl e ↦ ltb→lt i n e
    | inr e ↦
        let le : n ≤ i = ground arith in
        let runs_there = (still i le).runs in absurd (ground (arith, over, runs_there))
  ]

  -- With this much fuel a call returns, whatever the process does before the calm.
  pub send_message-Went :
      (fuel k : ℕ) (payload : Bytes) (e : Bool) (p : MediaProcess)
      → n < fuel + p.calls
      → 1 ≤ fuel
      → WentSending (p.calls + 1) (send_message os fuel k payload e p)
  unfolding send_message
  send_message-Went zero k payload e p h l = absurd (omega (arith, l))
  send_message-Went (suc fuel) k payload e p h l =
      let live : (p.calls < n) → Live (p.calls + 1) (send_message os fuel) =
        λ before k' payload' e' p' later.
          WentSending-le (p.calls + 1) (p'.calls + 1) (send_message os fuel k' payload' e' p')
            (omega arith) (send_message-Went fuel k' payload' e' p' (omega arith) (omega arith)) in
      settle_result-Went (p.calls + 1) (send_message os fuel) (os p.calls).sending k payload e
        (ensure_running (send_message os fuel) (os p.calls).ended
          (record p { calls = p.calls + 1 }))
        (λ rough. live (closed_before p.calls rough))
        (ensure_running-Went (p.calls + 1) (send_message os fuel) (os p.calls).ended
          (record p { calls = p.calls + 1 }) (λ over. live (ended_before p.calls over))
          (omega arith))
