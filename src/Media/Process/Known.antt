-- ===== src/Media/Process/Known.antt =====
-- What the daemon believes that the media process was told last, and what it was told.
use wh_repeater.Common.{
  ℕ, zero, suc, ◌+◌, Bool, true, false, ◌||◌, Option, none, some, ◌==◌, ==_iff, ==_refl, Bool-cases,
  subst, ◌≡◌, refl, ap, sym, ◌∙◌, arith, ◌⊎◌, inl, inr,
}
use wh_repeater.Domain.{Text}
use wh_repeater.Media.Payload.{Bytes, append_pod, append_bool, append_string}
use wh_repeater.Media.State.{
  MediaProcess, Sending, all_sent, no_room, done, not_ready, reset, closed, other, Answer, put,
}
use wh_repeater.Media.Process.{
  keep, drop_result, settle_result, notice_payload, Send, send_and_keep, send_plain, replay_seek,
  replay_video, replay_state, forget, start_child, ensure_running, sent_now, settle_send,
  send_message, ◌>>=◌,
}

-- The messages whose last payload is kept, but for the end tone's.
abbrev pub kept : ℕ → Bool
kept k = k == 2 || (k == 3 || (k == 4 || k == 9))

abbrev pub Agrees : MediaProcess → ℕ → Type 0
Agrees p k = (p.last k ≡ none) ⊎ (p.last k ≡ p.seen k)

-- Every payload that is kept as the last of its kind is the last that the running process was sent.
abbrev pub Known : MediaProcess → Type 0
Known p = (k : ℕ) → kept k ≡ true → Agrees p k

abbrev pub Sent : ℕ → Bytes → Option (MediaProcess × Bool) → Type 0
Sent k payload none = Unit
Sent k payload (some (p, false)) = Known p
Sent k payload (some (p, true)) =
    ((j : ℕ) → kept j ≡ true → (j == k) ≡ false → Agrees p j) × (p.seen k ≡ some payload)

abbrev pub Sound : Send → Type 0
Sound send =
    (k : ℕ) (payload : Bytes) (e : Bool) (p : MediaProcess)
    → Known p
    → Sent k payload (send k payload e p)

abbrev pub KnownAfter : Option MediaProcess → Type 0
KnownAfter none = Unit
KnownAfter (some p) = Known p

put_other :
    (f : ℕ → Option Bytes) (j k : ℕ) (v : Option Bytes) → (j == k) ≡ false → put f k v j ≡ f j
put_other f j k v e = rw e refl

put_same : (f : ℕ → Option Bytes) (k : ℕ) (v : Option Bytes) → put f k v k ≡ v
put_same f k v = rw (==_refl k) refl

pub bind-KnownAfter :
    (m : Option MediaProcess) (f : MediaProcess → Option MediaProcess)
    → KnownAfter m
    → ((p : MediaProcess) → Known p → KnownAfter (f p))
    → KnownAfter (m >>= f)
bind-KnownAfter none f h g = tt
bind-KnownAfter (some p) f h g = g p h

keep-Known :
    (k : ℕ) (payload : Bytes) (p : MediaProcess)
    → ((j : ℕ) → kept j ≡ true → (j == k) ≡ false → Agrees p j)
    → p.seen k ≡ some payload
    → Known (record p { last = put p.last k (some payload) })
keep-Known k payload p h e j kj = elim (Bool-cases (j == k)) [
  | inl same ↦ let jk = (==_iff j k).0 same in inr (rw same (sym (ap p.seen jk ∙ e)))
  | inr differs ↦
      subst (λ l. (l ≡ none) ⊎ (l ≡ p.seen j)) (sym (put_other p.last j k (some payload) differs))
        (h j kj differs)
]

keep-KnownAfter :
    (k : ℕ) (payload : Bytes) (r : Option (MediaProcess × Bool))
    → Sent k payload r
    → KnownAfter (keep k payload r)
keep-KnownAfter k payload none h = tt
keep-KnownAfter k payload (some (p, false)) h = h
keep-KnownAfter k payload (some (p, true)) h = keep-Known k payload p h.0 h.1

pub send_and_keep-KnownAfter :
    (send : Send) (k : ℕ) (payload : Bytes) (p : MediaProcess)
    → Sound send
    → Known p
    → KnownAfter (send_and_keep send k payload p)
unfolding send_and_keep
send_and_keep-KnownAfter send k payload p s v =
    keep-KnownAfter k payload (send k payload true p) (s k payload true p v)

pub unkept-Known :
    (k : ℕ) (payload : Bytes) (p : MediaProcess)
    → kept k ≡ false
    → ((j : ℕ) → kept j ≡ true → (j == k) ≡ false → Agrees p j)
    → Known p
unkept-Known k payload p u h j kj = h j kj (ground (arith, kj, u))

drop_result-KnownAfter :
    (k : ℕ) (payload : Bytes) (r : Option (MediaProcess × Bool))
    → kept k ≡ false
    → Sent k payload r
    → KnownAfter (drop_result r)
drop_result-KnownAfter k payload none u h = tt
drop_result-KnownAfter k payload (some (p, false)) u h = h
drop_result-KnownAfter k payload (some (p, true)) u h = unkept-Known k payload p u h.0

pub send_plain-KnownAfter :
    (send : Send) (k : ℕ) (payload : Bytes) (e : Bool) (p : MediaProcess)
    → kept k ≡ false
    → Sound send
    → Known p
    → KnownAfter (send_plain send k payload e p)
unfolding send_plain
send_plain-KnownAfter send k payload e p u s v =
    drop_result-KnownAfter k payload (send k payload e p) u (s k payload e p v)

replay_seek-KnownAfter :
    (send : Send) (o : Option ℕ) (p : MediaProcess)
    → Sound send
    → Known p
    → KnownAfter (replay_seek send o p)
unfolding replay_seek
replay_seek-KnownAfter send none p s v = v
replay_seek-KnownAfter send (some n) p s v =
    send_plain-KnownAfter send 11 (append_pod 8 n) true p refl s v

replay_video-KnownAfter :
    (send : Send) (o : Option Text) (p : MediaProcess)
    → Sound send
    → Known p
    → KnownAfter (replay_video send o p)
unfolding replay_video
replay_video-KnownAfter send none p s v = v
replay_video-KnownAfter send (some path) p s v =
    bind-KnownAfter _ (λ q. replay_seek send q.fallback_video_seek q)
      (send_plain-KnownAfter send 5 (append_string path) true p refl s v)
      (λ q w. replay_seek-KnownAfter send q.fallback_video_seek q s w)

replay_state-KnownAfter :
    (send : Send) (p : MediaProcess) → Sound send → Known p → KnownAfter (replay_state send p)
unfolding replay_state
replay_state-KnownAfter send p s v =
    let next = λ (k : ℕ) (payload : Bytes) (q : MediaProcess) (w : Known q).
      send_and_keep-KnownAfter send k payload q s w in
    bind-KnownAfter _ _ (next 2 p.active p v) (λ p₁ v₁.
      bind-KnownAfter _ _ (next 3 (append_bool p₁.beacon_allowed) p₁ v₁) (λ p₂ v₂.
        bind-KnownAfter _ _ (next 4 (notice_payload p₂.access_notice) p₂ v₂) (λ p₃ v₃.
          bind-KnownAfter _ _ (next 13 (append_bool p₃.access_notice_end_tone) p₃ v₃) (λ p₄ v₄.
            bind-KnownAfter _ _ (next 9 (append_bool p₄.preview_enabled) p₄ v₄)
              (λ p₅ v₅. replay_video-KnownAfter send p₅.fallback_video_path p₅ s v₅)))))

forget-Known : (p : MediaProcess) → Known (forget p)
forget-Known p j kj = inl (ground (arith, kj))

start_child-KnownAfter :
    (send : Send) (p : MediaProcess) → Sound send → KnownAfter (start_child send p)
unfolding start_child
start_child-KnownAfter send p s = replay_state-KnownAfter send (forget p) s (forget-Known p)

sent_now-Sent :
    (k : ℕ) (payload : Bytes) (p : MediaProcess)
    → Known p
    → Sent k payload (some (sent_now k payload p, true))
unfolding sent_now
sent_now-Sent k payload p v =
    (λ j kj differs. rw differs (v j kj), put_same p.seen k (some payload))

failed-Sent :
    (k : ℕ) (payload : Bytes) (m : Option MediaProcess)
    → KnownAfter m
    → Sent k payload (m >>= λ p. some (p, false))
failed-Sent k payload none h = tt
failed-Sent k payload (some p) h = h

settle_send-Sent :
    (send : Send) (sending : Sending) (k : ℕ) (payload : Bytes) (e : Bool) (p : MediaProcess)
    → Sound send
    → Known p
    → Sent k payload (settle_send send sending k payload e p)
unfolding settle_send
settle_send-Sent send all_sent k payload e p s v = sent_now-Sent k payload p v
settle_send-Sent send (no_room r) k payload false p s v = v
settle_send-Sent send (no_room done) k payload true p s v = sent_now-Sent k payload p v
settle_send-Sent send (no_room not_ready) k payload true p s v = v
settle_send-Sent send (no_room reset) k payload true p s v =
    failed-Sent k payload (start_child send p) (start_child-KnownAfter send p s)
settle_send-Sent send closed k payload e p s v =
    failed-Sent k payload (start_child send p) (start_child-KnownAfter send p s)
settle_send-Sent send other k payload e p s v = v

ensure_running-KnownAfter :
    (send : Send) (ended : Bool) (p : MediaProcess)
    → Sound send
    → Known p
    → KnownAfter (ensure_running send ended p)
unfolding ensure_running
ensure_running-KnownAfter send true p s v = start_child-KnownAfter send p s
ensure_running-KnownAfter send false p s v = v

settle_result-Sent :
    (send : Send) (sending : Sending) (k : ℕ) (payload : Bytes) (e : Bool) (m : Option MediaProcess)
    → Sound send
    → KnownAfter m
    → Sent k payload (settle_result send sending k payload e m)
settle_result-Sent send sending k payload e none s v = tt
settle_result-Sent send sending k payload e (some p) s v =
    settle_send-Sent send sending k payload e p s v

module _ (os : ℕ → Answer) where
  pub send_message-Sound : (fuel : ℕ) → Sound (send_message os fuel)
  unfolding send_message
  send_message-Sound zero k payload e p v = tt
  send_message-Sound (suc fuel) k payload e p v =
      settle_result-Sent (send_message os fuel) (os p.calls).sending k payload e
        (ensure_running (send_message os fuel) (os p.calls).ended
          (record p { calls = p.calls + 1 }))
        (send_message-Sound fuel)
        (ensure_running-KnownAfter (send_message os fuel) (os p.calls).ended
          (record p { calls = p.calls + 1 }) (send_message-Sound fuel) v)
