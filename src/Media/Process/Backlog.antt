-- ===== src/Media/Process/Backlog.antt =====
-- Writes to the media process, and their backlog.
use wh_repeater.Common.{
  append_assoc, append-nil, length-drop, take-append-drop, ◌∙◌, ◌++◌, ◌⊎◌, ltb→lt, subst, ltb, ◌-◌,
  ℕ, ◌≤◌, ◌<◌, false, Option, none, some, [], ◌∷◌, length, take, Bool-cases, ltb, ltb→lt, ◌≡◌, refl,
  ap, sym, arith, inl, inr,
}
use wh_repeater.Media.Payload.{Bytes}
use wh_repeater.Media.State.{MediaProcess, Answer, max_buffered_transport}
use wh_repeater.Media.Process.{bound_backlog, keep_bytes, write, flush_transport_buffer, ◌>>=◌}
use wh_repeater.Media.Process.Transport.{Same, flush_rounds-Same}
use wh_repeater.Media.Process.Known.{Known}
use wh_repeater.Media.Process.Returns.{CalmFrom}
use wh_repeater.Media.Process.Commands.{Fine, write-Fine}

-- A backlog is cut at its front, to at most the limit, and only when it is above.
bound_backlog_lem :
    (p : MediaProcess)
    → (lost : Bytes) × ((bound_backlog p).delivered ++ (lost ++ (bound_backlog p).transport_buffer)
        ≡ p.delivered ++ p.transport_buffer)
      × (length (bound_backlog p).transport_buffer ≤ max_buffered_transport)
      × ((lost ≡ [])
          ⊎ (max_buffered_transport < length (lost ++ (bound_backlog p).transport_buffer)))
unfolding bound_backlog
bound_backlog_lem p = elim (Bool-cases (ltb max_buffered_transport (length p.transport_buffer))) [
  | inl over ↦
      let cut = length p.transport_buffer - keep_bytes in
      let more = ltb→lt max_buffered_transport (length p.transport_buffer) over in
      let l = length-drop cut p.transport_buffer in
      let whole = take-append-drop cut p.transport_buffer in
      rw over (
        take cut p.transport_buffer,
        ap (λ x. p.delivered ++ x) whole,
        omega arith,
        inr (subst (λ x. max_buffered_transport < length x) (sym whole) more),
      )
  | inr within ↦ rw within ([], refl, ground arith, inl refl)
]

-- What a write leaves of a state.
abbrev Written : MediaProcess → Bytes → MediaProcess → Type 0
Written p packet q =
    (lost : Bytes) × (q.delivered ++ (lost ++ q.transport_buffer)
      ≡ (p.delivered ++ p.transport_buffer) ++ packet)
    × (length q.transport_buffer ≤ max_buffered_transport)
    × ((lost ≡ []) ⊎ (max_buffered_transport < length (lost ++ q.transport_buffer)))

bound_backlog-Written :
    (p : MediaProcess) (packet : Bytes) (q : MediaProcess)
    → q.delivered ++ q.transport_buffer ≡ (p.delivered ++ p.transport_buffer) ++ packet
    → Written p packet (bound_backlog q)
bound_backlog-Written p packet q e =
    let (lost, whole, size, why) = bound_backlog_lem q in (lost, whole ∙ e, size, why)

abbrev WrittenAfter : MediaProcess → Bytes → Option MediaProcess → Type 0
WrittenAfter p packet none = Unit
WrittenAfter p packet (some q) = Written p packet q

bind-WrittenAfter :
    (os : ℕ → Answer) (p : MediaProcess) (packet : Bytes) (m : Option MediaProcess)
    → Same os ((p.delivered ++ p.transport_buffer) ++ packet) m
    → WrittenAfter p packet (m >>= λ q. some (bound_backlog q))
bind-WrittenAfter os p packet none h = tt
bind-WrittenAfter os p packet (some q) h = bound_backlog-Written p packet q h

write-WrittenAfter :
    (os : ℕ → Answer) (fuel : ℕ) (packet : Bytes) (p : MediaProcess)
    → length p.transport_buffer ≤ max_buffered_transport
    → WrittenAfter p packet (write os fuel packet p)
unfolding write flush_transport_buffer
write-WrittenAfter os fuel [] p h =
    ([], sym (append-nil (p.delivered ++ p.transport_buffer)), h, inl refl)
write-WrittenAfter os fuel (b ∷ bs) p h = bind-WrittenAfter os p (b ∷ bs) _ (
    flush_rounds-Same os fuel (length (p.transport_buffer ++ b ∷ bs)) false
      ((p.delivered ++ p.transport_buffer) ++ b ∷ bs)
      (record p { transport_buffer = p.transport_buffer ++ b ∷ bs })
      (sym (append_assoc p.delivered p.transport_buffer (b ∷ bs))))

-- If the media process stays from some call on, whatever it did before, and the fuel is above that
-- call's number, a write returns. What any process was sent so far, then the bytes that this write
-- dropped, then what waits, are what was sent and what waited before followed by the packet: nothing
-- else is lost, repeated or moved, even where processes end in between. At most 188 * 65536 bytes
-- wait, and bytes are dropped only when more than that were waiting.
pub write_lem :
    (os : ℕ → Answer) (n fuel : ℕ) (packet : Bytes) (p : MediaProcess)
    → CalmFrom os n
    → n < fuel
    → Known p
    → length p.transport_buffer ≤ max_buffered_transport
    → (q : MediaProcess) × (write os fuel packet p ≡ some q)
      × (lost : Bytes) × (q.delivered ++ (lost ++ q.transport_buffer)
          ≡ (p.delivered ++ p.transport_buffer) ++ packet)
      × (length q.transport_buffer ≤ max_buffered_transport)
      × ((lost ≡ []) ⊎ (max_buffered_transport < length (lost ++ q.transport_buffer)))
write_lem os n fuel packet p still enough v h =
    outcome (write os fuel packet p) refl (write-Fine os n still fuel enough packet p v)
      (write-WrittenAfter os fuel packet p h)
  where
    outcome :
        (m : Option MediaProcess)
        → write os fuel packet p ≡ m
        → Fine p.calls m
        → WrittenAfter p packet m
        → (q : MediaProcess) × (write os fuel packet p ≡ some q)
          × (lost : Bytes) × (q.delivered ++ (lost ++ q.transport_buffer)
              ≡ (p.delivered ++ p.transport_buffer) ++ packet)
          × (length q.transport_buffer ≤ max_buffered_transport)
          × ((lost ≡ []) ⊎ (max_buffered_transport < length (lost ++ q.transport_buffer)))
    outcome none e f w = absurd f
    outcome (some q) e f w = (q, e, w.0, w.1, w.2, w.3)
