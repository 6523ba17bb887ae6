-- ===== src/Gateway/Sink/Stream.antt =====
-- The bytes that leave the gateway, and how they are cut into datagrams.
use wh_repeater.Common.{
  concat, concat_snoc, All-append, ℕ, ◌%◌, ◌<◌, ◌≤◌, true, false, some, List, [], ◌∷◌, ◌++◌, length,
  length-append, All, ◌≡◌, refl, ap, sym, subst, ◌∙◌, arith, ◌==◌, Bool-cases, append-nil,
  append_assoc, ◌⊎◌, inl, inr,
}
use wh_repeater.Gateway.Sink.{
  Bytes, Network, TsGatewaySink, datagram_size, ts_packet_size, send_datagram, flush_datagram,
  push_byte, push_bytes, write, flush, new_sink, is_empty,
}

-- `sendto` takes each datagram whole; this is what UDP documents of a send that does not fail.
abbrev pub Accepts : Network → Type 0
Accepts net = (k : ℕ) (d : Bytes) → net.send k d ≡ some (length d)

is_empty-append : (bs : Bytes) (b : ℕ) → is_empty (bs ++ b ∷ []) ≡ false
is_empty-append [] b = refl
is_empty-append (x ∷ bs) b = refl

-- The state with one more byte that waits.
abbrev appended : TsGatewaySink → ℕ → TsGatewaySink
appended s b = record s { datagram = s.datagram ++ b ∷ [] }

push_byte_waits :
    (net : Network) (s : TsGatewaySink) (b : ℕ)
    → (length (s.datagram ++ b ∷ []) == datagram_size) ≡ false
    → push_byte net s b ≡ appended s b
unfolding push_byte
push_byte_waits net s b e = ground arith

push_byte_sends :
    (net : Network) (s : TsGatewaySink) (b : ℕ)
    → (length (s.datagram ++ b ∷ []) == datagram_size) ≡ true
    → push_byte net s b ≡ send_datagram net (appended s b)
unfolding push_byte flush_datagram
push_byte_sends net s b e = let p = is_empty-append s.datagram b in ground arith

flush_cases :
    (net : Network) (s : TsGatewaySink)
    → ((s.datagram ≡ []) × (flush net s ≡ s))
      ⊎ ((1 ≤ length s.datagram) × (flush net s ≡ send_datagram net s))
unfolding flush flush_datagram
flush_cases net s = by_datagram s.datagram refl
  where
    by_datagram :
        (d : Bytes)
        → s.datagram ≡ d
        → ((s.datagram ≡ []) × (flush net s ≡ s))
          ⊎ ((1 ≤ length s.datagram) × (flush net s ≡ send_datagram net s))
    by_datagram [] e = inl (e, (rw e refl))
    by_datagram (b ∷ bs) e = inr (rw e (omega arith), rw e refl)

-- The writes of several packets, one after the other.
abbrev pub write_all : Network → TsGatewaySink → List Bytes → TsGatewaySink
write_all net s [] = s
write_all net s (p ∷ ps) = write_all net (write net s p).0 ps

module _ (net : Network) (address : net.valid_address ≡ true) (accepts : Accepts net) where
  -- What was sent and what waits: the stream so far. What waits never fills a datagram.
  record Inv (stream : Bytes) (s : TsGatewaySink) : Type 0 where
    whole : concat s.sent ++ s.datagram ≡ stream
    room : length s.datagram < datagram_size
    full : All (λ d. length d ≡ datagram_size) s.sent

  send_datagram-accepted :
      (s : TsGatewaySink) → (send_datagram net s).sent ≡ s.sent ++ s.datagram ∷ []
  unfolding send_datagram
  send_datagram-accepted s = let a = accepts s.calls s.datagram in ground arith

  send_datagram-empty : (s : TsGatewaySink) → (send_datagram net s).datagram ≡ []
  unfolding send_datagram
  send_datagram-empty s = let a = accepts s.calls s.datagram in ground arith

  Inv-send :
      {stream : Bytes} (s : TsGatewaySink)
      → concat s.sent ++ s.datagram ≡ stream
      → All (λ d. length d ≡ datagram_size) s.sent
      → length s.datagram ≡ datagram_size
      → Inv stream (send_datagram net s)
  Inv-send {stream} s h full l = record {
    whole =
        let p = send_datagram-accepted s in
        let q = send_datagram-empty s in
        ap (λ x. concat x ++ (send_datagram net s).datagram) p
        ∙ ap (λ x. concat (s.sent ++ s.datagram ∷ []) ++ x) q
        ∙ append-nil (concat (s.sent ++ s.datagram ∷ []))
        ∙ concat_snoc s.sent s.datagram
        ∙ h;
    room = subst (λ x. length x < datagram_size) (sym (send_datagram-empty s)) (omega arith);
    full =
        subst (All (λ d. length d ≡ datagram_size)) (sym (send_datagram-accepted s))
          (All-append (λ d. length d ≡ datagram_size) s.sent (s.datagram ∷ []) full (l, tt));
  }

  push_byte-Inv :
      (stream : Bytes) (s : TsGatewaySink) (b : ℕ)
      → Inv stream s
      → Inv (stream ++ b ∷ []) (push_byte net s b)
  push_byte-Inv stream s b v = elim (Bool-cases (length (s.datagram ++ b ∷ []) == datagram_size)) [
    | inl e ↦ subst (Inv (stream ++ b ∷ [])) (sym (push_byte_sends net s b e)) (filled e)
    | inr e ↦ subst (Inv (stream ++ b ∷ [])) (sym (push_byte_waits net s b e)) (waiting e)
  ]
    where
      joined : concat s.sent ++ (s.datagram ++ b ∷ []) ≡ stream ++ b ∷ []
      joined =
          sym (append_assoc (concat s.sent) s.datagram (b ∷ [])) ∙ ap (λ x. x ++ b ∷ []) v.whole

      waiting :
          (length (s.datagram ++ b ∷ []) == datagram_size) ≡ false
          → Inv (stream ++ b ∷ []) (appended s b)
      waiting e = record {
        whole = joined;
        room = let l = length-append s.datagram (b ∷ []) in let r = v.room in ground arith;
        full = v.full;
      }

      filled :
          (length (s.datagram ++ b ∷ []) == datagram_size) ≡ true
          → Inv (stream ++ b ∷ []) (send_datagram net (appended s b))
      filled e = Inv-send (appended s b) joined v.full (ground arith)

  push_bytes-Inv :
      (stream : Bytes) (s : TsGatewaySink) (bs : Bytes)
      → Inv stream s
      → Inv (stream ++ bs) (push_bytes net s bs)
  unfolding push_bytes
  push_bytes-Inv stream s [] v = subst (λ x. Inv x s) (sym (append-nil stream)) v
  push_bytes-Inv stream s (b ∷ bs) v =
      subst (λ x. Inv x (push_bytes net (push_byte net s b) bs)) (append_assoc stream (b ∷ []) bs)
        (push_bytes-Inv (stream ++ b ∷ []) (push_byte net s b) bs (push_byte-Inv stream s b v))

  write_pushes :
      net.can_open ≡ true
      → (s : TsGatewaySink) (b : ℕ) (bs : Bytes) → length (b ∷ bs) % ts_packet_size ≡ 0
      → ((write net s (b ∷ bs)).0 ≡ push_bytes net s (b ∷ bs))
        ⊎ ((write net s (b ∷ bs)).0 ≡ push_bytes net (record s { socket_open = true }) (b ∷ bs))
  unfolding write
  write_pushes can s b bs aligned =
      let a : (length (b ∷ bs) % ts_packet_size == 0) ≡ true = ground arith in
      elim (Bool-cases s.socket_open) [
        | inl o ↦ inl (rw a (rw o refl))
        | inr o ↦ inr (rw a (rw o (rw can refl)))
      ]

  write-Inv :
      net.can_open ≡ true
      → (stream : Bytes) (s : TsGatewaySink) (packet : Bytes) → length packet % ts_packet_size ≡ 0
      → Inv stream s
      → Inv (stream ++ packet) (write net s packet).0
  unfolding write
  write-Inv can stream s [] aligned v = subst (λ x. Inv x s) (sym (append-nil stream)) v
  write-Inv can stream s (b ∷ bs) aligned v = elim (write_pushes can s b bs aligned) [
    | inl e ↦ subst (Inv (stream ++ b ∷ bs)) (sym e) (push_bytes-Inv stream s (b ∷ bs) v)
    | inr e ↦ subst (Inv (stream ++ b ∷ bs)) (sym e) (
        push_bytes-Inv stream (record s { socket_open = true }) (b ∷ bs)
          (record { whole = v.whole; room = v.room; full = v.full }))
  ]

  flush-Inv :
      (stream : Bytes) (s : TsGatewaySink)
      → Inv stream s
      → (concat (flush net s).sent ≡ stream) × ((flush net s).datagram ≡ [])
  flush-Inv stream s v = elim (flush_cases net s) [
    | inl (d, e) ↦ (
      ap (λ x. concat x.sent) e
          ∙ sym (append-nil (concat s.sent))
          ∙ ap (λ x. concat s.sent ++ x) (sym d)
          ∙ v.whole,
      ap (λ x. x.datagram) e ∙ d,
    )
    | inr (l, e) ↦ (
      ap (λ x. concat x.sent) e
          ∙ ap concat (send_datagram-accepted s)
          ∙ concat_snoc s.sent s.datagram
          ∙ v.whole,
      ap (λ x. x.datagram) e ∙ send_datagram-empty s,
    )
  ]

  pub flush_sent :
      (s : TsGatewaySink)
      → ((s.datagram ≡ []) × ((flush net s).sent ≡ s.sent))
        ⊎ ((1 ≤ length s.datagram) × ((flush net s).sent ≡ s.sent ++ s.datagram ∷ []))
  flush_sent s = elim (flush_cases net s) [
    | inl (d, e) ↦ inl (d, ap (λ x. x.sent) e)
    | inr (l, e) ↦ inr (l, ap (λ x. x.sent) e ∙ send_datagram-accepted s)
  ]

  write_all-Inv :
      net.can_open ≡ true
      → (stream : Bytes) (s : TsGatewaySink) (packets : List Bytes)
      → All (λ p. length p % ts_packet_size ≡ 0) packets
      → Inv stream s
      → Inv (stream ++ concat packets) (write_all net s packets)
  write_all-Inv can stream s [] h v = subst (λ x. Inv x s) (sym (append-nil stream)) v
  write_all-Inv can stream s (p ∷ ps) h v =
      subst (λ x. Inv x (write_all net (write net s p).0 ps)) (append_assoc stream p (concat ps))
        (write_all-Inv can (stream ++ p) (write net s p).0 ps h.1 (write-Inv can stream s p h.0 v))

  new_sink-Inv : Inv [] new_sink
  new_sink-Inv = record { whole = refl; room = omega arith; full = tt }

-- While the socket opens, the address is valid and every call of `sendto` takes its whole datagram,
-- writes of aligned packets from a new sink send datagrams of 1316 bytes each, and what was sent,
-- with fewer than 1316 bytes that wait, is the packets' bytes in order: none is lost, repeated or
-- moved.
pub write_all-stream :
    (net : Network) (packets : List Bytes)
    → net.can_open ≡ true
    → net.valid_address ≡ true
    → Accepts net
    → All (λ p. length p % ts_packet_size ≡ 0) packets
    → let s = write_all net new_sink packets in
      (concat s.sent ++ s.datagram ≡ concat packets)
      × (length s.datagram < datagram_size)
      × All (λ d. length d ≡ datagram_size) s.sent
write_all-stream net packets can address accepts aligned =
    let v =
      write_all-Inv net address accepts can [] new_sink packets aligned
        (new_sink-Inv net address accepts) in
    (v.whole, v.room, v.full)

-- While the socket opens, the address is valid and every call of `sendto` takes its whole datagram, a
-- flush after writes of aligned packets to a new sink leaves no byte waiting: all bytes of all packets were
-- sent, in order.
pub flush-write_all :
    (net : Network) (packets : List Bytes)
    → net.can_open ≡ true
    → net.valid_address ≡ true
    → Accepts net
    → All (λ p. length p % ts_packet_size ≡ 0) packets
    → let s = flush net (write_all net new_sink packets) in
      (concat s.sent ≡ concat packets) × (s.datagram ≡ [])
flush-write_all net packets can address accepts aligned =
    flush-Inv net address accepts (concat packets) (write_all net new_sink packets) (
      write_all-Inv net address accepts can [] new_sink packets aligned
        (new_sink-Inv net address accepts))
