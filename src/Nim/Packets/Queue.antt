-- ===== src/Nim/Packets/Queue.antt =====
-- What `ingestPacket` puts into the queues, against a description that knows no counters.
use wh_repeater.Common.{
  ℕ, zero, suc, ◌-◌, ◌≤◌, ◌<◌, ◌&&◌, List, [], ◌∷◌, ◌++◌, length, replicate, ◌≡◌, ◌≢◌, refl, ap,
  sym, subst, ◌∙◌, arith, ◌==◌, if◌then◌else◌, Bool-cases, inl, inr, take-append-drop, length-take,
  min,
}
use wh_repeater.Nim.Packets.{
  TransportPacket, WhDriverPacket, Ingress, max_queued_packets_per_receiver, enqueue_packet_locked,
  enqueue_nulls, accept_packet, count_packet, count_transport, ingest_packet,
  drain_transport_packets, null_packet, receiver_index, is_valid, null_count, first_byte, update,
}
use wh_repeater.Nim.Packets.Bounded.{
  push_bounded, push_all, push_all_lem, keep_last, length-keep_last,
}

abbrev cap : ℕ
cap = max_queued_packets_per_receiver

push_all-append :
    (q xs ys : List TransportPacket)
    → push_all cap q (xs ++ ys) ≡ push_all cap (push_all cap q xs) ys
unfolding push_all
push_all-append q [] ys = refl
push_all-append q (x ∷ xs) ys = push_all-append (push_bounded cap q x) xs ys

-- The other queues stay.
enqueue_packet_locked_lem :
    (i : ℕ) (ts : TransportPacket) (s : Ingress) (j : ℕ)
    → (enqueue_packet_locked i ts s).queues j
      ≡ (if j == i then push_bounded cap (s.queues j) ts else s.queues j)
unfolding enqueue_packet_locked
enqueue_packet_locked_lem i ts s j = ground arith

enqueue_nulls_lem :
    (i n : ℕ) (s : Ingress) (j : ℕ)
    → (enqueue_nulls i n s).queues j
      ≡ (if j == i then push_all cap (s.queues j) (replicate n null_packet) else s.queues j)
unfolding enqueue_nulls push_all
enqueue_nulls_lem i zero s j = ground arith
enqueue_nulls_lem i (suc n) s j =
    enqueue_nulls_lem i n (enqueue_packet_locked i null_packet s) j ∙ (elim (Bool-cases (j == i)) [
      | inl here ↦ rw here (
          ap (λ q. push_all cap q (replicate n null_packet))
            (enqueue_packet_locked_lem i null_packet s j ∙ rw here))
      | inr other ↦ rw other (enqueue_packet_locked_lem i null_packet s j ∙ rw other)
    ])

-- The packets that a driver packet stands for at receiver `j`: nothing if it is another receiver's,
-- has lost its sync byte or is not valid; else the null packets that the PIC left out, and its own.
abbrev pub accepted : ℕ → WhDriverPacket → List TransportPacket
accepted j p =
    if j == receiver_index p.status && (first_byte p.ts == 0x47 && is_valid p.status)
    then replicate (null_count p.status) null_packet ++ p.ts ∷ []
    else []

-- Counters and queues are apart.
count_packet_lem : (status : ℕ) (s : Ingress) → (count_packet status s).queues ≡ s.queues
unfolding count_packet
count_packet_lem status s = refl

accept_packet_lem :
    (p : WhDriverPacket) (s : Ingress) (j : ℕ)
    → (accept_packet p s).queues j ≡ (
        if j == receiver_index p.status
        then push_all cap (s.queues j) (replicate (null_count p.status) null_packet ++ p.ts ∷ [])
        else s.queues j)
unfolding accept_packet push_all count_packet
accept_packet_lem p s j =
    let i = receiver_index p.status in
    let n = null_count p.status in
    let counted = count_packet p.status s in
    let last = enqueue_packet_locked_lem i p.ts (enqueue_nulls i n counted) j in
    let nulls = enqueue_nulls_lem i n counted j in
    elim (Bool-cases (j == i)) [
      | inr other ↦ rw other (last ∙ rw other (nulls ∙ rw other refl))
      | inl here ↦ rw here (
          last
          ∙ rw here (
              ap (λ q. push_bounded cap q p.ts) (nulls ∙ rw here refl)
              ∙ sym (push_all-append (s.queues j) (replicate n null_packet) (p.ts ∷ []))))
    ]

ingest_packet_lem :
    (p : WhDriverPacket) (s : Ingress) (j : ℕ)
    → (ingest_packet p s).queues j ≡ push_all cap (s.queues j) (accepted j p)
unfolding ingest_packet push_all
ingest_packet_lem p s j =
    let i = receiver_index p.status in
    let s' = record s {
      counters = update s.counters i (count_transport (s.counters i) (null_count p.status));
    } in
    ground (arith, accept_packet_lem p s' j)

-- `packetReaderLoop` over the packets that the driver delivers.
unfoldable pub ingest_all : List WhDriverPacket → Ingress → Ingress
ingest_all [] s = s
ingest_all (p ∷ ps) s = ingest_all ps (ingest_packet p s)

-- All that a receiver was sent, with the null packets put back in, in order.
abbrev pub stream : ℕ → List WhDriverPacket → List TransportPacket
stream j [] = []
stream j (p ∷ ps) = accepted j p ++ stream j ps

ingest_all-push_all :
    (ps : List WhDriverPacket) (s : Ingress) (j : ℕ)
    → (ingest_all ps s).queues j ≡ push_all cap (s.queues j) (stream j ps)
unfolding ingest_all push_all
ingest_all-push_all [] s j = refl
ingest_all-push_all (p ∷ ps) s j =
    ingest_all-push_all ps (ingest_packet p s) j
    ∙ ap (λ q. push_all cap q (stream j ps)) (ingest_packet_lem p s j)
    ∙ sym (push_all-append (s.queues j) (accepted j p) (stream j ps))

-- From queues within their limit on, the queue of receiver index `j` holds the last 65536 packets of
-- what it held before followed by what the driver sent it since: in order, with each run of null
-- packets restored, and with nothing of the other receivers or of packets that are not valid.
pub ingest_all_lem :
    (ps : List WhDriverPacket) (s : Ingress) (j : ℕ)
    → length (s.queues j) ≤ max_queued_packets_per_receiver
    → (ingest_all ps s).queues j
      ≡ keep_last max_queued_packets_per_receiver (s.queues j ++ stream j ps)
ingest_all_lem ps s j h =
    ingest_all-push_all ps s j ∙ push_all_lem cap (s.queues j) (stream j ps) (omega arith) h

-- The queues stay within their limit, whatever the driver delivers.
pub ingest_all-bounded :
    (ps : List WhDriverPacket) (s : Ingress) (j : ℕ)
    → length (s.queues j) ≤ max_queued_packets_per_receiver
    → length ((ingest_all ps s).queues j) ≤ max_queued_packets_per_receiver
ingest_all-bounded ps s j h =
    subst (λ (q : List TransportPacket). length q ≤ cap) (sym (ingest_all_lem ps s j h))
      (length-keep_last cap (s.queues j ++ stream j ps))

-- A drain of receiver 1..4 hands out the front of its queue, as much as is asked for or there, and
-- leaves the rest in order; all other queues and the counters stay. A number out of range drains
-- nothing.
pub drain_transport_packets_lem :
    (receiver most : ℕ) (s : Ingress)
    → let r = drain_transport_packets receiver most s in
      (1 ≤ receiver
        → receiver ≤ 4
        → (r.0 ++ r.1.queues (receiver - 1) ≡ s.queues (receiver - 1))
          × (length r.0 ≡ min most (length (s.queues (receiver - 1))))
          × ((j : ℕ) → j ≢ receiver - 1 → r.1.queues j ≡ s.queues j))
      × (r.1.counters ≡ s.counters)
      × (4 < receiver → (r.0 ≡ []) × (r.1 ≡ s))
unfolding drain_transport_packets
drain_transport_packets_lem receiver most s = (
  λ h k. (
    ground (arith, take-append-drop most (s.queues (receiver - 1))),
    ground (arith, length-take most (s.queues (receiver - 1))),
    λ j other. ground arith,
  ),
  ground arith,
  λ h. (ground arith, ground arith),
)
