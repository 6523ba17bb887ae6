-- ===== src/Gateway/Sink/Wire.antt =====
-- The shape of the datagrams that leave: how the bytes are cut, and that they are whole packets.
use wh_repeater.Common.{
  concat, All-append, ◌%◌, ◌≤◌, true, List, [], ◌∷◌, ◌++◌, length, length-append, All, ◌≡◌, refl,
  ap, sym, subst, arith, inl, inr,
}
use wh_repeater.Gateway.Sink.{
  Bytes, Network, TsGatewaySink, ts_packet_size, datagram_size, new_sink, flush,
}
use wh_repeater.Gateway.Sink.Stream.{
  Accepts, write_all, write_all-stream, flush-write_all, flush_sent,
}

-- A datagram on the wire: whole packets, and not none.
abbrev pub Whole : Bytes → Type 0
Whole d = (length d % ts_packet_size ≡ 0) × (1 ≤ length d)

length-concat-aligned :
    (ds : List Bytes)
    → All (λ d. length d % ts_packet_size ≡ 0) ds
    → length (concat ds) % ts_packet_size ≡ 0
length-concat-aligned [] h = refl
length-concat-aligned (d ∷ ds) h =
    let l = length-append d (concat ds) in
    let k = length-concat-aligned ds h.1 in let a = h.0 in omega arith

pub All-imp {κ κ'} :
    {P : Bytes → Type κ} {Q : Bytes → Type κ'}
    → ((d : Bytes) → P d → Q d)
    → (ds : List Bytes) → All P ds
    → All Q ds
All-imp f [] h = tt
All-imp f (d ∷ ds) h = (f d h.0, All-imp f ds h.1)

full-Whole : (d : Bytes) → length d ≡ datagram_size → Whole d
full-Whole d e = (omega arith, omega arith)

pub flush-write_all-Whole :
    (net : Network) (packets : List Bytes)
    → net.can_open ≡ true
    → net.valid_address ≡ true
    → Accepts net
    → All (λ p. length p % ts_packet_size ≡ 0) packets
    → All Whole (flush net (write_all net new_sink packets)).sent
flush-write_all-Whole net packets can address accepts aligned =
    elim (flush_sent net address accepts s) [
      | inl (d, e) ↦ subst (All Whole) (sym e) full
      | inr (l, e) ↦
          subst (All Whole) (sym e) (All-append Whole s.sent (s.datagram ∷ []) full ((rest, l), tt))
    ]
  where
    s : TsGatewaySink
    s = write_all net new_sink packets

    full : All Whole s.sent
    full = All-imp full-Whole s.sent (write_all-stream net packets can address accepts aligned).2

    rest : length s.datagram % ts_packet_size ≡ 0
    rest =
        let total = ap length (write_all-stream net packets can address accepts aligned).0 in
        let l = length-append (concat s.sent) s.datagram in
        let a = length-concat-aligned packets aligned in
        let b = length-concat-aligned s.sent (All-imp (λ d h. h.0) s.sent full) in omega arith

-- Datagrams that are full but for the last, which has at least one byte and no more than a full one.
abbrev pub Cut : List Bytes → Type 0
Cut [] = Unit {0}
Cut (d ∷ []) = (1 ≤ length d) × (length d ≤ datagram_size)
Cut (d ∷ e ∷ ds) = (length d ≡ datagram_size) × Cut (e ∷ ds)

Cut-full : (ds : List Bytes) → All (λ d. length d ≡ datagram_size) ds → Cut ds
Cut-full [] h = tt
Cut-full (d ∷ []) h = let l = h.0 in (omega arith, omega arith)
Cut-full (d ∷ e ∷ ds) h = (h.0, Cut-full (e ∷ ds) h.1)

Cut-last :
    (ds : List Bytes) (last : Bytes)
    → All (λ d. length d ≡ datagram_size) ds
    → 1 ≤ length last
    → length last ≤ datagram_size
    → Cut (ds ++ last ∷ [])
Cut-last [] last h some_bytes fits = (some_bytes, fits)
Cut-last (d ∷ []) last h some_bytes fits = (h.0, (some_bytes, fits))
Cut-last (d ∷ e ∷ ds) last h some_bytes fits = (h.0, Cut-last (e ∷ ds) last h.1 some_bytes fits)

-- While the socket opens, the address is valid and every call of `sendto` takes its whole datagram: after
-- writes of any number of whole packets of 188 bytes each to a new sink, in pieces of any size, and a
-- flush, the datagrams sent are all bytes of all writes in order, cut into datagrams of 1316 bytes and, for
-- what is left over, a shorter one of at least one byte; and no byte waits.
pub flush-write_all-Cut :
    (net : Network) (packets : List Bytes)
    → net.can_open ≡ true
    → net.valid_address ≡ true
    → Accepts net
    → All (λ p. length p % ts_packet_size ≡ 0) packets
    → let s = flush net (write_all net new_sink packets) in
      (concat s.sent ≡ concat packets) × Cut s.sent × (s.datagram ≡ [])
flush-write_all-Cut net packets can address accepts aligned =
    let (all, none_waits) = flush-write_all net packets can address accepts aligned in
    (all, pieces, none_waits)
  where
    s : TsGatewaySink
    s = write_all net new_sink packets

    full : All (λ d. length d ≡ datagram_size) s.sent
    full = (write_all-stream net packets can address accepts aligned).2

    pieces : Cut (flush net s).sent
    pieces = elim (flush_sent net address accepts s) [
      | inl (d, e) ↦ subst Cut (sym e) (Cut-full s.sent full)
      | inr (l, e) ↦
          let room = (write_all-stream net packets can address accepts aligned).1 in
          subst Cut (sym e) (Cut-last s.sent s.datagram full l (omega arith))
    ]
