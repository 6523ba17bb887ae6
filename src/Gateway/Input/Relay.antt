-- ===== src/Gateway/Input/Relay.antt =====
-- What the sink sends, the input delivers: the relay as a whole.
use wh_repeater.Common.{
  concat, ℕ, zero, suc, ◌+◌, ◌*◌, ◌/◌, ◌%◌, ◌≤◌, true, List, [], ◌∷◌, ◌++◌, length, length-append,
  length-drop, take, drop, All, ◌≡◌, refl, ap, sym, ◌∙◌, arith, &&-true,
}
use wh_repeater.Gateway.Sink.{Bytes, Network, new_sink, flush, ts_packet_size}
use wh_repeater.Gateway.Sink.Stream.{Accepts, write_all, flush-write_all}
use wh_repeater.Gateway.Sink.Wire.{Whole, All-imp, flush-write_all-Whole}
use wh_repeater.Gateway.Input.{
  PcGatewayInputStatus, Received, datagram, packets_at, packets_of, has_sync, all_sync,
  receive_datagram, pump, transport_packet_bytes,
}

take_all : (n : ℕ) (xs : Bytes) → length xs ≡ n → take n xs ≡ xs
take_all zero [] h = refl
take_all zero (x ∷ xs) h = absurd (omega arith)
take_all (suc n) [] h = refl
take_all (suc n) (x ∷ xs) h = ap (◌∷◌ x) (take_all n xs (omega arith))

take_append : (n : ℕ) (xs ys : Bytes) → n ≤ length xs → take n (xs ++ ys) ≡ take n xs
take_append zero xs ys h = refl
take_append (suc n) [] ys h = elim (h) [ ]
take_append (suc n) (x ∷ xs) ys h = ap (◌∷◌ x) (take_append n xs ys (omega arith))

drop_append : (n : ℕ) (xs ys : Bytes) → n ≤ length xs → drop n (xs ++ ys) ≡ drop n xs ++ ys
drop_append zero xs ys h = refl
drop_append (suc n) [] ys h = elim (h) [ ]
drop_append (suc n) (x ∷ xs) ys h = drop_append n xs ys (omega arith)

suc_add : (n m : ℕ) → suc n + m ≡ suc (n + m)
suc_add n m = omega arith

packets_at-append :
    (n m : ℕ) (xs ys : Bytes)
    → length xs ≡ transport_packet_bytes * n
    → packets_at (n + m) (xs ++ ys) ≡ packets_at n xs ++ packets_at m ys
unfolding packets_at
packets_at-append zero m [] ys h = ap (λ k. packets_at k ys) (omega arith)
packets_at-append zero m (x ∷ xs) ys h = absurd (omega arith)
packets_at-append (suc n) m xs ys h =
    let l = length-drop transport_packet_bytes xs in
    let t = take_append transport_packet_bytes xs ys (omega arith) in
    let d = drop_append transport_packet_bytes xs ys (omega arith) in
    let r = packets_at-append n m (drop transport_packet_bytes xs) ys (omega arith) in
    ap (λ k. packets_at k (xs ++ ys)) (suc_add n m)
    ∙ ap (λ x. x ∷ packets_at (n + m) (drop transport_packet_bytes (xs ++ ys))) t
    ∙ ap (λ x. take transport_packet_bytes xs ∷ packets_at (n + m) x) d
    ∙ ap (λ x. take transport_packet_bytes xs ∷ x) r

-- The packets of two buffers, the first of whole packets, are those of the first and the second.
packets_of-append :
    (xs ys : Bytes)
    → length xs % transport_packet_bytes ≡ 0
    → packets_of (xs ++ ys) ≡ packets_of xs ++ packets_of ys
packets_of-append xs ys h =
    let l = length-append xs ys in
    let e : length (xs ++ ys) / transport_packet_bytes
        ≡ length xs / transport_packet_bytes + length ys / transport_packet_bytes =
      omega arith in
    ap (λ k. packets_at k (xs ++ ys)) e
    ∙ packets_at-append (length xs / transport_packet_bytes) (length ys / transport_packet_bytes) xs
        ys (omega arith)

packets_of_one : (p : Bytes) → length p ≡ transport_packet_bytes → packets_of p ≡ p ∷ []
unfolding packets_at
packets_of_one p h =
    let e : length p / transport_packet_bytes ≡ 1 = omega arith in
    ap (λ k. packets_at k p) e ∙ ap (λ x. x ∷ []) (take_all transport_packet_bytes p h)

packets_of-concat :
    (ps : List Bytes)
    → All (λ p. length p ≡ transport_packet_bytes) ps
    → packets_of (concat ps) ≡ ps
unfolding packets_at
packets_of-concat [] h = refl
packets_of-concat (p ∷ ps) h =
    packets_of-append p (concat ps) (let l = h.0 in omega arith)
    ∙ ap (λ x. x ++ packets_of (concat ps)) (packets_of_one p h.0)
    ∙ ap (◌∷◌ p) (packets_of-concat ps h.1)

-- The packets of each datagram, in turn.
abbrev pub pieces : List Bytes → List Bytes
pieces [] = []
pieces (d ∷ ds) = packets_of d ++ pieces ds

pieces_lem : (ds : List Bytes) → All Whole ds → pieces ds ≡ packets_of (concat ds)
unfolding packets_at
pieces_lem [] h = refl
pieces_lem (d ∷ ds) h =
    ap (λ x. packets_of d ++ x) (pieces_lem ds h.1) ∙ sym (packets_of-append d (concat ds) h.0.0)

all_sync-append :
    (ps qs : List Bytes) → all_sync (ps ++ qs) ≡ true → (all_sync ps ≡ true) × (all_sync qs ≡ true)
all_sync-append [] qs h = (refl, h)
all_sync-append (p ∷ ps) qs h =
    let (a, b) = &&-true (has_sync p) (all_sync (ps ++ qs)) h in
    let (c, d) = all_sync-append ps qs b in (rw a c, d)

abbrev pub received : ℕ → List Bytes → List Received
received now [] = []
received now (d ∷ ds) = datagram now d ∷ received now ds

receive_good :
    (now : ℕ) (d : Bytes) (st : PcGatewayInputStatus)
    → Whole d
    → all_sync (packets_of d) ≡ true
    → (receive_datagram now d st).1 ≡ packets_of d
unfolding receive_datagram
receive_good now d st w s = let a = w.0 in ground arith

pump-received :
    (now : ℕ) (ds : List Bytes) (st : PcGatewayInputStatus)
    → All Whole ds
    → all_sync (pieces ds) ≡ true
    → (pump (received now ds) st).1 ≡ pieces ds
unfolding pump
pump-received now [] st h s = refl
pump-received now ([] ∷ ds) st h s = absurd (omega (arith, h.0.1))
pump-received now ((b ∷ bs) ∷ ds) st h s =
    let (good, rest) = all_sync-append (packets_of (b ∷ bs)) (pieces ds) s in
    let st₁ = (receive_datagram now (b ∷ bs) st).0 in
    ap (λ x. x ++ (pump (received now ds) st₁).1) (receive_good now (b ∷ bs) st h.0 good)
    ∙ ap (λ x. packets_of (b ∷ bs) ++ x) (pump-received now ds st₁ h.1 rest)

-- Transport packets, of 188 bytes and with their sync byte each, that are written to a new sink and
-- flushed, reach the other side whole: an input that receives the sink's datagrams in order hands
-- exactly these packets, in order, to its own sink. The sending socket opens, its address is valid
-- and it takes every datagram.
pub pump-flush-write_all :
    (net : Network) (packets : List Bytes) (now : ℕ) (st : PcGatewayInputStatus)
    → net.can_open ≡ true
    → net.valid_address ≡ true
    → Accepts net
    → All (λ p. length p ≡ transport_packet_bytes) packets
    → all_sync packets ≡ true
    → (pump (received now (flush net (write_all net new_sink packets)).sent) st).1 ≡ packets
pump-flush-write_all net packets now st can address accepts size sync =
    pump-received now sent st whole (ap all_sync arrived ∙ sync) ∙ arrived
  where
    aligned : All (λ p. length p % ts_packet_size ≡ 0) packets
    aligned = All-imp (λ p h. omega arith) packets size

    sent : List Bytes
    sent = (flush net (write_all net new_sink packets)).sent

    whole : All Whole sent
    whole = flush-write_all-Whole net packets can address accepts aligned

    arrived : pieces sent ≡ packets
    arrived =
        pieces_lem sent whole
        ∙ ap packets_of (flush-write_all net packets can address accepts aligned).0
        ∙ packets_of-concat packets size
