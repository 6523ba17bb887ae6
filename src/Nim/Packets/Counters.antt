-- ===== src/Nim/Packets/Counters.antt =====
-- What the counters of a receiver say of the packets that the driver delivered.
use native.Mathlib.Nat.{mod-add-mod}
use wh_repeater.Common.{
  ℕ, zero, suc, ◌+◌, ◌%◌, ◌^◌, ◌<◌, true, not, List, [], ◌∷◌, ◌≡◌, refl, ap, ◌∙◌, arith, ◌==◌,
  if◌then◌else◌, All,
}
use wh_repeater.Nim.Packets.{
  WhDriverPacket, TransportPacket, PacketCounters, Ingress, Sequence, update_sequence, u64,
  enqueue_packet_locked, enqueue_nulls, count_packet, accept_packet, ingest_packet, receiver_index,
  is_valid, null_count, first_byte, null_packet, count_transport, update, track_in, track_out,
  in_sequence, out_sequence, pic_index, count_flags, is_restart, is_overflow,
}
use wh_repeater.Nim.Packets.Queue.{ingest_all}

-- The sequence tracker over the numbers of the packets.
unfoldable pub update_all : Sequence → List ℕ → Sequence
update_all s [] = s
update_all s (x ∷ xs) = update_all (update_sequence s x) xs

-- How often a number is not the successor, modulo 16, of the one before it.
abbrev pub gaps : ℕ → List ℕ → ℕ
gaps previous [] = 0
gaps previous (x ∷ xs) = let rest = gaps x xs in if x == (previous + 1) % 16 then rest else suc rest

update_sequence_lem :
    (s : Sequence) (x : ℕ)
    → s.has_previous ≡ true
    → s.previous < 16
    → x < 16
    → update_sequence s x ≡ record {
      has_previous = true;
      previous = x;
      errors = if x == (s.previous + 1) % 16 then s.errors else u64 (s.errors + 1);
    }
unfolding update_sequence
update_sequence_lem s x h k l = ground arith

-- Over any run of 4-bit sequence numbers the errors grow by exactly the number of places where the
-- run does not go on by one, modulo the counter's width.
pub update_all-gaps :
    (s : Sequence) (xs : List ℕ)
    → s.has_previous ≡ true
    → s.previous < 16
    → s.errors < 2 ^ 64
    → All (λ x. x < 16) xs
    → (update_all s xs).errors ≡ u64 (s.errors + gaps s.previous xs)
unfolding update_all
update_all-gaps s [] h k l q = omega arith
update_all-gaps s (x ∷ xs) h k l q =
    let next = record s {
      has_previous = true;
      previous = x;
      errors = if x == (s.previous + 1) % 16 then s.errors else u64 (s.errors + 1);
    } in
    ap (λ (t : Sequence). (update_all t xs).errors) (update_sequence_lem s x h k q.0)
    ∙ update_all-gaps next xs refl q.0 (ground arith) q.1
    ∙ ground (arith, mod-add-mod (s.errors + 1) (2 ^ 64) (gaps x xs))

-- The counters that `ingestPacket` keeps for each packet of a receiver.
pub record Tally : Type 0 where
  pub transport : ℕ
  pub nulls : ℕ
  pub valid : ℕ
  pub sync : ℕ

abbrev pub tally : PacketCounters → Tally
tally c = record {
  transport = c.transport_packets;
  nulls = c.null_packets;
  valid = c.valid_packets;
  sync = c.sync_errors;
}

-- One more packet of a receiver.
abbrev pub add_packet : WhDriverPacket → Tally → Tally
add_packet p t =
    let counted = record t {
      transport = u64 (t.transport + 1 + null_count p.status);
      nulls = u64 (t.nulls + null_count p.status);
    } in
    if not (first_byte p.ts == 0x47)
    then record counted { sync = u64 (t.sync + 1) }
    else if is_valid p.status
    then record counted { valid = u64 (t.valid + 1) }
    else counted

enqueue_packet_locked-tally :
    (i : ℕ) (ts : TransportPacket) (s : Ingress) (j : ℕ)
    → tally ((enqueue_packet_locked i ts s).counters j) ≡ tally (s.counters j)
unfolding enqueue_packet_locked
enqueue_packet_locked-tally i ts s j = ground arith

enqueue_nulls-tally :
    (i n : ℕ) (s : Ingress) (j : ℕ)
    → tally ((enqueue_nulls i n s).counters j) ≡ tally (s.counters j)
unfolding enqueue_nulls
enqueue_nulls-tally i zero s j = refl
enqueue_nulls-tally i (suc n) s j =
    enqueue_nulls-tally i n (enqueue_packet_locked i null_packet s) j
    ∙ enqueue_packet_locked-tally i null_packet s j

tally-update :
    (f : ℕ → PacketCounters) (i : ℕ) (c : PacketCounters) (j : ℕ)
    → tally c ≡ tally (f i)
    → tally (update f i c j) ≡ tally (f j)
tally-update f i c j h = ground arith

count_packet-tally :
    (status : ℕ) (s : Ingress) (j : ℕ)
    → tally ((count_packet status s).counters j) ≡ (
        if j == receiver_index status
        then record (tally (s.counters j)) { valid = u64 ((s.counters j).valid_packets + 1) }
        else tally (s.counters j))
unfolding count_packet
count_packet-tally status s j =
    let i = receiver_index status in
    let c = s.counters i in
    let valid = update s.counters i (record c { valid_packets = u64 (c.valid_packets + 1) }) in
    let out = update valid (pic_index i) (track_out (valid (pic_index i)) (out_sequence status)) in
    let inward = update out i (track_in (out i) (in_sequence status)) in
    tally-update inward i (count_flags (inward i) (is_restart status) (is_overflow status)) j refl
    ∙ tally-update out i (track_in (out i) (in_sequence status)) j refl
    ∙ tally-update valid (pic_index i) (track_out (valid (pic_index i)) (out_sequence status)) j
        refl
    ∙ first c valid refl
  where
    first :
        (c : PacketCounters) (f : ℕ → PacketCounters)
        → f
          ≡ update s.counters (receiver_index status) (record (s.counters (receiver_index status)) {
            valid_packets = u64 ((s.counters (receiver_index status)).valid_packets + 1);
          })
        → tally (f j) ≡ (
            if j == receiver_index status
            then record (tally (s.counters j)) { valid = u64 ((s.counters j).valid_packets + 1) }
            else tally (s.counters j))
    first c f e = ap (λ (g : ℕ → PacketCounters). tally (g j)) e ∙ ground arith

ingest_packet-tally :
    (p : WhDriverPacket) (s : Ingress) (j : ℕ)
    → tally ((ingest_packet p s).counters j) ≡ (
        if j == receiver_index p.status
        then add_packet p (tally (s.counters j))
        else tally (s.counters j))
unfolding ingest_packet accept_packet
ingest_packet-tally p s j =
    let i = receiver_index p.status in
    let n = null_count p.status in
    let counted = record s { counters = update s.counters i (count_transport (s.counters i) n) } in
    let after = count_packet p.status counted in
    ground (
      arith,
      enqueue_packet_locked-tally i p.ts (enqueue_nulls i n after) j,
      enqueue_nulls-tally i n after j,
      count_packet-tally p.status counted j,
    )

-- The tally of a receiver's own packets, in order.
abbrev pub tally_all : ℕ → List WhDriverPacket → Tally → Tally
tally_all j [] t = t
tally_all j (p ∷ ps) t = tally_all j ps (if j == receiver_index p.status then add_packet p t else t)

-- The counters of a receiver count its own packets and no others: each with its null packets, and
-- once more as a sync error, as valid, or as neither. The aliasing of the PIC's counters and the
-- full queue change nothing of this.
pub ingest_all-tally :
    (ps : List WhDriverPacket) (s : Ingress) (j : ℕ)
    → tally ((ingest_all ps s).counters j) ≡ tally_all j ps (tally (s.counters j))
unfolding ingest_all
ingest_all-tally [] s j = refl
ingest_all-tally (p ∷ ps) s j =
    ingest_all-tally ps (ingest_packet p s) j ∙ ap (tally_all j ps) (ingest_packet-tally p s j)
