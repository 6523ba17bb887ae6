-- ===== src/Nim/Packets.antt =====
-- The packet path of `SeritNimController::Impl`: the driver's packets, their counters and the queue of
-- each receiver. The two mutexes make each operation one step. An array of four is a function of
-- the index; a `uint64_t` counter wraps.
pub mod Bounded
pub mod Queue
pub mod Counters
mod Examples
use wh_repeater.Common.{
  ℕ, zero, suc, ◌+◌, ◌-◌, ◌*◌, ◌/◌, ◌%◌, ◌^◌, Bool, true, false, not, ◌||◌, List, [], ◌∷◌, ◌++◌,
  length, take, drop, replicate, ◌==◌, ltb, leb, if◌then◌else◌,
}

abbrev pub u64 : ℕ → ℕ
u64 n = n % 2 ^ 64

abbrev pub TransportPacket : Type 0
TransportPacket = List ℕ

pub record WhDriverPacket : Type 0 where
  pub ts : TransportPacket
  pub status : ℕ

abbrev pub null_packet : TransportPacket
null_packet = 0x47 ∷ 0x1f ∷ 0xff ∷ 0x00 ∷ replicate 184 0xff

abbrev pub max_queued_packets_per_receiver : ℕ
max_queued_packets_per_receiver = 65536

pub record PacketCounters : Type 0 where
  pub transport_packets : ℕ
  pub valid_packets : ℕ
  pub null_packets : ℕ
  pub sync_errors : ℕ
  pub in_sequence_errors : ℕ
  pub out_sequence_errors : ℕ
  pub restart_errors : ℕ
  pub overflow_errors : ℕ
  pub last_in_sequence : ℕ
  pub last_out_sequence : ℕ
  pub has_in_sequence : Bool
  pub has_out_sequence : Bool

pub record Ingress : Type 0 where
  pub counters : ℕ → PacketCounters
  pub queues : ℕ → List TransportPacket

abbrev pub zero_counters : PacketCounters
zero_counters = record {
  transport_packets = 0;
  valid_packets = 0;
  null_packets = 0;
  sync_errors = 0;
  in_sequence_errors = 0;
  out_sequence_errors = 0;
  restart_errors = 0;
  overflow_errors = 0;
  last_in_sequence = 0;
  last_out_sequence = 0;
  has_in_sequence = false;
  has_out_sequence = false;
}

-- What `initialise` resets.
abbrev pub empty_ingress : Ingress
empty_ingress = record { counters = λ i. zero_counters; queues = λ i. [] }

abbrev pub update {ℓ} : {A : Type ℓ} → (ℕ → A) → ℕ → A → ℕ → A
update f i a j = if j == i then a else f j

-- The bytes do not overlap, so `|` is a sum.
abbrev pub little_endian_u32 : List ℕ → ℕ
little_endian_u32 (a ∷ b ∷ c ∷ d ∷ rest) = a + b * 2 ^ 8 + c * 2 ^ 16 + d * 2 ^ 24
little_endian_u32 _ = 0

-- The split of a driver buffer of 192 bytes in `packetReaderLoop`.
unfoldable pub read_packet : List ℕ → WhDriverPacket
read_packet buffer = record { ts = take 188 buffer; status = little_endian_u32 (drop 188 buffer) }

-- `(status >> shift) & (2 ^ width - 1)`.
abbrev pub bits : ℕ → ℕ → ℕ → ℕ
bits status shift width = status / 2 ^ shift % 2 ^ width

abbrev pub receiver_index : ℕ → ℕ
receiver_index status = bits status 12 2

abbrev pub is_valid : ℕ → Bool
is_valid status = bits status 8 1 == 1

abbrev pub is_restart : ℕ → Bool
is_restart status = bits status 9 1 == 1

abbrev pub is_overflow : ℕ → Bool
is_overflow status = bits status 10 1 == 1

abbrev pub null_count : ℕ → ℕ
null_count status = bits status 20 4

abbrev pub out_sequence : ℕ → ℕ
out_sequence status = bits status 24 4

abbrev pub in_sequence : ℕ → ℕ
in_sequence status = bits status 28 4

-- `receiverIndex & 0x02`: receivers 0 and 1 share a PIC, and 2 and 3.
abbrev pub pic_index : ℕ → ℕ
pic_index receiver = receiver / 2 * 2

-- `packet.ts[0]`; a driver packet is never empty.
abbrev pub first_byte : TransportPacket → ℕ
first_byte [] = 0
first_byte (b ∷ bs) = b

-- One tracked sequence: whether there is a last number, that number, and the errors so far.
pub record Sequence : Type 0 where
  pub has_previous : Bool
  pub previous : ℕ
  pub errors : ℕ

unfoldable pub update_sequence : Sequence → ℕ → Sequence
update_sequence s current =
    if not s.has_previous then record s { previous = current; has_previous = true } else record s {
      errors = if (current + 256 - s.previous) % 16 == 1 then s.errors else u64 (s.errors + 1);
      previous = current;
    }

abbrev pub track_out : PacketCounters → ℕ → PacketCounters
track_out c current =
    let s =
      update_sequence
        (record {
          has_previous = c.has_out_sequence;
          previous = c.last_out_sequence;
          errors = c.out_sequence_errors;
        })
        current in
    record c {
      has_out_sequence = s.has_previous;
      last_out_sequence = s.previous;
      out_sequence_errors = s.errors;
    }

abbrev pub track_in : PacketCounters → ℕ → PacketCounters
track_in c current =
    let s =
      update_sequence
        (record {
          has_previous = c.has_in_sequence;
          previous = c.last_in_sequence;
          errors = c.in_sequence_errors;
        })
        current in
    record c {
      has_in_sequence = s.has_previous;
      last_in_sequence = s.previous;
      in_sequence_errors = s.errors;
    }

abbrev pub pop_front {ℓ} : {A : Type ℓ} → List A → List A
pop_front [] = []
pop_front (x ∷ xs) = xs

unfoldable pub enqueue_packet_locked : ℕ → TransportPacket → Ingress → Ingress
enqueue_packet_locked i ts s =
    let queue = s.queues i in
    let c = s.counters i in
    if leb max_queued_packets_per_receiver (length queue)
    then record {
      counters = update s.counters i (record c { overflow_errors = u64 (c.overflow_errors + 1) });
      queues = update s.queues i (pop_front queue ++ ts ∷ []);
    }
    else record s { queues = update s.queues i (queue ++ ts ∷ []) }

-- The loop over the null packets.
unfoldable pub enqueue_nulls : ℕ → ℕ → Ingress → Ingress
enqueue_nulls i zero s = s
enqueue_nulls i (suc n) s = enqueue_nulls i n (enqueue_packet_locked i null_packet s)

abbrev pub count_transport : PacketCounters → ℕ → PacketCounters
count_transport c nulls = record c {
  transport_packets = u64 (c.transport_packets + 1 + nulls);
  null_packets = u64 (c.null_packets + nulls);
}

abbrev pub count_flags : PacketCounters → Bool → Bool → PacketCounters
count_flags c restart overflow = record c {
  restart_errors = if restart then u64 (c.restart_errors + 1) else c.restart_errors;
  overflow_errors = if overflow then u64 (c.overflow_errors + 1) else c.overflow_errors;
}

-- The counters behind the tests of the sync byte and the valid flag: `picCounters` may be the same
-- entry as `receiverCounters`, so they are written in the source's order.
unfoldable pub count_packet : ℕ → Ingress → Ingress
count_packet status s =
    let i = receiver_index status in
    let pic = pic_index i in
    let c = s.counters i in
    let valid = update s.counters i (record c { valid_packets = u64 (c.valid_packets + 1) }) in
    let out = update valid pic (track_out (valid pic) (out_sequence status)) in
    let inward = update out i (track_in (out i) (in_sequence status)) in
    record s {
      counters = update inward i (count_flags (inward i) (is_restart status) (is_overflow status));
    }

unfoldable pub accept_packet : WhDriverPacket → Ingress → Ingress
accept_packet packet s =
    let i = receiver_index packet.status in
    enqueue_packet_locked i packet.ts
      (enqueue_nulls i (null_count packet.status) (count_packet packet.status s))

unfoldable pub ingest_packet : WhDriverPacket → Ingress → Ingress
ingest_packet packet s =
    let i = receiver_index packet.status in
    let counted = count_transport (s.counters i) (null_count packet.status) in
    let s' = record s { counters = update s.counters i counted } in
    if not (first_byte packet.ts == 0x47)
    then record s {
      counters =
          update s.counters i (record counted { sync_errors = u64 (counted.sync_errors + 1) });
    }
    else if not (is_valid packet.status)
    then s'
    else accept_packet packet s'

-- `drainTransportPackets` for the receiver numbered `receiver`: the packets and the new state. The index
-- of receiver 0 wraps and is out of range.
unfoldable pub drain_transport_packets : ℕ → ℕ → Ingress → List TransportPacket × Ingress
drain_transport_packets receiver max_packets s =
    if receiver == 0 || ltb 4 receiver || max_packets == 0
    then ([], s)
    else let i = receiver - 1 in
      (
        take max_packets (s.queues i),
        record s { queues = update s.queues i (drop max_packets (s.queues i)) },
      )

unfoldable pub clear_receiver_packet_queue : ℕ → Ingress → Ingress
clear_receiver_packet_queue receiver s =
    if receiver == 0 || ltb 4 receiver
    then s
    else record s { queues = update s.queues (receiver - 1) [] }

-- `countersFor`: the counters of a receiver, or fresh ones for a number out of range.
unfoldable pub counters_for : ℕ → Ingress → PacketCounters
counters_for receiver s =
    if receiver == 0 || ltb 4 receiver then zero_counters else s.counters (receiver - 1)
