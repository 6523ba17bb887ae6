-- ===== src/Nim/Packets/Examples.antt =====
-- The packet path on concrete driver packets.
use wh_repeater.Common.{◌+◌, ◌*◌, ◌^◌, true, List, [], ◌∷◌, ◌++◌, ◌≡◌, refl, arith}
use wh_repeater.Nim.Packets.{
  WhDriverPacket, Sequence, empty_ingress, null_packet, max_queued_packets_per_receiver,
  update_sequence, enqueue_packet_locked, enqueue_nulls, count_packet, accept_packet, ingest_packet,
}
use wh_repeater.Nim.Packets.Bounded.{keep_last}
use wh_repeater.Nim.Packets.Queue.{ingest_all, stream, ingest_all_lem}
use wh_repeater.Nim.Packets.Counters.{update_all, tally, tally_all, ingest_all-tally}

-- A valid packet of receiver index 1 with two null packets before it, and one that lost its sync.
abbrev good : WhDriverPacket
good = record { ts = 0x47 ∷ 1 ∷ []; status = 2 * 2 ^ 20 + 1 * 2 ^ 12 + 2 ^ 8 }

abbrev bad : WhDriverPacket
bad = record { ts = 0x46 ∷ 1 ∷ []; status = 1 * 2 ^ 12 + 2 ^ 8 }

abbrev packets : List WhDriverPacket
packets = good ∷ bad ∷ []

ingest_all_example :
    (ingest_all packets empty_ingress).queues 1
    ≡ keep_last max_queued_packets_per_receiver ([] ++ stream 1 packets)
ingest_all_example = ingest_all_lem packets empty_ingress 1 (omega arith)

packets_queue :
    ((ingest_all packets empty_ingress).queues 1 ≡ null_packet ∷ null_packet ∷ (0x47 ∷ 1 ∷ []) ∷ [])
    × ((ingest_all packets empty_ingress).queues 0 ≡ [])
    × (((ingest_all packets empty_ingress).counters 1).sync_errors ≡ 1)
unfolding ingest_all ingest_packet accept_packet count_packet enqueue_nulls enqueue_packet_locked
    update_sequence
packets_queue = (refl, refl, refl)

abbrev tracked : Sequence
tracked = record { has_previous = true; previous = 14; errors = 0 }

tracked_gap : (update_all tracked (15 ∷ 0 ∷ 2 ∷ 3 ∷ [])).errors ≡ 1
unfolding update_all update_sequence
tracked_gap = refl

ingest_all-tally_example :
    tally ((ingest_all packets empty_ingress).counters 1)
    ≡ tally_all 1 packets (tally (empty_ingress.counters 1))
ingest_all-tally_example = ingest_all-tally packets empty_ingress 1
