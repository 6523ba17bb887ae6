-- ===== src/Gateway/Input/Examples.antt =====
-- The relay at concrete packets.
use wh_repeater.Common.{ℕ, true, none, some, List, [], ◌∷◌, length, replicate, ◌≡◌, refl}
use wh_repeater.Gateway.Sink.{Bytes, Network, new_sink, flush}
use wh_repeater.Gateway.Sink.Stream.{write_all}
use wh_repeater.Gateway.Input.{
  PcGatewayInputStatus, datagram, failed, not_ready, pump, packets_at, receive_datagram, active,
}
use wh_repeater.Gateway.Input.Relay.{received, pump-flush-write_all}

abbrev loopback : Network
loopback = record { can_open = true; valid_address = true; send = λ k d. some (length d) }

abbrev sync_packet : ℕ → Bytes
sync_packet n = 0x47 ∷ replicate 187 n

abbrev eight_packets : List Bytes
eight_packets =
    sync_packet 1
    ∷ sync_packet 2
    ∷ sync_packet 3
    ∷ sync_packet 4
    ∷ sync_packet 5
    ∷ sync_packet 6
    ∷ sync_packet 7
    ∷ sync_packet 8
    ∷ []

abbrev idle : PcGatewayInputStatus
idle = record {
  datagrams = 0;
  bytes = 0;
  transport_packets = 0;
  alignment_errors = 0;
  sync_errors = 0;
  updated_at = 0;
  last_error = none;
}

pump-flush-write_all_example :
    (pump (received 5 (flush loopback (write_all loopback new_sink eight_packets)).sent) idle).1
    ≡ eight_packets
pump-flush-write_all_example =
    pump-flush-write_all loopback eight_packets 5 idle refl refl (λ k d. refl)
      (refl, (refl, (refl, (refl, (refl, (refl, (refl, (refl, tt)))))))) refl

-- A datagram without sync byte is counted and passed over; a short one too.
bad_then_good :
    let (st, written) =
      pump
        (datagram 1 (replicate 188 0)
          ∷ datagram 2 (replicate 187 0x47)
          ∷ datagram 3 (sync_packet 9)
          ∷ not_ready
          ∷ failed 4
          ∷ [])
        idle in
    (written ≡ sync_packet 9 ∷ [])
    × (st.sync_errors ≡ 1)
    × (st.alignment_errors ≡ 1)
    × (st.datagrams ≡ 3)
    × (active st 10 7 ≡ true)
unfolding pump receive_datagram packets_at active
bad_then_good = (refl, refl, refl, refl, refl)
