-- ===== src/Mqtt/Examples.antt =====
-- A conversation with a broker.
use wh_repeater.Common.{
  ◌/◌, ◌++◌, true, false, none, some, List, [], ◌∷◌, replicate, ◌≡◌, refl, arith,
}
use wh_repeater.Mqtt.{
  chunk, idle, interrupted, Arrival, Connection, mqtt_packet, append_remaining_length, read_packet,
  read_byte, read_length, read_body,
}
use wh_repeater.Mqtt.Reading.{Left}
use wh_repeater.Mqtt.RoundTrip.{read_packet-mqtt_packet}
use wh_repeater.Mqtt.Messages.{PlutoMqttStatus, Attempt, handshake}
use wh_repeater.Mqtt.Handshake.{Ends, handshake-packets}

-- A body of 130 bytes in three pieces, with a ping between them, and a byte more.
abbrev pieces : Connection
pieces = record {
  input =
      chunk (0x30 ∷ 130 ∷ [])
      ∷ idle 5000 true 5001
      ∷ chunk (1 ∷ replicate 100 7)
      ∷ interrupted
      ∷ chunk (replicate 30 7 ++ 0xd0 ∷ [])
      ∷ [];
  next_ping = some 4000;
  pings = 0;
}

packet_130 : mqtt_packet 0x30 (replicate 130 7) ≡ some (0x30 ∷ 130 ∷ 1 ∷ replicate 130 7)
unfolding append_remaining_length
packet_130 = refl

read_packet-mqtt_packet_example :
    (c' : Connection) × (read_packet pieces
      ≡ some (record { kind = 0x30 / 16; body = replicate 130 7 }, c'))
    × Left (0xd0 ∷ []) c'
read_packet-mqtt_packet_example =
    read_packet-mqtt_packet 0x30 (replicate 130 7) (0x30 ∷ 130 ∷ 1 ∷ replicate 130 7) (0xd0 ∷ [])
      pieces (omega arith) packet_130 (omega arith, (refl, (omega arith, (omega arith, tt)))) refl

abbrev waiting : PlutoMqttStatus
waiting = record { connected = false; values = λ k. none; error = none }

-- CONNACK with code 0, then SUBACK.
abbrev greeting : List Arrival
greeting = chunk (0x20 ∷ 2 ∷ 0 ∷ 0 ∷ 0x90 ∷ 3 ∷ 0 ∷ 1 ∷ 0 ∷ []) ∷ []

abbrev welcome : Attempt
welcome = record { input = some greeting; connect_sent = true; subscribe_sent = true; now = 100 }

connack_made : mqtt_packet 0x20 (0 ∷ 0 ∷ []) ≡ some (0x20 ∷ 2 ∷ 0 ∷ 0 ∷ [])
unfolding append_remaining_length
connack_made = refl

suback_made : mqtt_packet 0x90 (0 ∷ 1 ∷ 0 ∷ []) ≡ some (0x90 ∷ 3 ∷ 0 ∷ 1 ∷ 0 ∷ [])
unfolding append_remaining_length
suback_made = refl

handshake-packets_example : Ends none 100 [] waiting (handshake welcome waiting)
handshake-packets_example =
    handshake-packets welcome greeting 0x20 0x90 0 0 [] (0 ∷ 1 ∷ 0 ∷ []) (0x20 ∷ 2 ∷ 0 ∷ 0 ∷ [])
      (0x90 ∷ 3 ∷ 0 ∷ 1 ∷ 0 ∷ []) [] waiting refl (omega arith, tt) refl (omega arith) (omega arith)
      connack_made suback_made

welcome_connects : (handshake welcome waiting).0.connected ≡ true
unfolding handshake read_packet read_byte read_length read_body
welcome_connects = refl
