-- ===== src/Pluto/Publish.antt =====
-- publishMqtt of src/pluto_sink.cpp: a connection to the broker for one message. The packets are built as
-- in src/pluto_mqtt_status.cpp, by the same functions. What the sockets do is the conversation: whether
-- the connection succeeds, what each `send` takes, and the bytes that come back before a timeout, an
-- error or the end of the stream.
use wh_repeater.Common.{
  ℕ, zero, suc, ◌+◌, ◌*◌, ◌/◌, ◌%◌, Bool, true, false, not, ◌&&◌, Option, none, some, List, [], ◌∷◌,
  ◌++◌, length, take, ltb, leb, ◌==◌, if◌then◌else◌, text,
}
use wh_repeater.Domain.{Text}
use wh_repeater.Mqtt.{
  Bytes, append_uint16, append_string, protocol_name, mqtt_packet, Sending, send_all,
}

pub record Conversation : Type 0 where
  pub connects : Bool
  pub sends : ℕ → List Sending
  pub reply : Bytes

abbrev pub control_variable : Bytes
control_variable =
    append_string protocol_name
    ++ (4 ∷ 2 ∷ (append_uint16 20 ++ append_string (text "wh-repeater-control")))

abbrev pub publish_variable : Text → Text → Bytes
publish_variable topic payload = append_string topic ++ payload

-- A packet is always there: a length takes ten bytes at most.
abbrev pub bytes_of : Option Bytes → Bytes
bytes_of none = []
bytes_of (some packet) = packet

abbrev pub connect_packet : Bytes
connect_packet = bytes_of (mqtt_packet 0x10 control_variable)

abbrev pub publish_packet : Text → Text → Bytes
publish_packet topic payload = bytes_of (mqtt_packet 0x30 (publish_variable topic payload))

abbrev pub disconnect_packet : Bytes
disconnect_packet = 0xe0 ∷ 0x00 ∷ []

-- The loop over the length's bytes, which ends in its fourth round: the length and the rest.
unfoldable pub read_remaining : ℕ → ℕ → ℕ → Bytes → Option (ℕ × Bytes)
read_remaining zero multiplier remaining bytes = none
read_remaining (suc fuel) multiplier remaining [] = none
read_remaining (suc fuel) multiplier remaining (value ∷ bytes) =
    let total = remaining + value % 128 * multiplier in
    let more =
      if ltb (128 * 128 * 128) (multiplier * 128)
      then none
      else read_remaining fuel (multiplier * 128) total bytes in
    if value / 128 % 2 == 0 then some (total, bytes) else more

abbrev pub body_of : Option (ℕ × Bytes) → Option Bytes
body_of none = none
body_of (some (size, bytes)) = if leb size (length bytes) then some (take size bytes) else none

-- `readMqttPacket`: the type and the body.
unfoldable pub read_mqtt_packet : Bytes → Option (ℕ × Bytes)
read_mqtt_packet [] = none
read_mqtt_packet (header ∷ bytes) = elim (body_of (read_remaining 4 1 0 bytes)) [
  | none ↦ none
  | some body ↦ some (header / 16, body)
]

-- The broker's answer to the connection.
abbrev pub accepted : Option (ℕ × Bytes) → Bool
accepted (some (kind, first ∷ code ∷ body)) = kind == 2 && code == 0
accepted _ = false

abbrev pub all_sent : Option Bool → Bool
all_sent (some true) = true
all_sent _ = false

-- A packet sent when all before it has gone well: what went out, and whether all is well.
abbrev pub then_send : List Sending → Bytes → Bytes × Bool → Bytes × Bool
then_send sends packet (out, false) = (out, false)
then_send sends packet (out, true) =
    (out ++ (send_all sends packet).0, all_sent (send_all sends packet).1)

abbrev pub then_test : Bool → Bytes × Bool → Bytes × Bool
then_test test (out, well) = (out, well && test)

-- The bytes that went out, and the result.
unfoldable pub publish_mqtt : Conversation → Text → Text → Bytes × Bool
publish_mqtt talk topic payload =
    if not talk.connects
    then ([], false)
    else then_send (talk.sends 2) disconnect_packet (
        then_send (talk.sends 1) (publish_packet topic payload) (
          then_test (accepted (read_mqtt_packet talk.reply))
            (then_send (talk.sends 0) connect_packet ([], true))))
