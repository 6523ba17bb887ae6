-- ===== src/Mqtt/Handshake.antt =====
-- The worker's handshake in src/pluto_mqtt_status.cpp with a broker that answers CONNECT and SUBSCRIBE.
use wh_repeater.Common.{
  ℕ, ◌+◌, ◌/◌, ◌^◌, ◌<◌, Bool, true, false, not, ◌&&◌, Option, none, some, List, ◌∷◌, ◌++◌, length,
  ◌==◌, if◌then◌else◌, ◌≡◌, refl,
}
use wh_repeater.Mqtt.{Bytes, Arrival, Connection, mqtt_packet, mqtt_ping_interval}
use wh_repeater.Mqtt.Reading.{Flows, content, Left}
use wh_repeater.Mqtt.RoundTrip.{read_packet-mqtt_packet}
use wh_repeater.Mqtt.Messages.{
  StatusError, connect_failed, connack_failed, subscribe_failed, suback_failed, PlutoMqttStatus,
  Attempt, handshake,
}

-- The first step that fails: CONNECT is sent, its answer is a CONNACK (packet type 2) with code 0,
-- SUBSCRIBE is sent, its answer is a SUBACK (packet type 9).
abbrev pub failure : Bool → Bool → Bool → Bool → Option StatusError
failure false welcomed subscribe_sent confirmed = some connect_failed
failure true false subscribe_sent confirmed = some connack_failed
failure true true false confirmed = some subscribe_failed
failure true true true false = some suback_failed
failure true true true true = none

-- The end of an attempt: with a failure, the status has it and no connection is kept; with none, the
-- status is connected and the messages are read from behind the two answers.
abbrev pub Ends :
    Option StatusError → ℕ → Bytes → PlutoMqttStatus → PlutoMqttStatus × Option Connection → Type 0
Ends (some e) now rest s x = x ≡ (record s { connected = false; error = some e }, none)
Ends none now rest s x =
    (c : Connection) × (x ≡ (record s { connected = true; error = none }, some c))
    × Left rest c
    × (c.next_ping ≡ some (now + mqtt_ping_interval))

-- An attempt that reaches a broker from which two packets come, however they are cut up and delayed, and
-- then the bytes `rest`: the packets' header bytes are `first` and `second`, the first has at least two
-- bytes in its body, of which the second is `code`, and the bodies are below 2^28 bytes. Its steps are
-- that CONNECT is sent, that the first packet is a CONNACK (type 2) with code 0, that SUBSCRIBE is sent,
-- and that the second packet is a SUBACK (type 9). With the first step that fails, the status is not
-- connected and has that step's error, and no connection is kept; where none fails, the status is
-- connected without an error, the messages are read from `rest` on, and the first ping is due an interval
-- after the attempt. No recorded value changes.
pub handshake-packets :
    (a : Attempt) (input : List Arrival) (first second flags code : ℕ)
    (more confirmation connack suback rest : Bytes) (s : PlutoMqttStatus)
    → a.input ≡ some input
    → Flows input
    → content input ≡ connack ++ (suback ++ rest)
    → length (flags ∷ code ∷ more) < 2 ^ 28
    → length confirmation < 2 ^ 28
    → mqtt_packet first (flags ∷ code ∷ more) ≡ some connack
    → mqtt_packet second confirmation ≡ some suback
    → Ends
        (failure a.connect_sent (first / 16 == 2 && code == 0) a.subscribe_sent (second / 16 == 9))
        a.now
        rest
        s
        (handshake a s)
unfolding handshake
handshake-packets a input first second flags code more confirmation connack suback rest s e flows
      comes short brief made sent =
    let start : Connection = record { input = input; next_ping = none; pings = 0 } in
    let (c₁, run₁, left₁) =
      read_packet-mqtt_packet first (flags ∷ code ∷ more) connack (suback ++ rest) start short made
        flows comes in
    let (c₂, run₂, left₂) =
      read_packet-mqtt_packet second confirmation suback rest c₁ brief sent left₁.flows
        left₁.left in
    rw e (
      rw run₁ (
        rw run₂ (
          by_step a.connect_sent (first / 16 == 2 && code == 0) a.subscribe_sent (second / 16 == 9)
            c₂ left₂)))
  where
    by_step :
        (connect_sent welcomed subscribe_sent confirmed : Bool) (c : Connection)
        → Left rest c
        → Ends (failure connect_sent welcomed subscribe_sent confirmed) a.now rest s (
            if not connect_sent
            then (record s { connected = false; error = some connect_failed }, none)
            else if not welcomed
            then (record s { connected = false; error = some connack_failed }, none)
            else if not subscribe_sent
            then (record s { connected = false; error = some subscribe_failed }, none)
            else if confirmed
            then (
              record s { connected = true; error = none },
              some (record c { next_ping = some (a.now + mqtt_ping_interval) }),
            )
            else (record s { connected = false; error = some suback_failed }, none))
    by_step false welcomed subscribe_sent confirmed c left = refl
    by_step true false subscribe_sent confirmed c left = refl
    by_step true true false confirmed c left = refl
    by_step true true true false c left = refl
    by_step true true true true c left = (
      record c { next_ping = some (a.now + mqtt_ping_interval) },
      refl,
      record { flows = left.flows; left = left.left },
      refl,
    )
