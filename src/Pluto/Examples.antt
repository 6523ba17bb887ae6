-- ===== src/Pluto/Examples.antt =====
-- A transmitter that answers, and a sink that is switched on, written to, and switched off.
use wh_repeater.Common.{
  ◌⊎◌, ℕ, ◌+◌, ◌∷◌, [], List, Bool, true, false, some, length, drop, replicate, ◌≡◌, refl, ap, inl,
  ◌≤◌, zero, suc, arith, text,
}
use wh_repeater.Common.Int.{pos, negsuc}
use wh_repeater.Domain.{Text}
use wh_repeater.Mqtt.{Bytes, took, send_all, append_remaining_length}
use wh_repeater.Pluto.Publish.{
  Conversation, connect_packet, publish_packet, disconnect_packet, then_send, then_test, all_sent,
  read_mqtt_packet, read_remaining, publish_mqtt,
}
use wh_repeater.Pluto.Order.{Orderly, publish_mqtt_lem}
use wh_repeater.Pluto.Sink.{
  PlutoConfig, Network, Command, writing, transmitting, new_pluto_sink, run_all,
}
use wh_repeater.Pluto.Control.{Answers, Told, run_all-Told}
use wh_repeater.Pluto.Gather.{Gathers}
use wh_repeater.Pluto.Stream.{relay_all, run_all-relay_all}

-- The broker takes what it is sent and accepts the connection.
abbrev talk : Text → Text → Conversation
talk topic payload = record {
  connects = true;
  sends = λ k. took (100 + length (publish_packet topic payload)) ∷ [];
  reply = 0x20 ∷ 2 ∷ 0 ∷ 0 ∷ [];
}

abbrev network : Network
network = record {
  conversation = λ n topic payload. talk topic payload;
  valid_address = true;
  valid_preview_address = true;
}

abbrev config : PlutoConfig
config = record {
  address = text "230.10.0.1";
  port = 1234;
  mqtt_enabled = true;
  mqtt_protocol = text "tezuka";
  mqtt_device_id = [];
  callsign = text "GB3GV";
  system = text "dvbs2";
  tx_frequency_hz = 2400000000;
  symbol_rate_s = 333000;
  tx_gain_db = negsuc 39;
  nco_hz = pos 0;
  digital_gain_db = pos 0;
  fir_filter = false;
  pilots = false;
  frame = text "long";
  fec_mode = text "fixed";
  constellation = text "qpsk";
  fec = text "1/2";
}

drop_all : (n : ℕ) (xs : Bytes) → length xs ≤ n → drop n xs ≡ []
drop_all zero [] h = refl
drop_all (suc n) [] h = refl
drop_all zero (x ∷ xs) h = absurd (omega arith)
drop_all (suc n) (x ∷ xs) h = drop_all n xs (omega arith)

send_all-whole :
    (n : ℕ) (packet : Bytes) → length packet ≤ n → (send_all (took n ∷ []) packet).1 ≡ some true
unfolding send_all
send_all-whole n [] h = refl
send_all-whole n (b ∷ packet) h = ap (λ rest. (send_all [] rest).1) (drop_all n (b ∷ packet) h)

then_send-well :
    (n : ℕ) (packet : Bytes) (w : Bytes × Bool)
    → length packet ≤ n
    → w.1 ≡ true
    → (then_send (took n ∷ []) packet w).1 ≡ true
then_send-well n packet (out, true) h e = ap all_sent (send_all-whole n packet h)
then_send-well n packet (out, false) h e = absurd (cc)

then_test-well : (w : Bytes × Bool) → w.1 ≡ true → (then_test true w).1 ≡ true
then_test-well (out, true) e = refl
then_test-well (out, false) e = absurd (cc)

talk-publishes : (topic payload : Text) → (publish_mqtt (talk topic payload) topic payload).1 ≡ true
unfolding publish_mqtt read_mqtt_packet read_remaining append_remaining_length
talk-publishes topic payload = then_send-well n disconnect_packet published (omega arith) (
    then_send-well n (publish_packet topic payload) answered (omega arith)
      (then_test-well connected (then_send-well n connect_packet ([], true) (omega arith) refl)))
  where
    n : ℕ
    n = 100 + length (publish_packet topic payload)

    connected : Bytes × Bool
    connected = then_send (took n ∷ []) connect_packet ([], true)

    answered : Bytes × Bool
    answered = then_test true connected

    published : Bytes × Bool
    published = then_send (took n ∷ []) (publish_packet topic payload) answered

network-Answers : Answers network
network-Answers n topic payload = inl (talk-publishes topic payload)

publish_mqtt_example :
    Orderly (talk (text "cmd/pluto/call") (text "GB3GV")) (text "cmd/pluto/call") (text "GB3GV") (
      publish_mqtt
        (talk (text "cmd/pluto/call") (text "GB3GV"))
        (text "cmd/pluto/call")
        (text "GB3GV"))
publish_mqtt_example =
    publish_mqtt_lem (talk (text "cmd/pluto/call") (text "GB3GV")) (text "cmd/pluto/call")
      (text "GB3GV")

-- On, a write of eight packets, a refused one, and off.
abbrev commands : List Command
commands =
    transmitting true
    ∷ writing true true (replicate 1504 0x47)
    ∷ writing true true (1 ∷ 2 ∷ [])
    ∷ []

run_all-Told_example :
    (let s = run_all config network commands new_pluto_sink in
      Told config s.log s.configured s.transmit_enabled)
run_all-Told_example = run_all-Told config network commands refl refl network-Answers

run_all-relay_all_example :
    (let s = run_all config network commands new_pluto_sink in
      let (on, stream) = relay_all commands (false, []) in
      (s.transmit_enabled ≡ on)
      × Gathers stream s.output
      × ((on ≡ true) ⊎ (s.output.datagram ≡ [])))
run_all-relay_all_example =
    run_all-relay_all config network commands refl (tt, ((refl, refl), ((refl, refl), tt)))
