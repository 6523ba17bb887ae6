-- ===== src/Mqtt/Messages.antt =====
-- The worker's handshake with the broker, and what the messages of the broker leave in the status.
use wh_repeater.Common.{
  text_eq, ℕ, suc, ◌+◌, ◌^◌, ◌<◌, Bool, true, false, not, ◌&&◌, ◌||◌, Option, none, some, List, [],
  ◌∷◌, ◌++◌, length, length-append, take-append-drop, take, drop, ltb, ◌==◌, ==_refl, if◌then◌else◌,
  ◌≡◌, refl, ap, ◌∙◌, append_assoc, arith, ◌↔◌,
}
use wh_repeater.Domain.{Text}
use wh_repeater.Mqtt.{
  Bytes, Connection, Packet, Sending, took, interrupted_send, send_error, send_all, Arrival,
  read_packet, read_uint16, append_string, mqtt_ping_interval,
}

pub data StatusError : Type 0 where
  not_reachable connect_failed connack_failed subscribe_failed suback_failed connection_closed :
      StatusError

-- The members of `PlutoMqttStatus` that change, less the time.
pub record PlutoMqttStatus : Type 0 where
  pub connected : Bool
  pub values : Text → Option Text
  pub error : Option StatusError

abbrev pub set_disconnected : StatusError → PlutoMqttStatus → PlutoMqttStatus
set_disconnected e s = record s { connected = false; error = some e }

abbrev pub set_connected : PlutoMqttStatus → PlutoMqttStatus
set_connected s = record s { connected = true; error = none }

-- "dt/pluto/".
abbrev pub topic_root : Text
topic_root = b'd' ∷ b't' ∷ b'/' ∷ b'p' ∷ b'l' ∷ b'u' ∷ b't' ∷ b'o' ∷ b'/' ∷ []

abbrev pub prefix_of : Text → Text
prefix_of device = topic_root ++ (device ++ (b'/' ∷ []))

-- `topic.rfind(prefix, 0) == 0`.
abbrev pub starts_with : Text → Text → Bool
starts_with [] topic = true
starts_with (p ∷ ps) [] = false
starts_with (p ∷ ps) (t ∷ ts) = p == t && starts_with ps ts

unfoldable pub record_status : Text → Text → Text → PlutoMqttStatus → PlutoMqttStatus
record_status device topic payload s =
    let key =
      if starts_with (prefix_of device) topic
      then drop (length (prefix_of device)) topic
      else topic in
    record {
      connected = true;
      values = λ k. if text_eq k key then some payload else s.values k;
      error = none;
    }

-- The body of the message loop behind `readPacket`.
unfoldable pub handle_message : Text → Packet → PlutoMqttStatus → PlutoMqttStatus
handle_message device packet s =
    let topic_size = read_uint16 packet.body in
    if packet.kind == 13
    then s
    else if not (packet.kind == 3) || ltb (length packet.body) 2
    then s
    else if ltb (length packet.body) (topic_size + 2)
    then s
    else record_status device (take topic_size (drop 2 packet.body))
        (drop (2 + topic_size) packet.body) s

-- What an attempt to connect meets: the connection, if there is one, and the results of the two
-- `sendAll`. The time of the first ping follows the time of the handshake.
pub record Attempt : Type 0 where
  pub input : Option (List Arrival)
  pub connect_sent : Bool
  pub subscribe_sent : Bool
  pub now : ℕ

abbrev pub accepts : Bytes → Bool
accepts (flags ∷ code ∷ rest) = code == 0
accepts _ = false

-- The failures close the connection; `none` is a closed one.
abbrev pub fails : StatusError → PlutoMqttStatus → PlutoMqttStatus × Option Connection
fails e s = (set_disconnected e s, none)

abbrev pub subscribed :
    Attempt → Option (Packet × Connection) → PlutoMqttStatus → PlutoMqttStatus × Option Connection
subscribed a none s = fails suback_failed s
subscribed a (some (packet, c)) s =
    if packet.kind == 9
    then (set_connected s, some (record c { next_ping = some (a.now + mqtt_ping_interval) }))
    else fails suback_failed s

abbrev pub acknowledged :
    Attempt → Option (Packet × Connection) → PlutoMqttStatus → PlutoMqttStatus × Option Connection
acknowledged a none s = fails connack_failed s
acknowledged a (some (packet, c)) s =
    if not (packet.kind == 2 && accepts packet.body)
    then fails connack_failed s
    else if not a.subscribe_sent
    then fails subscribe_failed s
    else subscribed a (read_packet c) s

abbrev pub reached :
    Attempt → Option (List Arrival) → PlutoMqttStatus → PlutoMqttStatus × Option Connection
reached a none s = fails not_reachable s
reached a (some input) s =
    if not a.connect_sent
    then fails connect_failed s
    else acknowledged a (read_packet (record { input = input; next_ping = none; pings = 0 })) s

-- A round of `workerLoop` up to its message loop.
unfoldable pub handshake : Attempt → PlutoMqttStatus → PlutoMqttStatus × Option Connection
handshake a s = reached a a.input s

starts_with-append : (ps ts : Text) → starts_with ps (ps ++ ts) ≡ true
starts_with-append [] ts = refl
starts_with-append (p ∷ ps) ts = rw (==_refl p) (starts_with-append ps ts)

drop-append : (ps ts : Bytes) → drop (length ps) (ps ++ ts) ≡ ts
drop-append [] ts = refl
drop-append (p ∷ ps) ts = drop-append ps ts

take-append : (ps ts : Bytes) → take (length ps) (ps ++ ts) ≡ ps
take-append [] ts = refl
take-append (p ∷ ps) ts = ap (◌∷◌ p) (take-append ps ts)

-- The broker's message that a device published a value under one of its topics: the topic's size and
-- bytes, then the value.
abbrev pub publication : Text → Text → Text → Packet
publication device key value = record {
  kind = 3;
  body = append_string (prefix_of device ++ key) ++ value;
}

record_status-prefix :
    (device key value : Text) (s : PlutoMqttStatus)
    → record_status device (prefix_of device ++ key) value s ≡ record {
      connected = true;
      values = λ k. if text_eq k key then some value else s.values k;
      error = none;
    }
unfolding record_status
record_status-prefix device key value s = rw (starts_with-append (prefix_of device) key) (
    ap
      (λ x. record {
        connected = true;
        values = λ k. if text_eq k x then some value else s.values k;
        error = none;
      })
      (drop-append (prefix_of device) key))

handle_message-topic :
    (device topic value : Text) (s : PlutoMqttStatus)
    → length topic < 2 ^ 16
    → handle_message device (record { kind = 3; body = append_string topic ++ value }) s
      ≡ record_status device topic value s
unfolding handle_message
handle_message-topic device topic value s h =
    let body = append_string topic ++ value in
    let size : read_uint16 body ≡ length topic = omega arith in
    let l = length-append topic value in
    let there : ltb (length body) 2 ≡ false = ground arith in
    let whole : ltb (length body) (read_uint16 body + 2) ≡ false = ground arith in
    let front : take (read_uint16 body) (topic ++ value) ≡ topic =
      ap (λ k. take k (topic ++ value)) size ∙ take-append topic value in
    let two : 2 + read_uint16 body ≡ suc (suc (length topic)) = omega arith in
    let back : drop (2 + read_uint16 body) body ≡ value =
      ap (λ k. drop k body) two ∙ drop-append topic value in
    rw there (
      rw whole (
        ap (λ x. record_status device x (drop (2 + read_uint16 body) body) s) front
        ∙ ap (λ x. record_status device topic x s) back))

-- A value that the broker publishes under a device's topic, of less than 65536 bytes, is recorded
-- under the topic's last part: it is the new value there, all others stay, and the status is
-- connected and without error.
pub handle_message-publication :
    (device key value : Text) (s : PlutoMqttStatus)
    → length (prefix_of device ++ key) < 2 ^ 16
    → handle_message device (publication device key value) s ≡ record {
      connected = true;
      values = λ k. if text_eq k key then some value else s.values k;
      error = none;
    }
handle_message-publication device key value s h =
    handle_message-topic device (prefix_of device ++ key) value s h
    ∙ record_status-prefix device key value s

-- `sendAll`: whatever `send` does, what the socket takes is a front of the data, and the result is true
-- exactly when nothing is left.
pub send_all_lem :
    (rs : List Sending) (data' : Bytes)
    → (rest : Bytes) × ((send_all rs data').0 ++ rest ≡ data')
      × (((send_all rs data').1 ≡ some true) ↔ (rest ≡ []))
unfolding send_all
send_all_lem rs [] = ([], refl, (λ e. refl, λ e. refl))
send_all_lem [] (b ∷ bs) = (b ∷ bs, refl, (λ e. absurd (cc), λ e. absurd (cc)))
send_all_lem (interrupted_send ∷ rs) (b ∷ bs) = send_all_lem rs (b ∷ bs)
send_all_lem (send_error ∷ rs) (b ∷ bs) = (b ∷ bs, refl, (λ e. absurd (cc), λ e. absurd (cc)))
send_all_lem (took n ∷ rs) (b ∷ bs) =
    let (rest, whole, iff) = send_all_lem rs (drop n (b ∷ bs)) in
    (
      rest,
      append_assoc (take n (b ∷ bs)) (send_all rs (drop n (b ∷ bs))).0 rest
          ∙ ap (λ x. take n (b ∷ bs) ++ x) whole
          ∙ take-append-drop n (b ∷ bs),
      iff,
    )
