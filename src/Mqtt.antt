-- ===== src/Mqtt.antt =====
-- src/pluto_mqtt_status.cpp: MQTT packets written and read, and the status they give. The socket is
-- the sequence of what `select` and `recv` meet: bytes in chunks of any size, timeouts, interrupted
-- calls. Its other end closes it where the sequence ends.
pub mod Reading
pub mod RoundTrip
pub mod Messages
pub mod Handshake
mod Examples
use wh_repeater.Common.{
  ℕ, zero, suc, ◌+◌, ◌-◌, ◌*◌, ◌/◌, ◌%◌, ◌^◌, Bool, true, false, not, ◌&&◌, Option, none, some,
  List, [], ◌∷◌, ◌++◌, length, take, drop, ltb, leb, ◌==◌, if◌then◌else◌,
}
use wh_repeater.Domain.{Text}

abbrev pub Bytes : Type 0
Bytes = List ℕ

abbrev pub append_uint16 : ℕ → Bytes
append_uint16 value = (value / 256 % 256) ∷ (value % 256) ∷ []

-- A read below offset 2 that the callers have tested for.
abbrev pub read_uint16 : Bytes → ℕ
read_uint16 (a ∷ b ∷ bs) = a * 256 + b
read_uint16 _ = 0

abbrev pub append_string : Text → Bytes
append_string value = append_uint16 (length value % 2 ^ 16) ++ value

-- The `do` loop with fuel for its rounds; `none` means that the fuel ran out.
unfoldable pub append_remaining_length : ℕ → ℕ → Option Bytes
append_remaining_length zero n = none
append_remaining_length (suc fuel) n = elim (n / 128 == 0) [
  | true ↦ some ((n % 128) ∷ [])
  | false ↦ elim (append_remaining_length fuel (n / 128)) [
    | none ↦ none
    | some rest ↦ some ((n % 128 + 128) ∷ rest)
  ]
]

-- A length of 64 bits takes ten rounds at most.
abbrev pub length_rounds : ℕ
length_rounds = 10

abbrev pub with_header : ℕ → Bytes → Option Bytes → Option Bytes
with_header header variable none = none
with_header header variable (some size) = some (header ∷ (size ++ variable))

abbrev pub mqtt_packet : ℕ → Bytes → Option Bytes
mqtt_packet header variable =
    with_header header variable (append_remaining_length length_rounds (length variable))

-- "MQTT" and "wh-repeater-status".
abbrev pub protocol_name : Text
protocol_name = b'M' ∷ b'Q' ∷ b'T' ∷ b'T' ∷ []

abbrev pub client_name : Text
client_name =
    b'w' ∷ b'h' ∷ b'-' ∷ b'r' ∷ b'e' ∷ b'p' ∷ b'e' ∷ b'a' ∷ b't' ∷ b'e' ∷ b'r' ∷ b'-' ∷ b's' ∷ b't'
    ∷ b'a' ∷ b't' ∷ b'u' ∷ b's' ∷ []

abbrev pub mqtt_keepalive : ℕ
mqtt_keepalive = 20

unfoldable pub connect_variable : Bytes
connect_variable =
    append_string protocol_name
    ++ (4 ∷ 2 ∷ (append_uint16 mqtt_keepalive ++ append_string client_name))

unfoldable pub mqtt_connect_packet : Option Bytes
mqtt_connect_packet = mqtt_packet 0x10 connect_variable

abbrev pub subscribe_variable : Text → Bytes
subscribe_variable topic = append_uint16 1 ++ (append_string topic ++ (0 ∷ []))

unfoldable pub mqtt_subscribe_packet : Text → Option Bytes
mqtt_subscribe_packet topic = mqtt_packet 0x82 (subscribe_variable topic)

-- What `send` gives: a number of bytes taken, an interruption, or another error.
pub data Sending : Type 0 where
  took : ℕ → Sending
  interrupted_send : Sending
  send_error : Sending

-- The loop of `sendAll`: the bytes that the socket took, and the result; `none` is a loop that is not
-- at its end where the sequence is.
unfoldable pub send_all : List Sending → Bytes → Bytes × Option Bool
send_all rs [] = ([], some true)
send_all [] (b ∷ bs) = ([], none)
send_all (interrupted_send ∷ rs) (b ∷ bs) = send_all rs (b ∷ bs)
send_all (send_error ∷ rs) (b ∷ bs) = ([], some false)
send_all (took n ∷ rs) (b ∷ bs) =
    let (taken, result) = send_all rs (drop n (b ∷ bs)) in (take n (b ∷ bs) ++ taken, result)

-- What a round of `select` and `recv` meets: bytes that are there (none at the end of the stream), a
-- timeout at a time, with the result of a ping that is due then and the time after it, an interrupted
-- `select`, an error, or the request to stop.
pub data Arrival : Type 0 where
  chunk : Bytes → Arrival
  idle : ℕ → Bool → ℕ → Arrival
  interrupted : Arrival
  broken : Arrival
  stopped : Arrival

abbrev pub mqtt_ping_interval : ℕ
mqtt_ping_interval = 10000

-- The connection's input, the time of the next ping, and the pings that were sent.
pub record Connection : Type 0 where
  pub input : List Arrival
  pub next_ping : Option ℕ
  pub pings : ℕ

abbrev pub is_due : Option ℕ → ℕ → Bool
is_due none now = false
is_due (some at) now = leb at now

abbrev pub put_back : Bytes → List Arrival → List Arrival
put_back [] rest = rest
put_back (b ∷ bs) rest = chunk (b ∷ bs) ∷ rest

-- `readByte` by the sequence of arrivals: `none` is a failure.
unfoldable pub read_byte : List Arrival → Option ℕ → ℕ → Option (ℕ × Connection)
read_byte [] next_ping pings = none
read_byte (chunk [] ∷ rest) next_ping pings = none
read_byte (chunk (b ∷ bs) ∷ rest) next_ping pings =
    some (b, record { input = put_back bs rest; next_ping = next_ping; pings = pings })
read_byte (interrupted ∷ rest) next_ping pings = read_byte rest next_ping pings
read_byte (broken ∷ rest) next_ping pings = none
read_byte (stopped ∷ rest) next_ping pings = none
read_byte (idle now pinged later ∷ rest) next_ping pings =
    let due = is_due next_ping now in
    let going_on =
      read_byte rest (if due then some (later + mqtt_ping_interval) else next_ping)
        (if due then pings + 1 else pings) in
    if due && not pinged then none else going_on

abbrev pub next_byte : Connection → Option (ℕ × Connection)
next_byte c = read_byte c.input c.next_ping c.pings

-- The loop over the length's bytes, with the multiplier. Its test ends it in the fourth round, so
-- that four rounds of fuel are never used up.
unfoldable pub read_length : ℕ → ℕ → ℕ → Connection → Option (ℕ × Connection)
read_length zero multiplier remaining c = none
read_length (suc fuel) multiplier remaining c = elim (next_byte c) [
  | none ↦ none
  | some (value, c') ↦
      let remaining' = remaining + value % 128 * multiplier in
      let more =
        if ltb (128 * 128 * 128) (multiplier * 128)
        then none
        else read_length fuel (multiplier * 128) remaining' c' in
      if value / 128 % 2 == 0 then some (remaining', c') else more
]

-- The loop that fills the body: what was received, and the rest of the arrivals. `recv` gives no more
-- than the body still takes. A timeout is no event for it.
unfoldable pub read_body : ℕ → List Arrival → Option (Bytes × List Arrival)
read_body zero input = some ([], input)
read_body (suc n) [] = none
read_body (suc n) (chunk [] ∷ rest) = none
read_body (suc n) (chunk (b ∷ bs) ∷ rest) =
    let more = read_body (suc n - length (b ∷ bs)) rest in
    if ltb (suc n) (length (b ∷ bs))
    then some (take (suc n) (b ∷ bs), put_back (drop (suc n) (b ∷ bs)) rest)
    else elim more [ none ↦ none | some (body, after) ↦ some ((b ∷ bs) ++ body, after) ]
read_body (suc n) (interrupted ∷ rest) = read_body (suc n) rest
read_body (suc n) (idle now pinged later ∷ rest) = read_body (suc n) rest
read_body (suc n) (broken ∷ rest) = none
read_body (suc n) (stopped ∷ rest) = none

pub record Packet : Type 0 where
  pub kind : ℕ
  pub body : Bytes

unfoldable pub read_packet : Connection → Option (Packet × Connection)
read_packet c = elim (next_byte c) [
  | none ↦ none
  | some (header, c₁) ↦ elim (read_length 4 1 0 c₁) [
    | none ↦ none
    | some (remaining, c₂) ↦ elim (read_body remaining c₂.input) [
      | none ↦ none
      | some (body, rest) ↦
          some (record { kind = header / 16; body = body }, record c₂ { input = rest })
    ]
  ]
]
