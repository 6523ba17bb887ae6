-- ===== src/Gateway/Sink.antt =====
-- src/ts_gateway_sink.cpp: transport packets gathered into UDP datagrams. The sockets are a parameter:
-- whether a socket can be created, whether the address is valid, and what `sendto` returns for a
-- datagram. A datagram that was handed to `sendto` and accepted is an entry of `sent`; `calls` numbers
-- the calls of `sendto`.
pub mod Stream
pub mod Wire
mod Examples
use wh_repeater.Common.{
  ℕ, zero, suc, ◌+◌, ◌*◌, ◌/◌, ◌%◌, ◌^◌, Bool, true, false, not, ◌||◌, Option, none, some, List, [],
  ◌∷◌, ◌++◌, length, ◌==◌, if◌then◌else◌, is_some,
}
use wh_repeater.Domain.{ReceiverId, ActiveInput}

abbrev pub u64 : ℕ → ℕ
u64 n = n % 2 ^ 64

abbrev pub ts_packet_size : ℕ
ts_packet_size = 188

abbrev pub datagram_size : ℕ
datagram_size = 188 * 7

abbrev pub Bytes : Type 0
Bytes = List ℕ

-- `send` gives what `sendto` returns at its call of that number: a number of bytes, or `none` for an
-- error.
pub record Network : Type 0 where
  pub can_open : Bool
  pub valid_address : Bool
  pub send : ℕ → Bytes → Option ℕ

pub data SendError : Type 0 where
  unaligned_write create_socket invalid_destination udp_send : SendError

-- The members of `TsGatewayStatus` that change after the construction, less the time.
pub record Status : Type 0 where
  pub active_receiver : Option ReceiverId
  pub transport_packets : ℕ
  pub datagrams : ℕ
  pub bytes : ℕ
  pub send_errors : ℕ
  pub last_error : Option SendError

pub record TsGatewaySink : Type 0 where
  pub socket_open : Bool
  pub datagram : Bytes
  pub status : Status
  pub sent : List Bytes
  pub calls : ℕ

abbrev pub new_sink : TsGatewaySink
new_sink = record {
  socket_open = false;
  datagram = [];
  status = record {
    active_receiver = none;
    transport_packets = 0;
    datagrams = 0;
    bytes = 0;
    send_errors = 0;
    last_error = none;
  };
  sent = [];
  calls = 0;
}

abbrev pub fail : Status → SendError → Status
fail st e = record st { send_errors = u64 (st.send_errors + 1); last_error = some e }

abbrev pub count_sent : Status → ℕ → Status
count_sent st n = record st {
  bytes = u64 (st.bytes + n);
  transport_packets = u64 (st.transport_packets + n / ts_packet_size);
  datagrams = u64 (st.datagrams + 1);
}

abbrev pub is_empty : Bytes → Bool
is_empty [] = true
is_empty (b ∷ bs) = false

module _ (net : Network) where
  -- `flushDatagram` behind its test for an empty datagram.
  unfoldable pub send_datagram : TsGatewaySink → TsGatewaySink
  send_datagram s =
      if not net.valid_address
      then record s { status = fail s.status invalid_destination; datagram = [] }
      else elim (net.send s.calls s.datagram) [
        | none ↦ record s { status = fail s.status udp_send; datagram = []; calls = s.calls + 1 }
        | some n ↦ record s {
          status = count_sent s.status n;
          datagram = [];
          sent = s.sent ++ s.datagram ∷ [];
          calls = s.calls + 1;
        }
      ]

  unfoldable pub flush_datagram : TsGatewaySink → TsGatewaySink
  flush_datagram s = if is_empty s.datagram then s else send_datagram s

  unfoldable pub flush : TsGatewaySink → TsGatewaySink
  flush s = flush_datagram s

  unfoldable pub set_active : {D : Type 0} → TsGatewaySink → Option (ActiveInput D) → TsGatewaySink
  set_active s none = flush (record s { status = record s.status { active_receiver = none } })
  set_active s (some active) = record s {
    status = record s.status { active_receiver = some active.receiver };
  }

  -- One round of the loop over the packet's bytes.
  unfoldable pub push_byte : TsGatewaySink → ℕ → TsGatewaySink
  push_byte s b =
      let s' = record s { datagram = s.datagram ++ b ∷ [] } in
      if length s'.datagram == datagram_size then flush_datagram s' else s'

  unfoldable pub push_bytes : TsGatewaySink → Bytes → TsGatewaySink
  push_bytes s [] = s
  push_bytes s (b ∷ bs) = push_bytes (push_byte s b) bs

  -- `write`: the new state, and whether the creation of the socket threw.
  unfoldable pub write : TsGatewaySink → Bytes → TsGatewaySink × Bool
  write s packet =
      if is_empty packet
      then (s, false)
      else if not (length packet % ts_packet_size == 0)
      then (record s { status = fail s.status unaligned_write }, false)
      else if s.socket_open
      then (push_bytes s packet, false)
      else if net.can_open
      then (push_bytes (record s { socket_open = true }) packet, false)
      else (record s { status = fail s.status create_socket }, true)
