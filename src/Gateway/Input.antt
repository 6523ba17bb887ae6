-- ===== src/Gateway/Input.antt =====
-- src/pc_gateway_input.cpp: datagrams received and checked, and their transport packets handed to the
-- sink. The socket is the sequence of what `recv` gives, with the time of each; the writes to the
-- sink are the result.
pub mod Relay
mod Examples
use wh_repeater.Common.{
  ℕ, zero, suc, ◌+◌, ◌-◌, ◌*◌, ◌/◌, ◌%◌, ◌^◌, Bool, true, false, not, ◌&&◌, Option, none, some,
  List, [], ◌∷◌, ◌++◌, length, take, drop, ◌==◌, leb, if◌then◌else◌,
}
use wh_repeater.Gateway.Sink.{Bytes, u64}

abbrev pub transport_packet_bytes : ℕ
transport_packet_bytes = 188

-- What a call of `recv` gives: the bytes it put into the buffer, no datagram yet (or an interrupted
-- call), or another error.
pub data Received : Type 0 where
  datagram : ℕ → Bytes → Received
  not_ready : Received
  failed : ℕ → Received

pub data InputError : Type 0 where
  receive_failed not_aligned no_sync : InputError

pub record PcGatewayInputStatus : Type 0 where
  pub datagrams : ℕ
  pub bytes : ℕ
  pub transport_packets : ℕ
  pub alignment_errors : ℕ
  pub sync_errors : ℕ
  pub updated_at : ℕ
  pub last_error : Option InputError

-- The packets at the offsets 0, 188, ... of the buffer, as many as asked for.
unfoldable pub packets_at : ℕ → Bytes → List Bytes
packets_at zero buffer = []
packets_at (suc n) buffer =
    take transport_packet_bytes buffer ∷ packets_at n (drop transport_packet_bytes buffer)

abbrev pub packets_of : Bytes → List Bytes
packets_of buffer = packets_at (length buffer / transport_packet_bytes) buffer

abbrev pub has_sync : Bytes → Bool
has_sync [] = false
has_sync (b ∷ bs) = b == 0x47

-- The loop over the offsets that stops at the first without a sync byte.
abbrev pub all_sync : List Bytes → Bool
all_sync [] = true
all_sync (p ∷ ps) = has_sync p && all_sync ps

abbrev pub count_datagram : PcGatewayInputStatus → ℕ → ℕ → PcGatewayInputStatus
count_datagram st now size = record st {
  datagrams = u64 (st.datagrams + 1);
  bytes = u64 (st.bytes + size);
  updated_at = now;
}

-- The loop's body behind its returns, for a datagram: the status and what is written to the sink.
unfoldable pub receive_datagram :
    ℕ → Bytes → PcGatewayInputStatus → PcGatewayInputStatus × List Bytes
receive_datagram now buffer st₀ =
    let st = count_datagram st₀ now (length buffer) in
    if not (length buffer % transport_packet_bytes == 0)
    then (
      record st { alignment_errors = u64 (st.alignment_errors + 1); last_error = some not_aligned },
      [],
    )
    else if not (all_sync (packets_of buffer))
    then (record st { sync_errors = u64 (st.sync_errors + 1); last_error = some no_sync }, [])
    else (
      record st { transport_packets = u64 (st.transport_packets + length (packets_of buffer)) },
      packets_of buffer,
    )

-- `pump` over what `recv` gives in turn; the end of the sequence is `not_ready`.
unfoldable pub pump : List Received → PcGatewayInputStatus → PcGatewayInputStatus × List Bytes
pump [] st = (st, [])
pump (not_ready ∷ rs) st = (st, [])
pump (failed now ∷ rs) st = (record st { last_error = some receive_failed; updated_at = now }, [])
pump (datagram now [] ∷ rs) st = (st, [])
pump (datagram now (b ∷ bs) ∷ rs) st =
    let (st₁, written) = receive_datagram now (b ∷ bs) st in
    let (st₂, more) = pump rs st₁ in (st₂, written ++ more)

-- `active`.
unfoldable pub active : PcGatewayInputStatus → ℕ → ℕ → Bool
active st now timeout = not (st.transport_packets == 0) && leb (now - st.updated_at) timeout
