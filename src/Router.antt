-- ===== src/Router.antt =====
-- TsRouter of src/ts_router.cpp and include/whrepeater/ts_router.hpp: it hands the packets of the
-- active receiver to a sink, and copies the first of them to a file on request. The sink is a
-- parameter, as is the file: whether it opens, and whether a write succeeds. `dumped` records the bytes
-- that were written since the file was opened.
pub mod Relay
pub mod Dump
mod Examples
use wh_repeater.Common.{
  ℕ, ◌+◌, ◌-◌, ◌*◌, Bool, true, false, not, ◌||◌, Option, none, some, List, [], ◌∷◌, ◌++◌, length,
  take, min, ◌==◌, if◌then◌else◌,
}
use wh_repeater.Domain.{ActiveInput}
use wh_repeater.Nim.Packets.{TransportPacket, Ingress, drain_transport_packets}

abbrev pub max_packets_per_pump : ℕ
max_packets_per_pump = 65536

abbrev pub dump_bytes : ℕ
dump_bytes = 20 * 1024 * 1024

pub record TsRouter (D : Type 0) : Type 0 where
  pub active : Option (ActiveInput D)
  pub dump_open : Bool
  pub dump_remaining : ℕ
  pub dumped : List ℕ

abbrev pub new_router : {D : Type 0} → TsRouter D
new_router = record { active = none; dump_open = false; dump_remaining = 0; dumped = [] }

-- What a pump finds: whether the trigger exists, whether the file opens, whether its writes succeed.
pub record Files : Type 0 where
  pub trigger : Bool
  pub opens : Bool
  pub writes : Bool

module _ {D : Type 0} where
  abbrev pub select : Option (ActiveInput D) → TsRouter D → TsRouter D
  select input s = record s { active = input }

  unfoldable pub maybe_start_dump : Files → TsRouter D → TsRouter D
  maybe_start_dump files s =
      if s.dump_open || not files.trigger
      then s
      else if not files.opens
      then s
      else record s { dump_open = true; dump_remaining = dump_bytes; dumped = [] }

  unfoldable pub dump_packet : Files → TransportPacket → TsRouter D → TsRouter D
  dump_packet files packet s =
      let bytes = min (length packet) s.dump_remaining in
      if not s.dump_open then s else record s {
        dumped = s.dumped ++ take bytes packet;
        dump_remaining = s.dump_remaining - bytes;
        dump_open = not (s.dump_remaining - bytes == 0 || not files.writes);
      }

  -- The loop over the packets, with the sink's state.
  abbrev pub forward :
      {S : Type 0}
      → (TransportPacket → S → S)
      → Files
      → List TransportPacket
      → TsRouter D × S
      → TsRouter D × S
  forward write files [] (s, sink) = (s, sink)
  forward write files (packet ∷ packets) (s, sink) =
      forward write files packets (dump_packet files packet s, write packet sink)

  abbrev pub pump_active :
      {S : Type 0}
      → (TransportPacket → S → S)
      → Files
      → Option (ActiveInput D)
      → TsRouter D
      → Ingress
      → S
      → TsRouter D × Ingress × S
  pump_active write files none s nim sink = (s, nim, sink)
  pump_active write files (some input) s nim sink =
      let (packets, nim') = drain_transport_packets input.receiver max_packets_per_pump nim in
      let (s', sink') = forward write files packets (maybe_start_dump files s, sink) in
      (s', nim', sink')

  unfoldable pub pump :
      {S : Type 0}
      → (TransportPacket → S → S)
      → Files
      → TsRouter D
      → Ingress
      → S
      → TsRouter D × Ingress × S
  pump write files s nim sink = pump_active write files s.active s nim sink
