-- ===== src/Router/Examples.antt =====
-- A receiver whose packets are handed to a sink that keeps them, and a dump of two bytes.
use wh_repeater.Common.{ℕ, true, false, some, List, [], ◌∷◌, ◌++◌, replicate, ◌≡◌, refl, arith}
use wh_repeater.Domain.{ActiveInput, locked_dvbs2}
use wh_repeater.Samples.{sample_target, sample_status}
use wh_repeater.Nim.Packets.{TransportPacket, WhDriverPacket, empty_ingress}
use wh_repeater.Router.{TsRouter, Files, new_router, select}
use wh_repeater.Router.Relay.{Round, pump_rounds, write_all, delivered_stream, pump_rounds-stream}

abbrev input : ActiveInput ℕ
input = record {
  receiver = 1;
  target = sample_target;
  status = sample_status 1 locked_dvbs2 (some 80);
}

abbrev files : Files
files = record { trigger = false; opens = true; writes = true }

-- A valid packet of receiver 1.
abbrev packet : WhDriverPacket
packet = record { ts = 0x47 ∷ replicate 187 1; status = 0x100 }

abbrev rounds : List Round
rounds =
    record { delivered = packet ∷ packet ∷ []; files = files }
    ∷ record { delivered = packet ∷ []; files = files }
    ∷ []

abbrev keep : TransportPacket → List TransportPacket → List TransportPacket
keep p ps = ps ++ p ∷ []

pump_rounds-stream_example :
    (let state = pump_rounds keep rounds (select (some input) new_router, empty_ingress, []) in
      (state.2 ≡ write_all keep (delivered_stream 0 rounds) []) × (state.1.queues 0 ≡ []))
pump_rounds-stream_example =
    pump_rounds-stream keep input rounds (select (some input) new_router) empty_ingress []
      (omega arith) (omega arith) (omega arith, (omega arith, tt)) refl refl

abbrev dumping : TsRouter ℕ
dumping = record new_router { dump_open = true; dump_remaining = 2 }
