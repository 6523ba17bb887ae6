-- ===== src/Media/Examples.antt =====
-- The media process at concrete inputs and answers.
use mathlib.Core.Option
use wh_repeater.Common.{
  ℕ, ◌≤◌, ◌<◌, ◌++◌, true, false, none, some, [], ◌∷◌, length, ltb, if◌then◌else◌, ◌⊎◌, inl, ◌≡◌,
  refl, arith,
}
use wh_repeater.Domain.{ActiveInput, locked_dvbs2}
use wh_repeater.Samples.{sample_target, sample_status, text}
use wh_repeater.Media.Payload.{Bytes, Double, read_active, active_payload}
use wh_repeater.Media.Payload.Inputs.{arrived, read_active-active_payload}
use wh_repeater.Media.State.{MediaProcess, Answer, all_sent, closed, max_buffered_transport}
use wh_repeater.Media.Process.{selects, notices, allows_beacon, run_all, write}
use wh_repeater.Media.Process.Known.{Known}
use wh_repeater.Media.Process.Returns.{CalmFrom}
use wh_repeater.Media.Process.Commands.{run_all-Known}
use wh_repeater.Media.Process.Backlog.{write_lem}

-- Numbers of tenths in place of doubles.
abbrev tenths_bits : Double
tenths_bits = record { Carrier = ℕ; to_bits = λ n. n; of_bits = λ n. n }

abbrev sample_input : ActiveInput ℕ
sample_input = record {
  receiver = 2;
  target = sample_target;
  status = sample_status 2 locked_dvbs2 (some 81);
}

read_active-active_payload_example :
    read_active tenths_bits 7 (active_payload tenths_bits (some sample_input))
    ≡ some (Option.map (arrived tenths_bits 7) (some sample_input))
read_active-active_payload_example =
    read_active-active_payload tenths_bits 7 (some sample_input) (record {
      receiver = omega arith;
      target = record {
        frequency = omega arith;
        symbol_rate = omega arith;
        local_oscillator = omega arith;
        fec = omega arith;
        label = omega arith;
      };
      status = record {
        receiver = omega arith;
        target = record {
          frequency = omega arith;
          symbol_rate = omega arith;
          local_oscillator = omega arith;
          fec = omega arith;
          label = omega arith;
        };
        service_name = tt;
        modulation = tt;
        transport_packets = omega arith;
        continuity_errors = omega arith;
      };
    })

-- The third call finds the process ended, the fifth a closed socket.
abbrev rough_start : ℕ → Answer
rough_start i = record {
  ended = if ltb i 3 then (if ltb i 2 then false else true) else false;
  sending = if ltb i 5 then (if ltb i 4 then all_sent else closed) else all_sent;
}

rough_start-Calm : CalmFrom rough_start 5
rough_start-Calm i h = record { runs = ground arith; is_open = ground arith }

abbrev fresh : MediaProcess
fresh = record {
  active = 0 ∷ [];
  beacon_allowed = true;
  preview_enabled = false;
  access_notice = none;
  access_notice_end_tone = false;
  fallback_video_path = none;
  fallback_video_seek = none;
  transport_buffer = [];
  last = λ k. none;
  seen = λ k. none;
  delivered = [];
  calls = 0;
}

run_all-Known_example :
    (q : MediaProcess) × (run_all rough_start 6
        (allows_beacon false ∷ notices (some (text "GB3XX")) true ∷ selects (1 ∷ []) ∷ [])
        fresh
      ≡ some q)
    × Known q
run_all-Known_example =
    run_all-Known rough_start 5 6
      (allows_beacon false ∷ notices (some (text "GB3XX")) true ∷ selects (1 ∷ []) ∷ []) fresh
      rough_start-Calm (omega arith) (λ k. refl)

write_example :
    (q : MediaProcess) × (write rough_start 6
        (0x47 ∷ 1 ∷ [])
        (record fresh { transport_buffer = 9 ∷ [] })
      ≡ some q)
    × (lost : Bytes) × (q.delivered ++ (lost ++ q.transport_buffer) ≡ 9 ∷ 0x47 ∷ 1 ∷ [])
    × (length q.transport_buffer ≤ max_buffered_transport)
    × ((lost ≡ []) ⊎ (max_buffered_transport < length (lost ++ q.transport_buffer)))
write_example =
    write_lem rough_start 5 6 (0x47 ∷ 1 ∷ []) (record fresh { transport_buffer = 9 ∷ [] })
      rough_start-Calm (omega arith) (λ k e. inl refl) (omega arith)
