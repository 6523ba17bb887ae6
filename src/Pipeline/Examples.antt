-- ===== src/Pipeline/Examples.antt =====
-- Runs of the pipeline's parts.
use wh_repeater.Common.{
  ℕ, ◌*◌, ◌≤◌, true, false, some, List, [], ◌∷◌, ◌++◌, length, ltb, ◌≡◌, ◌⊎◌, refl, arith, text,
}
use wh_repeater.Common.Int.{pos}
use wh_repeater.Domain.{ActiveInput, locked_dvbs2}
use wh_repeater.Samples.{sample_target, sample_status}
use wh_repeater.Pipeline.State.{Config}
use wh_repeater.Pipeline.Modes.Steps.{
  Command, selecting, allowing_beacon, noticing, ticking, queueing, seeking, ending_analogue,
  ending_live, taking_seek,
}
use wh_repeater.Pipeline.Input.{
  BlockingTsInput, new_input, Reach, here, next, appends, reads, append_chunk, read, read_ready,
  append_ready, max_append_chunk, max_buffered_bytes,
}
use wh_repeater.Pipeline.Input.Flow.{new_input-Flows}
use wh_repeater.Pipeline.Morse.{morse_tone_units}
use wh_repeater.Pipeline.Morse.Timing.{join, words_of, off, morse_tone_units-message}
use wh_repeater.Pipeline.Ident.{IdentConfig, morse_frames}
use wh_repeater.Pipeline.Ident.Schedule.{at_frame, since, is_first, at_frame_lem}

abbrev config : Config
config = record { fallback_enabled = true; capture = 9 }

abbrev input : ActiveInput ℕ
input = record {
  receiver = 1;
  target = sample_target;
  status = sample_status 1 locked_dvbs2 (some 80);
}

-- An input, a packet of it, the end of its stream, and a notice.
abbrev commands : List (Command ℕ)
commands =
    ticking 0
    ∷ selecting (some input)
    ∷ ticking 1
    ∷ queueing (0x47 ∷ [])
    ∷ ending_live 10 (some (text "GB3GV"))
    ∷ noticing (some (text "GB3GV")) true
    ∷ []

abbrev quiet : List (Command ℕ)
quiet =
    ticking 5 ∷ allowing_beacon false ∷ seeking (pos 3000) ∷ taking_seek ∷ ending_analogue 6 ∷ []

-- Three bytes come in and two are read.
abbrev filled : BlockingTsInput
filled = append_chunk (1 ∷ 2 ∷ 3 ∷ []) new_input

abbrev drained : BlockingTsInput
drained = (read 2 filled).0

drained-Reach : Reach new_input drained
unfolding append_chunk
drained-Reach =
    next (next here (appends (1 ∷ 2 ∷ 3 ∷ []) (omega arith) (ground arith)))
      (reads 2 (ground arith))

new_input-Flows_example :
    (drained.handed ++ drained.buffer ≡ drained.given)
    × (length drained.buffer ≤ max_buffered_bytes)
    × ((read_ready drained ≡ true)
        ⊎ ((chunk : List ℕ) → length chunk ≤ max_append_chunk → append_ready chunk drained ≡ true))
new_input-Flows_example = new_input-Flows drained drained-Reach

-- "GB3GV CQ".
morse_tone_units-message_example :
    morse_tone_units (text "GB3GV CQ")
    ≡ join 7 (words_of 71 (text "B3GV") ((67, text "Q") ∷ [])) ++ off 7
morse_tone_units-message_example =
    morse_tone_units-message 71 (text "B3GV") ((67, text "Q") ∷ []) (refl, refl)
      ((refl, refl), ((refl, refl), ((refl, refl), ((refl, refl), tt))))
      (((refl, refl), ((refl, refl), tt)), tt)

abbrev ident : IdentConfig
ident = record {
  enabled = true;
  interval = 600;
  frame_rate = 25;
  morse_units = true ∷ false ∷ true ∷ [];
  morse_unit_samples = 3840;
}

at_frame_example :
    (at_frame ident (λ n. n * 1920) 15100).1
    ≡ ltb (since (600 * 25) 15100) (morse_frames ident (is_first (600 * 25) 15100))
at_frame_example =
    at_frame_lem ident (λ n. n * 1920) refl (omega arith) (omega arith) (omega arith) 15100
