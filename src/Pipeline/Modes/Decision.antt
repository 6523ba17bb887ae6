-- ===== src/Pipeline/Modes/Decision.antt =====
-- What a tick of MediaPipeline decides.
use wh_repeater.Common.{ℕ, Bool, true, ◌&&◌, Option, none, some, ltb, if◌then◌else◌, ◌≡◌, arith}
use wh_repeater.Domain.{ActiveInput}
use wh_repeater.Pipeline.State.{
  Mode, idle, retransmit, analogue, fallback_video, fallback, Config, MediaPipeline,
  is_analogue_input, is_fallback_video, is_idle,
}
use wh_repeater.Pipeline.Modes.{
  beacon_or_notice, enter_retransmit, enter_analogue, enter_fallback, enter_idle, drop_video,
  tick_input, tick_alone, tick_with, tick,
}

-- The mode that is asked for at a time, where the received stream is not to be tried again before
-- `live` and the analogue input not before `capture`: an input has its own mode, or the fallback until
-- then; with no input a video goes on, and else the fallback is on the air if it is enabled.
abbrev pub wanted_mode :
    {D : Type 0} → Config → ℕ → ℕ → ℕ → Option (ActiveInput D) → MediaPipeline D → Mode
wanted_mode config now live capture none s =
    if is_fallback_video s.mode
    then fallback_video
    else if config.fallback_enabled
    then fallback
    else idle
wanted_mode config now live capture (some input) s =
    if is_analogue_input config input
    then if ltb now capture then fallback else analogue
    else if ltb now live
    then fallback
    else retransmit

-- And whether the transmitter is on.
abbrev pub wanted_transmit :
    {D : Type 0} → Config → ℕ → ℕ → Option (ActiveInput D) → MediaPipeline D → Bool
wanted_transmit config now capture none s =
    if is_fallback_video s.mode
    then s.transmit_enabled
    else if config.fallback_enabled
    then beacon_or_notice s
    else is_idle s.mode && s.transmit_enabled
wanted_transmit config now capture (some input) s =
    if is_analogue_input config input && ltb now capture then beacon_or_notice s else true

-- The record of what the output was told is up to date.
abbrev pub IsTold : {D : Type 0} → MediaPipeline D → Type 0
IsTold s = s.output_on ≡ s.transmit_enabled

tick_with-wanted :
    {D : Type 0} (config : Config) (now : ℕ) (input : Option (ActiveInput D)) (s : MediaPipeline D)
    → IsTold s
    → ((tick_with config now input s).mode
        ≡ wanted_mode config now s.live_retry_after s.analogue_retry_after input s)
      × ((tick_with config now input s).output_on
          ≡ wanted_transmit config now s.analogue_retry_after input s)
      × ((tick_with config now input s).transmit_enabled
          ≡ wanted_transmit config now s.analogue_retry_after input s)
unfolding tick_alone tick_input drop_video enter_retransmit enter_analogue enter_fallback enter_idle
tick_with-wanted config now none s told = (ground arith, ground arith, ground arith)
tick_with-wanted config now (some input) s told = (ground arith, ground arith, ground arith)

pub tick-wanted :
    {D : Type 0} (config : Config) (now : ℕ) (s : MediaPipeline D)
    → IsTold s
    → ((tick config now s).mode
        ≡ wanted_mode config now s.live_retry_after s.analogue_retry_after s.active s)
      × ((tick config now s).output_on
          ≡ wanted_transmit config now s.analogue_retry_after s.active s)
unfolding tick
tick-wanted config now s told = let r = tick_with-wanted config now s.active s told in (r.0, r.1)
