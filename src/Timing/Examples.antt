-- ===== src/Timing/Examples.antt =====
-- The output clock at concrete rates.
use wh_repeater.Common.{ℕ, ◌^◌, [], ◌∷◌, some, ◌≡◌, refl, arith}
use wh_repeater.Common.Int.{pos, negsuc, ◌+ℤ◌}
use wh_repeater.Timing.{
  clamped_output_frame_rate, output_frame_interval, advance_output_frame_clock,
  audio_target_sample_for_video_frame, audio_frame_due, write_audio_until,
}
use wh_repeater.Timing.Clock.{advance_all}
use wh_repeater.Timing.Pacing.{target, CaughtUp, write_audio_until_lem}

rates :
    (clamped_output_frame_rate 0 ≡ 1)
    × (clamped_output_frame_rate 120 ≡ 50)
    × (clamped_output_frame_rate (2 ^ 31) ≡ 1)
unfolding clamped_output_frame_rate
rates = (refl, refl, refl)

intervals : (output_frame_interval (pos 25) ≡ 40000) × (output_frame_interval (negsuc 3) ≡ 1000000)
unfolding output_frame_interval
intervals = (refl, refl)

late : advance_all 10000 40 (10001 ∷ 11000 ∷ 11001 ∷ []) ≡ 11040
unfolding advance_all advance_output_frame_clock
late = refl

write_audio_until_example :
    (j : ℕ) × (write_audio_until 2000 (pos 0) (pos 1024) (pos 1) (pos 48000) (pos 25)
      ≡ some (pos j))
    × CaughtUp 0 1024 (target 1 48000 25) j
write_audio_until_example =
    write_audio_until_lem 1999 0 1024 1 48000 25 (omega arith) (omega arith) (omega arith)
      (omega arith)

one_frame : write_audio_until 3 (pos 0) (pos 1024) (pos 1) (pos 48000) (pos 25) ≡ some (pos 1024)
unfolding write_audio_until audio_frame_due audio_target_sample_for_video_frame ◌+ℤ◌
one_frame = refl
