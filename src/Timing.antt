-- ===== src/Timing.antt =====
-- src/media_timing.cpp: the output clock, and the loop of src/media_pipeline.cpp that writes audio up
-- to a video frame. `int` and `int64_t` are integers; their overflow is excluded by hypotheses.
pub mod Clock
pub mod Pacing
mod Examples
use wh_repeater.Common.{
  ℕ, zero, suc, ◌+◌, ◌-◌, ◌*◌, ◌/◌, ◌^◌, max, Bool, true, false, Option, none, some, ◌==◌, ltb, leb,
  if◌then◌else◌,
}
use wh_repeater.Common.Int.{ℤ, pos, negsuc, sub_ℕ, ◌+ℤ◌, ltb_ℤ, leb_ℤ, eq_ℤ, pos_part}

-- `static_cast<int>` of a `uint32_t`: the upper half of the range turns negative.
abbrev pub to_int32 : ℕ → ℤ
to_int32 n = if ltb n (2 ^ 31) then pos n else negsuc (2 ^ 32 - n - 1)

-- `std::clamp` between two bounds that are not negative.
abbrev pub clamp : ℤ → ℕ → ℕ → ℕ
clamp v low high =
    if ltb_ℤ v (pos low) then low else if ltb_ℤ (pos high) v then high else pos_part v

unfoldable pub clamped_output_frame_rate : ℕ → ℕ
clamped_output_frame_rate configured = clamp (to_int32 configured) 1 50

unfoldable pub clamped_output_audio_channels : ℕ → ℕ
clamped_output_audio_channels configured = clamp (to_int32 configured) 1 2

unfoldable pub output_audio_channels_for_source : ℕ → ℤ → ℕ
unfolding clamped_output_audio_channels
output_audio_channels_for_source configured source = clamped_output_audio_channels configured

-- `std::max(1, n)`, which is never negative.
abbrev pub at_least_one : ℤ → ℕ
at_least_one v = if ltb_ℤ v (pos 1) then 1 else pos_part v

-- Microseconds for one frame.
unfoldable pub output_frame_interval : ℤ → ℕ
output_frame_interval rate = 1000000 / at_least_one rate

-- Times and the interval count the same ticks.
unfoldable pub advance_output_frame_clock : ℕ → ℕ → ℕ → ℕ
advance_output_frame_clock next_frame interval now =
    let next = next_frame + interval in if ltb next now then now else next

-- `std::numeric_limits<std::int64_t>::min()`.
abbrev pub no_pts : ℤ
no_pts = negsuc (2 ^ 63 - 1)

unfoldable pub next_output_video_pts : ℤ → ℤ
next_output_video_pts last =
    if eq_ℤ last no_pts then pos 0 else if ltb_ℤ last (pos 0) then pos 0 else last +ℤ pos 1

-- Division of an `int64_t` truncates towards zero.
abbrev pub div_trunc : ℤ → ℕ → ℤ
div_trunc (pos n) d = pos (n / d)
div_trunc (negsuc n) d = sub_ℕ 0 (suc n / d)

abbrev pub mul_ℕ : ℤ → ℕ → ℤ
mul_ℕ (pos n) d = pos (n * d)
mul_ℕ (negsuc n) d = sub_ℕ 0 (suc n * d)

unfoldable pub audio_target_sample_for_video_frame : ℤ → ℤ → ℤ → ℤ
audio_target_sample_for_video_frame frame sample_rate frame_rate =
    div_trunc (mul_ℕ frame (at_least_one sample_rate)) (at_least_one frame_rate)

unfoldable pub audio_frame_due : ℤ → ℤ → ℤ → ℤ → ℤ → Bool
audio_frame_due index samples frame sample_rate frame_rate =
    leb_ℤ (index +ℤ pos (at_least_one samples))
      (audio_target_sample_for_video_frame frame sample_rate frame_rate)

-- The loop of `writeAudioUntil`: a frame of `samples` samples is written while one is due, and each
-- moves the index on by as many. `none` means that the fuel ran out.
unfoldable pub write_audio_until : ℕ → ℤ → ℤ → ℤ → ℤ → ℤ → Option ℤ
write_audio_until zero index samples frame sample_rate frame_rate = none
write_audio_until (suc fuel) index samples frame sample_rate frame_rate =
    let rest = write_audio_until fuel (index +ℤ samples) samples frame sample_rate frame_rate in
    if audio_frame_due index samples frame sample_rate frame_rate then rest else some index
