-- ===== src/Timing/Pacing.antt =====
-- The audio samples that go with the video frames.
use wh_repeater.Common.{
  ℕ, zero, suc, ◌+◌, ◌*◌, ◌/◌, ◌≤◌, ◌<◌, true, false, Option, some, ◌≡◌, refl, ◌∙◌, inl, inr, arith,
  leb, Bool-cases, leb→le, ◌⊎◌,
}
use wh_repeater.Common.Int.{ℤ, pos, ◌+ℤ◌}
use wh_repeater.Timing.{audio_target_sample_for_video_frame, audio_frame_due, write_audio_until}

-- The samples up to a frame, for rates of at least one.
abbrev pub target : ℕ → ℕ → ℕ → ℕ
target frame sample_rate frame_rate = frame * sample_rate / frame_rate

-- The audio target of a frame is the largest number of samples that lasts no longer than the video
-- up to that frame, so a rounding error never adds up from frame to frame.
pub audio_target-bounds :
    (frame sample_rate frame_rate : ℕ)
    → 1 ≤ sample_rate
    → 1 ≤ frame_rate
    → let t = target frame sample_rate frame_rate in
      (audio_target_sample_for_video_frame (pos frame) (pos sample_rate) (pos frame_rate) ≡ pos t)
      × (t * frame_rate ≤ frame * sample_rate)
      × (frame * sample_rate < (t + 1) * frame_rate)
unfolding audio_target_sample_for_video_frame
audio_target-bounds frame sample_rate frame_rate h k = (ground arith, grind arith, grind arith)

due_lem :
    (index samples frame sample_rate frame_rate : ℕ)
    → 1 ≤ samples
    → 1 ≤ sample_rate
    → 1 ≤ frame_rate
    → audio_frame_due (pos index) (pos samples) (pos frame) (pos sample_rate) (pos frame_rate)
      ≡ leb (index + samples) (target frame sample_rate frame_rate)
unfolding audio_frame_due ◌+ℤ◌
due_lem index samples frame sample_rate frame_rate h k l =
    ground (arith, audio_target-bounds frame sample_rate frame_rate k l)

-- What the loop leaves: it stops at an index that no further frame fits under, and has not gone past
-- the target.
abbrev pub CaughtUp : ℕ → ℕ → ℕ → ℕ → Type 0
CaughtUp index samples t j = (index ≤ j) × (t < j + samples) × ((j ≤ t) ⊎ (j ≡ index))

pos_add : (a b : ℕ) → pos a +ℤ pos b ≡ pos (a + b)
unfolding ◌+ℤ◌
pos_add a b = ground arith

module _ (samples frame sample_rate frame_rate : ℕ) (h : 1 ≤ samples) (k : 1 ≤ sample_rate)
    (l : 1 ≤ frame_rate) where
  loop : ℕ → ℤ → Option ℤ
  loop fuel index =
      write_audio_until fuel index (pos samples) (pos frame) (pos sample_rate) (pos frame_rate)

  loop_stops :
      (fuel index : ℕ)
      → leb (index + samples) (target frame sample_rate frame_rate) ≡ false
      → loop (suc fuel) (pos index) ≡ some (pos index)
  unfolding loop write_audio_until
  loop_stops fuel index e = rw (due_lem index samples frame sample_rate frame_rate h k l, e)

  loop_goes_on :
      (fuel index : ℕ)
      → leb (index + samples) (target frame sample_rate frame_rate) ≡ true
      → loop (suc fuel) (pos index) ≡ loop fuel (pos (index + samples))
  unfolding loop write_audio_until
  loop_goes_on fuel index e =
      rw (due_lem index samples frame sample_rate frame_rate h k l, e, pos_add index samples)

  loop_lem :
      (fuel index : ℕ)
      → target frame sample_rate frame_rate ≤ index + fuel
      → (j : ℕ) × (loop (suc fuel) (pos index) ≡ some (pos j))
        × CaughtUp index samples (target frame sample_rate frame_rate) j
  loop_lem zero index m =
      let e : leb (index + samples) (target frame sample_rate frame_rate) ≡ false = ground arith in
      (index, loop_stops zero index e, (omega arith, omega arith, inr refl))
  loop_lem (suc fuel) index m =
      elim (Bool-cases (leb (index + samples) (target frame sample_rate frame_rate))) [
        | inr enough ↦ (
          index,
          loop_stops (suc fuel) index enough,
          (omega arith, ground (arith, enough), inr refl),
        )
        | inl due ↦
            let le = leb→le (index + samples) (target frame sample_rate frame_rate) due in
            let (j, run, up) = loop_lem fuel (index + samples) (omega arith) in
            (j, loop_goes_on (suc fuel) index due ∙ run, (omega arith, up.1, omega arith))
      ]

-- The audio loop ends for every video frame, with fuel above what the target is ahead. It then stands
-- less than one audio frame behind the target, and past it only if it was so at the start.
pub write_audio_until_lem :
    (fuel index samples frame sample_rate frame_rate : ℕ)
    → 1 ≤ samples
    → 1 ≤ sample_rate
    → 1 ≤ frame_rate
    → target frame sample_rate frame_rate ≤ index + fuel
    → (j : ℕ) × (write_audio_until
          (suc fuel)
          (pos index)
          (pos samples)
          (pos frame)
          (pos sample_rate)
          (pos frame_rate)
        ≡ some (pos j))
      × CaughtUp index samples (target frame sample_rate frame_rate) j
unfolding loop
write_audio_until_lem fuel index samples frame sample_rate frame_rate h k l m =
    loop_lem samples frame sample_rate frame_rate h k l fuel index m
