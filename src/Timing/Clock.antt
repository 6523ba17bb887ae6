-- ===== src/Timing/Clock.antt =====
-- The clamps, the frame interval, the frame clock and the video PTS.
use wh_repeater.Common.{
  ℕ, zero, suc, ◌+◌, ◌*◌, ◌^◌, ◌≤◌, ◌<◌, min, max, List, [], ◌∷◌, length, ◌≡◌, refl, ap, ◌∙◌, ◌⊎◌,
  arith,
}
use wh_repeater.Common.Int.{ℤ, pos, ◌+ℤ◌, ◌<ℤ◌, ◌≤ℤ◌}
use wh_repeater.Timing.{
  clamped_output_frame_rate, output_frame_interval, advance_output_frame_clock, no_pts,
  next_output_video_pts,
}

-- A configured frame rate of the `int` range is clamped to 1..50 frames, and one above it becomes
-- negative as an `int` and so 1, not 50.
pub clamped_output_frame_rate_lem :
    (configured : ℕ)
    → configured < 2 ^ 32
    → (configured < 2 ^ 31 → clamped_output_frame_rate configured ≡ max 1 (min 50 configured))
      × (2 ^ 31 ≤ configured → clamped_output_frame_rate configured ≡ 1)
unfolding clamped_output_frame_rate
clamped_output_frame_rate_lem configured h = ground arith

-- A frame interval never makes more frames than the rate asks for in a second, and is the longest
-- such whole number of microseconds.
pub output_frame_interval_lem :
    (rate : ℕ)
    → 1 ≤ rate
    → (output_frame_interval (pos rate) * rate ≤ 1000000)
      × (1000000 < (output_frame_interval (pos rate) + 1) * rate)
unfolding output_frame_interval
output_frame_interval_lem rate h = grind arith

clamped_bounds :
    (configured : ℕ)
    → (1 ≤ clamped_output_frame_rate configured) × (clamped_output_frame_rate configured ≤ 50)
unfolding clamped_output_frame_rate
clamped_bounds configured = ground arith

interval_range :
    (rate interval : ℕ)
    → 1 ≤ rate
    → rate ≤ 50
    → interval * rate ≤ 1000000
    → 1000000 < (interval + 1) * rate
    → (20000 ≤ interval) × (interval ≤ 1000000)
interval_range rate interval low high below above = (grind arith, grind arith)

-- The clamped rates give an interval between 20 milliseconds and one second.
pub output_frame_interval-clamped :
    (configured : ℕ)
    → (20000 ≤ output_frame_interval (pos (clamped_output_frame_rate configured)))
      × (output_frame_interval (pos (clamped_output_frame_rate configured)) ≤ 1000000)
output_frame_interval-clamped configured =
    let rate = clamped_output_frame_rate configured in
    let (low, high) = clamped_bounds configured in
    let (below, above) = output_frame_interval_lem rate low in
    interval_range rate (output_frame_interval (pos rate)) low high below above

-- The frame clock after an advance at each of the times.
unfoldable pub advance_all : ℕ → ℕ → List ℕ → ℕ
advance_all next interval [] = next
advance_all next interval (now ∷ times) =
    advance_all (advance_output_frame_clock next interval now) interval times

advance_lem :
    (next interval now : ℕ)
    → (next + interval ≤ advance_output_frame_clock next interval now)
      × (now ≤ advance_output_frame_clock next interval now)
      × ((advance_output_frame_clock next interval now ≡ next + interval)
          ⊎ (advance_output_frame_clock next interval now ≡ now))
unfolding advance_output_frame_clock
advance_lem next interval now = ground arith

-- Where each time is met before the frame that it follows is overdue by more than the interval, the
-- clock keeps its grid.
abbrev pub OnTime : ℕ → ℕ → List ℕ → Type 0
OnTime next interval [] = Unit {0}
OnTime next interval (now ∷ times) =
    (now ≤ next + interval) × OnTime (next + interval) interval times

-- As long as no advance comes later than the frame that it sets up, the frame clock keeps its grid:
-- after k advances it stands exactly k intervals behind its start.
pub advance_all-OnTime :
    (next interval : ℕ) (times : List ℕ)
    → OnTime next interval times
    → advance_all next interval times ≡ next + length times * interval
unfolding advance_all
advance_all-OnTime next interval [] h = omega arith
advance_all-OnTime next interval (now ∷ times) h =
    ap (λ (n : ℕ). advance_all n interval times) (on_time now h.0)
    ∙ advance_all-OnTime (next + interval) interval times h.1
    ∙ grind arith
  where
    on_time :
        (t : ℕ) → t ≤ next + interval → advance_output_frame_clock next interval t ≡ next + interval
    on_time t k = unfold advance_output_frame_clock in ground arith

-- Whatever the delays, the frame clock never drops behind its grid, nor behind the time of the
-- latest advance.
pub advance_all-bounds :
    (next interval : ℕ) (times : List ℕ) (now : ℕ)
    → (next + (length times + 1) * interval
        ≤ advance_output_frame_clock (advance_all next interval times) interval now)
      × (now ≤ advance_output_frame_clock (advance_all next interval times) interval now)
unfolding advance_all
advance_all-bounds next interval [] now =
    let (a, b, _) = advance_lem next interval now in (omega arith, b)
advance_all-bounds next interval (t ∷ times) now =
    let (a, _, _) = advance_lem next interval t in
    let (b, c) =
      advance_all-bounds (advance_output_frame_clock next interval t) interval times now in
    (grind arith, c)

-- The PTS of the n-th frame after the start.
unfoldable pub nth_pts : ℕ → ℤ
nth_pts zero = next_output_video_pts no_pts
nth_pts (suc n) = next_output_video_pts (nth_pts n)

-- The video PTS count the output frames, 0, 1, 2, and so on, with no gap and no repetition.
pub nth_pts_lem : (n : ℕ) → nth_pts n ≡ pos n
unfolding nth_pts next_output_video_pts ◌+ℤ◌
nth_pts_lem zero = refl
nth_pts_lem (suc n) = ap next_output_video_pts (nth_pts_lem n) ∙ ground arith

-- The next PTS is above the last one, negative values and the sentinel included.
pub next_output_video_pts-lt :
    (last : ℤ) → (last <ℤ next_output_video_pts last) × (pos 0 ≤ℤ next_output_video_pts last)
unfolding next_output_video_pts ◌+ℤ◌
next_output_video_pts-lt last = ground arith
