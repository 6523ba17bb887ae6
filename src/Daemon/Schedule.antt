-- ===== src/Daemon/Schedule.antt =====
-- The beacon schedule of src/daemon.cpp. The configuration's reader lets only clocks `HH:MM` pass, so
-- that a clock is its four digits, each as its difference from the digit zero; `gmtime_r` gives the
-- current minute of the day.
use wh_repeater.Common.{
  ℕ, ◌+◌, ◌-◌, ◌*◌, ◌%◌, ◌<◌, Bool, true, false, not, ◌&&◌, ◌||◌, ◌==◌, ltb, leb, if◌then◌else◌,
  ◌≡◌, arith,
}

pub record Clock : Type 0 where
  pub h₁ : ℕ
  pub h₀ : ℕ
  pub m₁ : ℕ
  pub m₀ : ℕ

abbrev pub minutes_since_midnight : Clock → ℕ
minutes_since_midnight c = (c.h₁ * 10 + c.h₀) * 60 + (c.m₁ * 10 + c.m₀)

pub record BeaconScheduleConfig : Type 0 where
  pub enabled : Bool
  pub start_time : Clock
  pub end_time : Clock

unfoldable pub beacon_schedule_active : BeaconScheduleConfig → ℕ → Bool
beacon_schedule_active schedule current =
    let start = minutes_since_midnight schedule.start_time in
    let end = minutes_since_midnight schedule.end_time in
    if not schedule.enabled
    then true
    else if start == end
    then true
    else if ltb start end
    then leb start current && ltb current end
    else leb start current || ltb current end

cyclic :
    (start end current : ℕ)
    → start < 1440
    → end < 1440
    → current < 1440
    → (start == end) ≡ false
    → (if ltb start end
        then leb start current && ltb current end
        else leb start current || ltb current end)
      ≡ ltb ((current + 1440 - start) % 1440) ((end + 1440 - start) % 1440)
cyclic start end current h k l different = grind arith

-- An enabled schedule, of two different clocks within a day, is active exactly when the time since its
-- start, counted forwards around the clock, is shorter than the time from start to end, counted in
-- the same way: also over midnight.
pub beacon_schedule_active_lem :
    (schedule : BeaconScheduleConfig) (current : ℕ)
    → schedule.enabled ≡ true
    → let start = minutes_since_midnight schedule.start_time in
      let end = minutes_since_midnight schedule.end_time in
      start < 1440
      → end < 1440
      → current < 1440
      → (start == end) ≡ false
      → beacon_schedule_active schedule current
        ≡ ltb ((current + 1440 - start) % 1440) ((end + 1440 - start) % 1440)
unfolding beacon_schedule_active
beacon_schedule_active_lem schedule current on h k l different =
    let c =
      cyclic (minutes_since_midnight schedule.start_time) (minutes_since_midnight schedule.end_time)
        current h k l different in
    rw on (rw different c)
