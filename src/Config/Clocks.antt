-- ===== src/Config/Clocks.antt =====
-- The clocks of the beacon schedule: the check in src/config.cpp, and what src/daemon.cpp reads in a
-- clock that has passed it.
use wh_repeater.Common.{
  ℕ, ◌+◌, ◌-◌, ◌*◌, ◌/◌, ◌%◌, ◌<◌, true, false, Option, some, none, not, ◌||◌, [], ◌∷◌, ltb, ◌==◌,
  if◌then◌else◌, ◌≡◌, ◌↔◌, refl, ap, sym, ◌∙◌, arith,
}
use wh_repeater.Domain.{Text}
use wh_repeater.Config.Json.{is_digit}
use wh_repeater.Daemon.Schedule.{
  Clock, minutes_since_midnight, beacon_schedule_active, beacon_schedule_active_lem,
}

-- The two errors that are thrown.
pub data ClockError : Type 0 where
  not_a_clock no_valid_time : ClockError

pub data Checked : Type 0 where
  accepted : Text → Checked
  refused : ClockError → Checked

-- The digits of a text of five characters, each as its difference from the digit zero.
abbrev pub clock_of : ℕ → ℕ → ℕ → ℕ → Clock
clock_of a b d e = record { h₁ = a - 48; h₀ = b - 48; m₁ = d - 48; m₀ = e - 48 }

abbrev pub hours : Clock → ℕ
hours c = c.h₁ * 10 + c.h₀

abbrev pub minutes : Clock → ℕ
minutes c = c.m₁ * 10 + c.m₀

unfoldable pub parse_clock_time : Text → Checked
parse_clock_time (a ∷ b ∷ c ∷ d ∷ e ∷ []) =
    let clock : Clock = clock_of a b d e in
    if not (c == 58) || not (is_digit a) || not (is_digit b) || not (is_digit d) || not (is_digit e)
    then refused not_a_clock
    else if ltb 23 (hours clock) || ltb 59 (minutes clock)
    then refused no_valid_time
    else accepted (a ∷ b ∷ c ∷ d ∷ e ∷ [])
parse_clock_time _ = refused not_a_clock

-- An hour and a minute of the day as `HH:MM`.
abbrev pub clock_text : ℕ → ℕ → Text
clock_text h m = (48 + h / 10) ∷ (48 + h % 10) ∷ 58 ∷ (48 + m / 10) ∷ (48 + m % 10) ∷ []

pub accepts-clock_text :
    (h m : ℕ) → h < 24 → m < 60 → parse_clock_time (clock_text h m) ≡ accepted (clock_text h m)
unfolding parse_clock_time
accepts-clock_text h m k l = ground arith

-- What `minutesSinceMidnight` reads: the characters 0, 1, 3 and 4, if they are there.
abbrev pub clock_in : Text → Option Clock
clock_in (a ∷ b ∷ c ∷ d ∷ e ∷ rest) = some (clock_of a b d e)
clock_in _ = none

digits_of :
    (a b c d e : ℕ)
    → parse_clock_time (a ∷ b ∷ c ∷ d ∷ e ∷ []) ≡ accepted (a ∷ b ∷ c ∷ d ∷ e ∷ [])
    → ((c ≡ 58)
        × ((is_digit a ≡ true)
            × ((is_digit b ≡ true) × ((is_digit d ≡ true) × (is_digit e ≡ true)))))
      × ((hours (clock_of a b d e) < 24) × (minutes (clock_of a b d e) < 60))
unfolding parse_clock_time
digits_of a b c d e h = ground arith

same_digits :
    (a b c d e a' b' c' d' e' : ℕ)
    → a ≡ a'
    → b ≡ b'
    → c ≡ c'
    → d ≡ d'
    → e ≡ e'
    → a ∷ b ∷ c ∷ d ∷ e ∷ [] ≡ a' ∷ b' ∷ c' ∷ d' ∷ e' ∷ []
same_digits a b c d e a' b' c' d' e' h k l m n = cc

accepted-clock_text :
    (value : Text)
    → parse_clock_time value ≡ accepted value
    → (h : ℕ) × ((m : ℕ) × ((h < 24) × ((m < 60) × (value ≡ clock_text h m))))
unfolding parse_clock_time
accepted-clock_text [] k = ground arith
accepted-clock_text (a ∷ []) k = ground arith
accepted-clock_text (a ∷ b ∷ []) k = ground arith
accepted-clock_text (a ∷ b ∷ c ∷ []) k = ground arith
accepted-clock_text (a ∷ b ∷ c ∷ d ∷ []) k = ground arith
accepted-clock_text (a ∷ b ∷ c ∷ d ∷ e ∷ x ∷ rest) k = ground arith
accepted-clock_text (a ∷ b ∷ c ∷ d ∷ e ∷ []) k =
    let ((colon, (p, (q, (r, s)))), (l, n)) = digits_of a b c d e k in
    (
      hours (clock_of a b d e),
      (
        minutes (clock_of a b d e),
        (
          l,
          (
            n,
            same_digits a b c d e _ _ _ _ _ (ground arith) (ground arith) colon (ground arith)
                (ground arith),
          ),
        ),
      ),
    )

-- `parseClockTime` accepts exactly the texts `HH:MM` of an hour under 24 and a minute under 60, and returns the text as it is.
pub parse_clock_time_iff :
    (value : Text)
    → (parse_clock_time value ≡ accepted value)
      ↔ ((h : ℕ) × ((m : ℕ) × ((h < 24) × ((m < 60) × (value ≡ clock_text h m)))))
parse_clock_time_iff value = (
  accepted-clock_text value,
  λ found.
      let (h, (m, (k, (l, e)))) = found in
      ap parse_clock_time e ∙ accepts-clock_text h m k l ∙ ap accepted (sym e),
)

time_of :
    (h m : ℕ) (c : Clock)
    → h < 24
    → m < 60
    → clock_in (clock_text h m) ≡ some c
    → minutes_since_midnight c < 1440
time_of h m c k l e = ground arith

-- An accepted clock is a time of the day.
within_day :
    (value : Text) (c : Clock)
    → parse_clock_time value ≡ accepted value
    → clock_in value ≡ some c
    → minutes_since_midnight c < 1440
within_day value c h e =
    let (hour, (minute, (k, (l, shape)))) = accepted-clock_text value h in
    time_of hour minute c k l (ap clock_in (sym shape) ∙ e)

-- A schedule that is on and whose clocks the configuration has accepted is active exactly when the time since its start, counted forwards around the clock, is shorter than the time from start to end, counted in the same way. The start and the end, both as an hour and a minute, are not the same.
pub beacon_schedule_active-accepted :
    (start end : Text) (c d : Clock) (current : ℕ)
    → parse_clock_time start ≡ accepted start
    → parse_clock_time end ≡ accepted end
    → clock_in start ≡ some c
    → clock_in end ≡ some d
    → current < 1440
    → (minutes_since_midnight c == minutes_since_midnight d) ≡ false
    → beacon_schedule_active (record { enabled = true; start_time = c; end_time = d }) current
      ≡ ltb
          ((current + 1440 - minutes_since_midnight c) % 1440)
          ((minutes_since_midnight d + 1440 - minutes_since_midnight c) % 1440)
beacon_schedule_active-accepted start end c d current h k p q l different =
    beacon_schedule_active_lem (record { enabled = true; start_time = c; end_time = d }) current
      refl (within_day start c h p) (within_day end d k q) l different
