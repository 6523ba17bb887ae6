-- ===== src/Scanner/Examples.antt =====
-- The scan scheduler on concrete histories.
use mathlib.Core.List.{Memᴰ}
use wh_repeater.Common.{ℕ, true, false, none, List, [], ◌∷◌, ◌≡◌, ◌≢◌, refl, arith}
use wh_repeater.Domain.{ScanTarget, locked_dvbs, searching}
use wh_repeater.Samples.{sample_target, sample_status, sample_config}
use wh_repeater.Scanner.{
  default_cursor, ScanScheduler, new, step, reports_lock, visit, visit_all, tick,
}
use wh_repeater.Scanner.Retunes.{Observation, Spaced, watch, watch-default-Spaced}
use wh_repeater.Scanner.Hang.{held_at, watch-locked_quiet, watch-live}
use wh_repeater.Scanner.Fleet.{Reports, observe, calls_of, tick-watch}

-- Dwell 1500, hang 5000: two retunes, a lock at 4000, its loss at 5000, and the scan again.
abbrev history : List Observation
history =
    (false, 0)
    ∷ (false, 1000)
    ∷ (false, 1500)
    ∷ (true, 4000)
    ∷ (false, 5000)
    ∷ (false, 9000)
    ∷ (false, 10000)
    ∷ []

abbrev second_target : ScanTarget
second_target = record sample_target { frequency_khz = 1255000 }

history_calls :
    (watch (sample_config 1) default_cursor history).1
    ≡ (0, sample_target) ∷ (1500, second_target) ∷ (10000, sample_target) ∷ []
unfolding watch step
history_calls = refl

watch-default-Spaced_example : Spaced 1500 0 (watch (sample_config 1) default_cursor history).1
watch-default-Spaced_example = watch-default-Spaced (sample_config 1) history (omega arith)

watch-locked_quiet_example :
    (watch
      (sample_config 1)
      default_cursor
      ((true, 100) ∷ held_at (200 ∷ []) ((false, 300) ∷ (false, 5299) ∷ []))).1
    ≡ []
watch-locked_quiet_example =
    watch-locked_quiet (sample_config 1) default_cursor 100 (200 ∷ []) 300 ((false, 5299) ∷ [])
      (omega arith) ((refl, omega arith), tt)

watch-live_example :
    (watch
      (sample_config 1)
      (watch (sample_config 1) default_cursor history).0
      ((false, 10001) ∷ (false, 15001) ∷ [])).1
    ≢ []
watch-live_example =
    watch-live (sample_config 1) history 10001 15001 (omega arith) (omega arith) (omega arith)
      (omega arith) (omega arith)

abbrev scheduler : ScanScheduler
unfolding new
scheduler = new (sample_config 2 ∷ sample_config 1 ∷ [])

abbrev reports : Reports ℕ
reports =
    (sample_status 1 searching none ∷ sample_status 2 locked_dvbs none ∷ [], 10)
    ∷ (sample_status 1 locked_dvbs none ∷ sample_status 2 searching none ∷ [], 2000)
    ∷ []

tick-watch_example :
    calls_of 1 scheduler reports ≡ (watch (sample_config 1) default_cursor (observe 1 reports)).1
unfolding new
tick-watch_example =
    tick-watch (sample_config 1) refl refl scheduler reports ((λ e. omega arith, tt), (tt, tt))
      (Memᴰ.tail (Memᴰ.head refl))

reports_calls : calls_of 1 scheduler reports ≡ (10, sample_target) ∷ []
unfolding tick visit_all visit step reports_lock new
reports_calls = refl
