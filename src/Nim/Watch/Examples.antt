-- ===== src/Nim/Watch/Examples.antt =====
-- The watch on concrete polls.
use wh_repeater.Common.{◌+◌, true, false, List, [], ◌∷◌, ◌&&◌, leb, ◌≡◌, refl, arith}
use wh_repeater.Nim.Watch.{default_watch, refresh, baseline}
use wh_repeater.Nim.Watch.Progress.{
  Poll, poll_all, changed, last_change, last_time, poll_all-baseline,
}

-- The counter moves at 1000 and then stands still.
abbrev polls : List Poll
polls = (5, 500) ∷ (8, 1000) ∷ (8, 9000) ∷ []

poll_all-baseline_example :
    (poll_all (baseline default_watch true 5 0) false polls).1
    ≡ (changed false 5 polls && leb (last_time 0 polls) (last_change 0 5 polls + 9000))
poll_all-baseline_example = poll_all-baseline default_watch true 5 0 polls (omega arith)

polls_fresh :
    ((poll_all (baseline default_watch true 5 0) false polls).1 ≡ true)
    × ((poll_all (baseline default_watch true 5 0) false ((8, 1000) ∷ (8, 10001) ∷ [])).1 ≡ false)
unfolding poll_all refresh baseline
polls_fresh = (refl, refl)
