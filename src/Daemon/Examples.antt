-- ===== src/Daemon/Examples.antt =====
-- The daemon's decisions at concrete rounds.
use wh_repeater.Common.{
  ℕ, true, false, Option, none, some, is_some, List, [], ◌∷◌, All, ◌≡◌, refl, arith,
}
use wh_repeater.Domain.{ActiveInput, ReceiverId, locked_dvbs2}
use wh_repeater.Samples.{sample_target, sample_status, sample_config}
use wh_repeater.Daemon.Sources.{Selection, Round, analogue, select, hang_time_for_receiver}
use wh_repeater.Daemon.Sources.Priority.{preferred, select-active}
use wh_repeater.Daemon.Sources.Hold.{actives, after, actives-held}
use wh_repeater.Daemon.Transmit.{
  Notice, Switch, update_notice, transmit_enabled, transmits, notice_after, transmits-hang,
}

abbrev input_from : ReceiverId → ActiveInput ℕ
input_from id = record {
  receiver = id;
  target = sample_target;
  status = sample_status id locked_dvbs2 none;
}

-- A round at a time, with the analogue input on receiver 5 and the tuners' on receiver 1.
abbrev round_at : ℕ → Option (ActiveInput ℕ) → Round ℕ
round_at now camera = record {
  receivers = sample_config 5 ∷ [];
  capture = 5;
  now = now;
  nim_active = some (input_from 1);
  analogue_active = camera;
}

abbrev on_camera : Selection ℕ
on_camera = record {
  active = some (input_from 5);
  family = some analogue;
  held = some (input_from 5);
  held_until = 5000;
}

select-active_example :
    ((select (round_at 6000 none) on_camera).active
      ≡ preferred (some analogue) (round_at 6000 none) on_camera)
    × (is_some (select (round_at 6000 none) on_camera).family
        ≡ is_some (preferred (some analogue) (round_at 6000 none) on_camera))
select-active_example = select-active (round_at 6000 none) on_camera

abbrev quiet : List (Round ℕ)
quiet = round_at 3000 none ∷ round_at 5999 none ∷ []

actives-held_example :
    All
      (λ x. x ≡ some (input_from 5))
      (actives quiet (select (round_at 1000 (some (input_from 5))) on_camera))
    × ((select
          (round_at 6000 none)
          (after quiet (select (round_at 1000 (some (input_from 5))) on_camera))).active
        ≡ some (input_from 1))
unfolding hang_time_for_receiver
actives-held_example =
    actives-held (round_at 1000 (some (input_from 5))) quiet (round_at 6000 none) on_camera
      (input_from 5) refl refl refl ((refl, refl, omega arith), ((refl, refl, omega arith), tt))
      refl (omega arith)

abbrev switch_at : ℕ → Option (ActiveInput ℕ) → Switch ℕ
switch_at now active = record {
  receivers = sample_config 1 ∷ [];
  gateway_mode = false;
  fallback_enabled = true;
  forced = false;
  beacon_allowed = false;
  now = now;
  active = active;
}

abbrev no_notice : Notice
no_notice = record { shown = false; until = 0 }

transmits-hang_example :
    let n = update_notice (switch_at 0 (some (input_from 1))) no_notice in
    let idle = switch_at 2000 none ∷ switch_at 4999 none ∷ [] in
    All (λ x. x ≡ true) (transmits idle n)
    × (transmit_enabled
          (switch_at 5000 none)
          (update_notice (switch_at 5000 none) (notice_after idle n))
        ≡ false)
unfolding hang_time_for_receiver
transmits-hang_example =
    transmits-hang (switch_at 0 (some (input_from 1)))
      (switch_at 2000 none ∷ switch_at 4999 none ∷ []) (switch_at 5000 none) no_notice
      (input_from 1) refl ((refl, refl, refl, omega arith), ((refl, refl, refl, omega arith), tt))
      refl refl refl refl (omega arith)
