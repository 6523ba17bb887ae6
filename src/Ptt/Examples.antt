-- ===== src/Ptt/Examples.antt =====
-- The switch of a concrete device.
use wh_repeater.Common.{true, false, [], ◌∷◌, ltb, ◌≡◌, refl}
use wh_repeater.Ptt.{
  Gpio, HardwarePttConfig, HardwarePtt, physical, set_line, close_line, open_and_clear, new,
  set_transmit_enabled,
}
use wh_repeater.Ptt.Follows.{request_all, request_all-last}

-- A device that fails at its fifth setting, with a line that is on when low.
abbrev device : Gpio
device = record { can_open = true; can_set = λ k. ltb k 4 }

abbrev active_low : HardwarePttConfig
active_low = record { enabled = true; local = true; active_high = false }

abbrev switched : HardwarePtt
switched =
    set_transmit_enabled device active_low
      (request_all device active_low (true ∷ true ∷ false ∷ []) (new device active_low true)) true

request_all-last_example :
    (switched.transmit_enabled ≡ true) × (switched.pin ≡ physical active_low true)
unfolding set_transmit_enabled set_line close_line open_and_clear new
request_all-last_example =
    request_all-last device active_low true (true ∷ true ∷ false ∷ []) true refl

-- The next setting fails, and the line is given up.
given_up : (set_transmit_enabled device active_low switched false).line_open ≡ false
unfolding set_transmit_enabled set_line close_line open_and_clear new
given_up = refl
