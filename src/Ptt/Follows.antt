-- ===== src/Ptt/Follows.antt =====
-- The pin follows the requests.
use wh_repeater.Common.{Bool, true, false, ◌&&◌, List, [], ◌∷◌, ◌≡◌, arith}
use wh_repeater.Ptt.{
  Gpio, HardwarePttConfig, HardwarePtt, physical, set_line, close_line, open_and_clear, new,
  set_transmit_enabled,
}

module _ (gpio : Gpio) (config : HardwarePttConfig) where
  -- The switch after a sequence of requests.
  abbrev pub request_all : List Bool → HardwarePtt → HardwarePtt
  request_all [] s = s
  request_all (b ∷ bs) s = request_all bs (set_transmit_enabled gpio config s b)

  record Consistent (s : HardwarePtt) : Type 0 where
    level : s.line_open ≡ true → s.pin ≡ physical config s.transmit_enabled
    switched_on : s.line_open ≡ true → (config.enabled && config.local) ≡ true
    unkeyed : s.line_open ≡ false → s.transmit_enabled ≡ false

  new-Consistent : (level : Bool) → Consistent (new gpio config level)
  unfolding new open_and_clear set_line close_line
  new-Consistent level = ground arith

  set_transmit_enabled-Consistent :
      (s : HardwarePtt) (b : Bool)
      → Consistent s
      → Consistent (set_transmit_enabled gpio config s b)
  unfolding set_transmit_enabled set_line close_line
  set_transmit_enabled-Consistent s b v = ground arith

  set_transmit_enabled-last :
      (s : HardwarePtt) (b : Bool)
      → Consistent s
      → (set_transmit_enabled gpio config s b).line_open ≡ true
      → ((set_transmit_enabled gpio config s b).transmit_enabled ≡ b)
        × ((set_transmit_enabled gpio config s b).pin ≡ physical config b)
  unfolding set_transmit_enabled set_line close_line
  set_transmit_enabled-last s b v o = ground arith

  request_all-Consistent :
      (bs : List Bool) (s : HardwarePtt) → Consistent s → Consistent (request_all bs s)
  request_all-Consistent [] s v = v
  request_all-Consistent (b ∷ bs) s v =
      request_all-Consistent bs (set_transmit_enabled gpio config s b)
        (set_transmit_enabled-Consistent s b v)

-- Whatever the GPIO device does, after any requests and a last one: if the line is still open, the
-- switch remembers the last request, and the pin was last told that request's level, high or low as
-- the configuration says.
pub request_all-last :
    (gpio : Gpio) (config : HardwarePttConfig) (level : Bool) (bs : List Bool) (b : Bool)
    → let s =
        set_transmit_enabled gpio config (request_all gpio config bs (new gpio config level)) b in
      s.line_open ≡ true → (s.transmit_enabled ≡ b) × (s.pin ≡ physical config b)
request_all-last gpio config level bs b still =
    let s = request_all gpio config bs (new gpio config level) in
    set_transmit_enabled-last gpio config s b
      (request_all-Consistent gpio config bs (new gpio config level)
        (new-Consistent gpio config level))
      still
