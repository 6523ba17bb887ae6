-- ===== src/Ptt.antt =====
-- src/hardware_ptt.cpp: the transmitter's switch on a GPIO line. The kernel's GPIO device is a
-- parameter: whether the chip and the line can be had, and whether the setting of that number
-- succeeds. `pin` is the level the device was last told.
pub mod Follows
mod Examples
use wh_repeater.Common.{ℕ, ◌+◌, Bool, true, false, not, ◌&&◌, ◌||◌, List, [], ◌∷◌, if◌then◌else◌}

pub record Gpio : Type 0 where
  pub can_open : Bool
  pub can_set : ℕ → Bool

-- `local` says that the mode is "local".
pub record HardwarePttConfig : Type 0 where
  pub enabled : Bool
  pub local : Bool
  pub active_high : Bool

pub record HardwarePtt : Type 0 where
  pub line_open : Bool
  pub transmit_enabled : Bool
  pub pin : Bool
  pub calls : ℕ

abbrev pub same : Bool → Bool → Bool
same true b = b
same false b = not b

-- `config_.activeHigh ? active : !active`.
abbrev pub physical : HardwarePttConfig → Bool → Bool
physical config active = if config.active_high then active else not active

module _ (gpio : Gpio) (config : HardwarePttConfig) where
  -- `openLine`: the request gives the line its level for off.
  abbrev pub open_line : HardwarePtt → HardwarePtt × Bool
  open_line s =
      if gpio.can_open
      then (record s { line_open = true; pin = physical config false }, true)
      else (s, false)

  -- The new state, and whether the setting succeeded rather than threw.
  unfoldable pub set_line : HardwarePtt → Bool → HardwarePtt × Bool
  set_line s active =
      if not s.line_open
      then (s, true)
      else if gpio.can_set s.calls
      then (record s { pin = physical config active; calls = s.calls + 1 }, true)
      else (record s { calls = s.calls + 1 }, false)

  unfoldable pub close_line : HardwarePtt → HardwarePtt
  close_line s = record (set_line s false).0 { line_open = false; transmit_enabled = false }

  -- The `try` block of the constructor with its handler.
  unfoldable pub open_and_clear : HardwarePtt → HardwarePtt
  open_and_clear s =
      let (opened, got) = open_line s in
      let (cleared, done) = set_line opened false in
      if not got then close_line opened else if done then cleared else close_line cleared

  -- The constructor, from a line that stands at an unknown level.
  unfoldable pub new : Bool → HardwarePtt
  new level =
      let off : HardwarePtt = record {
        line_open = false;
        transmit_enabled = false;
        pin = level;
        calls = 0;
      } in
      if config.enabled && config.local then open_and_clear off else off

  unfoldable pub set_transmit_enabled : HardwarePtt → Bool → HardwarePtt
  set_transmit_enabled s enabled =
      if not config.enabled
        || (not config.local || (not s.line_open || same s.transmit_enabled enabled))
      then s
      else let (set, done) = set_line s enabled in
        if done then record set { transmit_enabled = enabled } else close_line set
