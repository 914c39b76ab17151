-- ===== src/ShellCommands.antt =====
-- The shell command `ac off` of src/shell_commands.cpp, beside the attribute callbacks.
pub mod Off
pub mod QrCode
pub mod QrPicture
pub mod Reading
pub mod Tuning
pub mod Pairing
mod Tests
use shirokumakun_matter.Common.{ℕ, Option, none, some, List, [], ◌∷◌, false}
use shirokumakun_matter.IrProtocol.{AcState, IrPulse, cooling, auto, ac_encode_pulses}
use shirokumakun_matter.ZclCallbacks.{
  Attributes, AttributePath, Zcl, Command, post_attribute_change,
}

-- The static variables of both files, and the calls of `ir_dispatch_command`, newest first.
pub record Firmware : Type 0 where
  pub zcl : Zcl
  pub off_pulses : List IrPulse
  pub dispatched : List Command

abbrev pub off_state : AcState
off_state = record { power = false; mode = cooling; temp_c = 24; fan = auto }

-- `cmd_off`, which always returns 0; `none` is a write past the end of its array.
unfoldable pub cmd_off : Firmware → Option Firmware
cmd_off w = elim (ac_encode_pulses off_state w.off_pulses) [
  | none ↦ none
  | some c ↦ some (record w {
    off_pulses = c.pulses;
    dispatched = record { pulses = c.pulses; count = c.idx } ∷ w.dispatched;
  })
]

pub dispatch_all : Option Command → List Command → List Command
dispatch_all none cs = cs
dispatch_all (some c) cs = c ∷ cs

-- `MatterPostAttributeChangeCallback` on the state of both files.
unfoldable pub attribute_changed : AttributePath → Attributes → Firmware → Option Firmware
unfolding dispatch_all
attribute_changed path a w = elim (post_attribute_change path a w.zcl) [
  | none ↦ none
  | some (z, c) ↦ some (record w { zcl = z; dispatched = dispatch_all c w.dispatched })
]
