-- ===== src/ShellCommands/Off.antt =====
-- `ac off` of src/shell_commands.cpp, and what the attribute callbacks make of it afterwards.
use shirokumakun_matter.Common.{
  suc, ◌≤◌, ◌≡◌, refl, ap, ◌∙◌, true, Option, none, some, List, [], ◌∷◌, ◌++◌, arith, length, drop,
}
use shirokumakun_matter.IrProtocol.{AcState, heating}
use shirokumakun_matter.IrProtocol.Waveform.{frame}
use shirokumakun_matter.IrProtocol.Buffer.{ac_encode_pulses-frame}
use shirokumakun_matter.IrProtocol.Receiver.{receive}
use shirokumakun_matter.IrProtocol.RoundTrip.{sent_mode, receive-frame}
use shirokumakun_matter.IrProtocol.Transfer.{take-frame}
use shirokumakun_matter.ZclCallbacks.{Attributes, AttributePath, ac_state_of, Command}
use shirokumakun_matter.ZclCallbacks.Send.{heard, post_same}
use shirokumakun_matter.ShellCommands.{
  Firmware, off_state, cmd_off, dispatch_all, attribute_changed,
}

-- The last command dispatched, as the air conditioner reads it.
abbrev pub last_heard : List Command → Option AcState
last_heard [] = none
last_heard (c ∷ cs) = heard c

unfoldable pub after_off : Firmware → Firmware
after_off w = record w {
  off_pulses = frame off_state ++ drop 427 w.off_pulses;
  dispatched =
      record { pulses = frame off_state ++ drop 427 w.off_pulses; count = 427 } ∷ w.dispatched;
}

pub cmd_off_lem : (w : Firmware) → 427 ≤ length w.off_pulses → cmd_off w ≡ some (after_off w)
unfolding cmd_off after_off
cmd_off_lem w room = rw (ac_encode_pulses-frame off_state w.off_pulses room, cmd_off)

after_off-heard :
    (w : Firmware)
    → last_heard (after_off w).dispatched ≡ some (record off_state { mode = heating })
unfolding after_off heard sent_mode
after_off-heard w =
    ap receive (take-frame off_state w.off_pulses) ∙ receive-frame off_state (omega arith)

-- Where the command's array has room for 427 pulses, `ac off` dispatches one more command, which
-- the air conditioner reads as off, 24 degrees and automatic fan. The state that the callbacks
-- compare with stays as it was, so that an attribute callback that then asks for that state,
-- whether on or off, dispatches nothing and the air conditioner stays off.
pub cmd_off-attribute_changed :
    (w : Firmware) (path : AttributePath) (a : Attributes)
    → 427 ≤ length w.off_pulses
    → w.zcl.last_sent_valid ≡ true
    → ac_state_of a ≡ w.zcl.last_sent
    → (w' : Firmware) × (cmd_off w ≡ some w')
      × (length w'.dispatched ≡ suc (length w.dispatched))
      × (attribute_changed path a w' ≡ some w')
      × (last_heard w'.dispatched ≡ some (record off_state { mode = heating }))
unfolding attribute_changed dispatch_all after_off
cmd_off-attribute_changed w path a room valid same = (
  after_off w,
  cmd_off_lem w room,
  refl,
  rw (post_same path a w.zcl valid same, attribute_changed),
  after_off-heard w,
)
