-- ===== src/IrProtocol/Transfer.antt =====
-- From the call of `ac_encode_pulses` to what the air conditioner reads.
use shirokumakun_matter.Common.{
  ◌≤◌, ◌<◌, ◌≡◌, sym, ◌∙◌, ap, some, List, ◌++◌, length, take, drop, take_whole,
}
use shirokumakun_matter.IrProtocol.{AcState, IrPulse, Cursor, ac_encode_pulses}
use shirokumakun_matter.IrProtocol.Waveform.{frame}
use shirokumakun_matter.IrProtocol.Buffer.{length-frame, ac_encode_pulses-frame}
use shirokumakun_matter.IrProtocol.Receiver.{receive}
use shirokumakun_matter.IrProtocol.RoundTrip.{sent_mode, receive-frame}

pub take-frame : (s : AcState) (buf : List IrPulse) → take 427 (frame s ++ drop 427 buf) ≡ frame s
take-frame s buf = take_whole (frame s) (drop 427 buf) 427 (sym (length-frame s))

-- With room for 427 pulses and a temperature below 64, `ac_encode_pulses` succeeds, and from the
-- pulses that it says it wrote the air conditioner reads back the power, temperature, fan speed
-- and mode that were asked for, the mode of an off command being heating.
pub receive-ac_encode_pulses :
    (s : AcState) (buf : List IrPulse)
    → 427 ≤ length buf
    → s.temp_c < 64
    → (c : Cursor) × (ac_encode_pulses s buf ≡ some c)
      × (receive (take c.idx c.pulses) ≡ some (record s { mode = sent_mode s }))
receive-ac_encode_pulses s buf room fits =
    (_, ac_encode_pulses-frame s buf room, ap receive (take-frame s buf) ∙ receive-frame s fits)
