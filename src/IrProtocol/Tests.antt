-- ===== src/IrProtocol/Tests.antt =====
-- Tests of the encoder, and its theorems at concrete states.
use shirokumakun_matter.Common.{◌≡◌, refl, true, some, List, [], ◌∷◌, arith, take, replicate}
use shirokumakun_matter.IrProtocol.{
  cooling, speed_3, AcState, IrPulse, Cursor, encode_command, with_complements, encode_raw,
  complement, ac_encode_pulses, ir_max_pulses, fan_and_mode, power_flags,
}
use shirokumakun_matter.IrProtocol.Waveform.{pulse}
use shirokumakun_matter.IrProtocol.Receiver.{receive}
use shirokumakun_matter.IrProtocol.RoundTrip.{sent_mode}
use shirokumakun_matter.IrProtocol.Transfer.{receive-ac_encode_pulses}

abbrev cool_24 : AcState
cool_24 = record { power = true; mode = cooling; temp_c = 24; fan = speed_3 }

abbrev buffer : List IrPulse
buffer = replicate ir_max_pulses (pulse 0 0)

cool_24_command :
    take 30 (encode_command cool_24)
    ≡ 0x01 ∷ 0x10 ∷ 0x00 ∷ 0x40 ∷ 0xBF ∷ 0xFF ∷ 0x00 ∷ 0xCC ∷ 0x33 ∷ 0x92 ∷ 0x6D ∷ 0x13 ∷ 0xEC
      ∷ 0x60 ∷ 0x9F ∷ 0x00 ∷ 0xFF ∷ 0x00 ∷ 0xFF ∷ 0x00 ∷ 0xFF ∷ 0x00 ∷ 0xFF ∷ 0x00 ∷ 0xFF ∷ 0x33
      ∷ 0xCC ∷ 0xF1 ∷ 0x0E ∷ 0x00 ∷ []
unfolding encode_command with_complements encode_raw complement fan_and_mode power_flags
cool_24_command = refl

receive-ac_encode_pulses_example :
    (c : Cursor) × (ac_encode_pulses cool_24 buffer ≡ some c)
    × (receive (take c.idx c.pulses) ≡ some (record cool_24 { mode = sent_mode cool_24 }))
receive-ac_encode_pulses_example =
    receive-ac_encode_pulses cool_24 buffer (omega arith) (omega arith)
