-- ===== src/IrLink/Read.antt =====
-- What the air conditioner reads from a frame of src/ir_protocol.cpp as src/ir_driver.cpp airs it,
-- each mark and space longer by the time of a load.
use mathlib.Core.Path.{ap₂}
use shirokumakun_matter.Common.{
  ℕ, ◌+◌, ◌/◌, ◌%◌, ◌^◌, ◌<◌, ◌≡◌, refl, ap, ◌∙◌, some, List, [], ◌∷◌, ◌++◌, map, arith, All,
  bit_and-one, shr,
}
use shirokumakun_matter.IrProtocol.{
  AcState, IrPulse, bit_space, bit_mark, encode_raw, encode_command, trail_mark, wakeup_mark,
  wakeup_space, header_mark, header_space,
}
use shirokumakun_matter.IrProtocol.Waveform.{pulse, byte_pulses, frame, pairs, encode_command-pairs}
use shirokumakun_matter.IrProtocol.Receiver.{read_digit, read_bytes, receive}
use shirokumakun_matter.IrProtocol.RoundTrip.{
  IsByte, sent_mode, encode_raw-IsByte, pairs-IsByte, read_pairs-pairs, read_raw-encode_raw,
}
use shirokumakun_matter.IrDriver.{load_us}
use shirokumakun_matter.IrDriver.Carrier.{aired, aired_after}

-- A pulse on air.
abbrev longer : IrPulse → IrPulse
longer p = pulse (load_us + p.mark_us) (load_us + p.space_us)

aired_after-longer :
    (mark space : ℕ) (ps : List IrPulse) (last : IrPulse)
    → aired_after mark space (ps ++ last ∷ [])
      ≡ pulse mark space ∷ map longer ps
        ++ pulse (load_us + last.mark_us) (load_us + last.space_us + load_us) ∷ []
aired_after-longer mark space [] last = refl
aired_after-longer mark space (p ∷ ps) last =
    ap (λ rest. pulse mark space ∷ rest)
      (aired_after-longer (load_us + p.mark_us) (load_us + p.space_us) ps last)

-- The digit of a longer space is the same.
bit_space-digit_longer :
    (byte bit : ℕ) → read_digit (longer (pulse bit_mark (bit_space byte bit))) ≡ byte / 2 ^ bit % 2
unfolding bit_space
bit_space-digit_longer byte bit = ground (arith, bit_and-one (shr byte bit))

read_bytes-longer :
    (bytes : List ℕ) (p : IrPulse)
    → All IsByte bytes
    → read_bytes (map longer (byte_pulses bytes) ++ p ∷ []) ≡ bytes
read_bytes-longer [] p h = refl
read_bytes-longer (b ∷ bytes) p h =
    ap₂ ◌∷◌
      (omega (
        arith,
        bit_space-digit_longer b 0,
        bit_space-digit_longer b 1,
        bit_space-digit_longer b 2,
        bit_space-digit_longer b 3,
        bit_space-digit_longer b 4,
        bit_space-digit_longer b 5,
        bit_space-digit_longer b 6,
        bit_space-digit_longer b 7,
        h.0,
      ))
      (read_bytes-longer bytes p h.1)

read_bytes-command_longer :
    (s : AcState) (p : IrPulse)
    → read_bytes (map longer (byte_pulses (encode_command s)) ++ p ∷ [])
      ≡ 0x01 ∷ 0x10 ∷ 0x00 ∷ pairs (encode_raw s)
read_bytes-command_longer s p = rw (encode_command-pairs s) (
    read_bytes-longer (0x01 ∷ 0x10 ∷ 0x00 ∷ pairs (encode_raw s)) p (
      omega arith,
      (omega arith, (omega arith, pairs-IsByte (encode_raw s) (encode_raw-IsByte s))),
    ))

-- The air conditioner reads from a frame on air the state that was encoded, for temperatures below
-- 64, except that an off command is read with the heating mode.
pub receive-aired :
    (s : AcState)
    → s.temp_c < 64
    → receive (aired (frame s)) ≡ some (record s { mode = sent_mode s })
unfolding receive frame
receive-aired s h =
    ap receive (
      ap (λ rest. pulse (load_us + wakeup_mark) (load_us + wakeup_space) ∷ rest)
        (aired_after-longer (load_us + header_mark) (load_us + header_space)
          (byte_pulses (encode_command s)) (pulse trail_mark 0)))
    ∙ rw (read_bytes-command_longer s (pulse (load_us + trail_mark) (load_us + 0 + load_us)))
        (rw (read_pairs-pairs (encode_raw s) (encode_raw-IsByte s)) (read_raw-encode_raw s h))
