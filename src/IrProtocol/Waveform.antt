-- ===== src/IrProtocol/Waveform.antt =====
-- The frame as a list of pulses, apart from the array it is written to, and the bytes that are
-- sent. A helper of the proofs about `ac_encode_pulses`.
use shirokumakun_matter.Common.{
  ℕ, zero, suc, ◌+◌, ◌*◌, ◌≡◌, refl, List, [], ◌∷◌, ◌++◌, arith, length,
}
use shirokumakun_matter.IrProtocol.{
  AcState, IrPulse, wakeup_mark, wakeup_space, header_mark, header_space, bit_mark, trail_mark,
  bit_space, encode_command, encode_raw, with_complements, complement,
}

abbrev pub pulse : ℕ → ℕ → IrPulse
pulse mark space = record { mark_us = mark; space_us = space }

abbrev pub bit_pulses : ℕ → ℕ → ℕ → List IrPulse
bit_pulses zero bit byte = []
bit_pulses (suc left) bit byte =
    pulse bit_mark (bit_space byte bit) ∷ bit_pulses left (bit + 1) byte

abbrev pub byte_pulses : List ℕ → List IrPulse
byte_pulses [] = []
byte_pulses (byte ∷ bytes) = bit_pulses 8 0 byte ++ byte_pulses bytes

unfoldable pub frame : AcState → List IrPulse
frame s =
    pulse wakeup_mark wakeup_space ∷ pulse header_mark header_space ∷ byte_pulses (encode_command s)
    ++ pulse trail_mark 0 ∷ []

pub length-byte_pulses : (bytes : List ℕ) → length (byte_pulses bytes) ≡ 8 * length bytes
length-byte_pulses [] = refl
length-byte_pulses (b ∷ bytes) = omega (arith, length-byte_pulses bytes)

-- Each byte followed by its complement.
abbrev pub pairs : List ℕ → List ℕ
pairs [] = []
pairs (b ∷ raw) = b ∷ complement b ∷ pairs raw

-- `encode_command` sends the preamble and the raw bytes in pairs.
pub encode_command-pairs :
    (s : AcState) → encode_command s ≡ 0x01 ∷ 0x10 ∷ 0x00 ∷ pairs (encode_raw s)
unfolding encode_command with_complements encode_raw
encode_command-pairs s = refl

pub length-command : (s : AcState) → length (encode_command s) ≡ 53
unfolding encode_command with_complements
length-command s = refl
