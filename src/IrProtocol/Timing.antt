-- ===== src/IrProtocol/Timing.antt =====
-- How long a frame of src/ir_protocol.cpp lasts on air.
use shirokumakun_matter.Common.{
  ℕ, ◌+◌, ◌*◌, ◌/◌, ◌%◌, ◌^◌, ◌<◌, ◌≡◌, refl, List, [], ◌∷◌, ◌++◌, arith, length, All, bit_and-one,
  shr,
}
use shirokumakun_matter.IrProtocol.{AcState, IrPulse, bit_space, complement, encode_raw, trail_mark}
use shirokumakun_matter.IrProtocol.Waveform.{
  pulse, bit_pulses, byte_pulses, frame, pairs, encode_command-pairs,
}
use shirokumakun_matter.IrProtocol.RoundTrip.{IsByte, encode_raw-IsByte, complement-eq}

-- Marks and spaces, in microseconds.
abbrev pub duration_us : List IrPulse → ℕ
duration_us [] = 0
duration_us (p ∷ ps) = p.mark_us + p.space_us + duration_us ps

duration_us-append :
    (ps qs : List IrPulse) → duration_us (ps ++ qs) ≡ duration_us ps + duration_us qs
duration_us-append [] qs = omega arith
duration_us-append (p ∷ ps) qs = omega (arith, duration_us-append ps qs)

bit_space-eq : (byte bit : ℕ) → bit_space byte bit ≡ 399 + 835 * (byte / 2 ^ bit % 2)
unfolding bit_space
bit_space-eq byte bit = ground (arith, bit_and-one (shr byte bit))

-- The digits set in a byte.
ones : ℕ → ℕ
ones b =
    b % 2 + b / 2 % 2 + b / 4 % 2 + b / 8 % 2 + b / 16 % 2 + b / 32 % 2 + b / 64 % 2 + b / 128 % 2

duration_us-byte : (b : ℕ) → duration_us (bit_pulses 8 0 b) ≡ 6264 + 835 * ones b
unfolding ones
duration_us-byte b = omega (
  arith,
  bit_space-eq b 0,
  bit_space-eq b 1,
  bit_space-eq b 2,
  bit_space-eq b 3,
  bit_space-eq b 4,
  bit_space-eq b 5,
  bit_space-eq b 6,
  bit_space-eq b 7,
)

-- A byte and its complement have eight digits set between them.
ones-complement : (b : ℕ) → b < 256 → ones b + ones (complement b) ≡ 8
unfolding ones
ones-complement b h = rw (complement-eq b h) (omega arith)

duration_us-pairs :
    (raw : List ℕ) → All IsByte raw → duration_us (byte_pulses (pairs raw)) ≡ 19208 * length raw
duration_us-pairs [] h = refl
duration_us-pairs (b ∷ raw) h = omega (
  arith,
  duration_us-append (bit_pulses 8 0 b) (byte_pulses (complement b ∷ pairs raw)),
  duration_us-append (bit_pulses 8 0 (complement b)) (byte_pulses (pairs raw)),
  duration_us-byte b,
  duration_us-byte (complement b),
  ones-complement b h.0,
  duration_us-pairs raw h.1,
)

-- The marks and spaces of every frame add up to 585626 microseconds, whatever the state.
pub duration_us-frame : (s : AcState) → duration_us (frame s) ≡ 585626
unfolding frame ones encode_raw
duration_us-frame s = rw (encode_command-pairs s) (
    omega (
      arith,
      duration_us-append (byte_pulses (0x01 ∷ 0x10 ∷ 0x00 ∷ pairs (encode_raw s)))
          (pulse trail_mark 0 ∷ []),
      duration_us-append (bit_pulses 8 0 0x01) (byte_pulses (0x10 ∷ 0x00 ∷ pairs (encode_raw s))),
      duration_us-append (bit_pulses 8 0 0x10) (byte_pulses (0x00 ∷ pairs (encode_raw s))),
      duration_us-append (bit_pulses 8 0 0x00) (byte_pulses (pairs (encode_raw s))),
      duration_us-byte 0x01,
      duration_us-byte 0x10,
      duration_us-byte 0x00,
      duration_us-pairs (encode_raw s) (encode_raw-IsByte s),
    ))
