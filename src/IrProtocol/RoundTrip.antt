-- ===== src/IrProtocol/RoundTrip.antt =====
-- What the air conditioner receives from a frame is the state that was encoded.
use mathlib.Core.Path.{ap₂}
use shirokumakun_matter.Common.{
  ℕ, ◌+◌, ◌-◌, ◌*◌, ◌/◌, ◌%◌, ◌^◌, ◌<◌, ◌≡◌, refl, Bool, true, not, some, List, [], ◌∷◌, ◌++◌,
  arith, All, ◌==◌, if◌then◌else◌, bit_or, bit_and-one, all_below, all_below_sound, ==_iff, u8, shl,
  shr,
}
use shirokumakun_matter.IrProtocol.{
  AcMode, off, heating, FanSpeed, speed_1, AcState, IrPulse, bit_space, bit_mark, complement,
  fan_and_mode, power_flags, mode_nibble, mode_code, fan_code, encode_raw, encode_command,
  trail_mark,
}
use shirokumakun_matter.IrProtocol.Waveform.{pulse, byte_pulses, frame, pairs, encode_command-pairs}
use shirokumakun_matter.IrProtocol.Receiver.{
  read_digit, read_bytes, read_pairs, read_mode, read_fan, read_raw, receive,
}

-- The digit that a space carries.
bit_space-digit :
    (byte bit : ℕ) → read_digit (pulse bit_mark (bit_space byte bit)) ≡ byte / 2 ^ bit % 2
unfolding bit_space
bit_space-digit byte bit = ground (arith, bit_and-one (shr byte bit))

abbrev pub IsByte : ℕ → Type 0
IsByte b = b < 256

read_bytes-byte_pulses :
    (bytes : List ℕ) (p : IrPulse)
    → All IsByte bytes
    → read_bytes (byte_pulses bytes ++ p ∷ []) ≡ bytes
read_bytes-byte_pulses [] p h = refl
read_bytes-byte_pulses (b ∷ bytes) p h =
    ap₂ ◌∷◌
      (omega (
        arith,
        bit_space-digit b 0,
        bit_space-digit b 1,
        bit_space-digit b 2,
        bit_space-digit b 3,
        bit_space-digit b 4,
        bit_space-digit b 5,
        bit_space-digit b 6,
        bit_space-digit b 7,
        h.0,
      ))
      (read_bytes-byte_pulses bytes p h.1)

pub complement-eq : (b : ℕ) → b < 256 → complement b ≡ 255 - b
unfolding complement
complement-eq b h = omega arith

pub pairs-IsByte : (raw : List ℕ) → All IsByte raw → All IsByte (pairs raw)
pairs-IsByte [] h = tt
pairs-IsByte (b ∷ raw) h = (h.0, (omega (arith, complement-eq b h.0), pairs-IsByte raw h.1))

pub read_pairs-pairs : (raw : List ℕ) → All IsByte raw → read_pairs (pairs raw) ≡ some raw
read_pairs-pairs [] h = refl
read_pairs-pairs (b ∷ raw) h = ground (arith, complement-eq b h.0, read_pairs-pairs raw h.1)

fan_table :
    (f : FanSpeed)
    → all_below 16 (λ n. u8 (bit_or (shl (fan_code f) 4) n) == fan_code f * 16 + n) ≡ true
unfolding all_below
fan_table speed_1 = refl
fan_table _ = refl

mode_nibble-lt : (power : Bool) (mode : AcMode) → mode_nibble power mode < 16
unfolding mode_nibble
mode_nibble-lt power mode = ground arith

fan_code-lt : (f : FanSpeed) → fan_code f < 16
fan_code-lt f = ground arith

fan_and_mode-code :
    (s : AcState) → fan_and_mode s ≡ fan_code s.fan * 16 + mode_nibble s.power s.mode
unfolding fan_and_mode
fan_and_mode-code s = (==_iff _ _).0 (
    all_below_sound 16 _ (fan_table s.fan) (mode_nibble s.power s.mode)
      (mode_nibble-lt s.power s.mode))

read_mode-mode_code : (m : AcMode) → read_mode (mode_code m) ≡ some m
read_mode-mode_code off = refl
read_mode-mode_code _ = refl

read_fan-fan_code : (f : FanSpeed) → read_fan (fan_code f) ≡ some f
read_fan-fan_code speed_1 = refl
read_fan-fan_code _ = refl

-- A frame that turns the unit off carries the heating mode, whatever mode was asked for.
unfoldable pub sent_mode : AcState → AcMode
sent_mode s = if s.power then s.mode else heating

sent_mode-code : (s : AcState) → mode_nibble s.power s.mode ≡ mode_code (sent_mode s)
unfolding mode_nibble sent_mode
sent_mode-code s = ground arith

power_flags-lt : (power : Bool) (mode : AcMode) → power_flags power mode < 256
unfolding power_flags
power_flags-lt power mode = ground arith

-- The two nibbles of byte 11.
fan_and_mode_nibbles :
    (s : AcState)
    → (fan_and_mode s < 256)
      × (fan_and_mode s % 16 ≡ mode_code (sent_mode s))
      × (fan_and_mode s / 16 ≡ fan_code s.fan)
fan_and_mode_nibbles s =
    omega (
      arith,
      fan_and_mode-code s,
      mode_nibble-lt s.power s.mode,
      sent_mode-code s,
      fan_code-lt s.fan,
    )

pub encode_raw-IsByte : (s : AcState) → All IsByte (encode_raw s)
unfolding encode_raw
encode_raw-IsByte s = omega (arith, fan_and_mode_nibbles s, power_flags-lt s.power s.mode)

read_power : (power : Bool) (mode : AcMode) → not (power_flags power mode == 0xE1) ≡ power
unfolding power_flags
read_power power mode = ground arith

pub read_raw-encode_raw :
    (s : AcState) → s.temp_c < 64 → read_raw (encode_raw s) ≡ some (record s { mode = sent_mode s })
unfolding encode_raw
read_raw-encode_raw s h = rw (
  read_power s.power s.mode,
  (fan_and_mode_nibbles s).1,
  (fan_and_mode_nibbles s).2,
  read_mode-mode_code (sent_mode s),
  read_fan-fan_code s.fan,
  temperature,
)
  where
    temperature : u8 (shl s.temp_c 2) / 4 ≡ s.temp_c
    temperature = omega arith

-- The 53 bytes of a command, read back.
read_bytes-command :
    (s : AcState) (p : IrPulse)
    → read_bytes (byte_pulses (encode_command s) ++ p ∷ [])
      ≡ 0x01 ∷ 0x10 ∷ 0x00 ∷ pairs (encode_raw s)
read_bytes-command s p = rw (encode_command-pairs s) (
    read_bytes-byte_pulses (0x01 ∷ 0x10 ∷ 0x00 ∷ pairs (encode_raw s)) p (
      omega arith,
      (omega arith, (omega arith, pairs-IsByte (encode_raw s) (encode_raw-IsByte s))),
    ))

-- The air conditioner reads from a frame the state that was encoded, for temperatures below 64,
-- except that an off command is read with the heating mode.
pub receive-frame :
    (s : AcState) → s.temp_c < 64 → receive (frame s) ≡ some (record s { mode = sent_mode s })
unfolding receive frame
receive-frame s h =
    rw (read_bytes-command s (pulse trail_mark 0))
      (rw (read_pairs-pairs (encode_raw s) (encode_raw-IsByte s)) (read_raw-encode_raw s h))
