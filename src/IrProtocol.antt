-- ===== src/IrProtocol.antt =====
-- The Hitachi frame encoder of src/ir_protocol.h and src/ir_protocol.cpp; the children hold the
-- independent decoder and the proofs.
-- A C array is a list. `pulses` is the caller's array, and a write past its end, which C leaves
-- undefined, is `none`. The local arrays start as zeros: `raw` by its `memset`, `cmd` because each
-- of its 53 entries is written before one is read.
pub mod Buffer
pub mod Waveform
pub mod Receiver
pub mod RoundTrip
pub mod Timing
pub mod Transfer
mod Tests
use shirokumakun_matter.Common.{
  ℕ, zero, suc, ◌+◌, ◌-◌, ◌*◌, ◌^◌, ◌≡◌, Bool, true, false, not, ◌||◌, Option, none, some, List, [],
  ◌∷◌, bit_and, bit_or, u8, u16, shl, shr, ltb, ◌==◌, if◌then◌else◌, length, get_or, set, replicate,
}

pub data AcMode : Type 0 where
  off ventilation cooling dehumidify heating : AcMode

-- The enumerators' values.
abbrev pub mode_code : AcMode → ℕ
mode_code off = 0x0
mode_code ventilation = 0x1
mode_code cooling = 0x3
mode_code dehumidify = 0x5
mode_code heating = 0x6

pub data FanSpeed : Type 0 where
  speed_1 speed_2 speed_3 speed_4 auto speed_5 : FanSpeed

abbrev pub fan_code : FanSpeed → ℕ
fan_code speed_1 = 0x1
fan_code speed_2 = 0x2
fan_code speed_3 = 0x3
fan_code speed_4 = 0x4
fan_code auto = 0x5
fan_code speed_5 = 0x6

pub record AcState : Type 0 where
  pub power : Bool
  pub mode : AcMode
  pub temp_c : ℕ  -- uint8_t
  pub fan : FanSpeed

-- `struct IrPulse` of src/ir_driver.h.
pub record IrPulse : Type 0 where
  pub mark_us : ℕ  -- uint16_t
  pub space_us : ℕ  -- uint16_t

abbrev pub ir_max_pulses : ℕ
ir_max_pulses = 430

abbrev pub wakeup_mark : ℕ
wakeup_mark = 30000

abbrev pub wakeup_space : ℕ
wakeup_space = 49500

abbrev pub header_mark : ℕ
header_mark = 3380

abbrev pub header_space : ℕ
header_space = 1700

abbrev pub bit_mark : ℕ
bit_mark = 384

abbrev pub one_space : ℕ
one_space = 1234

abbrev pub zero_space : ℕ
zero_space = 399

abbrev pub trail_mark : ℕ
trail_mark = bit_mark

-- Assignments `raw[i] = v` in order.
abbrev store_all : List (ℕ × ℕ) → List ℕ → List ℕ
store_all [] raw = raw
store_all ((i, v) ∷ ws) raw = store_all ws (set raw i v)

pub mode_nibble : Bool → AcMode → ℕ
mode_nibble power mode = if power then mode_code mode else mode_code heating

pub is_heating_or_cooling : AcMode → Bool
is_heating_or_cooling heating = true
is_heating_or_cooling cooling = true
is_heating_or_cooling _ = false

-- The value that ends in `raw[12]`.
pub power_flags : Bool → AcMode → ℕ
unfolding is_heating_or_cooling
power_flags power mode =
    if not power then 0xE1 else (if is_heating_or_cooling mode then 0xF1 else 0xF0)

-- The value that ends in `raw[11]`.
pub fan_and_mode : AcState → ℕ
unfolding mode_nibble
fan_and_mode s = u8 (bit_or (shl (fan_code s.fan) 4) (mode_nibble s.power s.mode))

unfoldable pub encode_raw : AcState → List ℕ
encode_raw s =
    store_all
      ((0, 0x40)
        ∷ (1, 0xFF)
        ∷ (2, 0xCC)
        ∷ (3, 0x92)
        ∷ (4, 0x13)
        ∷ (5, u8 (shl s.temp_c 2))
        ∷ (11, fan_and_mode s)
        ∷ (12, power_flags s.power s.mode)
        ∷ (15, 0x80)
        ∷ (16, 0x03)
        ∷ (17, 0x01)
        ∷ (18, 0x88)
        ∷ (21, 0xFF)
        ∷ (22, 0xFF)
        ∷ (23, 0xFF)
        ∷ (24, 0xFF)
        ∷ [])
      (replicate 25 0)

-- `~x` of a byte promoted to `int`, stored into a `uint8_t`.
unfoldable pub complement : ℕ → ℕ
complement x = u8 (2 ^ 32 - 1 - x)

-- The loop of `encode_command` at index `i` with `left` rounds left.
unfoldable pub with_complements : ℕ → ℕ → List ℕ → List ℕ → List ℕ
with_complements zero i raw cmd = cmd
with_complements (suc left) i raw cmd =
    with_complements left (i + 1) raw
      (set (set cmd (2 * i + 3) (get_or raw i 0)) (2 * i + 4) (complement (get_or raw i 0)))

unfoldable pub encode_command : AcState → List ℕ
encode_command s =
    with_complements 25 0 (encode_raw s) (set (set (set (replicate 53 0) 0 0x01) 1 0x10) 2 0x00)

-- The caller's array and `idx`, the next entry to write.
pub record Cursor : Type 0 where
  pub pulses : List IrPulse
  pub idx : ℕ  -- uint16_t

infixl 5 ◌>>=◌
abbrev pub ◌>>=◌ : Option Cursor → (Cursor → Option Cursor) → Option Cursor
none >>= k = none
some c >>= k = k c

-- `pulses[idx].mark_us = …; pulses[idx].space_us = …; idx++;`
pub put : ℕ → ℕ → Cursor → Option Cursor
put mark space c =
    if ltb c.idx (length c.pulses)
    then some (record {
      pulses = set c.pulses c.idx (record { mark_us = mark; space_us = space });
      idx = u16 (c.idx + 1);
    })
    else none

-- `is_one ? ONE_SPACE : ZERO_SPACE`, with `is_one` the digit `bit` of `byte`.
unfoldable pub bit_space : ℕ → ℕ → ℕ
bit_space byte bit = if bit_and (shr byte bit) 1 == 0 then zero_space else one_space

-- The inner loop at `bit` with `left` rounds left.
pub put_bits : ℕ → ℕ → ℕ → Cursor → Option Cursor
put_bits zero bit byte c = some c
put_bits (suc left) bit byte c = do
  c' ← put bit_mark (bit_space byte bit) c
  put_bits left (bit + 1) byte c'

-- The outer loop, over the bytes of `command`.
pub put_bytes : List ℕ → Cursor → Option Cursor
put_bytes [] c = some c
put_bytes (byte ∷ bytes) c = do c' ← put_bits 8 0 byte c; put_bytes bytes c'

-- The filled array, and in `idx` the number of pulses that the function returns.
unfoldable pub ac_encode_pulses : AcState → List IrPulse → Option Cursor
unfolding put put_bits put_bytes
ac_encode_pulses s pulses = do
  c₁ ← put wakeup_mark wakeup_space (record { pulses = pulses; idx = 0 })
  c₂ ← put header_mark header_space c₁
  c₃ ← put_bytes (encode_command s) c₂
  put trail_mark 0 c₃
