-- ===== src/IrProtocol/Receiver.antt =====
-- An independent description of the protocol of src/ir_protocol.cpp: what the air conditioner
-- reads from the pulses it sees. Nothing here is taken from the encoder but the constants.
use shirokumakun_matter.Common.{
  ℕ, ◌+◌, ◌*◌, ◌/◌, ◌%◌, Bool, ◌&&◌, not, Option, none, some, List, [], ◌∷◌, ltb, ◌==◌,
  if◌then◌else◌, get_or,
}
use shirokumakun_matter.IrProtocol.{
  AcMode, off, ventilation, cooling, dehumidify, heating, FanSpeed, speed_1, speed_2, speed_3,
  speed_4, speed_5, auto, AcState, IrPulse,
}

-- A long space is a 1.
abbrev pub read_digit : IrPulse → ℕ
read_digit p = if ltb p.space_us 800 then 0 else 1

-- Eight pulses are a byte, lowest digit first; pulses that do not fill a byte end the command.
abbrev pub read_bytes : List IrPulse → List ℕ
read_bytes (a ∷ b ∷ c ∷ d ∷ e ∷ f ∷ g ∷ h ∷ ps) =
    (read_digit a
      + 2 * read_digit b
      + 4 * read_digit c
      + 8 * read_digit d
      + 16 * read_digit e
      + 32 * read_digit f
      + 64 * read_digit g
      + 128 * read_digit h)
    ∷ read_bytes ps
read_bytes _ = []

-- Each byte must be followed by its complement.
abbrev pub read_pairs : List ℕ → Option (List ℕ)
read_pairs [] = some []
read_pairs (b ∷ []) = none
read_pairs (b ∷ c ∷ bytes) =
    if b + c == 255
    then elim (read_pairs bytes) [ none ↦ none | some raw ↦ some (b ∷ raw) ]
    else none

abbrev pub read_mode : ℕ → Option AcMode
read_mode n =
    if n == 0
    then some off
    else (if n == 1
        then some ventilation
        else (if n == 3
            then some cooling
            else (if n == 5 then some dehumidify else (if n == 6 then some heating else none))))

abbrev pub read_fan : ℕ → Option FanSpeed
read_fan n =
    if n == 1
    then some speed_1
    else (if n == 2
        then some speed_2
        else (if n == 3
            then some speed_3
            else (if n == 4
                then some speed_4
                else (if n == 5 then some auto else (if n == 6 then some speed_5 else none)))))

abbrev pub read_fields : Bool → ℕ → Option AcMode → Option FanSpeed → Option AcState
read_fields power temp (some mode) (some fan) =
    some (record { power = power; mode = mode; temp_c = temp; fan = fan })
read_fields power temp (some mode) none = none
read_fields power temp none fan = none

abbrev pub read_raw : List ℕ → Option AcState
read_raw raw =
    read_fields (not (get_or raw 12 0 == 0xE1)) (get_or raw 5 0 / 4)
      (read_mode (get_or raw 11 0 % 16)) (read_fan (get_or raw 11 0 / 16))

-- The three bytes of preamble, then the pairs.
abbrev pub read_command : List ℕ → Option AcState
read_command (a ∷ b ∷ c ∷ bytes) =
    if a == 0x01 && b == 0x10 && c == 0x00
    then elim (read_pairs bytes) [ none ↦ none | some raw ↦ read_raw raw ]
    else none
read_command _ = none

-- The wakeup burst and the header pulse carry no data.
unfoldable pub receive : List IrPulse → Option AcState
receive (wakeup ∷ header ∷ ps) = read_command (read_bytes ps)
receive _ = none
