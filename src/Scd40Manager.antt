-- ===== src/Scd40Manager.antt =====
-- The CO2, temperature and humidity sensor of src/scd40_manager.cpp; the children hold the proofs.
-- The I2C driver is a parameter: a state of the bus and the two calls on it, which return an
-- `int` status. Sleeping and logging change no state of the program and are left out.
pub mod Crc
pub mod Convert
pub mod Poll
pub mod Start
mod Tests
use shirokumakun_matter.Common.{
  ℕ, zero, suc, ◌+◌, ◌-◌, ◌*◌, ◌/◌, ◌%◌, ◌^◌, Bool, true, false, not, Option, none, some, List, [],
  ◌∷◌, bit_and, bit_or, bit_xor, u8, u16, u32, shl, shr, ltb, ◌==◌, if◌then◌else◌, get_or,
}
use shirokumakun_matter.Common.Int.{ℤ, pos, negsuc, neg, is_zero}

abbrev pub i2c_addr : ℕ
i2c_addr = 0x62

abbrev pub cmd_start_periodic : ℕ
cmd_start_periodic = 0x21B1

abbrev pub cmd_data_ready : ℕ
cmd_data_ready = 0xE4B8

abbrev pub cmd_read_measurement : ℕ
cmd_read_measurement = 0xEC05

abbrev pub cmd_stop_periodic : ℕ
cmd_stop_periodic = 0x3F86

abbrev pub poll_interval_sec : ℕ
poll_interval_sec = 15

-- `-EIO` and `-ENODEV`.
abbrev pub eio : ℤ
eio = negsuc 4

abbrev pub enodev : ℤ
enodev = negsuc 18

-- `crc = (crc & 0x80) ? (crc << 1) ^ 0x31 : (crc << 1)`, cast to `uint8_t`.
unfoldable pub crc_shift : ℕ → ℕ
crc_shift crc = if bit_and crc 0x80 == 0 then u8 (shl crc 1) else u8 (bit_xor (shl crc 1) 0x31)

-- The inner loop, by the rounds left.
unfoldable pub crc_bits : ℕ → ℕ → ℕ
unfolding crc_shift
crc_bits zero crc = crc
crc_bits (suc left) crc = crc_bits left (crc_shift crc)

-- The outer loop, over the `len` bytes at `data`.
pub crc_bytes : List ℕ → ℕ → ℕ
crc_bytes [] crc = crc
crc_bytes (b ∷ bytes) crc = crc_bytes bytes (crc_bits 8 (bit_xor crc b))

unfoldable pub sensirion_crc : List ℕ → ℕ
unfolding crc_bits crc_bytes
sensirion_crc bytes = crc_bytes bytes 0xFF

-- `((uint16_t)hi << 8) | lo`.
abbrev pub word : ℕ → ℕ → ℕ
word hi lo = bit_or (shl hi 8) lo

-- `-4500 + (int32_t)(17500UL * raw / 65535UL)`, with a 32-bit `unsigned long`.
unfoldable pub temp_of_raw : ℕ → ℤ
temp_of_raw raw =
    let t = u32 (17500 * raw) / 65535 in if ltb t 4500 then neg (4500 - t) else pos (t - 4500)

-- `(uint16_t)(10000UL * raw / 65535UL)`.
unfoldable pub rh_of_raw : ℕ → ℕ
rh_of_raw raw = u16 (u32 (10000 * raw) / 65535)

pub data AirQuality : Type 0 where
  good fair moderate poor very_poor extremely_poor : AirQuality

unfoldable pub co2_to_air_quality : ℕ → AirQuality
co2_to_air_quality co2 =
    if ltb co2 400
    then good
    else (if ltb co2 600
        then fair
        else (if ltb co2 1000
            then moderate
            else (if ltb co2 1500
                then poor
                else (if ltb co2 2000 then very_poor else extremely_poor))))

-- The three results of `scd40_read_measurement`.
pub record Measurement : Type 0 where
  pub co2_ppm : ℕ  -- uint16_t
  pub temp_001c : ℤ  -- int16_t
  pub rh_001pct : ℕ  -- uint16_t

-- `struct Scd40Reading`.
pub record Reading : Type 0 where
  pub co2_ppm : ℕ
  pub temp_001c : ℤ
  pub rh_001pct : ℕ
  pub valid : Bool

-- What the program publishes: LocalTemperature of endpoint 1, MeasuredValue of endpoint 2, the air
-- quality and the CO2 concentration of endpoint 3 (a whole number of ppm, sent as a `float`).
pub record Published : Type 0 where
  pub local_temperature : ℤ
  pub relative_humidity : ℕ
  pub air_quality : AirQuality
  pub co2_concentration : ℕ

-- The file's static variables and what it has published.
pub record Scd40 : Type 0 where
  pub last_reading : Reading
  pub published : Published

unfoldable pub update_matter_attributes : Measurement → Scd40 → Scd40
update_matter_attributes m s = record {
  last_reading = record {
    co2_ppm = m.co2_ppm;
    temp_001c = m.temp_001c;
    rh_001pct = m.rh_001pct;
    valid = true;
  };
  published = record {
    local_temperature = m.temp_001c;
    relative_humidity = m.rh_001pct;
    air_quality = co2_to_air_quality m.co2_ppm;
    co2_concentration = m.co2_ppm;
  };
}

-- `scd40_manager_get_last_reading`.
unfoldable pub get_last_reading : Scd40 → Reading
get_last_reading s = s.last_reading

pub data Result {ℓ} (A : Type ℓ) : Type ℓ where
  ok : A → Result A
  err : ℤ → Result A

-- The words of the answer, in the order of the buffer: two bytes and their CRC.
unfoldable pub crc_matches : ℕ → ℕ → ℕ → Bool
crc_matches hi lo crc = sensirion_crc (hi ∷ lo ∷ []) == crc

-- The CRC loop over three words, then the conversions.
unfoldable pub decode_measurement : List ℕ → Result Measurement
decode_measurement buf =
    if not (crc_matches (get_or buf 0 0) (get_or buf 1 0) (get_or buf 2 0))
    then err eio
    else (if not (crc_matches (get_or buf 3 0) (get_or buf 4 0) (get_or buf 5 0))
        then err eio
        else (if not (crc_matches (get_or buf 6 0) (get_or buf 7 0) (get_or buf 8 0))
            then err eio
            else ok (record {
              co2_ppm = word (get_or buf 0 0) (get_or buf 1 0);
              temp_001c = temp_of_raw (word (get_or buf 3 0) (get_or buf 4 0));
              rh_001pct = rh_of_raw (word (get_or buf 6 0) (get_or buf 7 0));
            })))

-- `(ready & 0x07FF) == 0` of the data-ready answer.
unfoldable pub is_data_ready : List ℕ → Bool
is_data_ready buf = not (bit_and (word (get_or buf 0 0) (get_or buf 1 0)) 0x07FF == 0)

module _ {B : Type 0} (i2c_write : List ℕ → ℕ → B → B × ℤ)
    (i2c_read : ℕ → ℕ → B → B × ℤ × List ℕ) where
  -- The retry loop with `left` attempts left; `ret` is the status of the last one.
  unfoldable pub write_attempts : ℕ → List ℕ → ℤ → B → B × ℤ
  write_attempts zero buf ret bus = (bus, ret)
  write_attempts (suc left) buf ret bus =
      let (bus', ret') = i2c_write buf i2c_addr bus in
      let rest = write_attempts left buf ret' bus' in if is_zero ret' then (bus', pos 0) else rest

  -- `scd40_write_cmd`, with its 60 attempts.
  unfoldable pub write_cmd : ℕ → B → B × ℤ
  unfolding write_attempts
  write_cmd cmd = write_attempts 60 (u8 (shr cmd 8) ∷ u8 (bit_and cmd 0xFF) ∷ []) (pos 0)

  -- `scd40_read_measurement`.
  pub read_measurement : B → B × Result Measurement
  read_measurement bus =
      let (bus₁, ret₁) = write_cmd cmd_read_measurement bus in
      let (bus₂, ret₂, buf) = i2c_read 9 i2c_addr bus₁ in
      if not (is_zero ret₁)
      then (bus₁, err ret₁)
      else (if not (is_zero ret₂) then (bus₂, err ret₂) else (bus₂, decode_measurement buf))

  -- The part of `poll_work_handler` after the data-ready check.
  pub poll_measurement : B → Scd40 → B × Scd40
  poll_measurement bus s =
      let (bus', result) = read_measurement bus in
      elim result [ ok m ↦ (bus', update_matter_attributes m s) | err e ↦ (bus', s) ]

  -- `poll_work_handler`.
  pub poll_work_handler : B → Scd40 → B × Scd40
  poll_work_handler bus s =
      let (bus₁, ret₁) = write_cmd cmd_data_ready bus in
      let (bus₂, ret₂, buf) = i2c_read 3 i2c_addr bus₁ in
      if not (is_zero ret₁)
      then (bus₁, s)
      else (if not (is_zero ret₂)
          then (bus₂, s)
          else (if not (is_data_ready buf) then (bus₂, s) else poll_measurement bus₂ s))
