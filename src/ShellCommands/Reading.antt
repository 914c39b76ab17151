-- ===== src/ShellCommands/Reading.antt =====
-- The shell command `ac scd` of src/shell_commands.cpp, beside the sensor's last reading.
use shirokumakun_matter.Common.{
  ℕ, ◌+◌, ◌*◌, ◌-◌, ◌/◌, ◌%◌, ◌^◌, ◌<◌, ◌≡◌, refl, Bool, true, ltb, if◌then◌else◌, arith, List,
  get_or, u32,
}
use shirokumakun_matter.Common.Int.{ℤ, pos, negsuc, neg, pos_part, neg_part, is_negative}
use shirokumakun_matter.Scd40Manager.{
  Reading, Measurement, Scd40, get_last_reading, update_matter_attributes, decode_measurement, ok,
  temp_of_raw, word,
}
use shirokumakun_matter.Scd40Manager.Convert.{neg-parts}

-- The arguments of the line's `%u`, `%s`, `%d`, `%02d` and so on, in order.
pub record ReadingLine : Type 0 where
  pub co2 : ℕ
  pub minus : Bool
  pub degrees : ℤ
  pub hundredths : ℤ
  pub rh_percent : ℕ
  pub rh_hundredths : ℕ

-- What the command prints: the warning, or the line.
pub data Answer : Type 0 where
  no_reading_yet : Answer
  reading : ReadingLine → Answer

-- The cast of a number below 2^16 to `int16_t`.
abbrev pub cast_i16 : ℕ → ℤ
cast_i16 n = if ltb n (2 ^ 15) then pos n else neg (2 ^ 16 - n)

-- `t >= 0 ? t : -t`, stored in an `int16_t`.
unfoldable pub abs_i16 : ℤ → ℤ
abs_i16 (pos n) = pos n
abs_i16 (negsuc n) = cast_i16 (n + 1)

-- Division and remainder round towards zero.
unfoldable pub quotient_100 : ℤ → ℤ
quotient_100 (pos n) = pos (n / 100)
quotient_100 (negsuc n) = neg ((n + 1) / 100)

unfoldable pub remainder_100 : ℤ → ℤ
remainder_100 (pos n) = pos (n % 100)
remainder_100 (negsuc n) = neg ((n + 1) % 100)

unfoldable pub line_of : Reading → ReadingLine
unfolding abs_i16 quotient_100 remainder_100
line_of r =
    let t_abs = abs_i16 r.temp_001c in
    record {
      co2 = r.co2_ppm;
      minus = is_negative r.temp_001c;
      degrees = quotient_100 t_abs;
      hundredths = remainder_100 t_abs;
      rh_percent = r.rh_001pct / 100;
      rh_hundredths = r.rh_001pct % 100;
    }

-- `cmd_scd`, which always returns 0.
unfoldable pub cmd_scd : Scd40 → Answer
unfolding line_of get_last_reading
cmd_scd s = let r = get_last_reading s in if r.valid then reading (line_of r) else no_reading_yet

-- The line reads as a measurement: its digits after each point are two, and its numbers are those
-- of the measurement, in hundredths.
pub record Reads (l : ReadingLine) (m : Measurement) : Type 0 where
  pub co2 : l.co2 ≡ m.co2_ppm
  pub sign : l.minus ≡ is_negative m.temp_001c
  pub degrees : ℕ
  pub hundredths : ℕ
  pub degrees_shown : l.degrees ≡ pos degrees
  pub hundredths_shown : l.hundredths ≡ pos hundredths
  pub two_digits : hundredths < 100
  pub temperature : degrees * 100 + hundredths ≡ pos_part m.temp_001c + neg_part m.temp_001c
  pub rh_two_digits : l.rh_hundredths < 100
  pub humidity : l.rh_percent * 100 + l.rh_hundredths ≡ m.rh_001pct

abbrev reading_of : Measurement → Reading
reading_of m = record {
  co2_ppm = m.co2_ppm;
  temp_001c = m.temp_001c;
  rh_001pct = m.rh_001pct;
  valid = true;
}

magnitude : ℤ → ℕ
magnitude t = pos_part t + neg_part t

abs_i16-magnitude : (t : ℤ) → neg_part t < 32768 → abs_i16 t ≡ pos (magnitude t)
unfolding abs_i16 magnitude
abs_i16-magnitude (pos n) h = ground arith
abs_i16-magnitude (negsuc n) h = ground arith

line_of-Reads : (m : Measurement) → neg_part m.temp_001c < 32768 → Reads (line_of (reading_of m)) m
unfolding line_of magnitude quotient_100 remainder_100
line_of-Reads m h = record {
  co2 = refl;
  sign = refl;
  degrees = magnitude m.temp_001c / 100;
  hundredths = magnitude m.temp_001c % 100;
  degrees_shown = rw (abs_i16-magnitude m.temp_001c h) refl;
  hundredths_shown = rw (abs_i16-magnitude m.temp_001c h) refl;
  two_digits = omega arith;
  temperature = omega arith;
  rh_two_digits = omega arith;
  humidity = omega arith;
}

-- No raw value stands for less than -45 degrees.
temp_of_raw_above : (raw : ℕ) → neg_part (temp_of_raw raw) < 32768
unfolding temp_of_raw
temp_of_raw_above raw = ground (arith, neg-parts (4500 - u32 (17500 * raw) / 65535))

decoded_temp :
    (buf : List ℕ) (m : Measurement)
    → decode_measurement buf ≡ ok m
    → m.temp_001c ≡ temp_of_raw (word (get_or buf 3 0) (get_or buf 4 0))
unfolding decode_measurement
decoded_temp buf m e = ground arith

decoded_above :
    (buf : List ℕ) (m : Measurement) → decode_measurement buf ≡ ok m → neg_part m.temp_001c < 32768
decoded_above buf m e = rw (decoded_temp buf m e) (temp_of_raw_above _)

-- After an answer of the sensor whose checksums match has been published, `ac scd` prints a line
-- that reads exactly as the measurement: its sign, whole degrees, percents and hundredths.
pub cmd_scd-Reads :
    (buf : List ℕ) (m : Measurement) (s : Scd40)
    → decode_measurement buf ≡ ok m
    → (l : ReadingLine) × (cmd_scd (update_matter_attributes m s) ≡ reading l) × Reads l m
unfolding cmd_scd update_matter_attributes
cmd_scd-Reads buf m s e = (line_of (reading_of m), refl, line_of-Reads m (decoded_above buf m e))
