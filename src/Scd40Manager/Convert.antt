-- ===== src/Scd40Manager/Convert.antt =====
-- The conversions of src/scd40_manager.cpp: no intermediate value wraps, and the results are exact.
use shirokumakun_matter.Common.{
  ℕ, ◌+◌, ◌-◌, ◌*◌, ◌/◌, ◌≤◌, ◌<◌, ◌≡◌, arith, bit_or_low, [], ◌∷◌, get_or,
}
use shirokumakun_matter.Common.Int.{neg, pos_part, neg_part, ◌≤ℤ◌}
use shirokumakun_matter.Scd40Manager.{
  word, temp_of_raw, rh_of_raw, AirQuality, good, fair, moderate, poor, very_poor, extremely_poor,
  co2_to_air_quality,
}

pub word-lt : (hi lo : ℕ) → hi < 256 → lo < 256 → word hi lo < 65536
word-lt hi lo p q = omega (arith, bit_or_low 8 hi lo q)

pub neg-parts : (n : ℕ) → (pos_part (neg n) ≡ 0) × (neg_part (neg n) ≡ n)
neg-parts n = ground arith

-- For a 16-bit raw value the temperature is the greatest number of hundredths of a degree that is
-- at most -45 + 175 * raw / 65535 degrees, and it lies from -45 to 130 degrees.
pub temp_of_raw-exact :
    (raw : ℕ)
    → raw < 65536
    → (n : ℕ) × (pos_part (temp_of_raw raw) + 4500 ≡ neg_part (temp_of_raw raw) + n)
      × (65535 * n ≤ 17500 * raw)
      × (17500 * raw < 65535 * (n + 1))
      × (n ≤ 17500)
unfolding temp_of_raw
temp_of_raw-exact raw h = (
  17500 * raw / 65535,
  ground (arith, neg-parts (4500 - 17500 * raw / 65535)),
  omega arith,
  omega arith,
  omega arith,
)

-- A higher raw value never gives a lower temperature.
pub temp_of_raw_mono : (r s : ℕ) → r ≤ s → s < 65536 → temp_of_raw r ≤ℤ temp_of_raw s
temp_of_raw_mono r s h k =
    let (m, em, lm, um, _) = temp_of_raw-exact r (omega arith) in
    let (n, en, ln, un, _) = temp_of_raw-exact s k in omega arith

-- For a 16-bit raw value the humidity is the greatest number of hundredths of a percent that is
-- at most 100 * raw / 65535 percent, and it is at most 100 percent.
pub rh_of_raw-exact :
    (raw : ℕ)
    → raw < 65536
    → (65535 * rh_of_raw raw ≤ 10000 * raw)
      × (10000 * raw < 65535 * (rh_of_raw raw + 1))
      × (rh_of_raw raw ≤ 10000)
unfolding rh_of_raw
rh_of_raw-exact raw h = omega arith

-- How bad the air is.
abbrev pub level : AirQuality → ℕ
level good = 0
level fair = 1
level moderate = 2
level poor = 3
level very_poor = 4
level extremely_poor = 5

-- The limits in ppm between one level and the next.
abbrev pub limit : ℕ → ℕ
limit n = get_or (0 ∷ 400 ∷ 600 ∷ 1000 ∷ 1500 ∷ 2000 ∷ []) n 65536

-- The air quality is the level between whose limits the CO2 concentration lies.
pub co2_to_air_quality_limits :
    (co2 : ℕ)
    → co2 < 65536
    → (limit (level (co2_to_air_quality co2)) ≤ co2)
      × (co2 < limit (level (co2_to_air_quality co2) + 1))
unfolding co2_to_air_quality
co2_to_air_quality_limits co2 h = ground arith
