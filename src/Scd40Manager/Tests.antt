-- ===== src/Scd40Manager/Tests.antt =====
-- Tests of the sensor manager, and its theorems on concrete buses.
use shirokumakun_matter.Common.{
  none, some, true, ℕ, zero, suc, ◌+◌, ◌*◌, ◌≤◌, ◌<◌, ◌≡◌, ◌⊎◌, refl, false, List, [], ◌∷◌, arith,
  ltb, if◌then◌else◌, set,
}
use shirokumakun_matter.Common.Int.{ℤ, pos, is_zero, ◌≤ℤ◌}
use shirokumakun_matter.Scd40Manager.Start.{
  Manager, Started, scd40_manager_init, scd40_manager_init-Started,
}
use shirokumakun_matter.Scd40Manager.{
  cmd_data_ready, sensirion_crc, crc_matches, temp_of_raw, rh_of_raw, co2_to_air_quality, good,
  Measurement, Scd40, update_matter_attributes, ok, err, eio, decode_measurement, write_cmd,
  poll_work_handler, is_data_ready,
}
use shirokumakun_matter.Scd40Manager.Crc.{IsAccepted, decode_measurement_corrupted}
use shirokumakun_matter.Scd40Manager.Convert.{
  temp_of_raw_mono, rh_of_raw-exact, level, limit, co2_to_air_quality_limits,
}
use shirokumakun_matter.Scd40Manager.Poll.{
  IsConsistent, bus_after, status_after, command_bytes, FoundReady, Measured, poll_work_handler_lem,
}

-- The example of the sensor's data sheet.
crc_of_beef : sensirion_crc (0xBE ∷ 0xEF ∷ []) ≡ 0x92
unfolding sensirion_crc
crc_of_beef = refl

-- 25 degrees and 37 percent, from the same source.
converted : (temp_of_raw 0x6667 ≡ pos 2500) × (rh_of_raw 0x5EB9 ≡ 3700)
unfolding temp_of_raw rh_of_raw
converted = (refl, refl)

abbrev answer : List ℕ
answer = 0xBE ∷ 0xEF ∷ 0x92 ∷ 0xBE ∷ 0xEF ∷ 0x92 ∷ 0xBE ∷ 0xEF ∷ 0x92 ∷ []

abbrev measured : Measurement
measured = record { co2_ppm = 0xBEEF; temp_001c = pos 8552; rh_001pct = 7458 }

answer-decoded : decode_measurement answer ≡ ok measured
unfolding decode_measurement crc_matches sensirion_crc temp_of_raw rh_of_raw
answer-decoded = refl

answer-IsAccepted : IsAccepted answer
answer-IsAccepted = record {
  measurement = measured;
  accepted = answer-decoded;
  nine = refl;
  bytes = omega arith;
}

decode_measurement_corrupted_example : decode_measurement (set answer 4 0xEE) ≡ err eio
decode_measurement_corrupted_example =
    decode_measurement_corrupted answer 4 0xEE answer-IsAccepted (omega arith) (omega arith)
      (omega arith)

temp_of_raw_mono_example : temp_of_raw 100 ≤ℤ temp_of_raw 0x6667
temp_of_raw_mono_example = temp_of_raw_mono 100 0x6667 (omega arith) (omega arith)

rh_of_raw-exact_example :
    (65535 * rh_of_raw 0x5EB9 ≤ 10000 * 0x5EB9)
    × (10000 * 0x5EB9 < 65535 * (rh_of_raw 0x5EB9 + 1))
    × (rh_of_raw 0x5EB9 ≤ 10000)
rh_of_raw-exact_example = rh_of_raw-exact 0x5EB9 (omega arith)

co2_to_air_quality_limits_example :
    (limit (level (co2_to_air_quality 999)) ≤ 999)
    × (999 < limit (level (co2_to_air_quality 999) + 1))
co2_to_air_quality_limits_example = co2_to_air_quality_limits 999 (omega arith)

-- A bus that answers every read alike and counts the writes; the first two are not acknowledged.
abbrev bus_write : List ℕ → ℕ → ℕ → ℕ × ℤ
bus_write bytes addr n = (suc n, if ltb n 2 then eio else pos 0)

abbrev bus_read : ℕ → ℕ → ℕ → ℕ × ℤ × List ℕ
bus_read len addr n = (n, pos 0, answer)

abbrev dead_write : List ℕ → ℕ → ℕ → ℕ × ℤ
dead_write bytes addr n = (suc n, eio)

first_two :
    (j : ℕ)
    → j < 2
    → is_zero (status_after bus_write bus_read (command_bytes cmd_data_ready) j 0) ≡ false
unfolding status_after bus_after
first_two zero h = refl
first_two (suc zero) h = refl
first_two (suc (suc j)) h = absurd (omega arith)

never :
    (j n : ℕ)
    → is_zero (status_after dead_write bus_read (command_bytes cmd_data_ready) j n) ≡ false
unfolding status_after
never j n = refl

abbrev empty : Scd40
empty = record {
  last_reading = record { co2_ppm = 0; temp_001c = pos 0; rh_001pct = 0; valid = false };
  published = record {
    local_temperature = pos 0;
    relative_humidity = 0;
    air_quality = good;
    co2_concentration = 0;
  };
}

empty-IsConsistent : IsConsistent empty
empty-IsConsistent = record {
  temperature = λ e. cc;
  humidity = λ e. cc;
  air = λ e. cc;
  co2 = λ e. cc;
}

poll_work_handler_lem_example :
    ((poll_work_handler bus_write bus_read 0 empty).1 ≡ empty)
    ⊎ ((bus' : ℕ) × (m : Measurement) × FoundReady bus_write bus_read 0 bus'
        × Measured bus_write bus_read bus' m
        × ((poll_work_handler bus_write bus_read 0 empty).1 ≡ update_matter_attributes m empty))
poll_work_handler_lem_example = poll_work_handler_lem bus_write bus_read 0 empty

found : FoundReady bus_write bus_read 0 3
unfolding write_cmd is_data_ready
found = record { commanded = refl; delivered = refl; ready = refl; left = refl }

taken : Measured bus_write bus_read 3 measured
unfolding write_cmd
taken = record { commanded = refl; delivered = refl; decoded = answer-decoded }

abbrev cold_manager : Manager bus_write bus_read
cold_manager = record {
  bus = 0;
  sensor = empty;
  instances_ready = false;
  co2_range = none;
  timer_period = none;
  work_pending = false;
}

scd40_manager_init-Started_example :
    Started bus_write bus_read (scd40_manager_init bus_write bus_read true cold_manager)
scd40_manager_init-Started_example =
    scd40_manager_init-Started bus_write bus_read true cold_manager refl refl

-- The third write stops an old measurement and the fourth starts the new one.
started_cold : scd40_manager_init bus_write bus_read true cold_manager ≡ (
  record cold_manager {
    bus = 4;
    instances_ready = true;
    co2_range = some (0, 40000);
    timer_period = some 15;
  },
  pos 0,
)
unfolding scd40_manager_init write_cmd
started_cold = refl
