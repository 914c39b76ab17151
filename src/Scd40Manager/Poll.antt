-- ===== src/Scd40Manager/Poll.antt =====
-- The retry loop and the poll handler of src/scd40_manager.cpp.
use shirokumakun_matter.Common.{
  ℕ, zero, suc, ◌<◌, ◌≡◌, refl, ◌⊎◌, inl, inr, true, false, List, [], ◌∷◌, arith, Bool-cases, u8,
  shr, bit_and,
}
use shirokumakun_matter.Common.Int.{ℤ, pos, is_zero}
use shirokumakun_matter.Scd40Manager.{
  i2c_addr, cmd_data_ready, cmd_read_measurement, co2_to_air_quality, Measurement, Scd40,
  update_matter_attributes, Result, ok, err, decode_measurement, write_attempts, write_cmd,
  read_measurement, is_data_ready, poll_measurement, poll_work_handler,
}

-- While a reading is marked valid, it is what is published, and the air quality is that of its CO2.
pub record IsConsistent (s : Scd40) : Type 0 where
  pub temperature :
      s.last_reading.valid ≡ true → s.published.local_temperature ≡ s.last_reading.temp_001c
  pub humidity :
      s.last_reading.valid ≡ true → s.published.relative_humidity ≡ s.last_reading.rh_001pct
  pub air :
      s.last_reading.valid ≡ true
      → s.published.air_quality ≡ co2_to_air_quality s.last_reading.co2_ppm
  pub co2 : s.last_reading.valid ≡ true → s.published.co2_concentration ≡ s.last_reading.co2_ppm

-- The two bytes of a command, the high one first.
unfoldable pub command_bytes : ℕ → List ℕ
command_bytes cmd = u8 (shr cmd 8) ∷ u8 (bit_and cmd 0xFF) ∷ []

Result-cases : (r : Result Measurement) → ((e : ℤ) × (r ≡ err e)) ⊎ ((m : Measurement) × (r ≡ ok m))
Result-cases (ok m) = inr (m, refl)
Result-cases (err e) = inl (e, refl)

module _ {B : Type 0} (i2c_write : List ℕ → ℕ → B → B × ℤ)
    (i2c_read : ℕ → ℕ → B → B × ℤ × List ℕ) where
  -- The bus after `n` attempts to write, and the status of the attempt after those.
  unfoldable pub bus_after : List ℕ → ℕ → B → B
  bus_after buf zero bus = bus
  bus_after buf (suc n) bus = bus_after buf n (i2c_write buf i2c_addr bus).0

  unfoldable pub status_after : List ℕ → ℕ → B → ℤ
  status_after buf n bus = (i2c_write buf i2c_addr (bus_after buf n bus)).1

  write_attempts_acked :
      (left k : ℕ) (buf : List ℕ) (ret : ℤ) (bus : B)
      → k < left
      → ((j : ℕ) → j < k → is_zero (status_after buf j bus) ≡ false)
      → is_zero (status_after buf k bus) ≡ true
      → write_attempts i2c_write i2c_read left buf ret bus ≡ (bus_after buf (suc k) bus, pos 0)
  unfolding write_attempts status_after bus_after
  write_attempts_acked zero k buf ret bus lt failed acked = absurd (omega arith)
  write_attempts_acked (suc left) zero buf ret bus lt failed acked = rw acked
  write_attempts_acked (suc left) (suc k) buf ret bus lt failed acked =
      rw (failed 0 (omega arith)) (
        write_attempts_acked left k buf (i2c_write buf i2c_addr bus).1
          (i2c_write buf i2c_addr bus).0 (omega arith) (λ j h. failed (suc j) (omega arith)) acked)

  write_attempts_exhausted :
      (left : ℕ) (buf : List ℕ) (ret : ℤ) (bus : B)
      → ((j : ℕ) → j < suc left → is_zero (status_after buf j bus) ≡ false)
      → write_attempts i2c_write i2c_read (suc left) buf ret bus
        ≡ (bus_after buf (suc left) bus, status_after buf left bus)
  unfolding write_attempts status_after bus_after
  write_attempts_exhausted zero buf ret bus failed = rw (failed 0 (omega arith))
  write_attempts_exhausted (suc left) buf ret bus failed = rw (failed 0 (omega arith)) (
      write_attempts_exhausted left buf (i2c_write buf i2c_addr bus).1
        (i2c_write buf i2c_addr bus).0 (λ j h. failed (suc j) (omega arith)))

  -- `scd40_write_cmd` writes the two bytes of the command until the first write that succeeds and
  -- returns 0, if one of the first 60 does.
  pub write_cmd_acked :
      (cmd k : ℕ) (bus : B)
      → k < 60
      → ((j : ℕ) → j < k → is_zero (status_after (command_bytes cmd) j bus) ≡ false)
      → is_zero (status_after (command_bytes cmd) k bus) ≡ true
      → write_cmd i2c_write i2c_read cmd bus ≡ (bus_after (command_bytes cmd) (suc k) bus, pos 0)
  unfolding write_cmd command_bytes
  write_cmd_acked cmd k bus = write_attempts_acked 60 k (command_bytes cmd) (pos 0) bus

  -- If the first 60 writes all fail, `scd40_write_cmd` makes exactly those and returns the status
  -- of the last.
  pub write_cmd_exhausted :
      (cmd : ℕ) (bus : B)
      → ((j : ℕ) → j < 60 → is_zero (status_after (command_bytes cmd) j bus) ≡ false)
      → write_cmd i2c_write i2c_read cmd bus
        ≡ (bus_after (command_bytes cmd) 60 bus, status_after (command_bytes cmd) 59 bus)
  unfolding write_cmd command_bytes
  write_cmd_exhausted cmd bus = write_attempts_exhausted 59 (command_bytes cmd) (pos 0) bus

  -- A measurement taken from `bus`: command and read succeeded, and the answer decodes to `m`.
  pub record Measured (bus : B) (m : Measurement) : Type 0 where
    pub commanded : is_zero (write_cmd i2c_write i2c_read cmd_read_measurement bus).1 ≡ true
    pub delivered :
        is_zero (i2c_read 9 i2c_addr (write_cmd i2c_write i2c_read cmd_read_measurement bus).0).1
        ≡ true
    pub decoded :
        decode_measurement
          (i2c_read 9 i2c_addr (write_cmd i2c_write i2c_read cmd_read_measurement bus).0).2
        ≡ ok m

  read_measurement-Measured :
      (bus : B) {m : Measurement}
      → (read_measurement i2c_write i2c_read bus).1 ≡ ok m
      → Measured bus m
  unfolding read_measurement
  read_measurement-Measured bus h = ground arith

  poll_measurement-Measured :
      (bus : B) (s : Scd40)
      → ((poll_measurement i2c_write i2c_read bus s).1 ≡ s)
        ⊎ ((m : Measurement) × Measured bus m
            × ((poll_measurement i2c_write i2c_read bus s).1 ≡ update_matter_attributes m s))
  unfolding poll_measurement
  poll_measurement-Measured bus s =
      elim (Result-cases (read_measurement i2c_write i2c_read bus).1) [
        | inl (e, failed) ↦ inl (ground arith)
        | inr (m, e) ↦ inr (m, read_measurement-Measured bus e, ground arith)
      ]

  abbrev pub ready_written : B → B × ℤ
  ready_written bus = write_cmd i2c_write i2c_read cmd_data_ready bus

  abbrev pub ready_read : B → B × ℤ × List ℕ
  ready_read bus = i2c_read 3 i2c_addr (ready_written bus).0

  -- The data-ready check passed, and left the bus as `bus'`.
  pub record FoundReady (bus bus' : B) : Type 0 where
    pub commanded : is_zero (ready_written bus).1 ≡ true
    pub delivered : is_zero (ready_read bus).1 ≡ true
    pub ready : is_data_ready (ready_read bus).2 ≡ true
    pub left : (ready_read bus).0 ≡ bus'

  -- Either a poll leaves the reading and the attributes as they were, or the sensor said that it
  -- has data, each command and read succeeded, and the reading and all the attributes are set from
  -- the one answer read, whose checksums match.
  pub poll_work_handler_lem :
      (bus : B) (s : Scd40)
      → ((poll_work_handler i2c_write i2c_read bus s).1 ≡ s)
        ⊎ ((bus' : B) × (m : Measurement) × FoundReady bus bus'
            × Measured bus' m
            × ((poll_work_handler i2c_write i2c_read bus s).1 ≡ update_matter_attributes m s))
  unfolding poll_work_handler
  poll_work_handler_lem bus s = elim (Bool-cases (is_zero (ready_written bus).1)) [
    | inr failed ↦ inl (rw failed)
    | inl commanded ↦ elim (Bool-cases (is_zero (ready_read bus).1)) [
      | inr failed ↦ inl (rw (commanded, failed))
      | inl delivered ↦ elim (Bool-cases (is_data_ready (ready_read bus).2)) [
        | inr busy ↦ inl (rw (commanded, delivered, busy))
        | inl ready ↦
            rw (commanded, delivered, ready)
              (elim (poll_measurement-Measured (ready_read bus).0 s) [
                | inl same ↦ inl same
                | inr (m, measured, e) ↦ inr (
                  _,
                  m,
                  record {
                    commanded = commanded;
                    delivered = delivered;
                    ready = ready;
                    left = refl;
                  },
                  measured,
                  e,
                )
              ])
      ]
    ]
  ]

  -- A poll keeps what is published in agreement with the last reading.
  pub poll_work_handler-IsConsistent :
      (bus : B) (s : Scd40)
      → IsConsistent s
      → IsConsistent (poll_work_handler i2c_write i2c_read bus s).1
  unfolding update_matter_attributes
  poll_work_handler-IsConsistent bus s c = elim (poll_work_handler_lem bus s) [
    | inl same ↦ rw same c
    | inr (bus', m, found, measured, e) ↦ rw e (ground arith)
  ]

  -- A poll that finds data ready and takes a measurement publishes it.
  pub poll_work_handler-publishes :
      (bus bus' : B) (s : Scd40) (m : Measurement)
      → FoundReady bus bus'
      → Measured bus' m
      → (poll_work_handler i2c_write i2c_read bus s).1 ≡ update_matter_attributes m s
  unfolding poll_work_handler poll_measurement read_measurement
  poll_work_handler-publishes bus bus' s m found measured = rw (
    found.commanded, found.delivered, found.ready, found.left, poll_measurement, read_measurement,
    measured.commanded, measured.delivered, measured.decoded,
  )
