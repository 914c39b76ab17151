-- ===== src/Scd40Manager/Start.antt =====
-- How src/scd40_manager.cpp starts polling, and what polls afterwards.
use shirokumakun_matter.Common.{
  List, ℕ, ◌≡◌, refl, inl, inr, Bool, true, false, not, Option, none, some, if◌then◌else◌,
  Bool-cases,
}
use shirokumakun_matter.Common.Int.{ℤ, pos, is_zero}
use shirokumakun_matter.Scd40Manager.{
  Scd40, enodev, cmd_stop_periodic, cmd_start_periodic, poll_interval_sec, write_cmd,
  poll_work_handler,
}

pub data Event : Type 0 where
  timer_expires : Event
  work_runs : Event

module _ {B : Type 0} (i2c_write : List ℕ → ℕ → B → B × ℤ)
    (i2c_read : ℕ → ℕ → B → B × ℤ × List ℕ) where
  -- The bus, the file's static variables, what the CO2 instance was told of its range, the period
  -- of the running timer in seconds, and whether the work item is queued.
  pub record Manager : Type 0 where
    pub bus : B
    pub sensor : Scd40
    pub instances_ready : Bool
    pub co2_range : Option (ℕ × ℕ)
    pub timer_period : Option ℕ
    pub work_pending : Bool

  -- The part of `scd40_manager_init` after the start command, on its status.
  unfoldable pub start_polling : ℤ → Manager → Manager × ℤ
  start_polling ret m =
      if is_zero ret
      then (record m { work_pending = false; timer_period = some poll_interval_sec }, pos 0)
      else (m, ret)

  -- `scd40_manager_init`; the status of the stop command is not looked at.
  unfoldable pub scd40_manager_init : Bool → Manager → Manager × ℤ
  unfolding start_polling
  scd40_manager_init device_is_ready m =
      let (bus₁, _) = write_cmd i2c_write i2c_read cmd_stop_periodic m.bus in
      let (bus₂, ret) = write_cmd i2c_write i2c_read cmd_start_periodic bus₁ in
      if not device_is_ready
      then (m, enodev)
      else start_polling ret
          (record m { bus = bus₂; instances_ready = true; co2_range = some (0, 40000) })

  -- `poll_timer_handler` when the timer expires, and `poll_work_handler` from the work queue;
  -- `none` if it cannot happen.
  unfoldable pub on_event : Event → Manager → Option Manager
  on_event timer_expires m = elim m.timer_period [
    | none ↦ none
    | some period ↦ some (record m { work_pending = true })
  ]
  on_event work_runs m =
      let (bus', sensor') = poll_work_handler i2c_write i2c_read m.bus m.sensor in
      if m.work_pending
      then some (record m { work_pending = false; bus = bus'; sensor = sensor' })
      else none

  -- What `scd40_manager_init` promises its caller.
  pub data Started : Manager × ℤ → Type 0 where
    polls : {m : Manager} → m.timer_period ≡ some 15 → m.work_pending ≡ false → Started (m, pos 0)
    never_polls :
        {m : Manager} {ret : ℤ}
        → is_zero ret ≡ false
        → ((e : Event) → on_event e m ≡ none)
        → Started (m, ret)

  no_event :
      (m : Manager)
      → m.timer_period ≡ none
      → m.work_pending ≡ false
      → (e : Event) → on_event e m ≡ none
  unfolding on_event
  no_event m stopped idle timer_expires = rw stopped refl
  no_event m stopped idle work_runs = rw idle refl

  start_polling-Started :
      (ret : ℤ) (m : Manager)
      → m.timer_period ≡ none
      → m.work_pending ≡ false
      → Started (start_polling ret m)
  unfolding start_polling on_event
  start_polling-Started ret m stopped idle = elim (Bool-cases (is_zero ret)) [
    | inl zero_ret ↦ rw zero_ret (polls refl refl)
    | inr failed ↦ rw failed (never_polls failed (no_event _ stopped idle))
  ]

  -- Called while the timer does not run and no work item is queued, `scd40_manager_init` either
  -- returns 0, with the timer running at 15 seconds, or returns a status other than 0, and then
  -- neither the timer nor the work item can ever poll.
  pub scd40_manager_init-Started :
      (device_is_ready : Bool) (m : Manager)
      → m.timer_period ≡ none
      → m.work_pending ≡ false
      → Started (scd40_manager_init device_is_ready m)
  unfolding scd40_manager_init on_event
  scd40_manager_init-Started true m stopped idle =
      let (bus₁, _) = write_cmd i2c_write i2c_read cmd_stop_periodic m.bus in
      let (bus₂, ret) = write_cmd i2c_write i2c_read cmd_start_periodic bus₁ in
      start_polling-Started ret
        (record m { bus = bus₂; instances_ready = true; co2_range = some (0, 40000) }) stopped idle
  scd40_manager_init-Started false m stopped idle = never_polls refl (no_event m stopped idle)
