-- ===== src/IrLink.antt =====
-- `ir_send_command` of src/ir_driver.cpp on the devices it works on: the PWM peripheral of the same
-- file and the microphone of src/pdm_manager.cpp. What the other threads do to the microphone while
-- it runs, and the driver's statuses, are a parameter.
pub mod Attempts
pub mod Sent
pub mod Read
pub mod Windows
pub mod Heard
mod Tests
use shirokumakun_matter.Common.{ℕ, ◌+◌, Bool, Option, none, some, List, [], ◌∷◌}
use shirokumakun_matter.Common.Int.{ℤ}
use shirokumakun_matter.IrProtocol.{IrPulse}
use shirokumakun_matter.IrDriver.{Pwm, ir_transmit, ir_send_command}
use shirokumakun_matter.PdmManager.{Floats, Pdm, Happening, happen, start_listen, collect_ack}

module _ (floats : Floats) where
  -- What surrounds one attempt: what happens to the microphone while the LED sends, the status of
  -- `nrfx_pdm_start`, what happens while the window is open, and the status of `nrfx_pdm_stop`.
  pub record Window : Type 0 where
    pub sending : List (Happening floats)
    pub start : ℤ
    pub listening : List (Happening floats)
    pub stop : ℤ

  -- The devices, and how many attempts have ended.
  pub record Devices : Type 0 where
    pub pwm : Pwm
    pub pdm : Pdm floats
    pub round : ℕ

  pub happen_all : List (Happening floats) → Pdm floats → Option (Pdm floats)
  happen_all [] p = some p
  happen_all (h ∷ hs) p = elim (happen floats h p) [ none ↦ none | some p' ↦ happen_all hs p' ]

  module _ (air : ℕ → Window) (pulses : List IrPulse) (count : ℕ) where
    -- `ir_transmit(pulses, count)`.
    pub transmit : Devices → Option Devices
    unfolding happen_all
    transmit d = elim (ir_transmit pulses count d.pwm) [
      | none ↦ none
      | some pwm ↦ elim (happen_all (air d.round).sending d.pdm) [
        | none ↦ none
        | some pdm ↦ some (record d { pwm = pwm; pdm = pdm })
      ]
    ]

    -- `pdm_manager_start_listen()`.
    pub listen : Devices → Devices
    listen d = record d { pdm = start_listen floats (air d.round).start d.pdm }

    -- `pdm_manager_collect_ack(IR_ACK_TIMEOUT_MS)`: what happens before the timeout is in the window.
    pub collect : ℕ → Devices → Option (Devices × Bool)
    collect timeout d = elim (collect_ack floats (air d.round).listening (air d.round).stop d.pdm) [
      | none ↦ none
      | some (pdm, acked) ↦ some (record d { pdm = pdm; round = d.round + 1 }, acked)
    ]

    unfoldable pub send_command : Devices → Option (Devices × Bool)
    unfolding transmit listen collect
    send_command d = ir_send_command transmit listen collect d
