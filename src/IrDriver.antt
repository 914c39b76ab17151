-- ===== src/IrDriver.antt =====
-- The IR transmitter of src/ir_driver.cpp; the children hold the proofs.
-- The PWM peripheral is seen through the sequence of its loads and of the busy waits between them.
-- `load_duty` waits for the peripheral's end-of-sequence event, which is taken to come.
pub mod Carrier
pub mod Retry
pub mod Dispatch
mod Tests
use shirokumakun_matter.Common.{
  ℕ, zero, suc, ◌+◌, ◌*◌, Bool, true, false, not, Option, none, some, List, [], ◌∷◌, ◌++◌, ltb,
  ◌==◌, if◌then◌else◌, get_elem?,
}
use shirokumakun_matter.IrProtocol.{IrPulse}

abbrev pub ir_retry_count : ℕ
ir_retry_count = 10

abbrev pub ir_ack_timeout_ms : ℕ
ir_ack_timeout_ms = 1000

abbrev pub ir_countertop : ℕ
ir_countertop = 421

abbrev pub carrier_on : ℕ
carrier_on = 140

abbrev pub carrier_off : ℕ
carrier_off = 0x8000

-- What the peripheral sees: the duty word loaded, or a wait in microseconds.
pub data Op : Type 0 where
  load : ℕ → Op
  wait : ℕ → Op

-- `duty_value`, and what has been done so far.
pub record Pwm : Type 0 where
  pub duty_value : ℕ  -- uint16_t
  pub ops : List Op

-- How long a load takes: `load_duty` waits for the end of the sequence, one period of the carrier,
-- which the comments on the pulses count as 26 microseconds.
abbrev pub load_us : ℕ
load_us = 26

-- `duty_value = d; load_duty();`
unfoldable pub load_duty : ℕ → Pwm → Pwm
load_duty d p = record { duty_value = d; ops = p.ops ++ load d ∷ wait load_us ∷ [] }

pub busy_wait : ℕ → Pwm → Pwm
busy_wait us p = record p { ops = p.ops ++ wait us ∷ [] }

-- The body of the loop of `ir_transmit`.
pub transmit_pulse : IrPulse → Pwm → Pwm
unfolding load_duty busy_wait
transmit_pulse pulse p =
    let p₁ = busy_wait pulse.mark_us (load_duty carrier_on p) in
    let p₂ = load_duty carrier_off p₁ in
    if ltb 0 pulse.space_us then busy_wait pulse.space_us p₂ else p₂

-- The loop at index `i` with `left` rounds left; `none` is a read past the end of `pulses`.
pub transmit_loop : ℕ → ℕ → List IrPulse → Pwm → Option Pwm
transmit_loop zero i pulses p = some p
transmit_loop (suc left) i pulses p = elim (get_elem? pulses i) [
  | none ↦ none
  | some pulse ↦ transmit_loop left (i + 1) pulses (transmit_pulse pulse p)
]

unfoldable pub ir_transmit : List IrPulse → ℕ → Pwm → Option Pwm
unfolding transmit_loop transmit_pulse load_duty
ir_transmit pulses count p = elim (transmit_loop count 0 pulses p) [
  | none ↦ none
  | some p' ↦ some (load_duty carrier_off p')
]

-- The duty word and the trace that `ir_driver_init` leaves: one load of the carrier off.
unfoldable pub ir_driver_init : Pwm
ir_driver_init = record { duty_value = carrier_off; ops = load carrier_off ∷ wait load_us ∷ [] }

-- `ir_send_command`: its transmission, and the microphone's `start_listen` and `collect_ack`
-- around each wait, act on the state `W` of the devices.
module _ {W : Type 0} (transmit : W → Option W) (start_listen : W → W)
    (collect_ack : ℕ → W → Option (W × Bool)) where
  -- The loop with `left` attempts left.
  pub attempts : ℕ → W → Option (W × Bool)
  attempts zero w = some (w, false)
  attempts (suc left) w = elim (transmit w) [
    | none ↦ none
    | some w₁ ↦ elim (collect_ack ir_ack_timeout_ms (start_listen w₁)) [
      | none ↦ none
      | some (w₂, acked) ↦ let rest = attempts left w₂ in if acked then some (w₂, true) else rest
    ]
  ]

  unfoldable pub ir_send_command : W → Option (W × Bool)
  unfolding attempts
  ir_send_command w = attempts ir_retry_count w
