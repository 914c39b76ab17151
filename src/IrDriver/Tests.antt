-- ===== src/IrDriver/Tests.antt =====
-- The theorems on the transmitter at concrete pulses and devices.
use shirokumakun_matter.Common.{
  ℕ, suc, ◌≡◌, refl, Bool, true, false, Option, some, List, [], ◌∷◌, ◌++◌, arith, ltb,
}
use shirokumakun_matter.IrProtocol.{IrPulse}
use shirokumakun_matter.IrProtocol.Waveform.{pulse}
use shirokumakun_matter.IrDriver.{
  load, wait, Pwm, ir_transmit, ir_driver_init, ir_retry_count, ir_send_command,
}
use shirokumakun_matter.IrDriver.Carrier.{dark, light, measure, ir_transmit-measure}
use shirokumakun_matter.IrDriver.Dispatch.{
  Call, memcpy, Store, unlocked, waiting, lock_pending, store_count, store_pulses, unlock_pending,
  give, wake, lock_active, load_count, load_pulses, unlock_active, send, initial, Reach, start,
  later,
}
use shirokumakun_matter.IrDriver.Dispatch.History.{Follows, newest}
use shirokumakun_matter.IrDriver.Dispatch.Delivery.{Reach-Follows, Reach-idle}
use shirokumakun_matter.IrDriver.Retry.{NeverFails, Outcome, ir_send_command-Outcome}

abbrev two_pulses : List IrPulse
two_pulses = pulse 384 1234 ∷ pulse 384 0 ∷ []

-- No wait follows the last pulse, whose space is 0.
two_pulses_sent :
    ir_transmit two_pulses 2 ir_driver_init
    ≡ some (record {
      duty_value = 0x8000;
      ops =
          load 0x8000
          ∷ wait 26
          ∷ load 140
          ∷ wait 26
          ∷ wait 384
          ∷ load 0x8000
          ∷ wait 26
          ∷ wait 1234
          ∷ load 140
          ∷ wait 26
          ∷ wait 384
          ∷ load 0x8000
          ∷ wait 26
          ∷ load 0x8000
          ∷ wait 26
          ∷ [];
    })
unfolding ir_transmit ir_driver_init
two_pulses_sent = refl

ir_transmit-measure_example :
    (w : Pwm) × (ir_transmit (two_pulses ++ pulse 1 1 ∷ []) 2 ir_driver_init ≡ some w)
    × (measure false 0 0 w.ops ≡ pulse 410 1260 ∷ pulse 410 52 ∷ [])
    × (light w.duty_value ≡ dark)
ir_transmit-measure_example = ir_transmit-measure two_pulses (pulse 1 1 ∷ [])

-- A device that counts transmissions and hears the third.
abbrev count_up : ℕ → Option ℕ
count_up n = some (suc n)

abbrev no_change : ℕ → ℕ
no_change n = n

abbrev hear_third : ℕ → ℕ → Option (ℕ × Bool)
hear_third timeout n = some (n, ltb 2 n)

third_heard : ir_send_command count_up no_change hear_third 0 ≡ some (3, true)
unfolding ir_send_command
third_heard = refl

count_up_never_fails : NeverFails count_up no_change hear_third
count_up_never_fails = record {
  transmits = λ n. (suc n, refl);
  collects = λ timeout n. (n, ltb 2 n, refl);
}

ir_send_command-Outcome_example :
    Outcome count_up no_change hear_third ir_retry_count 0
      (ir_send_command count_up no_change hear_third 0)
ir_send_command-Outcome_example =
    ir_send_command-Outcome count_up no_change hear_third count_up_never_fails 0

-- One command is dispatched and delivered.
abbrev two_command : Call
two_command = record { pulses = two_pulses; count = 2 }

abbrev after_two : Store
after_two = record {
  sem = 0;
  to_give = 0;
  pending_buf = memcpy 2 two_pulses initial.pending_buf;
  pending_count = 2;
  active_buf = memcpy 2 two_pulses initial.active_buf;
  active_count = 2;
  stored = two_pulses ∷ [];
  taken = two_pulses ∷ [];
  sent = two_pulses ∷ [];
}

two_delivered : Reach after_two unlocked waiting
two_delivered =
    let r₁ = later start (
      lock_pending {cmd = two_command}
        (record { in_source = omega arith; in_buffer = omega arith })) in
    let r₂ = later (later (later r₁ store_count) store_pulses) unlock_pending in
    let r₃ = later (later (later r₂ (give (omega arith))) (wake (omega arith))) lock_active in
    later (later (later (later r₃ load_count) load_pulses) unlock_active) send

Reach-Follows_example : Follows after_two.sent after_two.stored
Reach-Follows_example = Reach-Follows two_delivered

Reach-idle_example : newest after_two.sent ≡ newest after_two.stored
Reach-idle_example = Reach-idle two_delivered refl
