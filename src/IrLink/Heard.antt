-- ===== src/IrLink/Heard.antt =====
-- When `ir_send_command` of src/ir_driver.cpp stops: what its listening windows must contain.
use native.Mathlib.Decide.{dec_lt, ℕ_discrete}
use shirokumakun_matter.Common.{ℕ, suc, ◌≤◌, ◌<◌, ◌≡◌, true, false, some, List, ◌++◌, arith, length}
use shirokumakun_matter.IrProtocol.{IrPulse}
use shirokumakun_matter.IrDriver.{Pwm}
use shirokumakun_matter.IrDriver.Retry.{acknowledged, exhausted, ir_send_command-Outcome}
use shirokumakun_matter.PdmManager.{Floats, Pdm}
use shirokumakun_matter.PdmManager.Tuned.{IsTuned}
use shirokumakun_matter.PdmManager.Verbose.{HasSpectrum}
use shirokumakun_matter.IrLink.{Window, Devices, send_command}
use shirokumakun_matter.IrLink.Attempts.{transmit_ps, listen_ps, collect_ps, send-NeverFails}
use shirokumakun_matter.IrLink.Sent.{Unheard-Rounds, Heard-Rounds, Rounds-IsSent, IsSent, powered}
use shirokumakun_matter.IrLink.Windows.{IsSilent, IsLoud, IsSteady, silent_heard, Missed-IsLoud}

module _ (floats : Floats) (air : ℕ → Window floats) (ps rest : List IrPulse) where
  open floats use {F}

  -- While the spectrum has its size: if in none of the ten windows the driver starts and releases a
  -- buffer, `ir_send_command` returns false after ten attempts, all with the same operations, in
  -- which a receiver that measures the carrier sees the pulses, each mark and space longer by the
  -- 26 microseconds of a load and the last space by 26 more, and the LED is left dark.
  pub send_command_silent :
      HasSpectrum floats
      → ((i : ℕ) → i < 10 → IsSilent floats (air i))
      → (w : Pwm) (p : Pdm floats)
      → (d : Devices floats) × (send_command floats air
            (ps ++ rest)
            (length ps)
            (powered floats air ps rest w p)
          ≡ some (d, false))
        × IsSent floats air ps rest w 10 d
  unfolding send_command
  send_command_silent fits silent w p =
      elim (ir_send_command-Outcome (transmit_ps floats air ps rest) (listen_ps floats air ps rest)
        (collect_ps floats air ps rest) (send-NeverFails floats air ps rest fits)
        (powered floats air ps rest w p)) [
          | acknowledged k d₁ d lt u a e ↦
              absurd (silent_heard floats air ps rest k w p d₁ d u a (silent k lt))
          | exhausted d u e ↦ (
            d,
            e,
            Rounds-IsSent floats air ps rest 10 w p d (omega arith)
                (Unheard-Rounds floats air ps rest 10 (powered floats air ps rest w p) d u),
          )
        ]

  -- While the spectrum has its size: let the first window that is not silent be one in which the
  -- driver starts, the first thing that happens is that it releases one of its two buffers, which
  -- passes the detector at the present threshold, and the next is the work item; and let no
  -- threshold be set until that attempt ends.
  -- Then `ir_send_command` returns true after that attempt. Each attempt so far has done the same
  -- operations, in which a receiver that measures the carrier sees the pulses, each mark and space
  -- longer by the 26 microseconds of a load and the last space by 26 more, and the LED is left dark.
  pub send_command_loud :
      (t : F) (j : ℕ)
      → HasSpectrum floats
      → j < 10
      → ((i : ℕ) → i < j → IsSilent floats (air i))
      → ((i : ℕ) → i ≤ j → IsSteady floats (air i))
      → IsLoud floats t (air j)
      → (w : Pwm) (p : Pdm floats) → IsTuned floats t p
      → (d : Devices floats) × (send_command floats air
            (ps ++ rest)
            (length ps)
            (powered floats air ps rest w p)
          ≡ some (d, true))
        × IsSent floats air ps rest w (suc j) d
  unfolding send_command
  send_command_loud t j fits early silent steady l w p i =
      elim (ir_send_command-Outcome (transmit_ps floats air ps rest) (listen_ps floats air ps rest)
        (collect_ps floats air ps rest) (send-NeverFails floats air ps rest fits)
        (powered floats air ps rest w p)) [
          | acknowledged k d₁ d lt u a e ↦ elim (ℕ_discrete k j) [
            | yes now ↦ (
              d,
              e,
              rw (← now) (
                  Rounds-IsSent floats air ps rest (suc k) w p d (omega arith)
                    (Heard-Rounds floats air ps rest k (powered floats air ps rest w p) d₁ d u a)),
            )
            | no other ↦ elim (dec_lt k j) [
              | yes sooner ↦
                  absurd (silent_heard floats air ps rest k w p d₁ d u a (silent k sooner))
              | no later ↦ absurd (
                  Missed-IsLoud floats air ps rest t j k (powered floats air ps rest w p) d₁
                    (omega arith) (omega arith) steady l i u)
            ]
          ]
          | exhausted d u e ↦ absurd (
              Missed-IsLoud floats air ps rest t j 10 (powered floats air ps rest w p) d
                (omega arith) (omega arith) steady l i u)
        ]
