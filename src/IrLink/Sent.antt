-- ===== src/IrLink/Sent.antt =====
-- What `ir_send_command` of src/ir_driver.cpp puts on the LED.
use mathlib.Core.Bool.{true≢false}
use mathlib.Core.List.{append_assoc, append-nil}
use shirokumakun_matter.Common.{
  ℕ, zero, suc, ◌+◌, ◌≤◌, ◌<◌, ◌≡◌, refl, sym, ap, ◌∙◌, Bool, true, false, some, List, [], ◌++◌,
  arith, length,
}
use shirokumakun_matter.IrProtocol.{IrPulse}
use shirokumakun_matter.IrDriver.{Op, Pwm, carrier_off}
use shirokumakun_matter.IrDriver.Carrier.{dark, light, measure, airing, aired, measure-airing}
use shirokumakun_matter.IrDriver.Retry.{
  start, again, acknowledged, exhausted, ir_send_command-Outcome,
}
use shirokumakun_matter.PdmManager.{Floats, Pdm}
use shirokumakun_matter.PdmManager.Verbose.{HasSpectrum}
use shirokumakun_matter.IrLink.{Window, Devices, send_command}
use shirokumakun_matter.IrLink.Attempts.{
  transmit_ps, listen_ps, collect_ps, Tried, Missed, Attempt-Round, send-NeverFails,
}

-- The same operations, `k` times over.
abbrev pub times : ℕ → List Op → List Op
times zero ops = []
times (suc k) ops = ops ++ times k ops

module _ (floats : Floats) (air : ℕ → Window floats) (ps rest : List IrPulse) where
  -- What `k` attempts leave.
  pub record Rounds (k : ℕ) (d d' : Devices floats) : Type 0 where
    pub sent : d'.pwm.ops ≡ d.pwm.ops ++ times k (airing ps)
    pub counted : d'.round ≡ d.round + k
    pub kept : d.pwm.duty_value ≡ carrier_off → d'.pwm.duty_value ≡ carrier_off
    pub off : 0 < k → d'.pwm.duty_value ≡ carrier_off

  Rounds-again :
      (k : ℕ) (d d₁ d' : Devices floats) (heard : Bool)
      → Tried floats air ps rest d d₁ heard
      → Rounds k d₁ d'
      → Rounds (suc k) d d'
  Rounds-again k d d₁ d' heard a rs =
      let r = Attempt-Round floats air ps rest d d₁ heard a in
      record {
        sent =
            rs.sent
            ∙ ap (λ p. p.ops ++ times k (airing ps)) r.sent
            ∙ append_assoc d.pwm.ops (airing ps) (times k (airing ps));
        counted = omega (arith, rs.counted, r.counted);
        kept = λ h. rs.kept (ap (λ p. p.duty_value) r.sent);
        off = λ h. rs.kept (ap (λ p. p.duty_value) r.sent);
      }

  Rounds-none : (d : Devices floats) → Rounds zero d d
  Rounds-none d = record {
    sent = sym (append-nil d.pwm.ops);
    counted = omega arith;
    kept = λ h. h;
    off = λ h. absurd (omega arith);
  }

  pub Unheard-Rounds :
      (k : ℕ) (d d' : Devices floats) → Missed floats air ps rest k d d' → Rounds k d d'
  Unheard-Rounds zero d d' start = Rounds-none d
  Unheard-Rounds (suc k) d d' (again {w' = d₁} a u) =
      Rounds-again k d d₁ d' false a (Unheard-Rounds k d₁ d' u)

  pub Heard-Rounds :
      (k : ℕ) (d d₁ d' : Devices floats)
      → Missed floats air ps rest k d d₁
      → Tried floats air ps rest d₁ d' true
      → Rounds (suc k) d d'
  Heard-Rounds zero d d₁ d' start a = Rounds-again zero d d' d' true a (Rounds-none d')
  Heard-Rounds (suc k) d d₁ d' (again {w' = d₂} a u) last =
      Rounds-again (suc k) d d₂ d' false a (Heard-Rounds k d₂ d₁ d' u last)

  -- Before a command, the LED and the microphone in any state.
  abbrev pub powered : Pwm → Pdm floats → Devices floats
  powered w p = record { pwm = w; pdm = p; round = 0 }

  -- What a call that has made `k` attempts leaves: it has done the operations `one` again and again,
  -- `k` times, and of `one` a receiver that measures the carrier sees the pulses as they are aired.
  pub record IsSent (w : Pwm) (k : ℕ) (d : Devices floats) : Type 0 where
    pub one : List Op
    pub repeated : d.pwm.ops ≡ w.ops ++ times k one
    pub measured : measure false 0 0 one ≡ aired ps
    pub off : light d.pwm.duty_value ≡ dark
    pub counted : d.round ≡ k

  pub Rounds-IsSent :
      (k : ℕ) (w : Pwm) (p : Pdm floats) (d : Devices floats)
      → 0 < k
      → Rounds k (powered w p) d
      → IsSent w k d
  Rounds-IsSent k w p d some_made rs = record {
    one = airing ps;
    repeated = rs.sent;
    measured = measure-airing ps 0;
    off = ap light (rs.off some_made);
    counted = omega (arith, rs.counted);
  }

  -- While the spectrum has its size, `ir_send_command` returns, whatever happens to the microphone
  -- and whatever the LED did before: after 1 to 10 attempts, 10 if it returns false. Each attempt
  -- has done the same operations, in which a receiver that measures the carrier sees the pulses,
  -- each mark and space longer by the 26 microseconds of a load and the last space by 26 more, and
  -- the LED is left dark.
  pub send_command-IsSent :
      HasSpectrum floats
      → (w : Pwm) (p : Pdm floats)
      → (k : ℕ) × (d : Devices floats) × (acked : Bool) × (send_command floats air
            (ps ++ rest)
            (length ps)
            (powered w p)
          ≡ some (d, acked))
        × (1 ≤ k)
        × (k ≤ 10)
        × (acked ≡ false → k ≡ 10)
        × IsSent w k d
  unfolding send_command
  send_command-IsSent fits w p =
      elim (ir_send_command-Outcome (transmit_ps floats air ps rest) (listen_ps floats air ps rest)
        (collect_ps floats air ps rest) (send-NeverFails floats air ps rest fits) (powered w p)) [
          | acknowledged k d₁ d lt u a e ↦ (
            suc k,
            d,
            true,
            e,
            omega arith,
            omega arith,
            λ h. absurd (true≢false h),
            Rounds-IsSent (suc k) w p d (omega arith) (Heard-Rounds k (powered w p) d₁ d u a),
          )
          | exhausted d u e ↦ (
            10,
            d,
            false,
            e,
            omega arith,
            omega arith,
            λ h. refl,
            Rounds-IsSent 10 w p d (omega arith) (Unheard-Rounds 10 (powered w p) d u),
          )
        ]
