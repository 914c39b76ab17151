-- ===== src/IrLink/Attempts.antt =====
-- One attempt of `ir_send_command` of src/ir_driver.cpp on the devices.
use mathlib.Core.Option.{some-injective, none-ne-some}
use shirokumakun_matter.Common.{
  ℕ, ◌+◌, ◌≡◌, refl, sym, ap, ◌∙◌, Bool, Option, none, some, List, [], ◌∷◌, ◌++◌, length, inl, inr,
  Option-cases,
}
use shirokumakun_matter.IrProtocol.{IrPulse}
use shirokumakun_matter.IrDriver.{Pwm, carrier_off, ir_ack_timeout_ms}
use shirokumakun_matter.IrDriver.Carrier.{airing, ir_transmit-airing}
use shirokumakun_matter.IrDriver.Retry.{Attempt, Unheard, NeverFails}
use shirokumakun_matter.PdmManager.{Floats, Pdm, Happening, start_listen, collect_ack}
use shirokumakun_matter.PdmManager.Verbose.{HasSpectrum}
use shirokumakun_matter.PdmManager.Total.{IsDefined, happen-IsDefined, collect_ack-IsDefined}
use shirokumakun_matter.IrLink.{Window, Devices, happen_all, transmit, listen, collect}

-- The peripheral after one more transmission.
abbrev pub transmitted : List IrPulse → Pwm → Pwm
transmitted ps p = record { duty_value = carrier_off; ops = p.ops ++ airing ps }

module _ (floats : Floats) (air : ℕ → Window floats) (ps rest : List IrPulse) where
  abbrev pub transmit_ps : Devices floats → Option (Devices floats)
  transmit_ps = transmit floats air (ps ++ rest) (length ps)

  abbrev pub listen_ps : Devices floats → Devices floats
  listen_ps = listen floats air (ps ++ rest) (length ps)

  abbrev pub collect_ps : ℕ → Devices floats → Option (Devices floats × Bool)
  collect_ps = collect floats air (ps ++ rest) (length ps)

  abbrev pub Tried : Devices floats → Devices floats → Bool → Type 0
  Tried = Attempt transmit_ps listen_ps collect_ps

  abbrev pub Missed : ℕ → Devices floats → Devices floats → Type 0
  Missed = Unheard transmit_ps listen_ps collect_ps

  happen_all-IsDefined :
      HasSpectrum floats
      → (hs : List (Happening floats)) (p : Pdm floats) → IsDefined (happen_all floats hs p)
  unfolding happen_all
  happen_all-IsDefined fits [] p = (p, refl)
  happen_all-IsDefined fits (h ∷ hs) p =
      let (p₁, step) = happen-IsDefined floats fits h p in
      rw (step, happen_all) (happen_all-IsDefined fits hs p₁)

  transmit_lem :
      (d : Devices floats) (pdm : Pdm floats)
      → happen_all floats (air d.round).sending d.pdm ≡ some pdm
      → transmit_ps d ≡ some (record d { pwm = transmitted ps d.pwm; pdm = pdm })
  unfolding transmit
  transmit_lem d pdm happened =
      rw (ir_transmit-airing ps rest d.pwm, transmit) (rw (happened, transmit) refl)

  collect_lem :
      (timeout : ℕ) (d : Devices floats) (pdm : Pdm floats) (acked : Bool)
      → collect_ack floats (air d.round).listening (air d.round).stop d.pdm ≡ some (pdm, acked)
      → collect_ps timeout d ≡ some (record d { pdm = pdm; round = d.round + 1 }, acked)
  unfolding collect
  collect_lem timeout d pdm acked heard = rw (heard, collect) refl

  pub send-NeverFails : HasSpectrum floats → NeverFails transmit_ps listen_ps collect_ps
  send-NeverFails fits = record {
    transmits = λ d.
        let (pdm, happened) = happen_all-IsDefined fits (air d.round).sending d.pdm in
        (_, transmit_lem d pdm happened);
    collects = λ timeout d.
        let ((pdm, acked), heard) =
          collect_ack-IsDefined floats fits (air d.round).listening (air d.round).stop d.pdm in
        (_, acked, collect_lem timeout d pdm acked heard);
  }

  -- One attempt, on the devices.
  pub record Round (d d' : Devices floats) (heard : Bool) : Type 0 where
    pub before : Pdm floats
    pub happened : happen_all floats (air d.round).sending d.pdm ≡ some before
    pub listened :
        collect_ack floats
          (air d.round).listening
          (air d.round).stop
          (start_listen floats (air d.round).start before)
        ≡ some (d'.pdm, heard)
    pub sent : d'.pwm ≡ transmitted ps d.pwm
    pub counted : d'.round ≡ d.round + 1

  transmit_inv :
      (d d₁ : Devices floats)
      → transmit_ps d ≡ some d₁
      → (q : Pdm floats) × (happen_all floats (air d.round).sending d.pdm ≡ some q)
        × (d₁ ≡ record d { pwm = transmitted ps d.pwm; pdm = q })
  unfolding transmit
  transmit_inv d d₁ e = elim (Option-cases (happen_all floats (air d.round).sending d.pdm)) [
    | inl fault ↦ absurd (none-ne-some d₁ (sym (transmit_fault fault) ∙ e))
    | inr (q, happened) ↦ (q, happened, some-injective _ _ (sym e ∙ transmit_lem d q happened))
  ]
    where
      transmit_fault : happen_all floats (air d.round).sending d.pdm ≡ none → transmit_ps d ≡ none
      transmit_fault fault =
          rw (ir_transmit-airing ps rest d.pwm, transmit) (rw (fault, transmit) refl)

  collect_inv :
      (timeout : ℕ) (d d' : Devices floats) (heard : Bool)
      → collect_ps timeout d ≡ some (d', heard)
      → (collect_ack floats (air d.round).listening (air d.round).stop d.pdm ≡ some (d'.pdm, heard))
        × (d'.pwm ≡ d.pwm)
        × (d'.round ≡ d.round + 1)
  unfolding collect
  collect_inv timeout d d' heard e =
      elim (Option-cases (collect_ack floats (air d.round).listening (air d.round).stop d.pdm)) [
        | inl fault ↦ absurd (none-ne-some (d', heard) (sym (collect_fault fault) ∙ e))
        | inr ((q, acked), ended) ↦
            let same = some-injective _ _ (sym e ∙ collect_lem timeout d q acked ended) in
            rw (ap (λ r. r.0) same, ap (λ r. r.1) same) (ended, refl, refl)
      ]
    where
      collect_fault :
          collect_ack floats (air d.round).listening (air d.round).stop d.pdm ≡ none
          → collect_ps timeout d ≡ none
      collect_fault fault = rw (fault, collect) refl

  pub Attempt-Round : (d d' : Devices floats) (heard : Bool) → Tried d d' heard → Round d d' heard
  unfolding listen
  Attempt-Round d d' heard a =
      let (q, happened, is_sent) = transmit_inv d a.sent a.transmitted in
      let (ended, same, counted) =
        collect_inv ir_ack_timeout_ms (listen_ps a.sent) d' heard a.listened in
      record {
        before = q;
        happened = happened;
        listened = rw is_sent at ended;
        sent = same ∙ ap (λ r. r.pwm) is_sent;
        counted = counted ∙ ap (λ r. r.round + 1) is_sent;
      }
