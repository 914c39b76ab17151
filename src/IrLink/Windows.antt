-- ===== src/IrLink/Windows.antt =====
-- The listening windows of `ir_send_command` of src/ir_driver.cpp that are heard, and those that
-- are not.
use mathlib.Core.Bool.{true≢false, false≢true}
use native.Mathlib.Decide.{ℕ_discrete}
use mathlib.Core.Option.{some-injective, none-ne-some}
use shirokumakun_matter.Common.{
  ℕ, zero, suc, ◌+◌, ◌≤◌, ◌<◌, ◌≡◌, refl, sym, ap, ◌∙◌, Bool, true, false, none, some, List, [],
  ◌∷◌, arith, All, inl, inr, ◌⊎◌, Option-cases,
}
use shirokumakun_matter.Common.Int.{ℤ, is_negative}
use shirokumakun_matter.IrProtocol.{IrPulse}
use shirokumakun_matter.IrDriver.{Pwm}
use shirokumakun_matter.IrDriver.Retry.{start, again}
use shirokumakun_matter.PdmManager.{
  Floats, Pdm, Happening, event, work, happen, Detection, detect, windowed, collect_ack,
  start_listen,
}
use shirokumakun_matter.PdmManager.Capture.{
  ReleasesNothing, collect_ack_refused, collect_ack_stale, collect_ack_heard,
}
use shirokumakun_matter.PdmManager.Unordered.{KeepsThreshold}
use shirokumakun_matter.PdmManager.Tuned.{IsTuned, happen-IsTuned, collect_ack-IsTuned}
use shirokumakun_matter.IrLink.{Window, Devices, happen_all}
use shirokumakun_matter.IrLink.Attempts.{Tried, Missed, Round, Attempt-Round}
use shirokumakun_matter.IrLink.Sent.{Unheard-Rounds, powered}

module _ (floats : Floats) where
  open floats use {F, gt, fft}

  -- The driver refuses to start, or releases no buffer.
  abbrev pub IsSilent : Window floats → Type 0
  IsSilent w = (is_negative w.start ≡ true) ⊎ All (ReleasesNothing floats) w.listening

  -- The driver starts, and first releases a buffer whose tone passes a detector with threshold `t`,
  -- which the work queue then processes.
  pub record IsLoud (t : F) (w : Window floats) : Type 0 where
    pub started : is_negative w.start ≡ false
    pub requested : Bool
    pub idx : ℕ
    pub samples : List ℤ
    pub later : List (Happening floats)
    pub released : w.listening ≡ event requested (some (idx, samples)) ∷ work ∷ later
    pub in_range : idx < 2
    pub detection : Detection floats
    pub found : detect floats t (fft (windowed floats 0 samples)) ≡ some detection
    pub passed : gt detection.cut detection.cfar_thresh ≡ true

  -- No threshold is set.
  pub record IsSteady (w : Window floats) : Type 0 where
    pub sending : All (KeepsThreshold floats) w.sending
    pub listening : All (KeepsThreshold floats) w.listening

  happen_all-IsTuned :
      (t : F) (hs : List (Happening floats)) (p p' : Pdm floats)
      → All (KeepsThreshold floats) hs
      → IsTuned floats t p
      → happen_all floats hs p ≡ some p'
      → IsTuned floats t p'
  unfolding happen_all
  happen_all-IsTuned t [] p p' ks i e = rw (← some-injective p p' e) i
  happen_all-IsTuned t (h ∷ hs) p p' ks i e = elim (Option-cases (happen floats h p)) [
    | inl fault ↦ absurd (none-ne-some p' (sym (stuck fault) ∙ e))
    | inr (p₁, step) ↦
        happen_all-IsTuned t hs p₁ p' ks.1 (happen-IsTuned floats t h p p₁ ks.0 i step)
          (sym (onward p₁ step) ∙ e)
  ]
    where
      stuck : happen floats h p ≡ none → happen_all floats (h ∷ hs) p ≡ none
      stuck fault = rw (fault, happen_all) refl

      onward :
          (p₁ : Pdm floats)
          → happen floats h p ≡ some p₁
          → happen_all floats (h ∷ hs) p ≡ happen_all floats hs p₁
      onward p₁ step = rw (step, happen_all) refl

  module _ (air : ℕ → Window floats) (ps rest : List IrPulse) where
    silent_unheard :
        (d d' : Devices floats) (heard : Bool)
        → IsSilent (air d.round)
        → Tried floats air ps rest d d' heard
        → heard ≡ false
    silent_unheard d d' heard silent a =
        let r = Attempt-Round floats air ps rest d d' heard a in
        elim silent [
          | inl refused ↦
              collect_ack_refused floats (air d.round).listening (air d.round).start
                (air d.round).stop r.before refused r.listened
          | inr quiet ↦
              collect_ack_stale floats (air d.round).listening (air d.round).start
                (air d.round).stop r.before quiet r.listened
        ]

    -- An attempt whose window may be loud, from a tuned microphone.
    before-IsTuned :
        (t : F) (d d' : Devices floats) (heard : Bool)
        → IsSteady (air d.round)
        → IsTuned floats t d.pdm
        → (r : Round floats air ps rest d d' heard) → IsTuned floats t r.before
    before-IsTuned t d d' heard steady i r =
        happen_all-IsTuned t (air d.round).sending d.pdm r.before steady.sending i r.happened

    after-IsTuned :
        (t : F) (d d' : Devices floats) (heard : Bool)
        → IsSteady (air d.round)
        → IsTuned floats t d.pdm
        → Round floats air ps rest d d' heard
        → IsTuned floats t d'.pdm
    after-IsTuned t d d' heard steady i r =
        collect_ack-IsTuned floats t (air d.round).listening (air d.round).start (air d.round).stop
          r.before d'.pdm heard steady.listening (before-IsTuned t d d' heard steady i r) r.listened

    loud_heard :
        (t : F) (d d' : Devices floats) (heard : Bool)
        → IsSteady (air d.round)
        → IsLoud t (air d.round)
        → IsTuned floats t d.pdm
        → Round floats air ps rest d d' heard
        → heard ≡ true
    loud_heard t d d' heard steady l i r =
        let b = before-IsTuned t d d' heard steady i r in
        let (p', ended) =
          collect_ack_heard floats l.later (air d.round).start (air d.round).stop r.before
            l.requested l.idx l.samples l.detection l.started l.in_range b.two (rw b.tuned l.found)
            l.passed in
        let same : collect_ack floats (air d.round).listening (air d.round).stop
              (start_listen floats (air d.round).start r.before)
            ≡ some (p', true) =
          rw l.released ended in
        ap (λ o. o.1) (some-injective _ _ (sym r.listened ∙ same))

    pub Missed-IsLoud :
        (t : F) (j k : ℕ) (d d' : Devices floats)
        → d.round ≤ j
        → j < d.round + k
        → ((i : ℕ) → i ≤ j → IsSteady (air i))
        → IsLoud t (air j)
        → IsTuned floats t d.pdm
        → Missed floats air ps rest k d d'
        → ⊥
    Missed-IsLoud t j zero d d' lo hi steady l i start = absurd (omega arith)
    Missed-IsLoud t j (suc k) d d' lo hi steady l i (again {w' = d₁} a u) =
        let r = Attempt-Round floats air ps rest d d₁ false a in
        elim (ℕ_discrete d.round j) [
          | yes now ↦ false≢true (loud_heard t d d₁ false (steady d.round lo) (rw now l) i r)
          | no later ↦
              Missed-IsLoud t j k d₁ d' (omega (arith, r.counted)) (omega (arith, r.counted)) steady
                l (after-IsTuned t d d₁ false (steady d.round lo) i r) u
        ]

    pub silent_heard :
        (k : ℕ) (w : Pwm) (p : Pdm floats) (d₁ d : Devices floats)
        → Missed floats air ps rest k (powered floats air ps rest w p) d₁
        → Tried floats air ps rest d₁ d true
        → IsSilent (air k)
        → ⊥
    silent_heard k w p d₁ d u a silent =
        let rs = Unheard-Rounds floats air ps rest k (powered floats air ps rest w p) d₁ u in
        let last : d₁.round ≡ k = omega (arith, rs.counted) in
        true≢false (silent_unheard d₁ d true (rw last silent) a)
