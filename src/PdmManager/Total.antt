-- ===== src/PdmManager/Total.antt =====
-- Nothing in src/pdm_manager.cpp reads out of range while the spectrum has its size.
use shirokumakun_matter.Common.{
  ◌≡◌, refl, Bool, true, false, not, Bool-cases, inl, inr, Option, none, some, List, [], ◌∷◌,
  ==_iff, ◌==◌, if◌then◌else◌,
}
use shirokumakun_matter.Common.Int.{ℤ}
use shirokumakun_matter.PdmManager.{
  Floats, Detection, Pdm, spectrum, give_if_heard, process_work_handler, Happening, event, work,
  verbose_on, verbose_off, threshold, happen, take_ack, collect_ack,
}
use shirokumakun_matter.PdmManager.Wait.{take_ack_next, collect_ack_of_take}
use shirokumakun_matter.PdmManager.Detector.{detect_lem}
use shirokumakun_matter.PdmManager.Verbose.{HasSpectrum, take_ack-timeout, take_ack-given}

abbrev pub IsDefined {ℓ} : {A : Type ℓ} → Option A → Type ℓ
IsDefined {A = A} o = (a : A) × (o ≡ some a)

pub if-IsDefined {ℓ} :
    {A : Type ℓ} (b : Bool) (x y : Option A)
    → IsDefined x
    → IsDefined y
    → IsDefined (if b then x else y)
if-IsDefined true x y hx hy = hx
if-IsDefined false x y hx hy = hy

module _ (floats : Floats) (fits : HasSpectrum floats) where
  give-IsDefined :
      (d : Detection floats) (p : Pdm floats) → IsDefined (give_if_heard floats (some d) p)
  unfolding give_if_heard
  give-IsDefined d p = if-IsDefined _ _ _ (_, refl) (_, refl)

  process-IsDefined : (p : Pdm floats) → IsDefined (process_work_handler floats p)
  unfolding process_work_handler spectrum
  process-IsDefined p =
      if-IsDefined (not p.buf_available) _ _ (_, refl)
        (rw (detect_lem floats p.detect_threshold (spectrum floats p) (fits.ample _))
          (give-IsDefined _ _))

  pub happen-IsDefined : (h : Happening floats) (p : Pdm floats) → IsDefined (happen floats h p)
  unfolding happen
  happen-IsDefined (event requested none) p = (_, refl)
  happen-IsDefined (event requested (some (idx, samples))) p = (_, refl)
  happen-IsDefined work p = if-IsDefined p.work_queued _ _ (process-IsDefined p) (p, refl)
  happen-IsDefined (verbose_on status) p = (_, refl)
  happen-IsDefined (verbose_off status) p = (_, refl)
  happen-IsDefined (threshold t) p = (_, refl)

  take_ack-IsDefined :
      (hs : List (Happening floats)) (p : Pdm floats) → IsDefined (take_ack floats hs p)
  take_ack-IsDefined [] p = elim (Bool-cases (p.ack_sem == 0)) [
    | inl silent ↦ (_, take_ack-timeout floats p silent)
    | inr given ↦ (_, take_ack-given floats [] p given)
  ]
  take_ack-IsDefined (h ∷ hs) p = elim (Bool-cases (p.ack_sem == 0)) [
    | inl silent ↦
        let (p₁, step) = happen-IsDefined h p in
        rw (take_ack_next floats h hs p p₁ ((==_iff p.ack_sem 0).0 silent) step)
          (take_ack-IsDefined hs p₁)
    | inr given ↦ (_, take_ack-given floats (h ∷ hs) p given)
  ]

  -- A listening window always ends.
  pub collect_ack-IsDefined :
      (hs : List (Happening floats)) (stop : ℤ) (p : Pdm floats)
      → IsDefined (collect_ack floats hs stop p)
  collect_ack-IsDefined hs stop p =
      let ((p', acked), taken) = take_ack-IsDefined hs p in
      (_, collect_ack_of_take floats hs stop p p' acked taken)
