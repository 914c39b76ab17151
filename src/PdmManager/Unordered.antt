-- ===== src/PdmManager/Unordered.antt =====
-- The detector of src/pdm_manager.cpp with a threshold that no number compares with, such as the
-- value that is not a number.
use mathlib.Core.Option.{none-ne-some, some-injective}
use shirokumakun_matter.Common.{
  ◌≡◌, refl, Bool, true, false, none, some, List, arith, All, Option, Option-cases, inl, inr, ◌⊎◌,
  if◌then◌else◌,
}
use shirokumakun_matter.Common.Int.{ℤ, pos, negsuc}
use shirokumakun_matter.PdmManager.{
  Floats, Detection, detection_of, detect, bin_power, noise_sum, Pdm, spectrum, give_if_heard,
  process_work_handler, start_listen, Happening, event, work, verbose_on, verbose_off, threshold,
  happen, collect_ack, target_bin,
}
use shirokumakun_matter.PdmManager.Wait.{take_ack_silent, take_ack_of_collect}

module _ (floats : Floats) where
  open floats use {F, mul, gt}

  -- No power is greater than a noise estimate times `t`.
  pub record IsUnordered (t : F) : Type 0 where
    pub never : (power noise : F) → gt power (mul noise t) ≡ false

  detection_of_never :
      (t : F) (cut sum : Option F) (d : Detection floats)
      → IsUnordered t
      → detection_of floats t cut sum ≡ some d
      → gt d.cut d.cfar_thresh ≡ false
  unfolding detection_of
  detection_of_never t none sum d u e = absurd (none-ne-some d e)
  detection_of_never t (some cut) none d u e = absurd (none-ne-some d e)
  detection_of_never t (some cut) (some sum) d u e = rw (← some-injective _ d e) (u.never _ _)

  record IsMuted (t : F) (p : Pdm floats) : Type 0 where
    silent : p.ack_sem ≡ 0
    unordered : p.detect_threshold ≡ t

  -- Not a call that sets another threshold.
  abbrev pub KeepsThreshold : Happening floats → Type 0
  KeepsThreshold (threshold t) = ⊥
  KeepsThreshold _ = Unit

  give_never :
      (d : Detection floats) (p : Pdm floats)
      → gt d.cut d.cfar_thresh ≡ false
      → give_if_heard floats (some d) p ≡ some p
  unfolding give_if_heard
  give_never d p h = ground arith

  detect_never :
      (t : F) (out : List F) (d : Detection floats)
      → IsUnordered t
      → detect floats t out ≡ some d
      → gt d.cut d.cfar_thresh ≡ false
  unfolding detect
  detect_never t out d u e =
      detection_of_never t (bin_power floats out target_bin) (noise_sum floats out) d u e

  give_fault : (p : Pdm floats) → give_if_heard floats none p ≡ none
  unfolding give_if_heard
  give_fault p = refl

  process-IsMuted :
      (t : F) (p p' : Pdm floats)
      → IsUnordered t
      → IsMuted t p
      → process_work_handler floats p ≡ some p'
      → IsMuted t p'
  unfolding process_work_handler
  process-IsMuted t p p' u m e =
      let taken = record p { work_queued = false; buf_available = false } in
      elim (Option-cases (detect floats p.detect_threshold (spectrum floats p))) [
        | inl fault ↦ ground (arith, fault, give_fault taken, m.silent, m.unordered)
        | inr (d, found) ↦ ground (
          arith,
          found,
          give_never d taken (detect_never t (spectrum floats p) d u (rw (← m.unordered) found)),
          m.silent,
          m.unordered,
        )
      ]

  pub chosen :
      (b : Bool) (x : Option (Pdm floats)) (p p' : Pdm floats)
      → (if b then x else some p) ≡ some p'
      → (x ≡ some p') ⊎ (p ≡ p')
  chosen true x p p' e = inl e
  chosen false x p p' e = inr (some-injective p p' e)

  happen-IsMuted :
      (t : F) (h : Happening floats) (p p' : Pdm floats)
      → IsUnordered t
      → KeepsThreshold h
      → IsMuted t p
      → happen floats h p ≡ some p'
      → IsMuted t p'
  unfolding happen
  happen-IsMuted t (event r none) p p' u k m e = ground (arith, m.silent, m.unordered)
  happen-IsMuted t (event r (some (idx, samples))) p p' u k m e =
      ground (arith, m.silent, m.unordered)
  happen-IsMuted t work p p' u k m e =
      elim (chosen p.work_queued (process_work_handler floats p) p p' e) [
        | inl done ↦ process-IsMuted t p p' u m done
        | inr same ↦ rw (← same) m
      ]
  happen-IsMuted t (verbose_on s) p p' u k m e = ground (arith, m.silent, m.unordered)
  happen-IsMuted t (verbose_off s) p p' u k m e = ground (arith, m.silent, m.unordered)
  happen-IsMuted t (threshold x) p p' u k m e = absurd k

  start_listen-IsMuted :
      (start : ℤ) (p : Pdm floats) → IsMuted p.detect_threshold (start_listen floats start p)
  unfolding start_listen
  start_listen-IsMuted (pos n) p = record { silent = refl; unordered = refl }
  start_listen-IsMuted (negsuc n) p = record { silent = refl; unordered = refl }

  -- While the threshold is one that no power compares with, no window in which it is kept ends with
  -- an acknowledgement, whatever else happens in it.
  pub collect_ack-IsUnordered :
      (hs : List (Happening floats)) (start stop : ℤ) (p : Pdm floats) {p' : Pdm floats}
      {acked : Bool}
      → IsUnordered p.detect_threshold
      → All KeepsThreshold hs
      → collect_ack floats hs stop (start_listen floats start p) ≡ some (p', acked)
      → acked ≡ false
  collect_ack-IsUnordered hs start stop p {p'} {acked} u ks e =
      take_ack_silent floats (IsMuted p.detect_threshold) (λ q m. m.silent) hs KeepsThreshold
        (λ h q q' k m step. happen-IsMuted p.detect_threshold h q q' u k m step) ks
        (start_listen floats start p) (start_listen-IsMuted start p)
        (take_ack_of_collect floats hs stop (start_listen floats start p) p' acked e).1
