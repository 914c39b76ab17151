-- ===== src/PdmManager/Verbose.antt =====
-- The verbose stream of src/pdm_manager.cpp across a listening window.
use mathlib.Core.Bool.{true≢false}
use shirokumakun_matter.Common.{
  ◌≤◌, ◌≡◌, refl, Bool, true, false, ◌&&◌, not, Option, Bool-cases, inl, inr, ==_iff, if◌then◌else◌,
  none, some, List, [], ◌∷◌, arith, length, All, ◌==◌,
}
use shirokumakun_matter.Common.Int.{ℤ, pos, negsuc, is_negative}
use shirokumakun_matter.PdmManager.{
  Floats, Detection, detect, Pdm, spectrum, give_if_heard, process_work_handler, start_listen,
  stop_listen, Happening, event, work, verbose_on, verbose_off, threshold, happen, take_ack,
  collect_ack,
}
use shirokumakun_matter.PdmManager.Wait.{take_ack_next}
use shirokumakun_matter.PdmManager.Detector.{detect_lem}

module _ (floats : Floats) where
  open floats use {F, gt, fft}

  -- The FFT of a buffer has the 1024 values that `fft_out` holds; 280 are read.
  pub record HasSpectrum : Type 0 where
    pub ample : (xs : List F) → 280 ≤ length (fft xs)

  -- The flags of a verbose stream that has started the driver itself.
  pub record IsStreaming (p : Pdm floats) : Type 0 where
    pub verbose : p.verbose ≡ true
    pub verbose_own : p.verbose_own ≡ true

  -- Not one of the two shell commands that start and stop the stream.
  abbrev pub IsOrdinary : Happening floats → Type 0
  IsOrdinary (event r b) = Unit
  IsOrdinary work = Unit
  IsOrdinary (verbose_on s) = ⊥
  IsOrdinary (verbose_off s) = ⊥
  IsOrdinary (threshold t) = Unit

  kept : {p : Pdm floats} → p.verbose ≡ true → p.verbose_own ≡ true → IsStreaming p
  kept v o = record { verbose = v; verbose_own = o }

  give-IsStreaming :
      (d : Detection floats) (p : Pdm floats)
      → IsStreaming p
      → (p' : Pdm floats) × (give_if_heard floats (some d) p ≡ some p') × IsStreaming p'
  unfolding give_if_heard
  give-IsStreaming d p s =
      elim (p.capture_active && gt d.cut d.cfar_thresh)
        as (λ b.
          (p' : Pdm floats) × ((if b then some (record p { ack_sem = 1 }) else some p) ≡ some p')
          × IsStreaming p') [
            | true ↦ (record p { ack_sem = 1 }, refl, kept s.verbose s.verbose_own)
            | false ↦ (p, refl, s)
          ]

  process-IsStreaming :
      (p : Pdm floats)
      → HasSpectrum
      → IsStreaming p
      → (p' : Pdm floats) × (process_work_handler floats p ≡ some p') × IsStreaming p'
  unfolding process_work_handler spectrum
  process-IsStreaming p fits s =
      elim p.buf_available
        as (λ b.
          (p' : Pdm floats) × ((if not b
              then some (record p { work_queued = false })
              else (give_if_heard floats (detect floats p.detect_threshold (spectrum floats p))
                  (record p { work_queued = false; buf_available = false })))
            ≡ some p')
          × IsStreaming p') [
            | true ↦ rw (detect_lem floats p.detect_threshold (spectrum floats p) (fits.ample _)) (
                give-IsStreaming _ (record p { work_queued = false; buf_available = false })
                  (kept s.verbose s.verbose_own))
            | false ↦ (record p { work_queued = false }, refl, kept s.verbose s.verbose_own)
          ]

  happen-IsStreaming :
      (h : Happening floats) (p : Pdm floats)
      → HasSpectrum
      → IsOrdinary h
      → IsStreaming p
      → (p' : Pdm floats) × (happen floats h p ≡ some p') × IsStreaming p'
  unfolding happen
  happen-IsStreaming (event true none) p fits o s = (_, refl, kept s.verbose s.verbose_own)
  happen-IsStreaming (event false none) p fits o s = (_, refl, kept s.verbose s.verbose_own)
  happen-IsStreaming (event true (some (idx, samples))) p fits o s =
      (_, refl, kept s.verbose s.verbose_own)
  happen-IsStreaming (event false (some (idx, samples))) p fits o s =
      (_, refl, kept s.verbose s.verbose_own)
  happen-IsStreaming work p fits o s =
      elim p.work_queued
        as (λ b.
          (p' : Pdm floats) × ((if b then process_work_handler floats p else some p) ≡ some p')
          × IsStreaming p') [ true ↦ process-IsStreaming p fits s | false ↦ (p, refl, s) ]
  happen-IsStreaming (verbose_on status) p fits o s = absurd o
  happen-IsStreaming (verbose_off status) p fits o s = absurd o
  happen-IsStreaming (threshold t) p fits o s = (_, refl, kept s.verbose s.verbose_own)

  abbrev Ends : Option (Pdm floats × Bool) → Type 0
  Ends o = (p' : Pdm floats) × (acked : Bool) × (o ≡ some (p', acked)) × IsStreaming p'

  pub take_ack-timeout :
      (p : Pdm floats) → (p.ack_sem == 0) ≡ true → take_ack floats [] p ≡ some (p, false)
  unfolding take_ack
  take_ack-timeout p silent = ground arith

  pub take_ack-given :
      (hs : List (Happening floats)) (p : Pdm floats)
      → (p.ack_sem == 0) ≡ false
      → take_ack floats hs p ≡ some (record p { ack_sem = 0 }, true)
  unfolding take_ack
  take_ack-given [] p given = ground arith
  take_ack-given (h ∷ hs) p given = ground arith

  take_ack-IsStreaming :
      (hs : List (Happening floats)) (p : Pdm floats)
      → HasSpectrum
      → All IsOrdinary hs
      → IsStreaming p
      → Ends (take_ack floats hs p)
  take_ack-IsStreaming [] p fits os s = elim (Bool-cases (p.ack_sem == 0)) [
    | inl silent ↦ (p, false, take_ack-timeout p silent, s)
    | inr given ↦
        (record p { ack_sem = 0 }, true, take_ack-given [] p given, kept s.verbose s.verbose_own)
  ]
  take_ack-IsStreaming (h ∷ hs) p fits os s = elim (Bool-cases (p.ack_sem == 0)) [
    | inl silent ↦
        let (p₁, step, s₁) = happen-IsStreaming h p fits os.0 s in
        rw (take_ack_next floats h hs p p₁ ((==_iff p.ack_sem 0).0 silent) step)
          (take_ack-IsStreaming hs p₁ fits os.1 s₁)
    | inr given ↦ (
      record p { ack_sem = 0 },
      true,
      take_ack-given (h ∷ hs) p given,
      kept s.verbose s.verbose_own,
    )
  ]

  start_listen-IsStreaming :
      (start : ℤ) (p : Pdm floats) → IsStreaming p → IsStreaming (start_listen floats start p)
  unfolding start_listen
  start_listen-IsStreaming (pos n) p s = kept s.verbose s.verbose_own
  start_listen-IsStreaming (negsuc n) p s = kept s.verbose s.verbose_own

  stop_listen-IsStreaming :
      (stop : ℤ) (p : Pdm floats)
      → is_negative stop ≡ false
      → IsStreaming p
      → IsStreaming (stop_listen floats stop p) × ((stop_listen floats stop p).capturing ≡ false)
  unfolding stop_listen
  stop_listen-IsStreaming (pos n) p stopped s = (kept s.verbose s.verbose_own, refl)
  stop_listen-IsStreaming (negsuc n) p stopped s = absurd (true≢false stopped)

  collect_ack-stop_listen :
      (hs : List (Happening floats)) (stop : ℤ) (p q : Pdm floats) (acked : Bool)
      → take_ack floats hs p ≡ some (q, acked)
      → collect_ack floats hs stop p ≡ some (stop_listen floats stop q, acked)
  unfolding collect_ack
  collect_ack-stop_listen hs stop p q acked taken = ground arith

  -- A listening window in which the verbose stream is neither started nor stopped always ends, and
  -- if the driver then stops, a verbose stream that had started it no longer runs, although both of
  -- its flags are still set: nothing starts the driver again for it.
  pub collect_ack-IsStreaming :
      (hs : List (Happening floats)) (start stop : ℤ) (p : Pdm floats)
      → HasSpectrum
      → All IsOrdinary hs
      → IsStreaming p
      → is_negative stop ≡ false
      → (p' : Pdm floats) × (acked : Bool) × (collect_ack floats hs stop
            (start_listen floats start p)
          ≡ some (p', acked))
        × IsStreaming p'
        × (p'.capturing ≡ false)
  collect_ack-IsStreaming hs start stop p fits os s stopped =
      let (q, acked, taken, sq) =
        take_ack-IsStreaming hs (start_listen floats start p) fits os
          (start_listen-IsStreaming start p s) in
      let (streaming, off) = stop_listen-IsStreaming stop q stopped sq in
      (
        stop_listen floats stop q,
        acked,
        collect_ack-stop_listen hs stop _ q acked taken,
        streaming,
        off,
      )
