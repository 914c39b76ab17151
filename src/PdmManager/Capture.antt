-- ===== src/PdmManager/Capture.antt =====
-- The listening window of src/pdm_manager.cpp: what counts as an acknowledgement.
use mathlib.Core.Path.{ap₂}
use shirokumakun_matter.Common.{
  ℕ, zero, suc, ◌<◌, ◌≡◌, refl, ap, ◌∙◌, Bool, true, false, none, some, List, [], ◌∷◌, arith,
  length, All, set, get_or-set,
}
use shirokumakun_matter.Common.Int.{ℤ, is_negative}
use shirokumakun_matter.PdmManager.{
  Floats, Detection, detect, Pdm, spectrum, process_work_handler, event_handler, start_listen,
  Happening, event, work, verbose_on, verbose_off, threshold, happen, collect_ack, windowed,
}
use shirokumakun_matter.PdmManager.Wait.{
  take_ack_next, take_ack_silent, take_ack_of_collect, take_ack_given, collect_ack_of_take,
}

module _ (floats : Floats) where
  open floats use {F, gt}

  -- The microphone is not being listened to.
  pub record IsDeaf (p : Pdm floats) : Type 0 where
    pub silent : p.ack_sem ≡ 0
    pub inactive : p.capture_active ≡ false

  happen-IsDeaf :
      (h : Happening floats) (p p' : Pdm floats)
      → IsDeaf p
      → happen floats h p ≡ some p'
      → IsDeaf p'
  unfolding happen
  happen-IsDeaf (event r none) p p' d e = ground arith
  happen-IsDeaf (event r (some (idx, samples))) p p' d e = ground arith
  happen-IsDeaf work p p' d e = ground arith
  happen-IsDeaf (verbose_on s) p p' d e = ground arith
  happen-IsDeaf (verbose_off s) p p' d e = ground arith
  happen-IsDeaf (threshold t) p p' d e = ground arith

  start_listen-IsDeaf :
      (start : ℤ) (p : Pdm floats) → is_negative start ≡ true → IsDeaf (start_listen floats start p)
  unfolding start_listen
  start_listen-IsDeaf start p refused = ground arith

  everything : (hs : List (Happening floats)) → All (λ h. Unit {0}) hs
  everything [] = tt
  everything (h ∷ hs) = (tt, everything hs)

  -- If the driver refuses to start, no window ends with an acknowledgement, whatever happens in it.
  pub collect_ack_refused :
      (hs : List (Happening floats)) (start stop : ℤ) (p : Pdm floats) {p' : Pdm floats}
      {acked : Bool}
      → is_negative start ≡ true
      → collect_ack floats hs stop (start_listen floats start p) ≡ some (p', acked)
      → acked ≡ false
  collect_ack_refused hs start stop p {p'} {acked} refused e =
      take_ack_silent floats IsDeaf (λ q d. d.silent) hs (λ h. Unit {0})
        (λ h q q' u d step. happen-IsDeaf h q q' d step) (everything hs)
        (start_listen floats start p) (start_listen-IsDeaf start p refused)
        (take_ack_of_collect floats hs stop (start_listen floats start p) p' acked e).1

  -- No buffer has been released since the window was opened.
  pub record IsFresh (p : Pdm floats) : Type 0 where
    pub silent : p.ack_sem ≡ 0
    pub unfilled : p.buf_available ≡ false

  abbrev pub ReleasesNothing : Happening floats → Type 0
  ReleasesNothing (event requested none) = Unit
  ReleasesNothing (event requested (some buffer)) = ⊥
  ReleasesNothing work = Unit
  ReleasesNothing (verbose_on status) = Unit
  ReleasesNothing (verbose_off status) = Unit
  ReleasesNothing (threshold t) = Unit

  happen-IsFresh :
      (h : Happening floats) (p p' : Pdm floats)
      → ReleasesNothing h
      → IsFresh p
      → happen floats h p ≡ some p'
      → IsFresh p'
  unfolding happen
  happen-IsFresh (event r none) p p' n d e = ground arith
  happen-IsFresh (event r (some (idx, samples))) p p' n d e = absurd n
  happen-IsFresh work p p' n d e = ground arith
  happen-IsFresh (verbose_on s) p p' n d e = ground arith
  happen-IsFresh (verbose_off s) p p' n d e = ground arith
  happen-IsFresh (threshold t) p p' n d e = ground arith

  start_listen-IsFresh : (start : ℤ) (p : Pdm floats) → IsFresh (start_listen floats start p)
  unfolding start_listen
  start_listen-IsFresh start p = ground arith

  -- A window in which the driver releases no buffer ends without an acknowledgement, also where an
  -- earlier window left the semaphore given or a buffer and the work item waiting.
  pub collect_ack_stale :
      (hs : List (Happening floats)) (start stop : ℤ) (p : Pdm floats) {p' : Pdm floats}
      {acked : Bool}
      → All ReleasesNothing hs
      → collect_ack floats hs stop (start_listen floats start p) ≡ some (p', acked)
      → acked ≡ false
  collect_ack_stale hs start stop p {p'} {acked} quiet e =
      take_ack_silent floats IsFresh (λ q d. d.silent) hs ReleasesNothing happen-IsFresh quiet
        (start_listen floats start p) (start_listen-IsFresh start p)
        (take_ack_of_collect floats hs stop (start_listen floats start p) p' acked e).1

  released_spectrum :
      (p : Pdm floats) (requested : Bool) (idx : ℕ) (samples : List ℤ)
      → idx < 2
      → length p.pdm_buf ≡ 2
      → spectrum floats (
          event_handler floats requested
            (some idx)
            (record p { pdm_buf = set p.pdm_buf idx samples }))
        ≡ floats.fft (windowed floats 0 samples)
  unfolding spectrum event_handler
  released_spectrum p true zero samples two room =
      ap (λ b. floats.fft (windowed floats 0 b)) (get_or-set p.pdm_buf 0 0 samples [] (omega arith))
  released_spectrum p false zero samples two room =
      ap (λ b. floats.fft (windowed floats 0 b)) (get_or-set p.pdm_buf 0 0 samples [] (omega arith))
  released_spectrum p true (suc zero) samples two room =
      ap (λ b. floats.fft (windowed floats 0 b)) (get_or-set p.pdm_buf 1 1 samples [] (omega arith))
  released_spectrum p false (suc zero) samples two room =
      ap (λ b. floats.fft (windowed floats 0 b)) (get_or-set p.pdm_buf 1 1 samples [] (omega arith))
  released_spectrum p requested (suc (suc idx)) samples two room = absurd (omega arith)

  work_heard :
      (p : Pdm floats) (d : Detection floats)
      → p.work_queued ≡ true
      → p.buf_available ≡ true
      → p.capture_active ≡ true
      → detect floats p.detect_threshold (spectrum floats p) ≡ some d
      → gt d.cut d.cfar_thresh ≡ true
      → happen floats work p
        ≡ some (record p { work_queued = false; buf_available = false; ack_sem = 1 })
  unfolding happen process_work_handler
  work_heard p d queued available active found loud = ground arith

  -- What the first event of a window leaves.
  filled : ℤ → Bool → ℕ → List ℤ → Pdm floats → Pdm floats
  filled start requested idx samples p =
      let q = start_listen floats start p in
      event_handler floats requested (some idx) (record q { pdm_buf = set q.pdm_buf idx samples })

  filled_fields :
      (start : ℤ) (requested : Bool) (idx : ℕ) (samples : List ℤ) (p : Pdm floats)
      → is_negative start ≡ false
      → ((filled start requested idx samples p).work_queued ≡ true)
        × ((filled start requested idx samples p).buf_available ≡ true)
        × ((filled start requested idx samples p).capture_active ≡ true)
        × ((filled start requested idx samples p).ack_sem ≡ 0)
        × ((filled start requested idx samples p).detect_threshold ≡ p.detect_threshold)
        × ((start_listen floats start p).ack_sem ≡ 0)
        × ((start_listen floats start p).pdm_buf ≡ p.pdm_buf)
  unfolding filled start_listen event_handler
  filled_fields start true idx samples p started = ground arith
  filled_fields start false idx samples p started = ground arith

  -- In an open window where the first thing that happens is the release of one of the two buffers,
  -- whose tone passes the detector, and the next is the work item, the wait ends with an
  -- acknowledgement, whatever happens after.
  pub collect_ack_heard :
      (hs : List (Happening floats)) (start stop : ℤ) (p : Pdm floats) (requested : Bool) (idx : ℕ)
      (samples : List ℤ) (d : Detection floats)
      → is_negative start ≡ false
      → idx < 2
      → length p.pdm_buf ≡ 2
      → detect floats p.detect_threshold (floats.fft (windowed floats 0 samples)) ≡ some d
      → gt d.cut d.cfar_thresh ≡ true
      → (p' : Pdm floats) × (collect_ack floats
            (event requested (some (idx, samples)) ∷ work ∷ hs)
            stop
            (start_listen floats start p)
          ≡ some (p', true))
  unfolding happen filled
  collect_ack_heard hs start stop p requested idx samples d started two room found loud =
      let q₀ = start_listen floats start p in
      let q₁ = filled start requested idx samples p in
      let f = filled_fields start requested idx samples p started in
      let hears : happen floats work q₁
          ≡ some (record q₁ { work_queued = false; buf_available = false; ack_sem = 1 }) =
        work_heard q₁ d f.0 f.1 f.2
          (ap₂ (detect floats) f.4
              (released_spectrum q₀ requested idx samples two (ap length f.6 ∙ room))
            ∙ found)
          loud in
      (
        _,
        collect_ack_of_take floats (event requested (some (idx, samples)) ∷ work ∷ hs) stop q₀ _
            true
            (take_ack_next floats (event requested (some (idx, samples))) (work ∷ hs) q₀ q₁ f.5 refl
              ∙ take_ack_next floats work hs q₁ _ f.3 hears
              ∙ take_ack_given floats hs _ refl),
      )
