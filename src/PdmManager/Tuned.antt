-- ===== src/PdmManager/Tuned.antt =====
-- What the callers of src/pdm_manager.cpp leave as it is across a listening window: the detector's
-- threshold and the number of buffers.
use mathlib.Core.Option.{none-ne-some, some-injective}
use shirokumakun_matter.Common.{
  ◌≡◌, sym, ap, ◌∙◌, Bool, true, false, Option, none, some, List, [], ◌∷◌, ◌==◌, not, ◌⊎◌,
  if◌then◌else◌, ==_iff, arith, All, length, Option-cases, Bool-cases, inl, inr, length-set,
}
use shirokumakun_matter.Common.Int.{ℤ, pos, negsuc}
use shirokumakun_matter.PdmManager.{
  Floats, detect, Detection, Pdm, spectrum, give_if_heard, process_work_handler, start_listen,
  stop_listen, Happening, event, work, verbose_on, verbose_off, threshold, happen, take_ack,
  collect_ack,
}
use shirokumakun_matter.PdmManager.Wait.{
  take_ack_next, take_ack_fault, take_ack_of_collect, collect_ack_of_take,
}
use shirokumakun_matter.PdmManager.Verbose.{take_ack-timeout, take_ack-given}
use shirokumakun_matter.PdmManager.Unordered.{KeepsThreshold, chosen}

module _ (floats : Floats) where
  open floats use {F}

  -- The threshold is `t`, and there are two buffers.
  pub record IsTuned (t : F) (p : Pdm floats) : Type 0 where
    pub tuned : p.detect_threshold ≡ t
    pub two : length p.pdm_buf ≡ 2

  give-IsTuned :
      (t : F) (o : Option (Detection floats)) (p p' : Pdm floats)
      → IsTuned t p
      → give_if_heard floats o p ≡ some p'
      → IsTuned t p'
  unfolding give_if_heard
  give-IsTuned t none p p' i e = absurd (none-ne-some p' e)
  give-IsTuned t (some d) p p' i e = ground (arith, i.tuned, i.two)

  either :
      (b : Bool) (x p' : Pdm floats) (o : Option (Pdm floats))
      → (if b then some x else o) ≡ some p'
      → (x ≡ p') ⊎ (o ≡ some p')
  either true x p' o e = inl (some-injective x p' e)
  either false x p' o e = inr e

  process-IsTuned :
      (t : F) (p p' : Pdm floats)
      → IsTuned t p
      → process_work_handler floats p ≡ some p'
      → IsTuned t p'
  unfolding process_work_handler
  process-IsTuned t p p' i e = elim (either (not p.buf_available) _ p' _ e) [
    | inl same ↦ rw (← same) (record { tuned = i.tuned; two = i.two })
    | inr given ↦
        give-IsTuned t (detect floats p.detect_threshold (spectrum floats p)) _ p'
          (record { tuned = i.tuned; two = i.two }) given
  ]

  pub happen-IsTuned :
      (t : F) (h : Happening floats) (p p' : Pdm floats)
      → KeepsThreshold floats h
      → IsTuned t p
      → happen floats h p ≡ some p'
      → IsTuned t p'
  unfolding happen
  happen-IsTuned t (event r none) p p' k i e = ground (arith, i.tuned, i.two)
  happen-IsTuned t (event r (some (idx, samples))) p p' k i e =
      ground (arith, i.tuned, i.two, length-set p.pdm_buf idx samples)
  happen-IsTuned t work p p' k i e =
      elim (chosen floats p.work_queued (process_work_handler floats p) p p' e) [
        | inl done ↦ process-IsTuned t p p' i done
        | inr same ↦ rw (← same) i
      ]
  happen-IsTuned t (verbose_on s) p p' k i e = ground (arith, i.tuned, i.two)
  happen-IsTuned t (verbose_off s) p p' k i e = ground (arith, i.tuned, i.two)
  happen-IsTuned t (threshold x) p p' k i e = absurd k

  taken-IsTuned :
      (t : F) (p p' : Pdm floats) (acked acked' : Bool)
      → IsTuned t p
      → ◌≡◌ {A = Option (Pdm floats × Bool)}
          (some (record p { ack_sem = 0 }, acked))
          (some (p', acked'))
      → IsTuned t p'
  taken-IsTuned t p p' acked acked' i e =
      rw (← ap (λ r. r.0) (some-injective _ _ e)) (record { tuned = i.tuned; two = i.two })

  take_ack-IsTuned :
      (t : F) (hs : List (Happening floats)) (p p' : Pdm floats) (acked : Bool)
      → All (KeepsThreshold floats) hs
      → IsTuned t p
      → take_ack floats hs p ≡ some (p', acked)
      → IsTuned t p'
  take_ack-IsTuned t [] p p' acked ks i e = elim (Bool-cases (p.ack_sem == 0)) [
    | inl silent ↦
        rw (← ap (λ r. r.0) (some-injective _ _ (sym (take_ack-timeout floats p silent) ∙ e))) i
    | inr given ↦ taken-IsTuned t p p' true acked i (sym (take_ack-given floats [] p given) ∙ e)
  ]
  take_ack-IsTuned t (h ∷ hs) p p' acked ks i e = elim (Bool-cases (p.ack_sem == 0)) [
    | inl silent ↦
        let none_given = (==_iff p.ack_sem 0).0 silent in
        elim (Option-cases (happen floats h p)) [
          | inl fault ↦
              absurd
                (none-ne-some (p', acked) (sym (take_ack_fault floats h hs p none_given fault) ∙ e))
          | inr (p₁, step) ↦
              take_ack-IsTuned t hs p₁ p' acked ks.1 (happen-IsTuned t h p p₁ ks.0 i step)
                (sym (take_ack_next floats h hs p p₁ none_given step) ∙ e)
        ]
    | inr given ↦
        taken-IsTuned t p p' true acked i (sym (take_ack-given floats (h ∷ hs) p given) ∙ e)
  ]

  start_listen-IsTuned :
      (t : F) (start : ℤ) (p : Pdm floats) → IsTuned t p → IsTuned t (start_listen floats start p)
  unfolding start_listen
  start_listen-IsTuned t (pos n) p i = record { tuned = i.tuned; two = i.two }
  start_listen-IsTuned t (negsuc n) p i = record { tuned = i.tuned; two = i.two }

  stop_listen-IsTuned :
      (t : F) (stop : ℤ) (p : Pdm floats) → IsTuned t p → IsTuned t (stop_listen floats stop p)
  unfolding stop_listen
  stop_listen-IsTuned t (pos n) p i = record { tuned = i.tuned; two = i.two }
  stop_listen-IsTuned t (negsuc n) p i = record { tuned = i.tuned; two = i.two }

  -- A listening window in which the threshold is kept leaves the microphone tuned.
  pub collect_ack-IsTuned :
      (t : F) (hs : List (Happening floats)) (start stop : ℤ) (p p' : Pdm floats) (acked : Bool)
      → All (KeepsThreshold floats) hs
      → IsTuned t p
      → collect_ack floats hs stop (start_listen floats start p) ≡ some (p', acked)
      → IsTuned t p'
  collect_ack-IsTuned t hs start stop p p' acked ks i e =
      let (q, taken) =
        take_ack_of_collect floats hs stop (start_listen floats start p) p' acked e in
      let ended = collect_ack_of_take floats hs stop (start_listen floats start p) q acked taken in
      rw (← ap (λ r. r.0) (some-injective _ _ (sym ended ∙ e))) (
        stop_listen-IsTuned t stop q (
          take_ack-IsTuned t hs (start_listen floats start p) q acked ks
            (start_listen-IsTuned t start p i) taken))
