-- ===== src/PdmManager/Wait.antt =====
-- The wait of `pdm_manager_collect_ack` in src/pdm_manager.cpp, one happening at a time.
use shirokumakun_matter.Common.{
  ◌≡◌, sym, ◌∙◌, inl, inr, Bool, true, false, none, some, List, [], ◌∷◌, arith, Option-cases, All,
}
use shirokumakun_matter.Common.Int.{ℤ}
use shirokumakun_matter.PdmManager.{
  Floats, Pdm, stop_listen, Happening, happen, take_ack, collect_ack,
}

module _ (floats : Floats) where
  pub take_ack_next :
      (h : Happening floats) (hs : List (Happening floats)) (p p₁ : Pdm floats)
      → p.ack_sem ≡ 0
      → happen floats h p ≡ some p₁
      → take_ack floats (h ∷ hs) p ≡ take_ack floats hs p₁
  unfolding take_ack
  take_ack_next h hs p p₁ silent step = ground arith

  pub take_ack_fault :
      (h : Happening floats) (hs : List (Happening floats)) (p : Pdm floats)
      → p.ack_sem ≡ 0
      → happen floats h p ≡ none
      → take_ack floats (h ∷ hs) p ≡ none
  unfolding take_ack
  take_ack_fault h hs p silent fault = ground arith

  -- A property that everything that happens keeps, and under which the semaphore is not given,
  -- keeps the wait from succeeding.
  pub take_ack_silent :
      (P : Pdm floats → Type 0)
      → ((p : Pdm floats) → P p → p.ack_sem ≡ 0)
      → (hs : List (Happening floats)) (Q : Happening floats → Type 0)
      → ((h : Happening floats) (p p' : Pdm floats)
          → Q h
          → P p
          → happen floats h p ≡ some p'
          → P p')
      → All Q hs
      → (p : Pdm floats) {p' : Pdm floats} {acked : Bool} → P p
      → take_ack floats hs p ≡ some (p', acked)
      → acked ≡ false
  unfolding take_ack
  take_ack_silent P silent [] Q keep qs p inv e = ground (arith, silent p inv)
  take_ack_silent P silent (h ∷ hs) Q keep qs p inv e = elim (Option-cases (happen floats h p)) [
    | inl fault ↦ cc (take_ack_fault h hs p (silent p inv) fault)
    | inr (p₁, step) ↦
        take_ack_silent P silent hs Q keep qs.1 p₁ (keep h p p₁ qs.0 inv step)
          (sym (take_ack_next h hs p p₁ (silent p inv) step) ∙ e)
  ]

  pub take_ack_of_collect :
      (hs : List (Happening floats)) (stop : ℤ) (q p' : Pdm floats) (acked : Bool)
      → collect_ack floats hs stop q ≡ some (p', acked)
      → (p'' : Pdm floats) × (take_ack floats hs q ≡ some (p'', acked))
  unfolding collect_ack
  take_ack_of_collect hs stop q p' acked e = elim (Option-cases (take_ack floats hs q)) [
    | inl fault ↦ cc (collect_fault fault)
    | inr ((p'', b), taken) ↦ (p'', ground arith)
  ]
    where
      collect_fault : take_ack floats hs q ≡ none → collect_ack floats hs stop q ≡ none
      collect_fault fault = ground arith

  pub take_ack_given :
      (hs : List (Happening floats)) (p : Pdm floats)
      → p.ack_sem ≡ 1
      → take_ack floats hs p ≡ some (record p { ack_sem = 0 }, true)
  unfolding take_ack
  take_ack_given [] p given = ground arith
  take_ack_given (h ∷ hs) p given = ground arith

  pub collect_ack_of_take :
      (hs : List (Happening floats)) (stop : ℤ) (q p' : Pdm floats) (acked : Bool)
      → take_ack floats hs q ≡ some (p', acked)
      → collect_ack floats hs stop q ≡ some (stop_listen floats stop p', acked)
  unfolding collect_ack
  collect_ack_of_take hs stop q p' acked taken = rw (taken, collect_ack)
