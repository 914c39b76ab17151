-- ===== src/IrDriver/Dispatch/Progress.antt =====
-- The dispatch code of src/ir_driver.cpp comes to rest when no further call begins.
use shirokumakun_matter.Common.{ℕ, zero, suc, ◌+◌, ◌*◌, ◌≤◌, ◌<◌, ◌≡◌, ◌⊎◌, inl, inr, refl, arith}
use shirokumakun_matter.IrDriver.Dispatch.{
  Store, Section, unlocked, entered, counted, copied, locked, loading, loaded, Thread, waiting,
  woken, holding, ready, Step, lock_pending, store_count, store_pulses, unlock_pending, give, wake,
  lock_active, load_count, load_pulses, unlock_active, send, Reach, start, later,
}
use shirokumakun_matter.IrDriver.Dispatch.Invariant.{Holds, Invariant, asked}
use shirokumakun_matter.IrDriver.Dispatch.Delivery.{Reach-Invariant}

-- The statements left in each place, if no further call begins.
abbrev section_left : Section → ℕ
section_left unlocked = 0
section_left (entered cmd) = 10
section_left (counted cmd) = 9
section_left copied = 8
section_left locked = 4
section_left loading = 3
section_left loaded = 2

abbrev thread_left : Thread → ℕ
thread_left waiting = 0
thread_left woken = 5
thread_left holding = 0
thread_left ready = 1

abbrev left : Store → Section → Thread → ℕ
left m c t = m.sem * 6 + m.to_give * 7 + section_left c + thread_left t

-- A step that begins no call.
abbrev pub Inner : {m m' : Store} {c c' : Section} {t t' : Thread} → Step m c t m' c' t' → Type 0
Inner (lock_pending fits) = ⊥
Inner store_count = Unit
Inner store_pulses = Unit
Inner unlock_pending = Unit
Inner (give g) = Unit
Inner (wake g) = Unit
Inner lock_active = Unit
Inner load_count = Unit
Inner load_pulses = Unit
Inner unlock_active = Unit
Inner send = Unit

left-decreases :
    {m m' : Store} {c c' : Section} {t t' : Thread} (s : Step m c t m' c' t')
    → Inner s
    → left m' c' t' < left m c t
left-decreases (lock_pending fits) inner = absurd inner
left-decreases store_count inner = omega arith
left-decreases store_pulses inner = omega arith
left-decreases unlock_pending inner = omega arith
left-decreases (give g) inner = omega arith
left-decreases (wake g) inner = omega arith
left-decreases lock_active inner = omega arith
left-decreases load_count inner = omega arith
left-decreases load_pulses inner = omega arith
left-decreases unlock_active inner = omega arith
left-decreases send inner = omega arith

-- The thread is in the section only while the mutex is its own.
abbrev Inside : Section → Type 0
Inside locked = Unit
Inside loading = Unit
Inside loaded = Unit
Inside _ = ⊥

Step-Inside :
    {m m' : Store} {c c' : Section} {t t' : Thread}
    → Step m c t m' c' t'
    → (Holds t → Inside c)
    → Holds t'
    → Inside c'
Step-Inside (lock_pending fits) i h = absurd (i h)
Step-Inside store_count i h = absurd (i h)
Step-Inside store_pulses i h = absurd (i h)
Step-Inside unlock_pending i h = absurd (i h)
Step-Inside (give g) i h = i h
Step-Inside (wake g) i h = absurd h
Step-Inside lock_active i h = tt
Step-Inside load_count i h = tt
Step-Inside load_pulses i h = tt
Step-Inside unlock_active i h = absurd h
Step-Inside send i h = absurd h

Reach-Inside : {m : Store} {c : Section} {t : Thread} → Reach m c t → Holds t → Inside c
Reach-Inside start h = absurd h
Reach-Inside (later r s) h = Step-Inside s (Reach-Inside r) h

pub record Next (m : Store) (c : Section) (t : Thread) : Type 0 where
  pub store : Store
  pub section : Section
  pub thread : Thread
  pub step : Step m c t store section thread
  pub inner : Inner step

next :
    {m m' : Store} {c c' : Section} {t t' : Thread} (s : Step m c t m' c' t') → Inner s → Next m c t
next s inner = record { store = _; section = _; thread = _; step = s; inner = inner }

-- Every sequence of inner steps is finite, and none ends before everything is at rest.
pub data Settles : Store → Section → Thread → Type 0 where
  at_rest : {m : Store} → asked m unlocked waiting ≡ 0 → Settles m unlocked waiting
  onward :
      {m : Store} {c : Section} {t : Thread}
      → Next m c t
      → ((n : Next m c t) → Settles n.store n.section n.thread)
      → Settles m c t

zero_or_more : (n : ℕ) → (n ≡ 0) ⊎ (0 < n)
zero_or_more zero = inl refl
zero_or_more (suc n) = inr (omega arith)

waiting-Next : (m : Store) → (asked m unlocked waiting ≡ 0) ⊎ Next m unlocked waiting
waiting-Next m = elim (zero_or_more m.sem) [
  | inr some_sem ↦ inr (next (wake some_sem) tt)
  | inl no_sem ↦ elim (zero_or_more m.to_give) [
    | inr some_give ↦ inr (next (give some_give) tt)
    | inl no_give ↦ inl (omega (arith, no_sem, no_give))
  ]
]

-- Whoever holds the mutex can go on.
settles_next :
    (m : Store) (c : Section) (t : Thread)
    → Invariant m c t
    → (Holds t → Inside c)
    → (Next m c t → Settles m c t)
    → Settles m c t
settles_next m unlocked waiting i h go = elim (waiting-Next m) [ inl e ↦ at_rest e | inr n ↦ go n ]
settles_next m unlocked woken i h go = go (next lock_active tt)
settles_next m unlocked holding i h go = absurd (h tt)
settles_next m unlocked ready i h go = go (next send tt)
settles_next m (entered cmd) t i h go = go (next store_count tt)
settles_next m (counted cmd) t i h go = go (next store_pulses tt)
settles_next m copied t i h go = go (next unlock_pending tt)
settles_next m locked holding i h go = go (next load_count tt)
settles_next m loading holding i h go = go (next load_pulses tt)
settles_next m loaded holding i h go = go (next unlock_active tt)
settles_next m locked t i h go = absurd i.section.1
settles_next m loading t i h go = absurd i.section.1
settles_next m loaded t i h go = absurd i.section.1

settles_within :
    (n : ℕ) {m : Store} {c : Section} {t : Thread} → left m c t ≤ n → Reach m c t → Settles m c t
settles_within zero {m = m} {c = c} {t = t} enough r =
    settles_next m c t (Reach-Invariant r) (Reach-Inside r)
      (λ n. absurd (omega (arith, enough, left-decreases n.step n.inner)))
settles_within (suc bound) {m = m} {c = c} {t = t} enough r =
    settles_next m c t (Reach-Invariant r) (Reach-Inside r) (λ n. onward n (λ n'.
      settles_within bound (omega (arith, enough, left-decreases n'.step n'.inner))
        (later r n'.step)))

-- In every state that some interleaving reaches, if no further call begins then every sequence of
-- steps is finite, and it ends only where no thread holds the mutex, no semaphore is given or to
-- be given and the dispatch thread waits.
pub Reach-Settles : {m : Store} {c : Section} {t : Thread} → Reach m c t → Settles m c t
Reach-Settles {m = m} {c = c} {t = t} r = settles_within (left m c t) (omega arith) r
