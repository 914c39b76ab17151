-- ===== src/IrDriver/Dispatch/Orders.antt =====
-- A statement of the dispatch code of src/ir_driver.cpp keeps the order of the commands.
use shirokumakun_matter.Common.{◌<◌, ◌≡◌, sym, ◌∙◌, inl, inr, arith, length, take}
use shirokumakun_matter.IrDriver.Dispatch.{
  memcpy, Store, Section, loading, Thread, holding, Step, lock_pending, store_count, store_pulses,
  unlock_pending, give, wake, lock_active, load_count, load_pulses, unlock_active, send,
}
use shirokumakun_matter.IrDriver.Dispatch.History.{Follows, skip, newest, Follows-newest}
use shirokumakun_matter.IrDriver.Dispatch.Copy.{take-memcpy}
use shirokumakun_matter.IrDriver.Dispatch.Invariant.{asked, Invariant, Fresh}

-- What the thread copies is the newest command stored.
loaded_newest :
    (m : Store)
    → Invariant m loading holding
    → take m.active_count (memcpy m.pending_count m.pending_buf m.active_buf) ≡ newest m.stored
loaded_newest m i = rw i.section.3 (
    take-memcpy m.pending_count m.pending_buf m.active_buf
      (ground (arith, i.sized.pending_fits, i.sized.pending_size))
    ∙ i.section.0)

pub Step-some_stored :
    {m m' : Store} {c c' : Section} {t t' : Thread}
    → Step m c t m' c' t'
    → Invariant m c t
    → 0 < asked m' c' t'
    → 0 < length m'.stored
Step-some_stored (lock_pending fits) i h = i.some_stored (ground arith)
Step-some_stored store_count i h = i.some_stored (ground arith)
Step-some_stored store_pulses i h = omega arith
Step-some_stored unlock_pending i h = i.some_stored (omega arith)
Step-some_stored (give g) i h = i.some_stored (omega arith)
Step-some_stored (wake g) i h = i.some_stored (omega arith)
Step-some_stored lock_active i h = i.some_stored (omega arith)
Step-some_stored load_count i h = i.some_stored (omega arith)
Step-some_stored load_pulses i h = i.some_stored (omega arith)
Step-some_stored unlock_active i h = i.some_stored (omega arith)
Step-some_stored send i h = i.some_stored (omega arith)

pub Step-Fresh :
    {m m' : Store} {c c' : Section} {t t' : Thread}
    → Step m c t m' c' t'
    → Invariant m c t
    → Fresh m' c' t'
Step-Fresh (lock_pending fits) i = i.fresh
Step-Fresh store_count i = i.fresh
Step-Fresh store_pulses i = inr (omega arith)
Step-Fresh unlock_pending i = inr (omega arith)
Step-Fresh (give g) i = inr (omega arith)
Step-Fresh (wake g) i = inr (omega arith)
Step-Fresh lock_active i = inr (omega arith)
Step-Fresh load_count i = inr (omega arith)
Step-Fresh {m = m} load_pulses i = inl (loaded_newest m i)
Step-Fresh unlock_active i = i.fresh
Step-Fresh send i = i.fresh

pub Step-Follows :
    {m m' : Store} {c c' : Section} {t t' : Thread}
    → Step m c t m' c' t'
    → Invariant m c t
    → Follows m'.taken m'.stored
Step-Follows (lock_pending fits) i = i.order
Step-Follows store_count i = i.order
Step-Follows store_pulses i = skip i.order
Step-Follows unlock_pending i = i.order
Step-Follows (give g) i = i.order
Step-Follows (wake g) i = i.order
Step-Follows lock_active i = i.order
Step-Follows load_count i = i.order
Step-Follows {m = m} load_pulses i =
    Follows-newest _ m.taken m.stored (loaded_newest m i) (i.some_stored (omega arith)) i.order
Step-Follows unlock_active i = i.order
Step-Follows send i = i.order

pub Step-Follows_sent :
    {m m' : Store} {c c' : Section} {t t' : Thread}
    → Step m c t m' c' t'
    → Invariant m c t
    → Follows m'.sent m'.stored
Step-Follows_sent (lock_pending fits) i = i.order_sent
Step-Follows_sent store_count i = i.order_sent
Step-Follows_sent store_pulses i = skip i.order_sent
Step-Follows_sent unlock_pending i = i.order_sent
Step-Follows_sent (give g) i = i.order_sent
Step-Follows_sent (wake g) i = i.order_sent
Step-Follows_sent lock_active i = i.order_sent
Step-Follows_sent load_count i = i.order_sent
Step-Follows_sent load_pulses i = i.order_sent
Step-Follows_sent unlock_active i = i.order_sent
Step-Follows_sent send i = rw (sym i.thread) i.order
