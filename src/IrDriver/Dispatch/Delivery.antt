-- ===== src/IrDriver/Dispatch/Delivery.antt =====
-- What the dispatch thread of src/ir_driver.cpp delivers, whatever the interleaving.
use shirokumakun_matter.Common.{◌≤◌, ◌≡◌, refl, sym, inl, inr, arith, length}
use shirokumakun_matter.IrDriver.Dispatch.{
  Store, Section, Thread, waiting, Step, Reach, start, later,
}
use shirokumakun_matter.IrDriver.Dispatch.History.{Follows, none_yet, newest}
use shirokumakun_matter.IrDriver.Dispatch.Invariant.{asked, Invariant}
use shirokumakun_matter.IrDriver.Dispatch.Sections.{Step-InSection, Step-InThread}
use shirokumakun_matter.IrDriver.Dispatch.Sizes.{Step-Sized}
use shirokumakun_matter.IrDriver.Dispatch.Orders.{
  Step-some_stored, Step-Fresh, Step-Follows, Step-Follows_sent,
}

Step-Invariant :
    {m m' : Store} {c c' : Section} {t t' : Thread}
    → Step m c t m' c' t'
    → Invariant m c t
    → Invariant m' c' t'
Step-Invariant s i = record {
  sized = Step-Sized s i;
  section = Step-InSection s i;
  thread = Step-InThread s i;
  some_stored = Step-some_stored s i;
  fresh = Step-Fresh s i;
  order = Step-Follows s i;
  order_sent = Step-Follows_sent s i;
}

pub Reach-Invariant : {m : Store} {c : Section} {t : Thread} → Reach m c t → Invariant m c t
Reach-Invariant start = record {
  sized = record { pending_size = refl; active_size = refl; pending_fits = omega arith };
  section = refl;
  thread = refl;
  some_stored = λ h. absurd (omega (arith, h));
  fresh = inl refl;
  order = none_yet;
  order_sent = none_yet;
}
Reach-Invariant (later r s) = Step-Invariant s (Reach-Invariant r)

-- In every state that some interleaving reaches, what has been handed to `ir_send_command` are
-- whole commands that callers stored, in the order in which they were stored; a command may be
-- skipped or repeated.
pub Reach-Follows : {m : Store} {c : Section} {t : Thread} → Reach m c t → Follows m.sent m.stored
Reach-Follows r = (Reach-Invariant r).order_sent

-- Once no semaphore is given or to be given, no caller is between storing its pulses and
-- unlocking, and the thread waits, the last command handed to `ir_send_command` is the last one
-- stored.
pub Reach-idle :
    {m : Store} {c : Section}
    → Reach m c waiting
    → asked m c waiting ≡ 0
    → newest m.sent ≡ newest m.stored
Reach-idle {m = m} r idle =
    rw (sym (Reach-Invariant r).thread)
      (elim (Reach-Invariant r).fresh [ inl e ↦ e | inr h ↦ absurd (omega (arith, h, idle)) ])

-- In every state that some interleaving reaches, the copy of the dispatch thread stays inside
-- both of its buffers.
pub Reach-in_bounds :
    {m : Store} {c : Section} {t : Thread}
    → Reach m c t
    → (m.pending_count ≤ length m.pending_buf) × (m.pending_count ≤ length m.active_buf)
Reach-in_bounds r =
    let i = (Reach-Invariant r).sized in
    (ground (arith, i.pending_fits, i.pending_size), ground (arith, i.pending_fits, i.active_size))
