-- ===== src/IrDriver/Dispatch/Invariant.antt =====
-- What holds between the statements of the dispatch code of src/ir_driver.cpp.
use shirokumakun_matter.Common.{ℕ, ◌+◌, ◌≤◌, ◌<◌, ◌≡◌, ◌⊎◌, ◌∷◌, length, take}
use shirokumakun_matter.IrProtocol.{ir_max_pulses}
use shirokumakun_matter.IrDriver.Dispatch.{
  Fits, Store, Section, unlocked, entered, counted, copied, locked, loading, loaded, Thread,
  waiting, woken, holding, ready,
}
use shirokumakun_matter.IrDriver.Dispatch.History.{Follows, newest}

-- How often the thread has still been asked to look: gives that are to come or not yet answered.
abbrev pub asked_section : Section → ℕ
asked_section copied = 1
asked_section locked = 1
asked_section loading = 1
asked_section _ = 0

abbrev pub asked_thread : Thread → ℕ
asked_thread woken = 1
asked_thread _ = 0

abbrev pub asked : Store → Section → Thread → ℕ
asked m c t = m.sem + m.to_give + asked_section c + asked_thread t

-- The pending buffer holds the newest command stored.
abbrev pub Settled : Store → Type 0
Settled m = take m.pending_count m.pending_buf ≡ newest m.stored

abbrev pub Delivered : Store → Type 0
Delivered m = m.taken ≡ take m.active_count m.active_buf ∷ m.sent

abbrev pub Holds : Thread → Type 0
Holds holding = Unit
Holds _ = ⊥

abbrev pub InSection : Store → Section → Thread → Type 0
InSection m unlocked t = Settled m
InSection m (entered cmd) t = Settled m × Fits cmd
InSection m (counted cmd) t = Fits cmd × (m.pending_count ≡ cmd.count)
InSection m copied t = Settled m
InSection m locked t = Settled m × Holds t × (m.taken ≡ m.sent)
InSection m loading t =
    Settled m × Holds t × (m.taken ≡ m.sent) × (m.active_count ≡ m.pending_count)
InSection m loaded t = Settled m × Holds t × Delivered m

abbrev pub InThread : Store → Thread → Type 0
InThread m waiting = m.taken ≡ m.sent
InThread m woken = m.taken ≡ m.sent
InThread m holding = Unit
InThread m ready = Delivered m

pub record Sized (m : Store) : Type 0 where
  pub pending_size : length m.pending_buf ≡ ir_max_pulses
  pub active_size : length m.active_buf ≡ ir_max_pulses
  pub pending_fits : m.pending_count ≤ ir_max_pulses

abbrev pub Fresh : Store → Section → Thread → Type 0
Fresh m c t = (newest m.taken ≡ newest m.stored) ⊎ (0 < asked m c t)

pub record Invariant (m : Store) (c : Section) (t : Thread) : Type 0 where
  pub sized : Sized m
  pub section : InSection m c t
  pub thread : InThread m t
  pub some_stored : 0 < asked m c t → 0 < length m.stored
  pub fresh : Fresh m c t
  pub order : Follows m.taken m.stored
  pub order_sent : Follows m.sent m.stored
