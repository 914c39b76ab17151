-- ===== src/IrDriver/Dispatch.antt =====
-- The dispatch thread of src/ir_driver.cpp, and any number of threads that call
-- `ir_dispatch_command`, interleaved in any order. A step is one statement of either function.
pub mod History
pub mod Copy
pub mod Invariant
pub mod Sections
pub mod Sizes
pub mod Orders
pub mod Delivery
pub mod Progress
use shirokumakun_matter.Common.{
  ℕ, ◌+◌, ◌-◌, ◌≤◌, ◌<◌, List, [], ◌∷◌, ◌++◌, length, take, drop, replicate,
}
use shirokumakun_matter.IrProtocol.{IrPulse, ir_max_pulses}

-- What `ir_dispatch_command` is called with. The caller's array is not written meanwhile.
pub record Call : Type 0 where
  pub pulses : List IrPulse
  pub count : ℕ  -- uint16_t

abbrev pub call_pulses : Call → List IrPulse
call_pulses cmd = take cmd.count cmd.pulses

-- A call may ask for no more pulses than its array has, nor than the buffers hold.
pub record Fits (cmd : Call) : Type 0 where
  pub in_source : cmd.count ≤ length cmd.pulses
  pub in_buffer : cmd.count ≤ ir_max_pulses

abbrev pub memcpy : ℕ → List IrPulse → List IrPulse → List IrPulse
memcpy count from to = take count from ++ drop count to

-- The static variables. `ir_dispatch_sem` is `sem`; `to_give` counts the callers that have left
-- the mutex and not yet given the semaphore. The three lists, newest first, record the commands
-- stored by callers, those copied by the thread, and those handed to `ir_send_command`.
pub record Store : Type 0 where
  pub sem : ℕ
  pub to_give : ℕ
  pub pending_buf : List IrPulse
  pub pending_count : ℕ  -- uint16_t
  pub active_buf : List IrPulse
  pub active_count : ℕ  -- uint16_t
  pub stored : List (List IrPulse)
  pub taken : List (List IrPulse)
  pub sent : List (List IrPulse)

-- Who holds `ir_dispatch_mutex`, and the statements its holder has done.
pub data Section : Type 0 where
  unlocked : Section
  -- a caller
  entered : Call → Section
  counted : Call → Section
  copied : Section
  -- the dispatch thread
  locked : Section
  loading : Section
  loaded : Section

-- Where the dispatch thread is in its loop.
pub data Thread : Type 0 where
  waiting : Thread
  woken : Thread
  holding : Thread
  ready : Thread

pub data Step (m : Store) : Section → Thread → Store → Section → Thread → Type 0 where
  -- `ir_dispatch_command`
  lock_pending : {t : Thread} {cmd : Call} → Fits cmd → Step m unlocked t m (entered cmd) t
  store_count :
      {t : Thread} {cmd : Call}
      → Step m (entered cmd) t (record m { pending_count = cmd.count }) (counted cmd) t
  store_pulses :
      {t : Thread} {cmd : Call}
      → Step m
          (counted cmd)
          t
          (record m {
            pending_buf = memcpy cmd.count cmd.pulses m.pending_buf;
            stored = call_pulses cmd ∷ m.stored;
          })
          copied
          t
  unlock_pending : {t : Thread} → Step m copied t (record m { to_give = m.to_give + 1 }) unlocked t
  give :
      {c : Section} {t : Thread}
      → 0 < m.to_give
      → Step m c t (record m { sem = 1; to_give = m.to_give - 1 }) c t
  -- `ir_dispatch_thread_fn`
  wake : {c : Section} → 0 < m.sem → Step m c waiting (record m { sem = m.sem - 1 }) c woken
  lock_active : Step m unlocked woken m locked holding
  load_count : Step m locked holding (record m { active_count = m.pending_count }) loading holding
  load_pulses :
      Step m loading holding
        (record m {
          active_buf = memcpy m.pending_count m.pending_buf m.active_buf;
          taken = take m.active_count (memcpy m.pending_count m.pending_buf m.active_buf) ∷ m.taken;
        })
        loaded
        holding
  unlock_active : Step m loaded holding m unlocked ready
  send :
      {c : Section}
      → Step m c ready (record m { sent = take m.active_count m.active_buf ∷ m.sent }) c waiting

abbrev no_pulse : IrPulse
no_pulse = record { mark_us = 0; space_us = 0 }

abbrev pub initial : Store
initial = record {
  sem = 0;
  to_give = 0;
  pending_buf = replicate ir_max_pulses no_pulse;
  pending_count = 0;
  active_buf = replicate ir_max_pulses no_pulse;
  active_count = 0;
  stored = [];
  taken = [];
  sent = [];
}

-- The states that some interleaving reaches.
pub data Reach : Store → Section → Thread → Type 0 where
  start : Reach initial unlocked waiting
  later :
      {m m' : Store} {c c' : Section} {t t' : Thread}
      → Reach m c t
      → Step m c t m' c' t'
      → Reach m' c' t'
