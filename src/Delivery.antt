-- ===== src/Delivery.antt =====
-- How the parts of the firmware hand a command on: the Matter thread runs the attribute callbacks of
-- src/zcl_callbacks.cpp, the shell's thread runs `ac off` of src/shell_commands.cpp, and both
-- call `ir_dispatch_command` of src/ir_driver.cpp, whose dispatch thread sends. A step is a callback
-- or a shell command up to its call, or one statement of the dispatch code.
pub mod Callers
pub mod Kept
pub mod Rest
pub mod Settled
pub mod Sending
mod Tests
use shirokumakun_matter.Common.{◌≡◌, Option, none, some, List, [], ◌∷◌, replicate}
use shirokumakun_matter.IrProtocol.{IrPulse, ir_max_pulses}
use shirokumakun_matter.ZclCallbacks.{
  Attributes, AttributePath, Zcl, Command, post_attribute_change, zcl_callbacks_ready,
}
use shirokumakun_matter.ShellCommands.{Firmware, cmd_off}
use shirokumakun_matter.IrDriver.Dispatch.{
  Call, Fits, Store, Section, unlocked, entered, Thread, waiting, Step, initial,
}
use shirokumakun_matter.IrDriver.Dispatch.Progress.{Inner}

pub data Caller : Type 0 where
  matter shell : Caller

-- `matter_call` and `shell_call` are the arguments with which the two threads are about to lock the
-- mutex in `ir_dispatch_command`; `last_caller` is the one that locked it last.
pub record System : Type 0 where
  pub zcl : Zcl
  pub off_pulses : List IrPulse
  pub matter_call : Option Command
  pub shell_call : Option Command
  pub last_caller : Option Caller
  pub store : Store
  pub section : Section
  pub thread : Thread

-- A command as the arguments of `ir_dispatch_command`.
abbrev pub call_of : Command → Call
call_of c = record { pulses = c.pulses; count = c.count }

-- What `cmd_off` works on.
abbrev pub shell_view : System → Firmware
shell_view s = record { zcl = s.zcl; off_pulses = s.off_pulses; dispatched = [] }

-- A caller counts as free again once it has locked the mutex, which allows more than the code does.
-- The callback records its state when its call has returned; no other thread reads it before that.
pub data SystemStep (s : System) : System → Type 0 where
  change :
      {z : Zcl} {call : Option Command} (path : AttributePath) (a : Attributes)
      → s.matter_call ≡ none
      → post_attribute_change path a s.zcl ≡ some (z, call)
      → SystemStep s (record s { zcl = z; matter_call = call })
  ac_off :
      {w : Firmware} {call : Command}
      → s.shell_call ≡ none
      → cmd_off (shell_view s) ≡ some w
      → w.dispatched ≡ call ∷ []
      → SystemStep s (record s { off_pulses = w.off_pulses; shell_call = some call })
  matter_locks :
      {call : Command}
      → s.matter_call ≡ some call
      → s.section ≡ unlocked
      → SystemStep s (record s {
        matter_call = none;
        last_caller = some matter;
        section = entered (call_of call);
      })
  shell_locks :
      {call : Command}
      → s.shell_call ≡ some call
      → s.section ≡ unlocked
      → SystemStep s (record s {
        shell_call = none;
        last_caller = some shell;
        section = entered (call_of call);
      })
  dispatch :
      {m : Store} {c : Section} {t : Thread} (step : Step s.store s.section s.thread m c t)
      → Inner step
      → SystemStep s (record s { store = m; section = c; thread = t })

abbrev no_pulse : IrPulse
no_pulse = record { mark_us = 0; space_us = 0 }

-- After `zcl_callbacks_ready`, with the attributes as the stack restored them.
abbrev pub booted : Attributes → Zcl → System
booted a z = record {
  zcl = zcl_callbacks_ready a z;
  off_pulses = replicate ir_max_pulses no_pulse;
  matter_call = none;
  shell_call = none;
  last_caller = none;
  store = initial;
  section = unlocked;
  thread = waiting;
}

-- The states that some interleaving reaches.
pub data Reachable (a : Attributes) (z : Zcl) : System → Type 0 where
  boot : Reachable a z (booted a z)
  next : {s s' : System} → Reachable a z s → SystemStep s s' → Reachable a z s'
