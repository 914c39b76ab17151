-- ===== src/Delivery/Rest.antt =====
-- What the air conditioner has been told once the system is at rest.
use shirokumakun_matter.Common.{◌<◌, ◌≡◌, ap, ◌∙◌, some, none, arith}
use shirokumakun_matter.IrProtocol.{AcState}
use shirokumakun_matter.IrProtocol.Waveform.{frame}
use shirokumakun_matter.IrProtocol.Receiver.{receive}
use shirokumakun_matter.IrProtocol.RoundTrip.{sent_mode, receive-frame}
use shirokumakun_matter.IrDriver.Dispatch.{unlocked, waiting}
use shirokumakun_matter.IrDriver.Dispatch.History.{newest}
use shirokumakun_matter.IrDriver.Dispatch.Invariant.{asked}
use shirokumakun_matter.IrDriver.Dispatch.Delivery.{Reach-idle}
use shirokumakun_matter.ZclCallbacks.{Attributes, Zcl}
use shirokumakun_matter.ZclCallbacks.Send.{IsValid}
use shirokumakun_matter.ShellCommands.{off_state}
use shirokumakun_matter.Delivery.{Caller, matter, shell, System, Reachable}
use shirokumakun_matter.Delivery.Kept.{current, Kept, Reachable-Kept}

-- No call of the Matter thread is under way, the mutex is free, no semaphore is given or to be
-- given, and the dispatch thread waits.
pub record IsAtRest (s : System) : Type 0 where
  pub no_call : s.matter_call ≡ none
  pub free : s.section ≡ unlocked
  pub waits : s.thread ≡ waiting
  pub quiet : asked s.store s.section s.thread ≡ 0

-- The state that the last caller meant.
abbrev pub meant : Caller → Zcl → AcState
meant matter z = z.last_sent
meant shell z = off_state

-- The newest command that was sent is the newest that was stored.
rest_newest : (s : System) → Kept s → IsAtRest s → newest s.store.sent ≡ current s.store s.section
rest_newest s k i = rw i.free (Reach-idle (rw i.waits at k.reach) (rw i.waits at i.quiet))

pub rest_frame :
    (s : System) (c : Caller)
    → Kept s
    → IsAtRest s
    → s.last_caller ≡ some c
    → newest s.store.sent ≡ frame (meant c s.zcl)
rest_frame s matter k i e = rest_newest s k i ∙ k.from_matter e i.no_call
rest_frame s shell k i e = rest_newest s k i ∙ k.from_shell e

pub meant_fits : (s : System) (c : Caller) → Kept s → (meant c s.zcl).temp_c < 64
meant_fits s matter k = omega (arith, (k.valid.sendable k.known).cool)
meant_fits s shell k = omega arith

-- However the attribute callbacks, `ac off`, their calls of `ir_dispatch_command` and the dispatch
-- thread interleave after `zcl_callbacks_ready`: once the system is at rest, the last command sent
-- is one from which the air conditioner reads what the last caller meant, the state that the
-- callbacks recorded last or off, the mode of an off command being heating.
pub rest-receive :
    {a : Attributes} {z : Zcl} {s : System}
    → IsValid z
    → Reachable a z s
    → IsAtRest s
    → (c : Caller) → s.last_caller ≡ some c
    → receive (newest s.store.sent)
      ≡ some (record (meant c s.zcl) { mode = sent_mode (meant c s.zcl) })
rest-receive {s = s} v r i c e =
    let k = Reachable-Kept v r in
    ap receive (rest_frame s c k i e) ∙ receive-frame (meant c s.zcl) (meant_fits s c k)
