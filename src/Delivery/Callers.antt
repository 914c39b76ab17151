-- ===== src/Delivery/Callers.antt =====
-- What the two callers of `ir_dispatch_command` ask it to send.
use mathlib.Core.Option.{some-injective}
use shirokumakun_matter.Common.{
  ◌≡◌, refl, sym, ap, ◌∙◌, Bool, true, false, not, Option, none, some, List, [], ◌∷◌, ◌++◌, arith,
  length, drop, ◌==◌, if◌then◌else◌, ◌&&◌, length-append, length-drop,
}
use shirokumakun_matter.IrProtocol.{AcState, IrPulse, ir_max_pulses}
use shirokumakun_matter.IrProtocol.Waveform.{frame}
use shirokumakun_matter.IrProtocol.Buffer.{length-frame}
use shirokumakun_matter.IrProtocol.Transfer.{take-frame}
use shirokumakun_matter.ZclCallbacks.{
  Attributes, AttributePath, Cluster, on_off, thermostat, fan_control, other, on_cluster,
  ac_state_of, Zcl, Command, same_state, dispatch_new, send_ir_if_changed, post_attribute_change,
}
use shirokumakun_matter.ZclCallbacks.Desired.{IsSendable, ac_state_of-IsSendable}
use shirokumakun_matter.ZclCallbacks.Send.{
  IsValid, after, command_of, after-IsValid, dispatch_new_lem,
}
use shirokumakun_matter.ShellCommands.{Firmware, off_state, cmd_off}
use shirokumakun_matter.ShellCommands.Off.{after_off, cmd_off_lem}
use shirokumakun_matter.IrDriver.Dispatch.{Fits, call_pulses}
use shirokumakun_matter.Delivery.{call_of}

-- A call that sends the frame of a state.
pub record Asks (s : AcState) (c : Command) : Type 0 where
  pub fits : Fits (call_of c)
  pub framed : call_pulses (call_of c) ≡ frame s

-- A callback either leaves everything as it was, or records the state for which it calls.
pub data Changed (z : Zcl) : Zcl → Option Command → Type 0 where
  same : Changed z z none
  sends :
      (z' : Zcl) (c : Command)
      → IsValid z'
      → z'.last_sent_valid ≡ true
      → Asks z'.last_sent c
      → Changed z z' (some c)

framed_command : AcState → List IrPulse → Command
framed_command s buf = record { pulses = frame s ++ drop 427 buf; count = 427 }

length-framed :
    (s : AcState) (buf : List IrPulse)
    → length buf ≡ ir_max_pulses
    → length (frame s ++ drop 427 buf) ≡ ir_max_pulses
length-framed s buf room =
    omega (arith, length-append (frame s) (drop 427 buf), length-frame s, length-drop 427 buf, room)

framed_command-Asks :
    (s : AcState) (buf : List IrPulse) → length buf ≡ ir_max_pulses → Asks s (framed_command s buf)
unfolding framed_command
framed_command-Asks s buf room = record {
  fits = record { in_source = omega (arith, length-framed s buf room); in_buffer = omega arith };
  framed = take-frame s buf;
}

-- The same of what a handler gives.
abbrev HasChanged : Zcl → Option (Zcl × Option Command) → Type 0
HasChanged z none = Unit
HasChanged z (some (z', c)) = Changed z z' c

if-HasChanged :
    (z : Zcl) (b : Bool) (x y : Option (Zcl × Option Command))
    → HasChanged z x
    → HasChanged z y
    → HasChanged z (if b then x else y)
if-HasChanged z true x y hx hy = hx
if-HasChanged z false x y hx hy = hy

dispatch_new-HasChanged :
    (s : AcState) (z : Zcl) → IsSendable s → IsValid z → HasChanged z (dispatch_new s z)
unfolding after command_of framed_command
dispatch_new-HasChanged s z ok v = rw (dispatch_new_lem s z v) (
    sends (after s z) (command_of s z) (after-IsValid s z ok v) refl
      (framed_command-Asks s z.pulses v.room))

send-HasChanged : (a : Attributes) (z : Zcl) → IsValid z → HasChanged z (send_ir_if_changed a z)
unfolding send_ir_if_changed
send-HasChanged a z v = if-HasChanged z (not z.ir_ready) _ _ same (
    if-HasChanged z (z.last_sent_valid && same_state (ac_state_of a) z.last_sent) _ _ same
      (dispatch_new-HasChanged (ac_state_of a) z (ac_state_of-IsSendable a) v))

on_cluster-HasChanged :
    (c : Cluster) (a : Attributes) (z : Zcl) → IsValid z → HasChanged z (on_cluster c a z)
unfolding on_cluster
on_cluster-HasChanged on_off a z v = send-HasChanged a z v
on_cluster-HasChanged thermostat a z v = send-HasChanged a z v
on_cluster-HasChanged fan_control a z v = send-HasChanged a z v
on_cluster-HasChanged other a z v = same

post_attribute_change-HasChanged :
    (path : AttributePath) (a : Attributes) (z : Zcl)
    → IsValid z
    → HasChanged z (post_attribute_change path a z)
unfolding post_attribute_change
post_attribute_change-HasChanged path a z v =
    if-HasChanged z (not (path.endpoint_id == 1)) _ _ same
      (on_cluster-HasChanged path.cluster_id a z v)

pub post_attribute_change-Changed :
    (path : AttributePath) (a : Attributes) (z : Zcl) {z' : Zcl} {c : Option Command}
    → IsValid z
    → post_attribute_change path a z ≡ some (z', c)
    → Changed z z' c
post_attribute_change-Changed path a z {z'} {c} v e =
    rw e at (post_attribute_change-HasChanged path a z v)

first_of : List Command → Option Command
first_of [] = none
first_of (c ∷ cs) = some c

-- `ac off` calls for the frame of its state, and its array keeps its size.
pub cmd_off-Asks :
    (w w' : Firmware) (c : Command)
    → length w.off_pulses ≡ ir_max_pulses
    → cmd_off w ≡ some w'
    → w'.dispatched ≡ c ∷ []
    → Asks off_state c × (length w'.off_pulses ≡ ir_max_pulses)
unfolding after_off first_of framed_command
cmd_off-Asks w w' c room e d =
    let done = some-injective _ _ (sym e ∙ cmd_off_lem w (omega (arith, room))) in
    let first = some-injective _ _ (ap first_of (sym d ∙ ap (λ f. f.dispatched) done)) in
    (
      rw first (framed_command-Asks off_state w.off_pulses room),
      ap (λ f. length f.off_pulses) done ∙ length-framed off_state w.off_pulses room,
    )
