-- ===== src/ZclCallbacks/Send.antt =====
-- `send_ir_if_changed` of src/zcl_callbacks.cpp: when it sends, and what.
use shirokumakun_matter.Common.{
  refl, ◌≡◌, ap, ◌∙◌, ◌≢◌, true, false, Option, none, some, ◌++◌, arith, length, take, drop,
  length-append, length-drop,
}
use shirokumakun_matter.IrProtocol.{AcState, ir_max_pulses}
use shirokumakun_matter.IrProtocol.Waveform.{frame}
use shirokumakun_matter.IrProtocol.Buffer.{length-frame, ac_encode_pulses-frame}
use shirokumakun_matter.IrProtocol.Receiver.{receive}
use shirokumakun_matter.IrProtocol.RoundTrip.{sent_mode, receive-frame}
use shirokumakun_matter.IrProtocol.Transfer.{take-frame}
use shirokumakun_matter.ZclCallbacks.{
  Attributes, ac_state_of, Zcl, Command, dispatch_new, send_ir_if_changed, zcl_callbacks_ready,
  Cluster, on_off, thermostat, fan_control, other, on_cluster, AttributePath, post_attribute_change,
}
use shirokumakun_matter.ZclCallbacks.Desired.{IsSendable, ac_state_of-IsSendable, same_state_iff}

-- What the air conditioner reads from a command.
unfoldable pub heard : Command → Option AcState
heard c = receive (take c.count c.pulses)

-- The static array keeps its declared size; a recorded state is one that may be sent.
pub record IsValid (z : Zcl) : Type 0 where
  pub room : length z.pulses ≡ ir_max_pulses
  pub sendable : z.last_sent_valid ≡ true → IsSendable z.last_sent

unfoldable pub command_of : AcState → Zcl → Command
command_of s z = record { pulses = frame s ++ drop 427 z.pulses; count = 427 }

unfoldable pub after : AcState → Zcl → Zcl
after s z = record z {
  last_sent = s;
  last_sent_valid = true;
  pulses = frame s ++ drop 427 z.pulses;
}

pub dispatch_new_lem :
    (s : AcState) (z : Zcl) → IsValid z → dispatch_new s z ≡ some (after s z, some (command_of s z))
unfolding dispatch_new after command_of
dispatch_new_lem s z v =
    rw (ac_encode_pulses-frame s z.pulses (omega (arith, v.room)), dispatch_new)

pub heard-command_of :
    (s : AcState) (z : Zcl)
    → IsSendable s
    → heard (command_of s z) ≡ some (record s { mode = sent_mode s })
unfolding heard command_of
heard-command_of s z ok =
    ap receive (take-frame s z.pulses) ∙ receive-frame s (omega (arith, ok.cool))

pub after-IsValid : (s : AcState) (z : Zcl) → IsSendable s → IsValid z → IsValid (after s z)
unfolding after
after-IsValid s z ok v = record {
  room = omega (
    arith,
    length-append (frame s) (drop 427 z.pulses),
    length-frame s,
    length-drop 427 z.pulses,
    v.room,
  );
  sendable = λ _. ok;
}

pub zcl_callbacks_ready-IsValid :
    (a : Attributes) (z : Zcl) → IsValid z → IsValid (zcl_callbacks_ready a z)
unfolding zcl_callbacks_ready
zcl_callbacks_ready-IsValid a z v = record {
  room = v.room;
  sendable = λ _. ac_state_of-IsSendable a;
}

-- Before `zcl_callbacks_ready` nothing is sent.
pub send_not_ready :
    (a : Attributes) (z : Zcl) → z.ir_ready ≡ false → send_ir_if_changed a z ≡ some (z, none)
unfolding send_ir_if_changed
send_not_ready a z e = rw e

pub send_same :
    (a : Attributes) (z : Zcl)
    → z.last_sent_valid ≡ true
    → ac_state_of a ≡ z.last_sent
    → send_ir_if_changed a z ≡ some (z, none)
unfolding send_ir_if_changed
send_same a z e same = ground (arith, same_state_iff (ac_state_of a) z.last_sent)

on_cluster_same :
    (c : Cluster) (a : Attributes) (z : Zcl)
    → z.last_sent_valid ≡ true
    → ac_state_of a ≡ z.last_sent
    → on_cluster c a z ≡ some (z, none)
unfolding on_cluster
on_cluster_same on_off a z e same = send_same a z e same
on_cluster_same thermostat a z e same = send_same a z e same
on_cluster_same fan_control a z e same = send_same a z e same
on_cluster_same other a z e same = refl

-- A callback that asks for the state sent last dispatches nothing.
pub post_same :
    (path : AttributePath) (a : Attributes) (z : Zcl)
    → z.last_sent_valid ≡ true
    → ac_state_of a ≡ z.last_sent
    → post_attribute_change path a z ≡ some (z, none)
unfolding post_attribute_change
post_same path a z e same = ground (arith, on_cluster_same path.cluster_id a z e same)

pub send_changed :
    (a : Attributes) (z : Zcl)
    → IsValid z
    → z.ir_ready ≡ true
    → ac_state_of a ≢ z.last_sent
    → send_ir_if_changed a z ≡ some (after (ac_state_of a) z, some (command_of (ac_state_of a) z))
unfolding send_ir_if_changed
send_changed a z v e differs =
    ground (arith, same_state_iff (ac_state_of a) z.last_sent, dispatch_new_lem (ac_state_of a) z v)
