-- ===== src/Delivery/Tests.antt =====
-- The theorems on delivery at a change of the attributes that is dispatched and sent, with whole
-- numbers in place of floating-point ones.
use shirokumakun_matter.Common.{
  ℕ, ◌+◌, ◌*◌, ◌/◌, ◌≤◌, ◌≡◌, ◌≢◌, refl, Bool, true, false, some, List, [], ◌∷◌, ◌++◌, arith, take,
  ltb, replicate, length-append,
}
use shirokumakun_matter.Common.Int.{pos, pos_part}
use shirokumakun_matter.IrProtocol.{IrPulse, cooling, heating, auto, speed_3, ir_max_pulses}
use shirokumakun_matter.IrProtocol.Waveform.{pulse}
use shirokumakun_matter.IrProtocol.Receiver.{receive}
use shirokumakun_matter.IrProtocol.RoundTrip.{sent_mode}
use shirokumakun_matter.IrDriver.Dispatch.{
  Store, copied, waiting, memcpy, store_count, store_pulses, unlock_pending, give, wake,
  lock_active, load_count, load_pulses, unlock_active, send, initial, call_pulses,
}
use shirokumakun_matter.IrDriver.Dispatch.History.{newest}
use shirokumakun_matter.PdmManager.{Floats, Pdm}
use shirokumakun_matter.PdmManager.Verbose.{HasSpectrum}
use shirokumakun_matter.IrLink.{Window, Devices}
use shirokumakun_matter.IrDriver.{ir_driver_init}
use shirokumakun_matter.ZclCallbacks.{
  Attributes, AttributePath, ac_state_of, Zcl, Command, on_off, zcl_callbacks_ready,
  post_attribute_change, on_cluster,
}
use shirokumakun_matter.ZclCallbacks.Send.{
  IsValid, after, command_of, send_changed, zcl_callbacks_ready-IsValid,
}
use shirokumakun_matter.Delivery.{
  matter, System, call_of, change, matter_locks, dispatch, booted, Reachable, boot, next,
}
use shirokumakun_matter.Delivery.Settled.{Delivers, Reachable-Delivers}
use shirokumakun_matter.Delivery.Rest.{IsAtRest, rest-receive}
use shirokumakun_matter.Delivery.Sending.{at_send, IsTold, sent_of, at_send-IsTold}

abbrev cold_start : Zcl
cold_start = record {
  last_sent = record { power = false; mode = cooling; temp_c = 0; fan = auto };
  last_sent_valid = false;
  ir_ready = false;
  pulses = replicate ir_max_pulses (pulse 0 0);
}

cold_start-IsValid : IsValid cold_start
cold_start-IsValid = record { room = refl; sendable = λ e. cc }

abbrev restored : Attributes
restored = record {
  on_off = some false;
  system_mode = some 4;
  cooling_setpoint = some (pos 2600);
  heating_setpoint = some (pos 2199);
  fan_mode = some 2;
}

abbrev switched_on : Attributes
switched_on = record restored { on_off = some true }

abbrev on_off_path : AttributePath
on_off_path = record { endpoint_id = 1; cluster_id = on_off }

abbrev ready : Zcl
ready = zcl_callbacks_ready restored cold_start

differs : ac_state_of switched_on ≢ ready.last_sent
unfolding ac_state_of zcl_callbacks_ready
differs e = cc e

abbrev asked_for : Command
asked_for = command_of (ac_state_of switched_on) ready

ready_now : ready.ir_ready ≡ true
unfolding zcl_callbacks_ready
ready_now = refl

change_sends :
    post_attribute_change on_off_path switched_on ready
    ≡ some (after (ac_state_of switched_on) ready, some asked_for)
unfolding post_attribute_change on_cluster
change_sends =
    send_changed switched_on ready
      (zcl_callbacks_ready-IsValid restored cold_start cold_start-IsValid) ready_now differs

abbrev asked_pulses : List IrPulse
asked_pulses = call_pulses (call_of asked_for)

abbrev delivered : Store
delivered = record {
  sem = 0;
  to_give = 0;
  pending_buf = memcpy asked_for.count asked_for.pulses initial.pending_buf;
  pending_count = asked_for.count;
  active_buf =
      memcpy asked_for.count (memcpy asked_for.count asked_for.pulses initial.pending_buf)
        initial.active_buf;
  active_count = asked_for.count;
  stored = asked_pulses ∷ [];
  taken =
      take asked_for.count (
        memcpy asked_for.count (memcpy asked_for.count asked_for.pulses initial.pending_buf)
          initial.active_buf)
      ∷ [];
  sent =
      take asked_for.count (
        memcpy asked_for.count (memcpy asked_for.count asked_for.pulses initial.pending_buf)
          initial.active_buf)
      ∷ [];
}

abbrev settled : System
settled = record (booted restored cold_start) {
  zcl = after (ac_state_of switched_on) ready;
  last_caller = some matter;
  store = delivered;
}

-- The command is in the dispatch thread's buffer.
abbrev sending : System
sending = record settled { store = record delivered { sent = [] } }

sending-Reachable : Reachable restored cold_start (at_send sending)
sending-Reachable =
    let s₁ = next boot (change on_off_path switched_on refl change_sends) in
    let s₂ = next s₁ (matter_locks refl refl) in
    let s₃ =
      next (next (next s₂ (dispatch store_count tt)) (dispatch store_pulses tt))
        (dispatch unlock_pending tt) in
    let s₄ =
      next (next (next s₃ (dispatch (give (omega arith)) tt)) (dispatch (wake (omega arith)) tt))
        (dispatch lock_active tt) in
    next (next (next s₄ (dispatch load_count tt)) (dispatch load_pulses tt))
      (dispatch unlock_active tt)

settled-Reachable : Reachable restored cold_start settled
settled-Reachable = next sending-Reachable (dispatch send tt)

settled-IsAtRest : IsAtRest settled
settled-IsAtRest = record { no_call = refl; free = refl; waits = refl; quiet = refl }

rest-receive_example :
    receive (newest settled.store.sent)
    ≡ some (record { power = true; mode = heating; temp_c = 21; fan = speed_3 })
unfolding ac_state_of after sent_mode
rest-receive_example =
    rest-receive cold_start-IsValid settled-Reachable settled-IsAtRest matter refl

abbrev padded : Floats
padded = record {
  F = ℕ;
  zero_f = 0;
  of_ℤ = pos_part;
  add = λ a b. a + b;
  mul = λ a b. a * b;
  div = λ a b. a / b;
  gt = λ a b. ltb b a;
  fft = λ xs. xs ++ replicate 280 0;
  hann_window = λ i. 1;
}

padded-HasSpectrum : HasSpectrum padded
padded-HasSpectrum = record { ample = λ xs. omega (arith, length-append xs (replicate 280 0)) }

abbrev idle : Pdm padded
idle = record {
  detect_threshold = 25;
  pdm_buf = [] ∷ [] ∷ [];
  buf_ready_idx = 0;
  buf_available = false;
  next = 0;
  work_queued = false;
  ack_sem = 0;
  capture_active = false;
  verbose = false;
  verbose_own = false;
  capturing = false;
}

abbrev nothing : ℕ → Window padded
nothing i = record { sending = []; start = pos 0; listening = []; stop = pos 0 }

at_send-IsTold_example :
    (k : ℕ) × (d : Devices padded) × (acked : Bool) × (sent_of padded nothing sending.store
        ir_driver_init idle
      ≡ some (d, acked))
    × (1 ≤ k)
    × (k ≤ 10)
    × (acked ≡ false → k ≡ 10)
    × IsTold
        (record { power = true; mode = heating; temp_c = 21; fan = speed_3 })
        ir_driver_init
        k
        d.pwm
unfolding ac_state_of after sent_mode
at_send-IsTold_example =
    at_send-IsTold sending cold_start-IsValid sending-Reachable settled-IsAtRest matter refl padded
      nothing padded-HasSpectrum ir_driver_init idle

-- The change has been stored and not yet been sent.
abbrev stored : System
stored = record (booted restored cold_start) {
  zcl = after (ac_state_of switched_on) ready;
  last_caller = some matter;
  store = record initial {
    pending_buf = memcpy asked_for.count asked_for.pulses initial.pending_buf;
    pending_count = asked_for.count;
    stored = asked_pulses ∷ [];
  };
  section = copied;
}

stored-Reachable : Reachable restored cold_start stored
stored-Reachable =
    let s₁ = next boot (change on_off_path switched_on refl change_sends) in
    let s₂ = next s₁ (matter_locks refl refl) in
    next (next s₂ (dispatch store_count tt)) (dispatch store_pulses tt)

Reachable-Delivers_example :
    Delivers
      (record { power = true; mode = heating; temp_c = 21; fan = speed_3 })
      stored
      stored.store
      copied
      waiting
unfolding ac_state_of after
Reachable-Delivers_example = Reachable-Delivers cold_start-IsValid stored-Reachable refl matter refl
