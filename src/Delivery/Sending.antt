-- ===== src/Delivery/Sending.antt =====
-- The call of `ir_send_command` that the dispatch thread of src/ir_driver.cpp makes when no other
-- command is under way: what the air conditioner reads from the light of the LED.
use mathlib.Core.Path.{ap₂}
use shirokumakun_matter.Common.{
  ℕ, zero, suc, ◌≤◌, ◌<◌, ◌≡◌, ◌⊎◌, refl, sym, ap, ◌∙◌, Bool, false, Option, some, List, [], ◌∷◌,
  ◌++◌, arith, length, take, drop, inl, inr,
}
use shirokumakun_matter.IrProtocol.{AcState, IrPulse, ir_max_pulses}
use shirokumakun_matter.IrProtocol.Waveform.{frame}
use shirokumakun_matter.IrProtocol.Buffer.{length-frame}
use shirokumakun_matter.IrProtocol.Receiver.{receive}
use shirokumakun_matter.IrProtocol.RoundTrip.{sent_mode}
use shirokumakun_matter.IrDriver.{Op, Pwm}
use shirokumakun_matter.IrDriver.Carrier.{dark, light, measure}
use shirokumakun_matter.IrDriver.Dispatch.{Store, waiting, ready, send}
use shirokumakun_matter.IrDriver.Dispatch.Delivery.{Reach-Invariant}
use shirokumakun_matter.PdmManager.{Floats, Pdm}
use shirokumakun_matter.PdmManager.Verbose.{HasSpectrum}
use shirokumakun_matter.IrLink.{Window, Devices, send_command}
use shirokumakun_matter.IrLink.Read.{receive-aired}
use shirokumakun_matter.IrLink.Sent.{times, powered, send_command-IsSent}
use shirokumakun_matter.ZclCallbacks.{Attributes, Zcl}
use shirokumakun_matter.ZclCallbacks.Send.{IsValid}
use shirokumakun_matter.Delivery.{Caller, System, dispatch, Reachable, next}
use shirokumakun_matter.Delivery.Kept.{Reachable-Kept}
use shirokumakun_matter.Delivery.Rest.{IsAtRest, meant, meant_fits, rest_frame}

take-drop : (n : ℕ) (l : List IrPulse) → take n l ++ drop n l ≡ l
take-drop zero l = refl
take-drop (suc n) [] = refl
take-drop (suc n) (p ∷ l) = ap (λ rest. p ∷ rest) (take-drop n l)

length-take-either :
    (n : ℕ) (l : List IrPulse) → (length (take n l) ≡ n) ⊎ (length (take n l) ≡ length l)
length-take-either zero l = inl refl
length-take-either (suc n) [] = inr refl
length-take-either (suc n) (p ∷ l) = elim (length-take-either n l) [
  | inl whole ↦ inl (omega arith)
  | inr short ↦ inr (omega arith)
]

-- The dispatch thread has the command and is about to send it.
abbrev pub at_send : System → System
at_send s = record s { thread = ready }

-- The record of the system once it has been sent.
abbrev pub after_send : System → System
after_send s = record s {
  store = record s.store { sent = take s.store.active_count s.store.active_buf ∷ s.store.sent };
  thread = waiting;
}

-- What `k` attempts leave of the peripheral: they have done the operations `one` again and again,
-- `k` times, from the carrier in `one` the air conditioner reads the state, and the LED is dark.
pub record IsTold (state : AcState) (w : Pwm) (k : ℕ) (w' : Pwm) : Type 0 where
  pub one : List Op
  pub repeated : w'.ops ≡ w.ops ++ times k one
  pub told : receive (measure false 0 0 one) ≡ some state
  pub off : light w'.duty_value ≡ dark

-- The buffer of the dispatch thread holds the frame, and the count is its length.
record IsLoaded (state : AcState) (m : Store) : Type 0 where
  counted : m.active_count ≡ length (frame state)
  loaded : m.active_buf ≡ frame state ++ drop m.active_count m.active_buf

at_send-IsLoaded :
    (m : Store) (state : AcState)
    → length m.active_buf ≡ ir_max_pulses
    → take m.active_count m.active_buf ≡ frame state
    → IsLoaded state m
at_send-IsLoaded m state room framed = record {
  counted = elim (length-take-either m.active_count m.active_buf) [
    | inl whole ↦ sym whole ∙ ap length framed
    | inr short ↦ absurd (omega (arith, sym short ∙ ap length framed, length-frame state, room))
  ];
  loaded =
      sym (take-drop m.active_count m.active_buf)
      ∙ ap (λ ps. ps ++ drop m.active_count m.active_buf) framed;
}

module _ (floats : Floats) (air : ℕ → Window floats) where
  -- The command of the store, given to `ir_send_command`.
  abbrev pub sent_of : Store → Pwm → Pdm floats → Option (Devices floats × Bool)
  sent_of m w p =
      send_command floats air m.active_buf m.active_count (record { pwm = w; pdm = p; round = 0 })

  send_command-IsTold :
      (m : Store) (state : AcState)
      → state.temp_c < 64
      → IsLoaded state m
      → HasSpectrum floats
      → (w : Pwm) (p : Pdm floats)
      → (k : ℕ) × (d : Devices floats) × (acked : Bool) × (sent_of m w p ≡ some (d, acked))
        × (1 ≤ k)
        × (k ≤ 10)
        × (acked ≡ false → k ≡ 10)
        × IsTold (record state { mode = sent_mode state }) w k d.pwm
  send_command-IsTold m state fits l spectrum w p =
      let rest = drop m.active_count m.active_buf in
      let (k, d, acked, returned, some_made, at_most, exhausted, is_sent) =
        send_command-IsSent floats air (frame state) rest spectrum w p in
      (
        k,
        d,
        acked,
        ap₂ (λ buf count. send_command floats air buf count (powered floats air [] [] w p)) l.loaded
              l.counted
            ∙ returned,
        some_made,
        at_most,
        exhausted,
        record {
          one = is_sent.one;
          repeated = is_sent.repeated;
          told = ap receive is_sent.measured ∙ receive-aired state fits;
          off = is_sent.off;
        },
      )

-- However the callbacks, `ac off`, their calls and the dispatch thread interleave after
-- `zcl_callbacks_ready`: if the thread is about to send and the system would be at rest once it has,
-- then, while the spectrum has its size, its call of `ir_send_command` returns, whatever happens to
-- the microphone and whatever the LED did before, after 1 to 10 attempts, 10 if it returns false.
-- All attempts do the same operations, from the carrier in which, with the time that each load
-- takes, the air conditioner reads what the last caller meant, the mode of an off command being
-- heating; and the LED is left dark.
pub at_send-IsTold :
    {a : Attributes} {z : Zcl} (s : System)
    → IsValid z
    → Reachable a z (at_send s)
    → IsAtRest (after_send s)
    → (c : Caller) → s.last_caller ≡ some c
    → (floats : Floats) (air : ℕ → Window floats) → HasSpectrum floats
    → (w : Pwm) (p : Pdm floats)
    → (k : ℕ) × (d : Devices floats) × (acked : Bool) × (sent_of floats air s.store w p
        ≡ some (d, acked))
      × (1 ≤ k)
      × (k ≤ 10)
      × (acked ≡ false → k ≡ 10)
      × IsTold (record (meant c s.zcl) { mode = sent_mode (meant c s.zcl) }) w k d.pwm
at_send-IsTold s v r i c e floats air spectrum w p =
    let before = Reachable-Kept v r in
    let kept = Reachable-Kept v (next r (dispatch send tt)) in
    send_command-IsTold floats air s.store (meant c s.zcl) (meant_fits (after_send s) c kept)
      (at_send-IsLoaded s.store (meant c s.zcl) (Reach-Invariant before.reach).sized.active_size
        (rest_frame (after_send s) c kept i e))
      spectrum w p
