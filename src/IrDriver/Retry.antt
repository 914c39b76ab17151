-- ===== src/IrDriver/Retry.antt =====
-- The retries of `ir_send_command` of src/ir_driver.cpp.
use shirokumakun_matter.Common.{
  ℕ, zero, suc, ◌<◌, ◌≡◌, refl, inl, inr, Bool, true, false, Option, some, arith, if◌then◌else◌,
  Bool-cases,
}
use shirokumakun_matter.IrDriver.{ir_retry_count, ir_ack_timeout_ms, attempts, ir_send_command}

module _ {W : Type 0} (transmit : W → Option W) (start_listen : W → W)
    (collect_ack : ℕ → W → Option (W × Bool)) where
  -- One attempt: the frame went out as far as `w₁`, and the listening left `w'` and heard `heard`.
  pub record Attempt (w w' : W) (heard : Bool) : Type 0 where
    pub sent : W
    pub transmitted : transmit w ≡ some sent
    pub listened : collect_ack ir_ack_timeout_ms (start_listen sent) ≡ some (w', heard)

  -- `k` attempts in a row with no acknowledgement.
  pub data Unheard : ℕ → W → W → Type 0 where
    start : {w : W} → Unheard zero w w
    again : {k : ℕ} {w w' w'' : W} → Attempt w w' false → Unheard k w' w'' → Unheard (suc k) w w''

  -- What `left` attempts come to.
  pub data Outcome (left : ℕ) (w : W) (result : Option (W × Bool)) : Type 0 where
    acknowledged :
        (k : ℕ) (w' w'' : W)
        → k < left
        → Unheard k w w'
        → Attempt w' w'' true
        → result ≡ some (w'', true)
        → Outcome left w result
    exhausted : (w' : W) → Unheard left w w' → result ≡ some (w', false) → Outcome left w result

  Outcome-again :
      (left : ℕ) (w w' : W) (result : Option (W × Bool))
      → Attempt w w' false
      → Outcome left w' result
      → Outcome (suc left) w result
  Outcome-again left w w' result a (acknowledged k v v' lt u ack e) =
      acknowledged (suc k) v v' (omega arith) (again a u) ack e
  Outcome-again left w w' result a (exhausted v u e) = exhausted v (again a u) e

  -- Neither a transmission nor a wait for the acknowledgement goes wrong.
  pub record NeverFails : Type 0 where
    pub transmits : (w : W) → (w' : W) × (transmit w ≡ some w')
    pub collects :
        (timeout : ℕ) (w : W)
        → (w' : W) × (acked : Bool) × (collect_ack timeout w ≡ some (w', acked))

  attempts_step :
      (left : ℕ) (w w₁ w₂ : W) (acked : Bool)
      → transmit w ≡ some w₁
      → collect_ack ir_ack_timeout_ms (start_listen w₁) ≡ some (w₂, acked)
      → attempts transmit start_listen collect_ack (suc left) w
        ≡ (if acked then some (w₂, true) else attempts transmit start_listen collect_ack left w₂)
  unfolding attempts
  attempts_step left w w₁ w₂ acked sent listened = rw (sent, attempts) (rw (listened, attempts))

  attempts-Outcome :
      NeverFails
      → (left : ℕ) (w : W) → Outcome left w (attempts transmit start_listen collect_ack left w)
  unfolding attempts
  attempts-Outcome sound zero w = exhausted w start refl
  attempts-Outcome sound (suc left) w =
      let (w₁, sent) = sound.transmits w in
      let (w₂, acked, listened) = sound.collects ir_ack_timeout_ms (start_listen w₁) in
      let a : Attempt w w₂ acked = record { sent = w₁; transmitted = sent; listened = listened } in
      rw (attempts_step left w w₁ w₂ acked sent listened) (elim (Bool-cases acked) [
        | inl heard ↦ rw heard (acknowledged zero w w₂ (omega arith) start (rw (← heard) a) refl)
        | inr unheard ↦
            rw unheard
              (Outcome-again left w w₂ _ (rw (← unheard) a) (attempts-Outcome sound left w₂))
      ])

  -- If transmitting and the wait for the acknowledgement always succeed, `ir_send_command` ends:
  -- with true after at most 9 attempts that were not heard and one that was, or with false after
  -- exactly 10 that were not heard.
  pub ir_send_command-Outcome :
      NeverFails
      → (w : W) → Outcome ir_retry_count w (ir_send_command transmit start_listen collect_ack w)
  unfolding ir_send_command
  ir_send_command-Outcome sound w = attempts-Outcome sound ir_retry_count w
