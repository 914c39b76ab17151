-- ===== src/ZclCallbacks/Desired.antt =====
-- The state that src/zcl_callbacks.cpp derives from the attributes.
use Prim.Native.Nat.{min, max}
use shirokumakun_matter.Common.{ℕ, zero, suc, ◌+◌, ◌-◌, ◌/◌, ◌≤◌, ◌<◌, ◌≡◌, ◌≢◌, true, arith, ◌↔◌}
use shirokumakun_matter.Common.Int.{ℤ, pos, neg, cast_u8}
use shirokumakun_matter.IrProtocol.{AcMode, AcState, FanSpeed, mode_code, fan_code, off}
use shirokumakun_matter.ZclCallbacks.{
  Attributes, ac_state_of, clamped_temp, setpoint_of, get, same_state, system_mode_to_ac_mode,
}

-- What `send_ir_if_changed` may send.
pub record IsSendable (s : AcState) : Type 0 where
  pub warm : 16 ≤ s.temp_c
  pub cool : s.temp_c ≤ 30
  pub moded : s.mode ≢ off

clamped_temp_bounds : (t : ℤ) → (16 ≤ clamped_temp t) × (clamped_temp t ≤ 30)
unfolding clamped_temp
clamped_temp_bounds t = ground arith

system_mode_to_ac_mode-ne-off : (m : ℕ) → system_mode_to_ac_mode m ≢ off
unfolding system_mode_to_ac_mode
system_mode_to_ac_mode-ne-off m = ground arith

-- Whatever the attributes hold, also where their reads fail, the state built from them has a
-- temperature from 16 to 30 degrees and an operating mode.
pub ac_state_of-IsSendable : (a : Attributes) → IsSendable (ac_state_of a)
unfolding ac_state_of
ac_state_of-IsSendable a = record {
  warm = (clamped_temp_bounds (setpoint_of a (get a.system_mode 3))).0;
  cool = (clamped_temp_bounds (setpoint_of a (get a.system_mode 3))).1;
  moded = system_mode_to_ac_mode-ne-off (get a.system_mode 3);
}

-- A setpoint from 0 to 255.99 degrees is cut to whole degrees and then clamped to 16 to 30.
pub clamped_temp-clamp : (n : ℕ) → n < 25600 → clamped_temp (pos n) ≡ min 30 (max 16 (n / 100))
unfolding clamped_temp
clamped_temp-clamp n h = ground arith

cast_u8-neg : (q : ℕ) → 0 < q → q < 256 → cast_u8 (neg q) ≡ 256 - q
cast_u8-neg zero lo hi = absurd (omega arith)
cast_u8-neg (suc q) lo hi = omega arith

-- The cast to `uint8_t` comes before the clamp, so a setpoint from -226.99 to -1 degrees, which
-- lies below the range, is sent as its upper end, 30.
pub clamped_temp_negative : (m : ℕ) → 100 ≤ m → m < 22700 → clamped_temp (neg m) ≡ 30
unfolding clamped_temp
clamped_temp_negative zero lo hi = absurd (omega arith)
clamped_temp_negative (suc m) lo hi = ground (arith, cast_u8-neg ((m + 1) / 100))

mode_code-injective : (m n : AcMode) → mode_code m ≡ mode_code n → m ≡ n
mode_code-injective m n h = ground arith

fan_code-injective : (f g : FanSpeed) → fan_code f ≡ fan_code g → f ≡ g
fan_code-injective f g h = ground arith

-- The comparison of the four fields decides equality.
pub same_state_iff : (s t : AcState) → (same_state s t ≡ true) ↔ (s ≡ t)
unfolding same_state
same_state_iff s t =
    ground (arith, mode_code-injective s.mode t.mode, fan_code-injective s.fan t.fan)
