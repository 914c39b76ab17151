-- ===== src/ZclCallbacks.antt =====
-- The attribute callbacks of src/zcl_callbacks.cpp; the children hold the proofs.
-- The attribute store of the Matter SDK is a parameter: what each `Get` of endpoint 1 gives at the
-- time of the call, `none` where it fails and leaves the variable as it was (its status is ignored).
-- `none` as a result of a handler is a write past the end of the static pulse array.
pub mod Desired
pub mod Requested
pub mod Send
pub mod Events
pub mod Quiet
mod Tests
use shirokumakun_matter.Common.{
  ℕ, ◌+◌, ◌/◌, Bool, true, false, not, ◌&&◌, Option, none, some, List, [], ◌∷◌, ltb, ◌==◌,
  if◌then◌else◌,
}
use shirokumakun_matter.Common.Int.{ℤ, pos, negsuc, neg, cast_u8}
use shirokumakun_matter.IrProtocol.{
  AcMode, mode_code, ventilation, cooling, dehumidify, heating, FanSpeed, fan_code, speed_1,
  speed_3, speed_5, auto, AcState, IrPulse, Cursor, ac_encode_pulses,
}

-- OnOff, SystemMode, OccupiedCoolingSetpoint, OccupiedHeatingSetpoint and FanMode of endpoint 1.
pub record Attributes : Type 0 where
  pub on_off : Option Bool
  pub system_mode : Option ℕ  -- uint8_t
  pub cooling_setpoint : Option ℤ  -- int16_t
  pub heating_setpoint : Option ℤ  -- int16_t
  pub fan_mode : Option ℕ  -- uint8_t

-- `T v = d; Get(1, &v);`
abbrev pub get {ℓ} : {A : Type ℓ} → Option A → A → A
get none d = d
get (some v) d = v

unfoldable pub system_mode_to_ac_mode : ℕ → AcMode
system_mode_to_ac_mode m =
    if m == 3
    then cooling
    else (if m == 4
        then heating
        else (if m == 7 then ventilation else (if m == 8 then dehumidify else cooling)))

unfoldable pub fan_mode_to_speed : ℕ → FanSpeed
fan_mode_to_speed m =
    if m == 0
    then speed_1
    else (if m == 1
        then speed_1
        else (if m == 2
            then speed_3
            else (if m == 3 then speed_5 else (if m == 5 then auto else auto))))

-- `setpoint / 100`, which rounds towards zero.
abbrev pub div_100 : ℤ → ℤ
div_100 (pos n) = pos (n / 100)
div_100 (negsuc n) = neg ((n + 1) / 100)

-- `(uint8_t)(setpoint / 100)`, then the two clamping assignments.
unfoldable pub clamped_temp : ℤ → ℕ
clamped_temp setpoint =
    let t = cast_u8 (div_100 setpoint) in
    let t₁ = if ltb t 16 then 16 else t in if ltb 30 t₁ then 30 else t₁

unfoldable pub setpoint_of : Attributes → ℕ → ℤ
setpoint_of a system_mode =
    if system_mode == 3
    then get a.cooling_setpoint (pos 2400)
    else (if system_mode == 4 then get a.heating_setpoint (pos 2400) else pos 2400)

-- The state that both functions build from the attributes. `kCool` is 3 and `kAuto` is 5.
unfoldable pub ac_state_of : Attributes → AcState
unfolding system_mode_to_ac_mode fan_mode_to_speed clamped_temp setpoint_of
ac_state_of a =
    let system_mode = get a.system_mode 3 in
    record {
      power = get a.on_off false;
      mode = system_mode_to_ac_mode system_mode;
      temp_c = clamped_temp (setpoint_of a system_mode);
      fan = fan_mode_to_speed (get a.fan_mode 5);
    }

-- The file's static variables; `pulses` is the array of `send_ir_if_changed`.
pub record Zcl : Type 0 where
  pub last_sent : AcState
  pub last_sent_valid : Bool
  pub ir_ready : Bool
  pub pulses : List IrPulse

-- The arguments of a call of `ir_dispatch_command`.
pub record Command : Type 0 where
  pub pulses : List IrPulse
  pub count : ℕ

abbrev same_bool : Bool → Bool → Bool
same_bool true b = b
same_bool false b = not b

-- The comparison of the four fields; `==` on enumerations compares their values.
unfoldable pub same_state : AcState → AcState → Bool
same_state s t =
    same_bool s.power t.power
    && mode_code s.mode == mode_code t.mode
    && s.temp_c == t.temp_c
    && fan_code s.fan == fan_code t.fan

unfoldable pub zcl_callbacks_ready : Attributes → Zcl → Zcl
zcl_callbacks_ready a z = record z {
  last_sent = ac_state_of a;
  last_sent_valid = true;
  ir_ready = true;
}

-- The state afterwards, and the command dispatched, if any.
unfoldable pub dispatch_new : AcState → Zcl → Option (Zcl × Option Command)
dispatch_new s z = elim (ac_encode_pulses s z.pulses) [
  | none ↦ none
  | some c ↦ some (
    record z { last_sent = s; last_sent_valid = true; pulses = c.pulses },
    some (record { pulses = c.pulses; count = c.idx }),
  )
]

unfoldable pub send_ir_if_changed : Attributes → Zcl → Option (Zcl × Option Command)
send_ir_if_changed a z =
    if not z.ir_ready
    then some (z, none)
    else (if z.last_sent_valid && same_state (ac_state_of a) z.last_sent
        then some (z, none)
        else dispatch_new (ac_state_of a) z)

-- The clusters that the callback tells apart.
pub data Cluster : Type 0 where
  on_off thermostat fan_control other : Cluster

pub record AttributePath : Type 0 where
  pub endpoint_id : ℕ
  pub cluster_id : Cluster

-- The chain of tests on the cluster.
unfoldable pub on_cluster : Cluster → Attributes → Zcl → Option (Zcl × Option Command)
on_cluster on_off a z = send_ir_if_changed a z
on_cluster thermostat a z = send_ir_if_changed a z
on_cluster fan_control a z = send_ir_if_changed a z
on_cluster other a z = some (z, none)

-- `MatterPostAttributeChangeCallback`.
unfoldable pub post_attribute_change :
    AttributePath → Attributes → Zcl → Option (Zcl × Option Command)
unfolding on_cluster
post_attribute_change path a z =
    if not (path.endpoint_id == 1) then some (z, none) else on_cluster path.cluster_id a z
