-- ===== src/ZclCallbacks/Requested.antt =====
-- What the attributes of endpoint 1 ask of the air conditioner, by tables, against the state that
-- src/zcl_callbacks.cpp builds from them.
use Prim.Native.Nat.{min, max}
use shirokumakun_matter.Common.{
  ℕ, zero, suc, ◌+◌, ◌%◌, ◌/◌, ◌-◌, ◌≡◌, refl, false, Option, none, some, List, [], ◌∷◌, ◌==◌,
  if◌then◌else◌, arith, inl, inr, Bool-cases,
}
use shirokumakun_matter.Common.Int.{ℤ, pos, negsuc, neg, cast_u8}
use shirokumakun_matter.IrProtocol.{
  AcMode, cooling, heating, ventilation, dehumidify, FanSpeed, speed_1, speed_3, speed_5, auto,
  AcState,
}
use shirokumakun_matter.ZclCallbacks.{
  get, div_100, Attributes, ac_state_of, system_mode_to_ac_mode, fan_mode_to_speed, clamped_temp,
  setpoint_of,
}

abbrev look_up {ℓ} : {A : Type ℓ} → List (ℕ × A) → A → ℕ → A
look_up [] d key = d
look_up ((k, a) ∷ table) d key = let rest = look_up table d key in if key == k then a else rest

-- Matter's SystemMode: Cool, Heat, FanOnly and Dry.
abbrev modes : List (ℕ × AcMode)
modes = (3, cooling) ∷ (4, heating) ∷ (7, ventilation) ∷ (8, dehumidify) ∷ []

-- Matter's FanMode: Off, Low, Medium, High and Auto.
abbrev speeds : List (ℕ × FanSpeed)
speeds = (0, speed_1) ∷ (1, speed_1) ∷ (2, speed_3) ∷ (3, speed_5) ∷ (5, auto) ∷ []

abbrev or_else {ℓ} : {A : Type ℓ} → A → Option A → A
or_else d none = d
or_else d (some a) = a

-- The whole degrees in hundredths, as the unsigned byte that they are cut to.
abbrev degrees_byte : ℤ → ℕ
degrees_byte (pos n) = n / 100 % 256
degrees_byte (negsuc n) = (256 - (n + 1) / 100 % 256) % 256

abbrev limited : ℕ → ℕ
limited t = min 30 (max 16 t)

abbrev setpoints : Attributes → List (ℕ × Option ℤ)
setpoints a = (3, a.cooling_setpoint) ∷ (4, a.heating_setpoint) ∷ []

-- Off if the power cannot be read; cooling if the mode cannot be read or is another; 24 degrees if
-- the mode's setpoint cannot be read or there is none; the automatic fan if its mode cannot be read
-- or is another.
unfoldable pub requested : Attributes → AcState
requested a = record {
  power = or_else false a.on_off;
  mode = look_up modes cooling (or_else 3 a.system_mode);
  temp_c =
      limited
        (degrees_byte (or_else (pos 2400) (look_up (setpoints a) none (or_else 3 a.system_mode))));
  fan = look_up speeds auto (or_else 5 a.fan_mode);
}

get-or_else {ℓ} : {A : Type ℓ} (o : Option A) (d : A) → get o d ≡ or_else d o
get-or_else none d = refl
get-or_else (some a) d = refl

mode-look_up : (m : ℕ) → system_mode_to_ac_mode m ≡ look_up modes cooling m
unfolding system_mode_to_ac_mode
mode-look_up m = refl

fan-look_up : (m : ℕ) → fan_mode_to_speed m ≡ look_up speeds auto m
unfolding fan_mode_to_speed
fan-look_up m = refl

setpoint-look_up :
    (a : Attributes) (m : ℕ) → setpoint_of a m ≡ or_else (pos 2400) (look_up (setpoints a) none m)
unfolding setpoint_of
setpoint-look_up a m = elim (Bool-cases (m == 3)) [
  | inl cool ↦ rw cool (get-or_else a.cooling_setpoint (pos 2400))
  | inr other ↦ elim (Bool-cases (m == 4)) [
    | inl warm ↦ rw (other, warm) (get-or_else a.heating_setpoint (pos 2400))
    | inr neither ↦ rw (other, neither) refl
  ]
]

cast_u8-neg : (q : ℕ) → cast_u8 (neg q) ≡ (256 - q % 256) % 256
cast_u8-neg zero = refl
cast_u8-neg (suc q) = omega arith

cast_u8-degrees_byte : (z : ℤ) → cast_u8 (div_100 z) ≡ degrees_byte z
cast_u8-degrees_byte (pos n) = refl
cast_u8-degrees_byte (negsuc n) = cast_u8-neg ((n + 1) / 100)

clamped_temp-limited : (z : ℤ) → clamped_temp z ≡ limited (degrees_byte z)
unfolding clamped_temp
clamped_temp-limited z = rw (cast_u8-degrees_byte z) (ground arith)

-- The state that the code builds is the one that the attributes ask for.
pub ac_state_of-requested : (a : Attributes) → ac_state_of a ≡ requested a
unfolding ac_state_of requested
ac_state_of-requested a =
    rw
      (
        get-or_else a.on_off false,
        get-or_else a.system_mode 3,
        get-or_else a.fan_mode 5,
        mode-look_up (or_else 3 a.system_mode),
        fan-look_up (or_else 5 a.fan_mode),
        setpoint-look_up a (or_else 3 a.system_mode),
        clamped_temp-limited
            (or_else (pos 2400) (look_up (setpoints a) none (or_else 3 a.system_mode))),
      )
      refl
