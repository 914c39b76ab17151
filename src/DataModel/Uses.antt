-- ===== src/DataModel/Uses.antt =====
-- The thermostat's limits in src/zap-generated/endpoint_config.h, and the temperature that
-- src/zcl_callbacks.cpp sends for a setpoint between them.
use Prim.Native.Nat.{min, max}
use mathlib.Core.Option.{some-injective}
use shirokumakun_matter.Common.{ℕ, ◌/◌, ◌≤◌, ◌≡◌, sym, Option, none, some, arith, get_elem?}
use shirokumakun_matter.Common.Int.{pos}
use shirokumakun_matter.DataModel.Types.{Attribute, empty, simple, min_max_index}
use shirokumakun_matter.DataModel.Attributes.{generated_min_max_defaults}
use shirokumakun_matter.DataModel.Lookup.{attribute_of}
use shirokumakun_matter.ZclCallbacks.{clamped_temp}
use shirokumakun_matter.ZclCallbacks.Desired.{clamped_temp-clamp}

abbrev default_value : Attribute → Option ℕ
default_value a = elim a.default [
  | empty ↦ none
  | simple v ↦ some v
  | min_max_index i ↦ elim (get_elem? generated_min_max_defaults i) [
    | none ↦ none
    | some m ↦ some m.default_value
  ]
]

-- The value that an attribute has before anyone writes it.
abbrev pub default_of : ℕ → ℕ → ℕ → Option ℕ
default_of endpoint cluster id = elim (attribute_of endpoint cluster id) [
  | none ↦ none
  | some a ↦ default_value a
]

-- Between the lowest heating setpoint (AbsMinHeatSetpointLimit) and the highest cooling setpoint
-- (AbsMaxCoolSetpointLimit) that the thermostat of endpoint 1 declares, a setpoint is cut to whole
-- degrees and clamped to 16 to 30: the cast to `uint8_t` before the clamp changes nothing.
pub clamped_temp-declared :
    (lowest highest setpoint : ℕ)
    → default_of 1 0x201 0x3 ≡ some lowest
    → default_of 1 0x201 0x6 ≡ some highest
    → lowest ≤ setpoint
    → setpoint ≤ highest
    → clamped_temp (pos setpoint) ≡ min 30 (max 16 (setpoint / 100))
clamped_temp-declared lowest highest setpoint lo hi lo≤ ≤hi =
    clamped_temp-clamp setpoint
      (omega (arith, some-injective lowest 700 (sym lo), some-injective highest 3200 (sym hi)))
