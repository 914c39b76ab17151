-- ===== src/CommandHandler/Clusters.antt =====
-- The clusters that the dispatch of src/zap-generated/IMClusterCommandHandler.cpp knows.
use native.Mathlib.Decide.{ℕ_discrete}
use shirokumakun_matter.Common.{ℕ, ◌≢◌, ◌⊎◌, inl, inr}

-- The five clusters of the switch, and the others.
pub data IsDispatched : ℕ → Type 0 where
  groups : IsDispatched 0x4
  on_off : IsDispatched 0x6
  thread : IsDispatched 0x35
  thermostat : IsDispatched 0x201
  fan_control : IsDispatched 0x202

pub record IsUnknown (c : ℕ) : Type 0 where
  pub not_groups : c ≢ 0x4
  pub not_on_off : c ≢ 0x6
  pub not_thread : c ≢ 0x35
  pub not_thermostat : c ≢ 0x201
  pub not_fan_control : c ≢ 0x202

pub cluster-cases : (c : ℕ) → IsDispatched c ⊎ IsUnknown c
cluster-cases c = elim (ℕ_discrete c 0x4) [
  | yes h ↦ inl (rw h groups)
  | no a ↦ elim (ℕ_discrete c 0x6) [
    | yes h ↦ inl (rw h on_off)
    | no b ↦ elim (ℕ_discrete c 0x35) [
      | yes h ↦ inl (rw h thread)
      | no t ↦ elim (ℕ_discrete c 0x201) [
        | yes h ↦ inl (rw h thermostat)
        | no d ↦ elim (ℕ_discrete c 0x202) [
          | yes h ↦ inl (rw h fan_control)
          | no f ↦ inr (record {
            not_groups = a;
            not_on_off = b;
            not_thread = t;
            not_thermostat = d;
            not_fan_control = f;
          })
        ]
      ]
    ]
  ]
]
