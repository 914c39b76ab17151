-- ===== src/CommandHandler/Accepted.antt =====
-- The dispatch of src/zap-generated/IMClusterCommandHandler.cpp against the lists of accepted
-- commands in src/zap-generated/endpoint_config.h.
use mathlib.Core.Bool.{false≢true}
use native.Mathlib.Decide.{ℕ_discrete}
use shirokumakun_matter.Common.{
  ℕ, true, false, ◌≡◌, ◌≤◌, zero, suc, sym, ap, ◌∙◌, ◌≢◌, ◌↔◌, inl, inr, contains, refl, none,
  arith,
}
use shirokumakun_matter.DataModel.Lookup.{server_of}
use shirokumakun_matter.DataModel.CommandLists.{accepted_commands}
use shirokumakun_matter.CommandHandler.{
  CommandPath, ServerCommand, groups_add_group, groups_view_group, groups_get_group_membership,
  groups_remove_group, groups_remove_all_groups, groups_add_group_if_identifying, on_off_off,
  on_off_on, on_off_toggle, thermostat_setpoint_raise_lower, fan_control_step,
  thread_network_diagnostics_reset_counts, unsupported_command, unsupported_cluster, Sdk, status_of,
  finish_command, run_command, run_command_in_fabric, dispatch_to_cluster,
}
use shirokumakun_matter.CommandHandler.Clusters.{
  IsDispatched, groups, on_off, thread, thermostat, fan_control, cluster-cases,
}
use shirokumakun_matter.CommandHandler.Table.{
  path, dispatch_to_cluster-IsUnknown, dispatch_to_cluster-no_group,
}

-- The endpoints.
data IsEndpoint : ℕ → Type 0 where
  root : IsEndpoint 0
  air_conditioner : IsEndpoint 1
  humidity : IsEndpoint 2
  air_quality : IsEndpoint 3

not_endpoint : (e c : ℕ) → e ≢ 0 → e ≢ 1 → e ≢ 2 → e ≢ 3 → server_of e c ≡ none
not_endpoint e c h₀ h₁ h₂ h₃ = ground arith

endpoint : (e c : ℕ) → server_of e c ≢ none → IsEndpoint e
endpoint e c has = elim (ℕ_discrete e 0) [
  | yes h ↦ rw h root
  | no h₀ ↦ elim (ℕ_discrete e 1) [
    | yes h ↦ rw h air_conditioner
    | no h₁ ↦ elim (ℕ_discrete e 2) [
      | yes h ↦ rw h humidity
      | no h₂ ↦ elim (ℕ_discrete e 3) [
        | yes h ↦ rw h air_quality
        | no h₃ ↦ absurd (has (not_endpoint e c h₀ h₁ h₂ h₃))
      ]
    ]
  ]
]

not_listed : (n : ℕ) → 6 ≤ n → contains n (accepted_commands 1 0x4) ≡ false
not_listed n h = ground arith

module _ {W Data : Type 0} (sdk : Sdk W Data) where
  run-supported :
      (c : ServerCommand) (p : CommandPath) (w : W)
      → (run_command sdk c p w).1 ≢ unsupported_command
  unfolding run_command finish_command status_of
  run-supported c p w = ground arith

  run_in_fabric-supported :
      (c : ServerCommand) (p : CommandPath) (w : W)
      → (run_command_in_fabric sdk c p w).1 ≢ unsupported_command
  unfolding run_command_in_fabric finish_command status_of
  run_in_fabric-supported c p w = ground arith

  abbrev Accepts : CommandPath → W → Type 0
  Accepts p w =
      ((dispatch_to_cluster sdk p w).1 ≢ unsupported_command)
      ↔ (contains p.command_id (accepted_commands p.endpoint_id p.cluster_id) ≡ true)

  unknown_group : (n : ℕ) (w : W) → 6 ≤ n → Accepts (path 1 0x4 n) w
  unknown_group n w h = (
    λ accepted. absurd (accepted (ap (λ r. r.1) (dispatch_to_cluster-no_group sdk 1 n w h))),
    λ listed. absurd (false≢true (sym (not_listed n h) ∙ listed)),
  )

  dispatch_to_groups-Accepts : (n : ℕ) (w : W) → Accepts (path 1 0x4 n) w
  unfolding dispatch_to_cluster
  dispatch_to_groups-Accepts zero w =
      (λ _. refl, λ _. run_in_fabric-supported groups_add_group (path 1 0x4 0) w)
  dispatch_to_groups-Accepts (suc zero) w =
      (λ _. refl, λ _. run_in_fabric-supported groups_view_group (path 1 0x4 1) w)
  dispatch_to_groups-Accepts (suc (suc zero)) w =
      (λ _. refl, λ _. run_in_fabric-supported groups_get_group_membership (path 1 0x4 2) w)
  dispatch_to_groups-Accepts (suc (suc (suc zero))) w =
      (λ _. refl, λ _. run_in_fabric-supported groups_remove_group (path 1 0x4 3) w)
  dispatch_to_groups-Accepts (suc (suc (suc (suc zero)))) w =
      (λ _. refl, λ _. run_in_fabric-supported groups_remove_all_groups (path 1 0x4 4) w)
  dispatch_to_groups-Accepts (suc (suc (suc (suc (suc zero))))) w =
      (λ _. refl, λ _. run_in_fabric-supported groups_add_group_if_identifying (path 1 0x4 5) w)
  dispatch_to_groups-Accepts (suc (suc (suc (suc (suc (suc n)))))) w =
      unknown_group (suc (suc (suc (suc (suc (suc n)))))) w (omega arith)

  dispatch_to_on_off-Accepts : (n : ℕ) (w : W) → Accepts (path 1 0x6 n) w
  unfolding dispatch_to_cluster
  dispatch_to_on_off-Accepts n w =
      let of = λ (c : ServerCommand). run-supported c (path 1 0x6 n) w in
      ground (arith, of on_off_off, of on_off_on, of on_off_toggle)

  dispatch_to_thermostat-Accepts : (n : ℕ) (w : W) → Accepts (path 1 0x201 n) w
  unfolding dispatch_to_cluster
  dispatch_to_thermostat-Accepts n w =
      ground (arith, run-supported thermostat_setpoint_raise_lower (path 1 0x201 n) w)

  dispatch_to_fan_control-Accepts : (n : ℕ) (w : W) → Accepts (path 1 0x202 n) w
  unfolding dispatch_to_cluster
  dispatch_to_fan_control-Accepts n w =
      ground (arith, run-supported fan_control_step (path 1 0x202 n) w)

  dispatch_to_thread-Accepts : (n : ℕ) (w : W) → Accepts (path 0 0x35 n) w
  unfolding dispatch_to_cluster
  dispatch_to_thread-Accepts n w =
      ground (arith, run-supported thread_network_diagnostics_reset_counts (path 0 0x35 n) w)

  known_server-Accepts :
      (e c n : ℕ) (w : W)
      → IsEndpoint e
      → IsDispatched c
      → server_of e c ≢ none
      → Accepts (path e c n) w
  known_server-Accepts _ _ n w root groups has = absurd (has refl)
  known_server-Accepts _ _ n w root on_off has = absurd (has refl)
  known_server-Accepts _ _ n w root thread has = dispatch_to_thread-Accepts n w
  known_server-Accepts _ _ n w root thermostat has = absurd (has refl)
  known_server-Accepts _ _ n w root fan_control has = absurd (has refl)
  known_server-Accepts _ _ n w air_conditioner groups has = dispatch_to_groups-Accepts n w
  known_server-Accepts _ _ n w air_conditioner on_off has = dispatch_to_on_off-Accepts n w
  known_server-Accepts _ _ n w air_conditioner thread has = absurd (has refl)
  known_server-Accepts _ _ n w air_conditioner thermostat has = dispatch_to_thermostat-Accepts n w
  known_server-Accepts _ _ n w air_conditioner fan_control has = dispatch_to_fan_control-Accepts n w
  known_server-Accepts _ _ n w humidity groups has = absurd (has refl)
  known_server-Accepts _ _ n w humidity on_off has = absurd (has refl)
  known_server-Accepts _ _ n w humidity thread has = absurd (has refl)
  known_server-Accepts _ _ n w humidity thermostat has = absurd (has refl)
  known_server-Accepts _ _ n w humidity fan_control has = absurd (has refl)
  known_server-Accepts _ _ n w air_quality groups has = absurd (has refl)
  known_server-Accepts _ _ n w air_quality on_off has = absurd (has refl)
  known_server-Accepts _ _ n w air_quality thread has = absurd (has refl)
  known_server-Accepts _ _ n w air_quality thermostat has = absurd (has refl)
  known_server-Accepts _ _ n w air_quality fan_control has = absurd (has refl)

  known :
      (p : CommandPath) (w : W)
      → (dispatch_to_cluster sdk p w).1 ≢ unsupported_cluster
      → IsDispatched p.cluster_id
  known p w h = elim (cluster-cases p.cluster_id) [
    | inl is ↦ is
    | inr not ↦ absurd (
        h (
          ap (λ r. r.1)
            (dispatch_to_cluster-IsUnknown sdk p.endpoint_id p.cluster_id p.command_id w not)))
  ]

  -- Where an endpoint has the server of a cluster, and the cluster is one that the dispatch knows,
  -- the dispatch knows a command just if it is in the list of the commands that the cluster accepts
  -- there.
  pub dispatch_to_cluster-accepted_commands :
      (p : CommandPath) (w : W)
      → server_of p.endpoint_id p.cluster_id ≢ none
      → (dispatch_to_cluster sdk p w).1 ≢ unsupported_cluster
      → Accepts p w
  dispatch_to_cluster-accepted_commands p w has h =
      known_server-Accepts p.endpoint_id p.cluster_id p.command_id w
        (endpoint p.endpoint_id p.cluster_id has) (known p w h) has
