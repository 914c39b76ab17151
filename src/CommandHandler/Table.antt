-- ===== src/CommandHandler/Table.antt =====
-- The dispatch of src/zap-generated/IMClusterCommandHandler.cpp against a table of its commands.
use shirokumakun_matter.Common.{
  ℕ, zero, suc, Bool, true, false, if◌then◌else◌, ◌&&◌, ◌==◌, ◌≡◌, ◌≤◌, sym, ap, ◌∙◌, inl, inr,
  List, [], ◌∷◌, Option, none, some, arith,
}
use shirokumakun_matter.Common.Int.{is_zero}
use shirokumakun_matter.CommandHandler.Clusters.{
  IsDispatched, groups, on_off, thread, thermostat, fan_control, IsUnknown, cluster-cases,
}
use shirokumakun_matter.CommandHandler.{
  CommandPath, ServerCommand, fan_control_step, groups_add_group, groups_view_group,
  groups_get_group_membership, groups_remove_group, groups_remove_all_groups,
  groups_add_group_if_identifying, on_off_off, on_off_on, on_off_toggle,
  thermostat_setpoint_raise_lower, thread_network_diagnostics_reset_counts, unsupported_command,
  invalid_command, unsupported_cluster, Decoded, Sdk, status_of, settle, finish_command,
  dispatch_to_cluster, dispatch_single_cluster_command,
}

-- A command, the cluster and number that it has, and whether its fields depend on the fabric.
pub record Row : Type 0 where
  pub cluster : ℕ
  pub number : ℕ
  pub in_fabric : Bool
  pub handler : ServerCommand

abbrev row : ℕ → ℕ → Bool → ServerCommand → Row
row c n f h = record { cluster = c; number = n; in_fabric = f; handler = h }

abbrev pub command_table : List Row
command_table =
    row 0x4 0 true groups_add_group
    ∷ row 0x4 1 true groups_view_group
    ∷ row 0x4 2 true groups_get_group_membership
    ∷ row 0x4 3 true groups_remove_group
    ∷ row 0x4 4 true groups_remove_all_groups
    ∷ row 0x4 5 true groups_add_group_if_identifying
    ∷ row 0x6 0 false on_off_off
    ∷ row 0x6 1 false on_off_on
    ∷ row 0x6 2 false on_off_toggle
    ∷ row 0x35 0 false thread_network_diagnostics_reset_counts
    ∷ row 0x201 0 false thermostat_setpoint_raise_lower
    ∷ row 0x202 0 false fan_control_step
    ∷ []

unfoldable pub find_row : List Row → ℕ → ℕ → Option Row
find_row [] c n = none
find_row (r ∷ rows) c n = if r.cluster == c && r.number == n then some r else find_row rows c n

unfoldable pub has_cluster : List Row → ℕ → Bool
has_cluster [] c = false
has_cluster (r ∷ rows) c = if r.cluster == c then true else has_cluster rows c

abbrev pub path : ℕ → ℕ → ℕ → CommandPath
path e c n = record { endpoint_id = e; cluster_id = c; command_id = n }

no_group_row : (n : ℕ) → 6 ≤ n → find_row command_table 0x4 n ≡ none
unfolding find_row
no_group_row n h = ground arith

no_row : (c n : ℕ) → IsUnknown c → find_row command_table c n ≡ none
unfolding find_row
no_row c n u =
    ground (arith, u.not_groups, u.not_on_off, u.not_thread, u.not_thermostat, u.not_fan_control)

no_cluster : (c : ℕ) → IsUnknown c → has_cluster command_table c ≡ false
unfolding has_cluster
no_cluster c u =
    ground (arith, u.not_groups, u.not_on_off, u.not_thread, u.not_thermostat, u.not_fan_control)

module _ {W Data : Type 0} (sdk : Sdk W Data) where
  abbrev decode_row : Row → W → Decoded W Data
  decode_row r w =
      if r.in_fabric
      then sdk.decode_in_fabric r.handler (sdk.accessing_fabric_index w) w
      else sdk.decode r.handler w

  abbrev answer : CommandPath → W × Bool → W
  answer p (w, true) = w
  answer p (w, false) = sdk.add_status p invalid_command w

  abbrev run_decoded : Row → CommandPath → Decoded W Data → W
  run_decoded r p d =
      if is_zero d.error
      then answer p (sdk.callback r.handler p d.data_of d.world)
      else sdk.add_status p invalid_command d.world

  abbrev by_row : CommandPath → W → Option Row → W
  by_row p w none =
      sdk.add_status p
        (if has_cluster command_table p.cluster_id
          then unsupported_command
          else unsupported_cluster)
        w
  by_row p w (some r) = run_decoded r p (decode_row r w)

  -- What a command does, by the table.
  abbrev pub dispatch_by_table : CommandPath → W → W
  dispatch_by_table p w = by_row p w (find_row command_table p.cluster_id p.command_id)

  ran :
      (r : Row) (p : CommandPath) (d : Decoded W Data)
      → settle sdk p (finish_command sdk r.handler p d) ≡ run_decoded r p d
  unfolding settle finish_command status_of
  ran r p d = ground arith

  abbrev Agrees : CommandPath → W → Type 0
  Agrees p w = settle sdk p (dispatch_to_cluster sdk p w) ≡ dispatch_by_table p w

  pub dispatch_to_cluster-no_group :
      (e n : ℕ) (w : W)
      → 6 ≤ n
      → dispatch_to_cluster sdk (path e 0x4 n) w ≡ (w, unsupported_command)
  unfolding dispatch_to_cluster
  dispatch_to_cluster-no_group e n w h = ground arith

  unknown_group : (e n : ℕ) (w : W) → 6 ≤ n → Agrees (path e 0x4 n) w
  unfolding settle has_cluster
  unknown_group e n w h =
      rw (dispatch_to_cluster-no_group e n w h)
        (sym (ap (by_row (path e 0x4 n) w) (no_group_row n h)))

  pub dispatch_to_cluster-IsUnknown :
      (e c n : ℕ) (w : W)
      → IsUnknown c
      → dispatch_to_cluster sdk (path e c n) w ≡ (w, unsupported_cluster)
  unfolding dispatch_to_cluster
  dispatch_to_cluster-IsUnknown e c n w u =
      ground (arith, u.not_groups, u.not_on_off, u.not_thread, u.not_thermostat, u.not_fan_control)

  unknown_cluster : (e c n : ℕ) (w : W) → IsUnknown c → Agrees (path e c n) w
  unfolding settle
  unknown_cluster e c n w u = rw (dispatch_to_cluster-IsUnknown e c n w u) (
      sym (
        ap (by_row (path e c n) w) (no_row c n u)
        ∙ ap
            (λ known.
              sdk.add_status (path e c n)
                (if known then unsupported_command else unsupported_cluster) w)
            (no_cluster c u)))

  by_groups : (e n : ℕ) (w : W) → Agrees (path e 0x4 n) w
  unfolding dispatch_to_cluster settle find_row has_cluster
  by_groups e zero w = ran (row 0x4 0 true groups_add_group) (path e 0x4 0) _
  by_groups e (suc zero) w = ran (row 0x4 1 true groups_view_group) (path e 0x4 1) _
  by_groups e (suc (suc zero)) w = ran (row 0x4 2 true groups_get_group_membership) (path e 0x4 2) _
  by_groups e (suc (suc (suc zero))) w = ran (row 0x4 3 true groups_remove_group) (path e 0x4 3) _
  by_groups e (suc (suc (suc (suc zero)))) w =
      ran (row 0x4 4 true groups_remove_all_groups) (path e 0x4 4) _
  by_groups e (suc (suc (suc (suc (suc zero))))) w =
      ran (row 0x4 5 true groups_add_group_if_identifying) (path e 0x4 5) _
  by_groups e (suc (suc (suc (suc (suc (suc n)))))) w =
      unknown_group e (suc (suc (suc (suc (suc (suc n)))))) w (omega arith)

  by_on_off : (e n : ℕ) (w : W) → Agrees (path e 0x6 n) w
  unfolding dispatch_to_cluster settle find_row has_cluster
  by_on_off e zero w = ran (row 0x6 0 false on_off_off) (path e 0x6 0) _
  by_on_off e (suc zero) w = ran (row 0x6 1 false on_off_on) (path e 0x6 1) _
  by_on_off e (suc (suc zero)) w = ran (row 0x6 2 false on_off_toggle) (path e 0x6 2) _
  by_on_off e (suc (suc (suc n))) w = ground arith

  by_thread : (e n : ℕ) (w : W) → Agrees (path e 0x35 n) w
  unfolding dispatch_to_cluster settle find_row has_cluster
  by_thread e zero w =
      ran (row 0x35 0 false thread_network_diagnostics_reset_counts) (path e 0x35 0) _
  by_thread e (suc n) w = ground arith

  by_thermostat : (e n : ℕ) (w : W) → Agrees (path e 0x201 n) w
  unfolding dispatch_to_cluster settle find_row has_cluster
  by_thermostat e zero w =
      ran (row 0x201 0 false thermostat_setpoint_raise_lower) (path e 0x201 0) _
  by_thermostat e (suc n) w = ground arith

  by_fan_control : (e n : ℕ) (w : W) → Agrees (path e 0x202 n) w
  unfolding dispatch_to_cluster settle find_row has_cluster
  by_fan_control e zero w = ran (row 0x202 0 false fan_control_step) (path e 0x202 0) _
  by_fan_control e (suc n) w = ground arith

  known_cluster : (e c n : ℕ) (w : W) → IsDispatched c → Agrees (path e c n) w
  known_cluster e _ n w groups = by_groups e n w
  known_cluster e _ n w on_off = by_on_off e n w
  known_cluster e _ n w thread = by_thread e n w
  known_cluster e _ n w thermostat = by_thermostat e n w
  known_cluster e _ n w fan_control = by_fan_control e n w

  -- For every path, state and SDK: a command in the table of twelve is decoded, for the accessing
  -- fabric if it is one of the groups', and handed to its own callback, and the state is what that
  -- leaves; if decoding fails the callback is not called, and then, or if the callback did not
  -- handle the command, the status InvalidCommand is added, once. Any other command only adds a
  -- status, UnsupportedCommand where the table has its cluster, else UnsupportedCluster.
  pub dispatch_single_cluster_command-by_table :
      (p : CommandPath) (w : W) → dispatch_single_cluster_command sdk p w ≡ dispatch_by_table p w
  unfolding dispatch_single_cluster_command
  dispatch_single_cluster_command-by_table p w = elim (cluster-cases p.cluster_id) [
    | inl known ↦ known_cluster p.endpoint_id p.cluster_id p.command_id w known
    | inr unknown ↦ unknown_cluster p.endpoint_id p.cluster_id p.command_id w unknown
  ]
