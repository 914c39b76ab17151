-- ===== src/CommandHandler.antt =====
-- The dispatch of commands to clusters, src/zap-generated/IMClusterCommandHandler.cpp; the children
-- hold the proofs. The SDK's decoding of a command's fields, the clusters' own callbacks and
-- `AddStatus` are parameters, on a state of the SDK's that they share. The numbers of the clusters
-- and commands are the ones beside their names in src/zap-generated/endpoint_config.h.
pub mod Clusters
pub mod Table
pub mod Accepted
mod Tests
use shirokumakun_matter.Common.{ℕ, Bool, true, false, if◌then◌else◌, not, ◌||◌, ◌==◌}
use shirokumakun_matter.Common.Int.{ℤ, pos, is_zero}

-- `ConcreteCommandPath`.
pub record CommandPath : Type 0 where
  pub endpoint_id : ℕ
  pub cluster_id : ℕ
  pub command_id : ℕ

-- The cases of the switches on the command, by cluster.
pub data ServerCommand : Type 0 where
  fan_control_step : ServerCommand
  groups_add_group groups_view_group groups_get_group_membership : ServerCommand
  groups_remove_group groups_remove_all_groups groups_add_group_if_identifying : ServerCommand
  on_off_off on_off_on on_off_toggle : ServerCommand
  thermostat_setpoint_raise_lower : ServerCommand
  thread_network_diagnostics_reset_counts : ServerCommand

pub data Status : Type 0 where
  success unsupported_command invalid_command unsupported_cluster : Status

-- What decoding gives: the SDK's state, a `CHIP_ERROR`, 0 for none, and the command's fields.
pub record Decoded (W Data : Type 0) : Type 0 where
  pub world : W
  pub error : ℤ
  pub data_of : Data

-- What the SDK and the clusters do: `DataModel::Decode` from the reader, the `Decode` of a command
-- for a fabric, `GetAccessingFabricIndex`, the callback of the command, which says whether it has
-- handled it, and `AddStatus`.
pub record Sdk (W Data : Type 0) : Type 0 where
  pub decode : ServerCommand → W → Decoded W Data
  pub decode_in_fabric : ServerCommand → ℕ → W → Decoded W Data
  pub accessing_fabric_index : W → ℕ
  pub callback : ServerCommand → CommandPath → Data → W → W × Bool
  pub add_status : CommandPath → Status → W → W

-- `CHIP_NO_ERROR != TLVError || !wasHandled`, and the two returns.
unfoldable pub status_of : ℤ → Bool → Status
status_of error was_handled =
    if not (is_zero error) || not was_handled then invalid_command else success

module _ {W Data : Type 0} (sdk : Sdk W Data) where
  -- A case after its decoding, and what follows the switch.
  unfoldable pub finish_command : ServerCommand → CommandPath → Decoded W Data → W × Status
  unfolding status_of
  finish_command c p d =
      if is_zero d.error
      then (let (w, was_handled) = sdk.callback c p d.data_of d.world in
          (w, status_of d.error was_handled))
      else (d.world, status_of d.error false)

  unfoldable pub run_command : ServerCommand → CommandPath → W → W × Status
  unfolding finish_command
  run_command c p w = finish_command c p (sdk.decode c w)

  unfoldable pub run_command_in_fabric : ServerCommand → CommandPath → W → W × Status
  unfolding finish_command
  run_command_in_fabric c p w =
      finish_command c p (sdk.decode_in_fabric c (sdk.accessing_fabric_index w) w)

  -- `FanControl::DispatchServerCommand`.
  unfoldable pub dispatch_fan_control : CommandPath → W → W × Status
  unfolding run_command
  dispatch_fan_control p w =
      if p.command_id == 0 then run_command fan_control_step p w else (w, unsupported_command)

  -- `Groups::DispatchServerCommand`.
  unfoldable pub dispatch_groups : CommandPath → W → W × Status
  unfolding run_command_in_fabric
  dispatch_groups p w =
      if p.command_id == 0
      then run_command_in_fabric groups_add_group p w
      else (if p.command_id == 1
          then run_command_in_fabric groups_view_group p w
          else (if p.command_id == 2
              then run_command_in_fabric groups_get_group_membership p w
              else (if p.command_id == 3
                  then run_command_in_fabric groups_remove_group p w
                  else (if p.command_id == 4
                      then run_command_in_fabric groups_remove_all_groups p w
                      else (if p.command_id == 5
                          then run_command_in_fabric groups_add_group_if_identifying p w
                          else (w, unsupported_command))))))

  -- `OnOff::DispatchServerCommand`.
  unfoldable pub dispatch_on_off : CommandPath → W → W × Status
  unfolding run_command
  dispatch_on_off p w =
      if p.command_id == 0
      then run_command on_off_off p w
      else (if p.command_id == 1
          then run_command on_off_on p w
          else (if p.command_id == 2
              then run_command on_off_toggle p w
              else (w, unsupported_command)))

  -- `Thermostat::DispatchServerCommand`.
  unfoldable pub dispatch_thermostat : CommandPath → W → W × Status
  unfolding run_command
  dispatch_thermostat p w =
      if p.command_id == 0
      then run_command thermostat_setpoint_raise_lower p w
      else (w, unsupported_command)

  -- `ThreadNetworkDiagnostics::DispatchServerCommand`.
  unfoldable pub dispatch_thread_network_diagnostics : CommandPath → W → W × Status
  unfolding run_command
  dispatch_thread_network_diagnostics p w =
      if p.command_id == 0
      then run_command thread_network_diagnostics_reset_counts p w
      else (w, unsupported_command)

  -- The switch of `DispatchSingleClusterCommand`.
  unfoldable pub dispatch_to_cluster : CommandPath → W → W × Status
  unfolding dispatch_fan_control dispatch_groups dispatch_on_off dispatch_thermostat
      dispatch_thread_network_diagnostics
  dispatch_to_cluster p w =
      if p.cluster_id == 0x202
      then dispatch_fan_control p w
      else (if p.cluster_id == 0x4
          then dispatch_groups p w
          else (if p.cluster_id == 0x6
              then dispatch_on_off p w
              else (if p.cluster_id == 0x201
                  then dispatch_thermostat p w
                  else (if p.cluster_id == 0x35
                      then dispatch_thread_network_diagnostics p w
                      else (w, unsupported_cluster)))))

  -- A status other than success is added.
  unfoldable pub settle : CommandPath → W × Status → W
  settle p (w, success) = w
  settle p (w, error) = sdk.add_status p error w

  unfoldable pub dispatch_single_cluster_command : CommandPath → W → W
  unfolding settle dispatch_to_cluster
  dispatch_single_cluster_command p w = settle p (dispatch_to_cluster p w)
