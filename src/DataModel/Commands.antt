-- ===== src/DataModel/Commands.antt =====
-- The command and event lists and the function arrays, from src/zap-generated/endpoint_config.h.
use shirokumakun_matter.Common.{ℕ, List, [], ◌∷◌, concat}
use shirokumakun_matter.DataModel.Types.{
  CommandEntry, command, end_of_list, Functions, ClusterMask, init_function, shutdown_function,
  attribute_changed_function, pre_attribute_changed_function, chip_func_array_fan_control_server,
  chip_func_array_groups_server, chip_func_array_on_off_server, chip_func_array_thermostat_server,
}

abbrev commands_of_general_commissioning_0 : List CommandEntry
commands_of_general_commissioning_0 =
    command 0
    ∷ command 2
    ∷ command 4
    ∷ end_of_list
    ∷ command 1
    ∷ command 3
    ∷ command 5
    ∷ end_of_list
    ∷ []

abbrev commands_of_network_commissioning_0 : List CommandEntry
commands_of_network_commissioning_0 =
    command 0
    ∷ command 2
    ∷ command 3
    ∷ command 4
    ∷ command 6
    ∷ command 8
    ∷ end_of_list
    ∷ command 1
    ∷ command 5
    ∷ command 7
    ∷ end_of_list
    ∷ []

abbrev commands_of_diagnostic_logs_0 : List CommandEntry
commands_of_diagnostic_logs_0 = command 0 ∷ end_of_list ∷ command 1 ∷ end_of_list ∷ []

abbrev commands_of_general_diagnostics_0 : List CommandEntry
commands_of_general_diagnostics_0 =
    command 0 ∷ command 1 ∷ end_of_list ∷ command 2 ∷ end_of_list ∷ []

abbrev commands_of_thread_network_diagnostics_0 : List CommandEntry
commands_of_thread_network_diagnostics_0 = command 0 ∷ end_of_list ∷ []

abbrev commands_of_administrator_commissioning_0 : List CommandEntry
commands_of_administrator_commissioning_0 = command 0 ∷ command 1 ∷ command 2 ∷ end_of_list ∷ []

abbrev commands_of_operational_credentials_0 : List CommandEntry
commands_of_operational_credentials_0 =
    command 0
    ∷ command 2
    ∷ command 4
    ∷ command 6
    ∷ command 7
    ∷ command 9
    ∷ command 0xA
    ∷ command 0xB
    ∷ end_of_list
    ∷ command 1
    ∷ command 3
    ∷ command 5
    ∷ command 8
    ∷ end_of_list
    ∷ []

abbrev commands_of_group_key_management_0 : List CommandEntry
commands_of_group_key_management_0 =
    command 0
    ∷ command 1
    ∷ command 3
    ∷ command 4
    ∷ end_of_list
    ∷ command 2
    ∷ command 5
    ∷ end_of_list
    ∷ []

abbrev commands_of_identify_1 : List CommandEntry
commands_of_identify_1 = command 0 ∷ end_of_list ∷ []

abbrev commands_of_groups_1 : List CommandEntry
commands_of_groups_1 =
    command 0
    ∷ command 1
    ∷ command 2
    ∷ command 3
    ∷ command 4
    ∷ command 5
    ∷ end_of_list
    ∷ command 0
    ∷ command 1
    ∷ command 2
    ∷ command 3
    ∷ end_of_list
    ∷ []

abbrev commands_of_on_off_1 : List CommandEntry
commands_of_on_off_1 = command 0 ∷ command 1 ∷ command 2 ∷ end_of_list ∷ []

abbrev commands_of_thermostat_1 : List CommandEntry
commands_of_thermostat_1 = command 0 ∷ end_of_list ∷ []

abbrev commands_of_fan_control_1 : List CommandEntry
commands_of_fan_control_1 = command 0 ∷ end_of_list ∷ []

abbrev commands_of_identify_2 : List CommandEntry
commands_of_identify_2 = command 0 ∷ command 0x40 ∷ end_of_list ∷ []

abbrev commands_of_identify_3 : List CommandEntry
commands_of_identify_3 = command 0 ∷ end_of_list ∷ []

abbrev pub generated_commands : List CommandEntry
generated_commands = concat (
    commands_of_general_commissioning_0 ∷ commands_of_network_commissioning_0
    ∷ commands_of_diagnostic_logs_0 ∷ commands_of_general_diagnostics_0
    ∷ commands_of_thread_network_diagnostics_0 ∷ commands_of_administrator_commissioning_0
    ∷ commands_of_operational_credentials_0 ∷ commands_of_group_key_management_0
    ∷ commands_of_identify_1 ∷ commands_of_groups_1 ∷ commands_of_on_off_1
    ∷ commands_of_thermostat_1 ∷ commands_of_fan_control_1 ∷ commands_of_identify_2
    ∷ commands_of_identify_3 ∷ [])

abbrev pub generated_event_count : ℕ
generated_event_count = 3

abbrev pub generated_events : List ℕ
generated_events = 0 ∷ 1 ∷ 2 ∷ []

-- `GENERATED_FUNCTION_ARRAYS`: what each function of an array is for.
abbrev pub function_array : Functions → List ClusterMask
function_array chip_func_array_groups_server = init_function ∷ []
function_array chip_func_array_on_off_server = init_function ∷ shutdown_function ∷ []
function_array chip_func_array_thermostat_server =
    init_function ∷ attribute_changed_function ∷ shutdown_function ∷ pre_attribute_changed_function
    ∷ []
function_array chip_func_array_fan_control_server =
    attribute_changed_function ∷ pre_attribute_changed_function ∷ []
