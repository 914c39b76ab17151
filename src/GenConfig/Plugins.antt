-- ===== src/GenConfig/Plugins.antt =====
-- The plugins and the commands that src/zap-generated/gen_config.h defines.
use Prim.Native.String.{String}
use shirokumakun_matter.Common.{List, [], ◌∷◌}
use shirokumakun_matter.GenConfig.Types.{Enabled, enabled_entry}

-- `ZCL_USING_*_CLUSTER_SERVER`.
abbrev pub using_server : List String
using_server =
    "IDENTIFY" ∷ "GROUPS" ∷ "ON_OFF" ∷ "DESCRIPTOR" ∷ "BINDING" ∷ "ACCESS_CONTROL"
    ∷ "BASIC_INFORMATION" ∷ "GENERAL_COMMISSIONING" ∷ "NETWORK_COMMISSIONING" ∷ "DIAGNOSTIC_LOGS"
    ∷ "GENERAL_DIAGNOSTICS" ∷ "SOFTWARE_DIAGNOSTICS" ∷ "THREAD_NETWORK_DIAGNOSTICS"
    ∷ "ADMINISTRATOR_COMMISSIONING" ∷ "OPERATIONAL_CREDENTIALS" ∷ "GROUP_KEY_MANAGEMENT"
    ∷ "AIR_QUALITY" ∷ "THERMOSTAT" ∷ "FAN_CONTROL" ∷ "RELATIVE_HUMIDITY_MEASUREMENT"
    ∷ "CARBON_DIOXIDE_CONCENTRATION_MEASUREMENT" ∷ []

-- `ZCL_USING_*_CLUSTER_CLIENT`.
abbrev pub using_client : List String
using_client = "IDENTIFY" ∷ "TEMPERATURE_MEASUREMENT" ∷ []

-- `MATTER_DM_PLUGIN_*_SERVER`.
abbrev pub plugin_server : List String
plugin_server =
    "IDENTIFY" ∷ "GROUPS" ∷ "ON_OFF" ∷ "DESCRIPTOR" ∷ "BINDING" ∷ "ACCESS_CONTROL"
    ∷ "BASIC_INFORMATION" ∷ "GENERAL_COMMISSIONING" ∷ "NETWORK_COMMISSIONING" ∷ "DIAGNOSTIC_LOGS"
    ∷ "GENERAL_DIAGNOSTICS" ∷ "SOFTWARE_DIAGNOSTICS" ∷ "THREAD_NETWORK_DIAGNOSTICS"
    ∷ "ADMINISTRATOR_COMMISSIONING" ∷ "OPERATIONAL_CREDENTIALS" ∷ "GROUP_KEY_MANAGEMENT"
    ∷ "AIR_QUALITY" ∷ "THERMOSTAT" ∷ "FAN_CONTROL" ∷ "RELATIVE_HUMIDITY_MEASUREMENT"
    ∷ "CARBON_DIOXIDE_CONCENTRATION_MEASUREMENT" ∷ []

-- `MATTER_DM_PLUGIN_*_CLIENT`.
abbrev pub plugin_client : List String
plugin_client = "IDENTIFY" ∷ "TEMPERATURE_MEASUREMENT" ∷ []

-- `MATTER_DM_PLUGIN_*`, without a side.
abbrev pub plugin : List String
plugin =
    "IDENTIFY" ∷ "GROUPS" ∷ "ON_OFF" ∷ "DESCRIPTOR" ∷ "BINDING" ∷ "ACCESS_CONTROL"
    ∷ "BASIC_INFORMATION" ∷ "GENERAL_COMMISSIONING" ∷ "NETWORK_COMMISSIONING" ∷ "DIAGNOSTIC_LOGS"
    ∷ "GENERAL_DIAGNOSTICS" ∷ "SOFTWARE_DIAGNOSTICS" ∷ "THREAD_NETWORK_DIAGNOSTICS"
    ∷ "ADMINISTRATOR_COMMISSIONING" ∷ "OPERATIONAL_CREDENTIALS" ∷ "GROUP_KEY_MANAGEMENT"
    ∷ "AIR_QUALITY" ∷ "THERMOSTAT" ∷ "FAN_CONTROL" ∷ "RELATIVE_HUMIDITY_MEASUREMENT"
    ∷ "CARBON_DIOXIDE_CONCENTRATION_MEASUREMENT" ∷ []

-- `*_ENABLE_*_CMD`.
abbrev pub enabled_commands : List Enabled
enabled_commands =
    enabled_entry "ADMINISTRATOR_COMMISSIONING" "OPEN_COMMISSIONING_WINDOW"
    ∷ enabled_entry "ADMINISTRATOR_COMMISSIONING" "OPEN_BASIC_COMMISSIONING_WINDOW"
    ∷ enabled_entry "ADMINISTRATOR_COMMISSIONING" "REVOKE_COMMISSIONING"
    ∷ enabled_entry "DIAGNOSTIC_LOGS" "RETRIEVE_LOGS_REQUEST"
    ∷ enabled_entry "FAN_CONTROL" "STEP"
    ∷ enabled_entry "GENERAL_COMMISSIONING" "ARM_FAIL_SAFE"
    ∷ enabled_entry "GENERAL_COMMISSIONING" "SET_REGULATORY_CONFIG"
    ∷ enabled_entry "GENERAL_COMMISSIONING" "COMMISSIONING_COMPLETE"
    ∷ enabled_entry "GENERAL_DIAGNOSTICS" "TEST_EVENT_TRIGGER"
    ∷ enabled_entry "GENERAL_DIAGNOSTICS" "TIME_SNAPSHOT"
    ∷ enabled_entry "GROUP_KEY_MANAGEMENT" "KEY_SET_WRITE"
    ∷ enabled_entry "GROUP_KEY_MANAGEMENT" "KEY_SET_READ"
    ∷ enabled_entry "GROUP_KEY_MANAGEMENT" "KEY_SET_REMOVE"
    ∷ enabled_entry "GROUP_KEY_MANAGEMENT" "KEY_SET_READ_ALL_INDICES"
    ∷ enabled_entry "GROUPS" "ADD_GROUP"
    ∷ enabled_entry "GROUPS" "VIEW_GROUP"
    ∷ enabled_entry "GROUPS" "GET_GROUP_MEMBERSHIP"
    ∷ enabled_entry "GROUPS" "REMOVE_GROUP"
    ∷ enabled_entry "GROUPS" "REMOVE_ALL_GROUPS"
    ∷ enabled_entry "GROUPS" "ADD_GROUP_IF_IDENTIFYING"
    ∷ enabled_entry "IDENTIFY" "IDENTIFY"
    ∷ enabled_entry "IDENTIFY" "TRIGGER_EFFECT"
    ∷ enabled_entry "NETWORK_COMMISSIONING" "SCAN_NETWORKS"
    ∷ enabled_entry "NETWORK_COMMISSIONING" "ADD_OR_UPDATE_WI_FI_NETWORK"
    ∷ enabled_entry "NETWORK_COMMISSIONING" "ADD_OR_UPDATE_THREAD_NETWORK"
    ∷ enabled_entry "NETWORK_COMMISSIONING" "REMOVE_NETWORK"
    ∷ enabled_entry "NETWORK_COMMISSIONING" "CONNECT_NETWORK"
    ∷ enabled_entry "NETWORK_COMMISSIONING" "REORDER_NETWORK"
    ∷ enabled_entry "ON_OFF" "OFF"
    ∷ enabled_entry "ON_OFF" "ON"
    ∷ enabled_entry "ON_OFF" "TOGGLE"
    ∷ enabled_entry "OPERATIONAL_CREDENTIALS" "ATTESTATION_REQUEST"
    ∷ enabled_entry "OPERATIONAL_CREDENTIALS" "CERTIFICATE_CHAIN_REQUEST"
    ∷ enabled_entry "OPERATIONAL_CREDENTIALS" "CSR_REQUEST"
    ∷ enabled_entry "OPERATIONAL_CREDENTIALS" "ADD_NOC"
    ∷ enabled_entry "OPERATIONAL_CREDENTIALS" "UPDATE_NOC"
    ∷ enabled_entry "OPERATIONAL_CREDENTIALS" "UPDATE_FABRIC_LABEL"
    ∷ enabled_entry "OPERATIONAL_CREDENTIALS" "REMOVE_FABRIC"
    ∷ enabled_entry "OPERATIONAL_CREDENTIALS" "ADD_TRUSTED_ROOT_CERTIFICATE"
    ∷ enabled_entry "THERMOSTAT" "SETPOINT_RAISE_LOWER"
    ∷ enabled_entry "THREAD_NETWORK_DIAGNOSTICS" "RESET_COUNTS"
    ∷ []
