-- ===== src/StaticConfig/DeviceServices.antt =====
-- The clusters of the other endpoints, the second half, from src/zap-generated/app/static-cluster-config.
use shirokumakun_matter.Common.{ℕ, List, [], ◌∷◌}
use shirokumakun_matter.StaticConfig.Types.{StaticCluster}

abbrev fan_control_enabled_attributes_1 : List ℕ
fan_control_enabled_attributes_1 =
    0xb ∷ 0xfffd ∷ 0 ∷ 1 ∷ 0xfffc ∷ 3 ∷ 2 ∷ 8 ∷ 7 ∷ 6 ∷ 4 ∷ 5 ∷ 0xa ∷ 9 ∷ []

abbrev fan_control_enabled_commands_1 : List ℕ
fan_control_enabled_commands_1 = 0 ∷ []

abbrev fan_control_attribute_cases : List ℕ
fan_control_attribute_cases =
    0xb ∷ 0xfffd ∷ 0 ∷ 1 ∷ 0xfffc ∷ 3 ∷ 2 ∷ 8 ∷ 7 ∷ 6 ∷ 4 ∷ 5 ∷ 0xa ∷ 9 ∷ []

abbrev fan_control_command_cases : List ℕ
fan_control_command_cases = 0 ∷ []

abbrev pub fan_control_config : StaticCluster
fan_control_config = record {
  cluster_id = 0x202;
  fixed_cluster_config =
      record {
        endpoint_number = 1;
        feature_map = 1 ∷ 2 ∷ 4 ∷ 8 ∷ 0x10 ∷ 0x20 ∷ [];
        enabled_attributes = fan_control_enabled_attributes_1;
        enabled_commands = fan_control_enabled_commands_1;
      }
      ∷ [];
  attribute_cases = fan_control_attribute_cases;
  command_cases = fan_control_command_cases;
}

abbrev groups_enabled_attributes_1 : List ℕ
groups_enabled_attributes_1 = 0xfff9 ∷ 0xfffb ∷ 0xfffd ∷ 0xfffc ∷ 0xfff8 ∷ 0 ∷ []

abbrev groups_enabled_commands_1 : List ℕ
groups_enabled_commands_1 = 0 ∷ 5 ∷ 0 ∷ 2 ∷ 2 ∷ 4 ∷ 3 ∷ 3 ∷ 1 ∷ 1 ∷ []

abbrev groups_attribute_cases : List ℕ
groups_attribute_cases = 0xfff9 ∷ 0xfffb ∷ 0xfffd ∷ 0xfffc ∷ 0xfff8 ∷ 0 ∷ []

abbrev groups_command_cases : List ℕ
groups_command_cases = 0 ∷ 5 ∷ 0 ∷ 2 ∷ 2 ∷ 4 ∷ 3 ∷ 3 ∷ 1 ∷ 1 ∷ []

abbrev pub groups_config : StaticCluster
groups_config = record {
  cluster_id = 4;
  fixed_cluster_config =
      record {
        endpoint_number = 1;
        feature_map = [];
        enabled_attributes = groups_enabled_attributes_1;
        enabled_commands = groups_enabled_commands_1;
      }
      ∷ [];
  attribute_cases = groups_attribute_cases;
  command_cases = groups_command_cases;
}

abbrev identify_enabled_attributes_1 : List ℕ
identify_enabled_attributes_1 = 0xfff9 ∷ 0xfffb ∷ 0xfffd ∷ 0xfffc ∷ 0xfff8 ∷ 0 ∷ 1 ∷ []

abbrev identify_enabled_commands_1 : List ℕ
identify_enabled_commands_1 = 0 ∷ []

abbrev identify_attribute_cases : List ℕ
identify_attribute_cases = 0xfff9 ∷ 0xfffb ∷ 0xfffd ∷ 0xfffc ∷ 0xfff8 ∷ 0 ∷ 1 ∷ []

abbrev identify_command_cases : List ℕ
identify_command_cases = 0 ∷ []

abbrev pub identify_config : StaticCluster
identify_config = record {
  cluster_id = 3;
  fixed_cluster_config =
      record {
        endpoint_number = 1;
        feature_map = [];
        enabled_attributes = identify_enabled_attributes_1;
        enabled_commands = identify_enabled_commands_1;
      }
      ∷ [];
  attribute_cases = identify_attribute_cases;
  command_cases = identify_command_cases;
}

abbrev relative_humidity_measurement_enabled_attributes_2 : List ℕ
relative_humidity_measurement_enabled_attributes_2 =
    0xfff9 ∷ 0xfffb ∷ 0xfffd ∷ 0xfffc ∷ 0xfff8 ∷ 2 ∷ 0 ∷ 1 ∷ 3 ∷ []

abbrev relative_humidity_measurement_attribute_cases : List ℕ
relative_humidity_measurement_attribute_cases =
    0xfff9 ∷ 0xfffb ∷ 0xfffd ∷ 0xfffc ∷ 0xfff8 ∷ 2 ∷ 0 ∷ 1 ∷ 3 ∷ []

abbrev relative_humidity_measurement_command_cases : List ℕ
relative_humidity_measurement_command_cases = []

abbrev pub relative_humidity_measurement_config : StaticCluster
relative_humidity_measurement_config = record {
  cluster_id = 0x405;
  fixed_cluster_config =
      record {
        endpoint_number = 2;
        feature_map = [];
        enabled_attributes = relative_humidity_measurement_enabled_attributes_2;
        enabled_commands = [];
      }
      ∷ [];
  attribute_cases = relative_humidity_measurement_attribute_cases;
  command_cases = relative_humidity_measurement_command_cases;
}

abbrev thermostat_enabled_attributes_1 : List ℕ
thermostat_enabled_attributes_1 =
    6 ∷ 4 ∷ 5 ∷ 3 ∷ 0xfff9 ∷ 0xfffb ∷ 0xfffd ∷ 0x1b ∷ 0xfffc ∷ 0xfff8 ∷ 0 ∷ 0x18 ∷ 0x16 ∷ 0x17
    ∷ 0x15 ∷ 0x19 ∷ 0x11 ∷ 0x12 ∷ 1 ∷ 0x1c ∷ []

abbrev thermostat_enabled_commands_1 : List ℕ
thermostat_enabled_commands_1 = 0 ∷ []

abbrev thermostat_attribute_cases : List ℕ
thermostat_attribute_cases =
    6 ∷ 4 ∷ 5 ∷ 3 ∷ 0xfff9 ∷ 0xfffb ∷ 0xfffd ∷ 0x1b ∷ 0xfffc ∷ 0xfff8 ∷ 0 ∷ 0x18 ∷ 0x16 ∷ 0x17
    ∷ 0x15 ∷ 0x19 ∷ 0x11 ∷ 0x12 ∷ 1 ∷ 0x1c ∷ []

abbrev thermostat_command_cases : List ℕ
thermostat_command_cases = 0 ∷ []

abbrev pub thermostat_config : StaticCluster
thermostat_config = record {
  cluster_id = 0x201;
  fixed_cluster_config =
      record {
        endpoint_number = 1;
        feature_map = 1 ∷ 2 ∷ 0x20 ∷ [];
        enabled_attributes = thermostat_enabled_attributes_1;
        enabled_commands = thermostat_enabled_commands_1;
      }
      ∷ [];
  attribute_cases = thermostat_attribute_cases;
  command_cases = thermostat_command_cases;
}
