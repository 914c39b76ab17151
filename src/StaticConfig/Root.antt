-- ===== src/StaticConfig/Root.antt =====
-- The clusters of endpoint 0, the first half, from src/zap-generated/app/static-cluster-config.
use shirokumakun_matter.Common.{ℕ, List, [], ◌∷◌}
use shirokumakun_matter.StaticConfig.Types.{StaticCluster}

abbrev access_control_enabled_attributes_0 : List ℕ
access_control_enabled_attributes_0 =
    0xfff9 ∷ 4 ∷ 0 ∷ 0xfffb ∷ 0xfffd ∷ 1 ∷ 0xfffc ∷ 0xfff8 ∷ 2 ∷ 3 ∷ []

abbrev access_control_attribute_cases : List ℕ
access_control_attribute_cases = 0xfff9 ∷ 4 ∷ 0 ∷ 0xfffb ∷ 0xfffd ∷ 1 ∷ 0xfffc ∷ 0xfff8 ∷ 2 ∷ 3 ∷ []

abbrev access_control_command_cases : List ℕ
access_control_command_cases = []

abbrev pub access_control_config : StaticCluster
access_control_config = record {
  cluster_id = 0x1f;
  fixed_cluster_config =
      record {
        endpoint_number = 0;
        feature_map = 1 ∷ [];
        enabled_attributes = access_control_enabled_attributes_0;
        enabled_commands = [];
      }
      ∷ [];
  attribute_cases = access_control_attribute_cases;
  command_cases = access_control_command_cases;
}

abbrev administrator_commissioning_enabled_attributes_0 : List ℕ
administrator_commissioning_enabled_attributes_0 =
    0xfff9 ∷ 1 ∷ 2 ∷ 0xfffb ∷ 0xfffd ∷ 0xfffc ∷ 0xfff8 ∷ 0 ∷ []

abbrev administrator_commissioning_enabled_commands_0 : List ℕ
administrator_commissioning_enabled_commands_0 = 1 ∷ 0 ∷ 2 ∷ []

abbrev administrator_commissioning_attribute_cases : List ℕ
administrator_commissioning_attribute_cases =
    0xfff9 ∷ 1 ∷ 2 ∷ 0xfffb ∷ 0xfffd ∷ 0xfffc ∷ 0xfff8 ∷ 0 ∷ []

abbrev administrator_commissioning_command_cases : List ℕ
administrator_commissioning_command_cases = 1 ∷ 0 ∷ 2 ∷ []

abbrev pub administrator_commissioning_config : StaticCluster
administrator_commissioning_config = record {
  cluster_id = 0x3c;
  fixed_cluster_config =
      record {
        endpoint_number = 0;
        feature_map = 1 ∷ [];
        enabled_attributes = administrator_commissioning_enabled_attributes_0;
        enabled_commands = administrator_commissioning_enabled_commands_0;
      }
      ∷ [];
  attribute_cases = administrator_commissioning_attribute_cases;
  command_cases = administrator_commissioning_command_cases;
}

abbrev basic_information_enabled_attributes_0 : List ℕ
basic_information_enabled_attributes_0 =
    0xfff9 ∷ 0xfffb ∷ 0x13 ∷ 0xfffd ∷ 0 ∷ 0xfffc ∷ 0xfff8 ∷ 7 ∷ 8 ∷ 6 ∷ 0xb ∷ 0x16 ∷ 5 ∷ 4 ∷ 3 ∷ 0xf
    ∷ 9 ∷ 0xa ∷ 0x15 ∷ 0x12 ∷ 2 ∷ 1 ∷ []

abbrev basic_information_attribute_cases : List ℕ
basic_information_attribute_cases =
    0xfff9 ∷ 0xfffb ∷ 0x13 ∷ 0xfffd ∷ 0 ∷ 0xfffc ∷ 0xfff8 ∷ 7 ∷ 8 ∷ 6 ∷ 0xb ∷ 0x16 ∷ 5 ∷ 4 ∷ 3 ∷ 0xf
    ∷ 9 ∷ 0xa ∷ 0x15 ∷ 0x12 ∷ 2 ∷ 1 ∷ []

abbrev basic_information_command_cases : List ℕ
basic_information_command_cases = []

abbrev pub basic_information_config : StaticCluster
basic_information_config = record {
  cluster_id = 0x28;
  fixed_cluster_config =
      record {
        endpoint_number = 0;
        feature_map = [];
        enabled_attributes = basic_information_enabled_attributes_0;
        enabled_commands = [];
      }
      ∷ [];
  attribute_cases = basic_information_attribute_cases;
  command_cases = basic_information_command_cases;
}

abbrev diagnostic_logs_enabled_attributes_0 : List ℕ
diagnostic_logs_enabled_attributes_0 = 0xfff9 ∷ 0xfffb ∷ 0xfffd ∷ 0xfffc ∷ 0xfff8 ∷ []

abbrev diagnostic_logs_enabled_commands_0 : List ℕ
diagnostic_logs_enabled_commands_0 = 0 ∷ 1 ∷ []

abbrev diagnostic_logs_attribute_cases : List ℕ
diagnostic_logs_attribute_cases = 0xfff9 ∷ 0xfffb ∷ 0xfffd ∷ 0xfffc ∷ 0xfff8 ∷ []

abbrev diagnostic_logs_command_cases : List ℕ
diagnostic_logs_command_cases = 0 ∷ 1 ∷ []

abbrev pub diagnostic_logs_config : StaticCluster
diagnostic_logs_config = record {
  cluster_id = 0x32;
  fixed_cluster_config =
      record {
        endpoint_number = 0;
        feature_map = [];
        enabled_attributes = diagnostic_logs_enabled_attributes_0;
        enabled_commands = diagnostic_logs_enabled_commands_0;
      }
      ∷ [];
  attribute_cases = diagnostic_logs_attribute_cases;
  command_cases = diagnostic_logs_command_cases;
}

abbrev general_commissioning_enabled_attributes_0 : List ℕ
general_commissioning_enabled_attributes_0 =
    0xfff9 ∷ 0xfffb ∷ 1 ∷ 0 ∷ 0xfffd ∷ 0xfffc ∷ 0xfff8 ∷ 3 ∷ 2 ∷ 4 ∷ []

abbrev general_commissioning_enabled_commands_0 : List ℕ
general_commissioning_enabled_commands_0 = 0 ∷ 1 ∷ 4 ∷ 5 ∷ 2 ∷ 3 ∷ []

abbrev general_commissioning_attribute_cases : List ℕ
general_commissioning_attribute_cases =
    0xfff9 ∷ 0xfffb ∷ 1 ∷ 0 ∷ 0xfffd ∷ 0xfffc ∷ 0xfff8 ∷ 3 ∷ 2 ∷ 4 ∷ []

abbrev general_commissioning_command_cases : List ℕ
general_commissioning_command_cases = 0 ∷ 1 ∷ 4 ∷ 5 ∷ 2 ∷ 3 ∷ []

abbrev pub general_commissioning_config : StaticCluster
general_commissioning_config = record {
  cluster_id = 0x30;
  fixed_cluster_config =
      record {
        endpoint_number = 0;
        feature_map = [];
        enabled_attributes = general_commissioning_enabled_attributes_0;
        enabled_commands = general_commissioning_enabled_commands_0;
      }
      ∷ [];
  attribute_cases = general_commissioning_attribute_cases;
  command_cases = general_commissioning_command_cases;
}
