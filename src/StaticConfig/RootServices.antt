-- ===== src/StaticConfig/RootServices.antt =====
-- The clusters of endpoint 0, the second half, from src/zap-generated/app/static-cluster-config.
use shirokumakun_matter.Common.{ℕ, List, [], ◌∷◌}
use shirokumakun_matter.StaticConfig.Types.{StaticCluster}

abbrev general_diagnostics_enabled_attributes_0 : List ℕ
general_diagnostics_enabled_attributes_0 =
    0xfff9 ∷ 0xfffb ∷ 4 ∷ 0xfffd ∷ 0xfffc ∷ 0xfff8 ∷ 0 ∷ 1 ∷ 8 ∷ 3 ∷ 2 ∷ []

abbrev general_diagnostics_enabled_commands_0 : List ℕ
general_diagnostics_enabled_commands_0 = 0 ∷ 1 ∷ 2 ∷ []

abbrev general_diagnostics_attribute_cases : List ℕ
general_diagnostics_attribute_cases =
    0xfff9 ∷ 0xfffb ∷ 4 ∷ 0xfffd ∷ 0xfffc ∷ 0xfff8 ∷ 0 ∷ 1 ∷ 8 ∷ 3 ∷ 2 ∷ []

abbrev general_diagnostics_command_cases : List ℕ
general_diagnostics_command_cases = 0 ∷ 1 ∷ 2 ∷ []

abbrev pub general_diagnostics_config : StaticCluster
general_diagnostics_config = record {
  cluster_id = 0x33;
  fixed_cluster_config =
      record {
        endpoint_number = 0;
        feature_map = [];
        enabled_attributes = general_diagnostics_enabled_attributes_0;
        enabled_commands = general_diagnostics_enabled_commands_0;
      }
      ∷ [];
  attribute_cases = general_diagnostics_attribute_cases;
  command_cases = general_diagnostics_command_cases;
}

abbrev group_key_management_enabled_attributes_0 : List ℕ
group_key_management_enabled_attributes_0 =
    0xfff9 ∷ 0xfffb ∷ 0xfffd ∷ 0xfffc ∷ 0xfff8 ∷ 0 ∷ 1 ∷ 3 ∷ 2 ∷ []

abbrev group_key_management_enabled_commands_0 : List ℕ
group_key_management_enabled_commands_0 = 1 ∷ 4 ∷ 5 ∷ 2 ∷ 3 ∷ 0 ∷ []

abbrev group_key_management_attribute_cases : List ℕ
group_key_management_attribute_cases =
    0xfff9 ∷ 0xfffb ∷ 0xfffd ∷ 0xfffc ∷ 0xfff8 ∷ 0 ∷ 1 ∷ 3 ∷ 2 ∷ []

abbrev group_key_management_command_cases : List ℕ
group_key_management_command_cases = 1 ∷ 4 ∷ 5 ∷ 2 ∷ 3 ∷ 0 ∷ []

abbrev pub group_key_management_config : StaticCluster
group_key_management_config = record {
  cluster_id = 0x3f;
  fixed_cluster_config =
      record {
        endpoint_number = 0;
        feature_map = [];
        enabled_attributes = group_key_management_enabled_attributes_0;
        enabled_commands = group_key_management_enabled_commands_0;
      }
      ∷ [];
  attribute_cases = group_key_management_attribute_cases;
  command_cases = group_key_management_command_cases;
}

abbrev network_commissioning_enabled_attributes_0 : List ℕ
network_commissioning_enabled_attributes_0 =
    0xfff9 ∷ 0xfffb ∷ 0xfffd ∷ 3 ∷ 0xfffc ∷ 0xfff8 ∷ 4 ∷ 7 ∷ 6 ∷ 5 ∷ 0 ∷ 1 ∷ 2 ∷ 9 ∷ 8 ∷ 0xa ∷ []

abbrev network_commissioning_enabled_commands_0 : List ℕ
network_commissioning_enabled_commands_0 = 3 ∷ 2 ∷ 6 ∷ 7 ∷ 5 ∷ 4 ∷ 8 ∷ 0 ∷ 1 ∷ []

abbrev network_commissioning_attribute_cases : List ℕ
network_commissioning_attribute_cases =
    0xfff9 ∷ 0xfffb ∷ 0xfffd ∷ 3 ∷ 0xfffc ∷ 0xfff8 ∷ 4 ∷ 7 ∷ 6 ∷ 5 ∷ 0 ∷ 1 ∷ 2 ∷ 9 ∷ 8 ∷ 0xa ∷ []

abbrev network_commissioning_command_cases : List ℕ
network_commissioning_command_cases = 3 ∷ 2 ∷ 6 ∷ 7 ∷ 5 ∷ 4 ∷ 8 ∷ 0 ∷ 1 ∷ []

abbrev pub network_commissioning_config : StaticCluster
network_commissioning_config = record {
  cluster_id = 0x31;
  fixed_cluster_config =
      record {
        endpoint_number = 0;
        feature_map = 2 ∷ [];
        enabled_attributes = network_commissioning_enabled_attributes_0;
        enabled_commands = network_commissioning_enabled_commands_0;
      }
      ∷ [];
  attribute_cases = network_commissioning_attribute_cases;
  command_cases = network_commissioning_command_cases;
}

abbrev operational_credentials_enabled_attributes_0 : List ℕ
operational_credentials_enabled_attributes_0 =
    0xfff9 ∷ 0xfffb ∷ 0xfffd ∷ 3 ∷ 5 ∷ 1 ∷ 0xfffc ∷ 0xfff8 ∷ 0 ∷ 2 ∷ 4 ∷ []

abbrev operational_credentials_enabled_commands_0 : List ℕ
operational_credentials_enabled_commands_0 = 6 ∷ 0xb ∷ 0 ∷ 1 ∷ 2 ∷ 3 ∷ 4 ∷ 5 ∷ 8 ∷ 0xa ∷ 9 ∷ 7 ∷ []

abbrev operational_credentials_attribute_cases : List ℕ
operational_credentials_attribute_cases =
    0 ∷ 0xfff9 ∷ 0xfffb ∷ 0xfffd ∷ 3 ∷ 5 ∷ 1 ∷ 0xfffc ∷ 0xfff8 ∷ 2 ∷ 4 ∷ []

abbrev operational_credentials_command_cases : List ℕ
operational_credentials_command_cases = 6 ∷ 0xb ∷ 0 ∷ 1 ∷ 4 ∷ 5 ∷ 2 ∷ 3 ∷ 8 ∷ 0xa ∷ 9 ∷ 7 ∷ []

abbrev pub operational_credentials_config : StaticCluster
operational_credentials_config = record {
  cluster_id = 0x3e;
  fixed_cluster_config =
      record {
        endpoint_number = 0;
        feature_map = [];
        enabled_attributes = operational_credentials_enabled_attributes_0;
        enabled_commands = operational_credentials_enabled_commands_0;
      }
      ∷ [];
  attribute_cases = operational_credentials_attribute_cases;
  command_cases = operational_credentials_command_cases;
}

abbrev software_diagnostics_enabled_attributes_0 : List ℕ
software_diagnostics_enabled_attributes_0 = 0xfff9 ∷ 0xfffb ∷ 0xfffd ∷ 1 ∷ 2 ∷ 0xfffc ∷ 0xfff8 ∷ []

abbrev software_diagnostics_attribute_cases : List ℕ
software_diagnostics_attribute_cases = 0xfff9 ∷ 0xfffb ∷ 0xfffd ∷ 1 ∷ 2 ∷ 0xfffc ∷ 0xfff8 ∷ []

abbrev software_diagnostics_command_cases : List ℕ
software_diagnostics_command_cases = []

abbrev pub software_diagnostics_config : StaticCluster
software_diagnostics_config = record {
  cluster_id = 0x34;
  fixed_cluster_config =
      record {
        endpoint_number = 0;
        feature_map = [];
        enabled_attributes = software_diagnostics_enabled_attributes_0;
        enabled_commands = [];
      }
      ∷ [];
  attribute_cases = software_diagnostics_attribute_cases;
  command_cases = software_diagnostics_command_cases;
}

abbrev thread_network_diagnostics_enabled_attributes_0 : List ℕ
thread_network_diagnostics_enabled_attributes_0 =
    0xfff9 ∷ 0x3e ∷ 0x38 ∷ 0x12 ∷ 0xfffb ∷ 0x14 ∷ 0 ∷ 0x3c ∷ 0xf ∷ 0xfffd ∷ 0xb ∷ 0x3a ∷ 0xe ∷ 4
    ∷ 0xfffc ∷ 0xfff8 ∷ 0x11 ∷ 0xd ∷ 5 ∷ 7 ∷ 2 ∷ 0x3d ∷ 6 ∷ 3 ∷ 0x15 ∷ 9 ∷ 0x13 ∷ 0x39 ∷ 0x10 ∷ 8
    ∷ 1 ∷ 0x2f ∷ 0x2c ∷ 0x2d ∷ 0x29 ∷ 0x2a ∷ 0x2b ∷ 0x30 ∷ 0x31 ∷ 0x36 ∷ 0x34 ∷ 0x32 ∷ 0x37 ∷ 0x35
    ∷ 0x33 ∷ 0x2e ∷ 0x27 ∷ 0x28 ∷ 0x3b ∷ 0xc ∷ 0x1a ∷ 0x19 ∷ 0x1e ∷ 0x1f ∷ 0x18 ∷ 0x1c ∷ 0x1d ∷ 0x22
    ∷ 0x25 ∷ 0x26 ∷ 0x24 ∷ 0x23 ∷ 0x1b ∷ 0x20 ∷ 0x21 ∷ 0x16 ∷ 0x17 ∷ 0xa ∷ []

abbrev thread_network_diagnostics_enabled_commands_0 : List ℕ
thread_network_diagnostics_enabled_commands_0 = 0 ∷ []

abbrev thread_network_diagnostics_attribute_cases : List ℕ
thread_network_diagnostics_attribute_cases =
    0xfff9 ∷ 0x3e ∷ 0x38 ∷ 0x12 ∷ 0xfffb ∷ 0x14 ∷ 0 ∷ 0x3c ∷ 0xf ∷ 0xfffd ∷ 0xb ∷ 0x3a ∷ 0xe ∷ 4
    ∷ 0xfffc ∷ 0xfff8 ∷ 0x11 ∷ 0xd ∷ 5 ∷ 7 ∷ 2 ∷ 0x3d ∷ 6 ∷ 3 ∷ 0x15 ∷ 9 ∷ 0x13 ∷ 0x39 ∷ 8 ∷ 0x10
    ∷ 1 ∷ 0x2f ∷ 0x2c ∷ 0x2d ∷ 0x29 ∷ 0x2a ∷ 0x2b ∷ 0x30 ∷ 0x31 ∷ 0x36 ∷ 0x34 ∷ 0x32 ∷ 0x37 ∷ 0x35
    ∷ 0x33 ∷ 0x2e ∷ 0x27 ∷ 0x28 ∷ 0x3b ∷ 0xc ∷ 0x19 ∷ 0x1a ∷ 0x1e ∷ 0x1f ∷ 0x18 ∷ 0x1c ∷ 0x1d ∷ 0x22
    ∷ 0x25 ∷ 0x26 ∷ 0x24 ∷ 0x23 ∷ 0x1b ∷ 0x20 ∷ 0x21 ∷ 0x16 ∷ 0x17 ∷ 0xa ∷ []

abbrev thread_network_diagnostics_command_cases : List ℕ
thread_network_diagnostics_command_cases = 0 ∷ []

abbrev pub thread_network_diagnostics_config : StaticCluster
thread_network_diagnostics_config = record {
  cluster_id = 0x35;
  fixed_cluster_config =
      record {
        endpoint_number = 0;
        feature_map = 1 ∷ 2 ∷ 4 ∷ 8 ∷ [];
        enabled_attributes = thread_network_diagnostics_enabled_attributes_0;
        enabled_commands = thread_network_diagnostics_enabled_commands_0;
      }
      ∷ [];
  attribute_cases = thread_network_diagnostics_attribute_cases;
  command_cases = thread_network_diagnostics_command_cases;
}
