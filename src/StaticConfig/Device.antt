-- ===== src/StaticConfig/Device.antt =====
-- Descriptor and the clusters of the other endpoints, the first half, from src/zap-generated/app/static-cluster-config.
use shirokumakun_matter.Common.{ℕ, List, [], ◌∷◌}
use shirokumakun_matter.StaticConfig.Types.{StaticCluster}

abbrev air_quality_enabled_attributes_3 : List ℕ
air_quality_enabled_attributes_3 = 0xfff9 ∷ 0 ∷ 0xfffb ∷ 0xfffd ∷ 0xfffc ∷ 0xfff8 ∷ []

abbrev air_quality_attribute_cases : List ℕ
air_quality_attribute_cases = 0xfff9 ∷ 0 ∷ 0xfffb ∷ 0xfffd ∷ 0xfffc ∷ 0xfff8 ∷ []

abbrev air_quality_command_cases : List ℕ
air_quality_command_cases = []

abbrev pub air_quality_config : StaticCluster
air_quality_config = record {
  cluster_id = 0x5b;
  fixed_cluster_config =
      record {
        endpoint_number = 3;
        feature_map = [];
        enabled_attributes = air_quality_enabled_attributes_3;
        enabled_commands = [];
      }
      ∷ [];
  attribute_cases = air_quality_attribute_cases;
  command_cases = air_quality_command_cases;
}

abbrev binding_enabled_attributes_1 : List ℕ
binding_enabled_attributes_1 = 0xfff9 ∷ 0xfffb ∷ 0 ∷ 0xfffd ∷ 0xfffc ∷ 0xfff8 ∷ []

abbrev binding_attribute_cases : List ℕ
binding_attribute_cases = 0xfff9 ∷ 0xfffb ∷ 0 ∷ 0xfffd ∷ 0xfffc ∷ 0xfff8 ∷ []

abbrev binding_command_cases : List ℕ
binding_command_cases = []

abbrev pub binding_config : StaticCluster
binding_config = record {
  cluster_id = 0x1e;
  fixed_cluster_config =
      record {
        endpoint_number = 1;
        feature_map = [];
        enabled_attributes = binding_enabled_attributes_1;
        enabled_commands = [];
      }
      ∷ [];
  attribute_cases = binding_attribute_cases;
  command_cases = binding_command_cases;
}

abbrev carbon_dioxide_concentration_measurement_enabled_attributes_3 : List ℕ
carbon_dioxide_concentration_measurement_enabled_attributes_3 =
    0xfff9 ∷ 0xfffb ∷ 0xfffd ∷ 0xfffc ∷ 0xfff8 ∷ 2 ∷ 0 ∷ 1 ∷ []

abbrev carbon_dioxide_concentration_measurement_attribute_cases : List ℕ
carbon_dioxide_concentration_measurement_attribute_cases =
    0xfff9 ∷ 0xfffb ∷ 0xfffd ∷ 0xfffc ∷ 0xfff8 ∷ 2 ∷ 0 ∷ 1 ∷ []

abbrev carbon_dioxide_concentration_measurement_command_cases : List ℕ
carbon_dioxide_concentration_measurement_command_cases = []

abbrev pub carbon_dioxide_concentration_measurement_config : StaticCluster
carbon_dioxide_concentration_measurement_config = record {
  cluster_id = 0x40d;
  fixed_cluster_config =
      record {
        endpoint_number = 3;
        feature_map = [];
        enabled_attributes = carbon_dioxide_concentration_measurement_enabled_attributes_3;
        enabled_commands = [];
      }
      ∷ [];
  attribute_cases = carbon_dioxide_concentration_measurement_attribute_cases;
  command_cases = carbon_dioxide_concentration_measurement_command_cases;
}

abbrev descriptor_enabled_attributes_0 : List ℕ
descriptor_enabled_attributes_0 = 0xfff9 ∷ 0xfffb ∷ 2 ∷ 0xfffd ∷ 0 ∷ 0xfffc ∷ 0xfff8 ∷ 3 ∷ 1 ∷ []

abbrev descriptor_enabled_attributes_1 : List ℕ
descriptor_enabled_attributes_1 = 0xfff9 ∷ 0xfffb ∷ 2 ∷ 0xfffd ∷ 0 ∷ 0xfffc ∷ 0xfff8 ∷ 3 ∷ 1 ∷ []

abbrev descriptor_enabled_attributes_2 : List ℕ
descriptor_enabled_attributes_2 = 0xfff9 ∷ 0xfffb ∷ 2 ∷ 0xfffd ∷ 0 ∷ 0xfffc ∷ 0xfff8 ∷ 3 ∷ 1 ∷ []

abbrev descriptor_enabled_attributes_3 : List ℕ
descriptor_enabled_attributes_3 = 0xfff9 ∷ 0xfffb ∷ 2 ∷ 0xfffd ∷ 0 ∷ 0xfffc ∷ 0xfff8 ∷ 3 ∷ 1 ∷ []

abbrev descriptor_attribute_cases : List ℕ
descriptor_attribute_cases = 0xfff9 ∷ 0xfffb ∷ 2 ∷ 0xfffd ∷ 0 ∷ 0xfffc ∷ 0xfff8 ∷ 3 ∷ 1 ∷ []

abbrev descriptor_command_cases : List ℕ
descriptor_command_cases = []

abbrev pub descriptor_config : StaticCluster
descriptor_config = record {
  cluster_id = 0x1d;
  fixed_cluster_config =
      record {
        endpoint_number = 0;
        feature_map = [];
        enabled_attributes = descriptor_enabled_attributes_0;
        enabled_commands = [];
      }
      ∷ record {
        endpoint_number = 1;
        feature_map = [];
        enabled_attributes = descriptor_enabled_attributes_1;
        enabled_commands = [];
      }
      ∷ record {
        endpoint_number = 2;
        feature_map = [];
        enabled_attributes = descriptor_enabled_attributes_2;
        enabled_commands = [];
      }
      ∷ record {
        endpoint_number = 3;
        feature_map = [];
        enabled_attributes = descriptor_enabled_attributes_3;
        enabled_commands = [];
      }
      ∷ [];
  attribute_cases = descriptor_attribute_cases;
  command_cases = descriptor_command_cases;
}
