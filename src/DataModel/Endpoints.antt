-- ===== src/DataModel/Endpoints.antt =====
-- The cluster table and the endpoints, from src/zap-generated/endpoint_config.h.
use shirokumakun_matter.Common.{ℕ, List, [], ◌∷◌}
use shirokumakun_matter.DataModel.Types.{Cluster, EndpointType, DeviceType}
use shirokumakun_matter.DataModel.RootClusters.{
  descriptor_server_0, access_control_server_0, basic_information_server_0,
  general_commissioning_server_0, network_commissioning_server_0, diagnostic_logs_server_0,
  general_diagnostics_server_0, software_diagnostics_server_0, thread_network_diagnostics_server_0,
  administrator_commissioning_server_0, operational_credentials_server_0,
  group_key_management_server_0,
}
use shirokumakun_matter.DataModel.DeviceClusters.{
  identify_client_1, identify_server_1, groups_server_1, on_off_server_1, descriptor_server_1,
  binding_server_1, thermostat_server_1, fan_control_server_1, temperature_measurement_client_1,
}
use shirokumakun_matter.DataModel.SensorClusters.{
  identify_server_2, descriptor_server_2, relative_humidity_server_2, identify_server_3,
  descriptor_server_3, air_quality_server_3, carbon_dioxide_server_3,
}

abbrev pub generated_cluster_count : ℕ
generated_cluster_count = 28

abbrev pub generated_clusters : List Cluster
generated_clusters =
    descriptor_server_0 ∷ access_control_server_0 ∷ basic_information_server_0
    ∷ general_commissioning_server_0 ∷ network_commissioning_server_0 ∷ diagnostic_logs_server_0
    ∷ general_diagnostics_server_0 ∷ software_diagnostics_server_0
    ∷ thread_network_diagnostics_server_0 ∷ administrator_commissioning_server_0
    ∷ operational_credentials_server_0 ∷ group_key_management_server_0 ∷ identify_client_1
    ∷ identify_server_1 ∷ groups_server_1 ∷ on_off_server_1 ∷ descriptor_server_1 ∷ binding_server_1
    ∷ thermostat_server_1 ∷ fan_control_server_1 ∷ temperature_measurement_client_1
    ∷ identify_server_2 ∷ descriptor_server_2 ∷ relative_humidity_server_2 ∷ identify_server_3
    ∷ descriptor_server_3 ∷ air_quality_server_3 ∷ carbon_dioxide_server_3 ∷ []

abbrev pub generated_endpoint_types : List EndpointType
generated_endpoint_types =
    record { clusters = 0; cluster_count = 12; endpoint_size = 8 }
    ∷ record { clusters = 12; cluster_count = 9; endpoint_size = 69 }
    ∷ record { clusters = 21; cluster_count = 3; endpoint_size = 14 }
    ∷ record { clusters = 24; cluster_count = 4; endpoint_size = 4 }
    ∷ []

abbrev pub fixed_endpoint_data_version_count : ℕ
fixed_endpoint_data_version_count = 26

abbrev pub attribute_largest : ℕ
attribute_largest = 66

abbrev pub attribute_singletons_size : ℕ
attribute_singletons_size = 0

abbrev pub attribute_max_size : ℕ
attribute_max_size = 95

abbrev pub fixed_endpoint_count : ℕ
fixed_endpoint_count = 4

abbrev pub fixed_endpoint_array : List ℕ
fixed_endpoint_array = 0 ∷ 1 ∷ 2 ∷ 3 ∷ []

abbrev pub fixed_profile_ids : List ℕ
fixed_profile_ids = 0x0103 ∷ 0x0103 ∷ 0x0103 ∷ 0x0103 ∷ []

abbrev pub fixed_device_types : List DeviceType
fixed_device_types =
    record { device_id = 0x16; version = 3 }
    ∷ record { device_id = 0x301; version = 4 }
    ∷ record { device_id = 0x307; version = 1 }
    ∷ record { device_id = 0x2C; version = 1 }
    ∷ []

abbrev pub fixed_device_type_offsets : List ℕ
fixed_device_type_offsets = 0 ∷ 1 ∷ 2 ∷ 3 ∷ []

abbrev pub fixed_device_type_lengths : List ℕ
fixed_device_type_lengths = 1 ∷ 1 ∷ 1 ∷ 1 ∷ []

abbrev pub fixed_endpoint_types : List ℕ
fixed_endpoint_types = 0 ∷ 1 ∷ 2 ∷ 3 ∷ []
