-- ===== src/StaticConfig.antt =====
-- The configurations of the clusters in src/zap-generated/app/static-cluster-config, a header for
-- each cluster.
pub mod Types
pub mod Root
pub mod RootServices
pub mod Device
pub mod DeviceServices
pub mod Enabled
mod Tests
use shirokumakun_matter.Common.{ℕ, Bool, ◌==◌, List, [], ◌∷◌, Option, contains}
use shirokumakun_matter.DataModel.Lookup.{find_first}
use shirokumakun_matter.StaticConfig.Types.{StaticCluster}
use shirokumakun_matter.StaticConfig.Root.{
  access_control_config, administrator_commissioning_config, basic_information_config,
  diagnostic_logs_config, general_commissioning_config,
}
use shirokumakun_matter.StaticConfig.RootServices.{
  general_diagnostics_config, group_key_management_config, network_commissioning_config,
  operational_credentials_config, software_diagnostics_config, thread_network_diagnostics_config,
}
use shirokumakun_matter.StaticConfig.Device.{
  air_quality_config, binding_config, carbon_dioxide_concentration_measurement_config,
  descriptor_config,
}
use shirokumakun_matter.StaticConfig.DeviceServices.{
  fan_control_config, groups_config, identify_config, relative_humidity_measurement_config,
  thermostat_config,
}

abbrev pub static_clusters : List StaticCluster
static_clusters =
    access_control_config ∷ administrator_commissioning_config ∷ basic_information_config
    ∷ diagnostic_logs_config ∷ general_commissioning_config ∷ general_diagnostics_config
    ∷ group_key_management_config ∷ network_commissioning_config ∷ operational_credentials_config
    ∷ software_diagnostics_config ∷ thread_network_diagnostics_config ∷ air_quality_config
    ∷ binding_config ∷ carbon_dioxide_concentration_measurement_config ∷ descriptor_config
    ∷ fan_control_config ∷ groups_config ∷ identify_config ∷ relative_humidity_measurement_config
    ∷ thermostat_config ∷ []

-- The header of a cluster.
abbrev pub static_of : ℕ → Option StaticCluster
static_of cluster = find_first (λ s. s.cluster_id == cluster) static_clusters

-- The two functions, of a header.
abbrev pub is_attribute_enabled_on_some_endpoint : StaticCluster → ℕ → Bool
is_attribute_enabled_on_some_endpoint s attribute_id = contains attribute_id s.attribute_cases

abbrev pub is_command_enabled_on_some_endpoint : StaticCluster → ℕ → Bool
is_command_enabled_on_some_endpoint s command_id = contains command_id s.command_cases
