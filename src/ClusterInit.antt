-- ===== src/ClusterInit.antt =====
-- The callbacks that start and stop the servers of the clusters: the switches on the cluster in
-- src/zap-generated/callback-stub.cpp, app/cluster-callbacks.cpp and CodeDrivenInitShutdown.cpp.
-- Each case calls the callback that is named after the cluster, with the endpoint; the callbacks
-- are the SDK's.
pub mod Covered
mod Tests
use shirokumakun_matter.Common.{ℕ, ◌==◌, if◌then◌else◌, List, [], ◌∷◌, Option, none, some}

-- The clusters that the callbacks are named after.
pub data ClusterName : Type 0 where
  access_control administrator_commissioning air_quality : ClusterName
  basic_information binding carbon_dioxide_concentration_measurement : ClusterName
  descriptor diagnostic_logs fan_control : ClusterName
  general_commissioning general_diagnostics group_key_management : ClusterName
  groups identify network_commissioning : ClusterName
  on_off operational_credentials relative_humidity_measurement : ClusterName
  software_diagnostics temperature_measurement thermostat : ClusterName
  thread_network_diagnostics : ClusterName

pub record Call : Type 0 where
  pub callback : ClusterName
  pub endpoint : ℕ

-- A switch whose cases each make one call; without a case for the cluster it makes none.
abbrev pub switch : ℕ → List (ℕ × ClusterName) → ℕ → Option Call
switch endpoint [] cluster = none
switch endpoint ((c, name) ∷ cases) cluster =
    if cluster == c
    then some (record { callback = name; endpoint = endpoint })
    else switch endpoint cases cluster

-- `emberAfClusterInitCallback` of src/zap-generated/callback-stub.cpp.
abbrev pub ember_cluster_init : ℕ → ℕ → Option Call
ember_cluster_init endpoint = switch endpoint (
    (0x1f, access_control)
    ∷ (0x3c, administrator_commissioning)
    ∷ (0x5b, air_quality)
    ∷ (0x28, basic_information)
    ∷ (0x1e, binding)
    ∷ (0x40d, carbon_dioxide_concentration_measurement)
    ∷ (0x1d, descriptor)
    ∷ (0x32, diagnostic_logs)
    ∷ (0x202, fan_control)
    ∷ (0x30, general_commissioning)
    ∷ (0x33, general_diagnostics)
    ∷ (0x3f, group_key_management)
    ∷ (4, groups)
    ∷ (3, identify)
    ∷ (0x31, network_commissioning)
    ∷ (6, on_off)
    ∷ (0x3e, operational_credentials)
    ∷ (0x405, relative_humidity_measurement)
    ∷ (0x34, software_diagnostics)
    ∷ (0x402, temperature_measurement)
    ∷ (0x201, thermostat)
    ∷ (0x35, thread_network_diagnostics)
    ∷ [])

-- `emberAfClusterInitCallback` of src/zap-generated/app/cluster-callbacks.cpp.
abbrev pub app_cluster_init : ℕ → ℕ → Option Call
app_cluster_init endpoint = switch endpoint (
    (0x1f, access_control)
    ∷ (0x3c, administrator_commissioning)
    ∷ (0x5b, air_quality)
    ∷ (0x28, basic_information)
    ∷ (0x1e, binding)
    ∷ (0x40d, carbon_dioxide_concentration_measurement)
    ∷ (0x1d, descriptor)
    ∷ (0x32, diagnostic_logs)
    ∷ (0x202, fan_control)
    ∷ (0x30, general_commissioning)
    ∷ (0x33, general_diagnostics)
    ∷ (0x3f, group_key_management)
    ∷ (4, groups)
    ∷ (3, identify)
    ∷ (0x31, network_commissioning)
    ∷ (0x3e, operational_credentials)
    ∷ (0x405, relative_humidity_measurement)
    ∷ (0x34, software_diagnostics)
    ∷ (0x201, thermostat)
    ∷ (0x35, thread_network_diagnostics)
    ∷ [])

-- `emberAfClusterShutdownCallback` of src/zap-generated/app/cluster-callbacks.cpp.
abbrev pub app_cluster_shutdown : ℕ → ℕ → Option Call
app_cluster_shutdown endpoint = switch endpoint (
    (0x1f, access_control)
    ∷ (0x3c, administrator_commissioning)
    ∷ (0x5b, air_quality)
    ∷ (0x28, basic_information)
    ∷ (0x1e, binding)
    ∷ (0x40d, carbon_dioxide_concentration_measurement)
    ∷ (0x1d, descriptor)
    ∷ (0x32, diagnostic_logs)
    ∷ (0x202, fan_control)
    ∷ (0x30, general_commissioning)
    ∷ (0x33, general_diagnostics)
    ∷ (0x3f, group_key_management)
    ∷ (4, groups)
    ∷ (3, identify)
    ∷ (0x31, network_commissioning)
    ∷ (0x3e, operational_credentials)
    ∷ (0x405, relative_humidity_measurement)
    ∷ (0x34, software_diagnostics)
    ∷ (0x201, thermostat)
    ∷ (0x35, thread_network_diagnostics)
    ∷ [])

-- `MatterClusterServerInitCallback` of src/zap-generated/CodeDrivenInitShutdown.cpp.
abbrev pub matter_cluster_server_init : ℕ → ℕ → Option Call
matter_cluster_server_init endpoint = switch endpoint (
    (3, identify)
    ∷ (0x1d, descriptor)
    ∷ (0x1e, binding)
    ∷ (0x1f, access_control)
    ∷ (0x28, basic_information)
    ∷ (0x30, general_commissioning)
    ∷ (0x32, diagnostic_logs)
    ∷ (0x33, general_diagnostics)
    ∷ (0x34, software_diagnostics)
    ∷ (0x3c, administrator_commissioning)
    ∷ (0x3e, operational_credentials)
    ∷ (0x3f, group_key_management)
    ∷ [])

-- `MatterClusterServerShutdownCallback` of src/zap-generated/CodeDrivenInitShutdown.cpp.
abbrev pub matter_cluster_server_shutdown : ℕ → ℕ → Option Call
matter_cluster_server_shutdown endpoint = switch endpoint (
    (3, identify)
    ∷ (0x1d, descriptor)
    ∷ (0x1e, binding)
    ∷ (0x1f, access_control)
    ∷ (0x28, basic_information)
    ∷ (0x30, general_commissioning)
    ∷ (0x32, diagnostic_logs)
    ∷ (0x33, general_diagnostics)
    ∷ (0x34, software_diagnostics)
    ∷ (0x3c, administrator_commissioning)
    ∷ (0x3e, operational_credentials)
    ∷ (0x3f, group_key_management)
    ∷ [])
