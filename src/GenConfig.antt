-- ===== src/GenConfig.antt =====
-- The constants of src/zap-generated/gen_config.h, and the names that they share with the
-- clusters of endpoint_config.h.
pub mod Types
pub mod Servers
pub mod Clients
pub mod Plugins
pub mod Counted
mod Tests
use Prim.Native.String.{String}
use text.Mathlib.Text.{◌==◌ as ◌=s=◌}
use shirokumakun_matter.Common.{
  ℕ, Bool, true, false, ◌&&◌, Option, none, some, List, [], ◌∷◌, ◌==◌, if◌then◌else◌, length,
}
use shirokumakun_matter.DataModel.Types.{Cluster}
use shirokumakun_matter.DataModel.Endpoints.{generated_clusters}
use shirokumakun_matter.DataModel.Lookup.{any, count_of, find_first, is_server_cluster}
use shirokumakun_matter.GenConfig.Types.{Count, Enabled}
use shirokumakun_matter.GenConfig.Servers.{server_endpoint_counts}
use shirokumakun_matter.GenConfig.Clients.{client_endpoint_counts}
use shirokumakun_matter.GenConfig.Plugins.{enabled_commands}

-- A cluster's name in the comments of `GENERATED_CLUSTERS`, in capitals, and its number.
pub record NamedCluster : Type 0 where
  pub name : String
  pub id : ℕ

abbrev named_cluster : String → ℕ → NamedCluster
named_cluster name id = record { name = name; id = id }

abbrev pub named_clusters : List NamedCluster
named_clusters =
    named_cluster "DESCRIPTOR" 0x1D
    ∷ named_cluster "ACCESS_CONTROL" 0x1F
    ∷ named_cluster "BASIC_INFORMATION" 0x28
    ∷ named_cluster "GENERAL_COMMISSIONING" 0x30
    ∷ named_cluster "NETWORK_COMMISSIONING" 0x31
    ∷ named_cluster "DIAGNOSTIC_LOGS" 0x32
    ∷ named_cluster "GENERAL_DIAGNOSTICS" 0x33
    ∷ named_cluster "SOFTWARE_DIAGNOSTICS" 0x34
    ∷ named_cluster "THREAD_NETWORK_DIAGNOSTICS" 0x35
    ∷ named_cluster "ADMINISTRATOR_COMMISSIONING" 0x3C
    ∷ named_cluster "OPERATIONAL_CREDENTIALS" 0x3E
    ∷ named_cluster "GROUP_KEY_MANAGEMENT" 0x3F
    ∷ named_cluster "IDENTIFY" 0x3
    ∷ named_cluster "GROUPS" 0x4
    ∷ named_cluster "ON_OFF" 0x6
    ∷ named_cluster "BINDING" 0x1E
    ∷ named_cluster "THERMOSTAT" 0x201
    ∷ named_cluster "FAN_CONTROL" 0x202
    ∷ named_cluster "TEMPERATURE_MEASUREMENT" 0x402
    ∷ named_cluster "RELATIVE_HUMIDITY_MEASUREMENT" 0x405
    ∷ named_cluster "AIR_QUALITY" 0x5B
    ∷ named_cluster "CARBON_DIOXIDE_CONCENTRATION_MEASUREMENT" 0x40D
    ∷ []

abbrev pub is_named : String → Cluster → Bool
is_named name c = any (λ n. n.name =s= name && n.id == c.cluster_id) named_clusters

abbrev pub has_name : String → List String → Bool
has_name name names = any (λ n. n =s= name) names

abbrev pub servers_named : String → ℕ
servers_named name = count_of (λ c. is_named name c && is_server_cluster c) generated_clusters

abbrev pub is_client_cluster : Cluster → Bool
is_client_cluster c = if is_server_cluster c then false else true

abbrev pub clients_named : String → ℕ
clients_named name = count_of (λ c. is_named name c && is_client_cluster c) generated_clusters

-- The constant of a name; `none` if there is none.
abbrev pub count_entry_of : String → List Count → Option Count
count_entry_of name counts = find_first (λ c. c.name =s= name) counts

-- How many commands of a cluster are enabled.
abbrev pub enabled_count : String → ℕ
enabled_count name = count_of (λ e. e.cluster =s= name) enabled_commands
