-- ===== src/StaticConfig/Types.antt =====
-- The configuration of a cluster, as each header of src/zap-generated/app/static-cluster-config
-- has it.
use shirokumakun_matter.Common.{ℕ, List}

-- An entry of `kFixedClusterConfig`, with the bits of its features.
pub record FixedConfig : Type 0 where
  pub endpoint_number : ℕ
  pub feature_map : List ℕ
  pub enabled_attributes : List ℕ
  pub enabled_commands : List ℕ

-- What a header says of its cluster: the entries, and the cases that return true of
-- `IsAttributeEnabledOnSomeEndpoint` and `IsCommandEnabledOnSomeEndpoint`.
pub record StaticCluster : Type 0 where
  pub cluster_id : ℕ
  pub fixed_cluster_config : List FixedConfig
  pub attribute_cases : List ℕ
  pub command_cases : List ℕ
