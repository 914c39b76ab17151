-- ===== src/DataModel/Layout.antt =====
-- The tables of src/zap-generated/endpoint_config.h fit together: each index and count names
-- entries that exist, and every entry belongs to one owner.
use shirokumakun_matter.Common.{ℕ, suc, ◌+◌, ◌≤◌, ◌≡◌, refl, List, [], ◌∷◌, map, length, All, arith}
use shirokumakun_matter.DataModel.Types.{Cluster, EndpointType}
use shirokumakun_matter.DataModel.Attributes.{
  generated_attributes, generated_attribute_count, generated_min_max_defaults,
  generated_min_max_default_count,
}
use shirokumakun_matter.DataModel.Endpoints.{
  generated_clusters, generated_cluster_count, generated_endpoint_types,
  fixed_endpoint_data_version_count, fixed_endpoint_count, fixed_endpoint_array,
  fixed_endpoint_types,
}
use shirokumakun_matter.DataModel.Lookup.{count_of, is_server_cluster}

-- Slices of an index and a count that follow one another, from the first number to the last.
abbrev pub Tiles : ℕ → List (ℕ × ℕ) → ℕ → Type 0
Tiles at [] total = at ≡ total
Tiles at ((first, count) ∷ slices) total = (first ≡ at) × Tiles (at + count) slices total

abbrev attribute_slice : Cluster → ℕ × ℕ
attribute_slice c = (c.attributes, c.attribute_count)

abbrev cluster_slice : EndpointType → ℕ × ℕ
cluster_slice e = (e.clusters, e.cluster_count)

pub record IsLaidOut : Type 0 where
  pub attributes : Tiles 0 (map attribute_slice generated_clusters) generated_attribute_count
  pub attribute_entries : length generated_attributes ≡ generated_attribute_count
  pub clusters : Tiles 0 (map cluster_slice generated_endpoint_types) generated_cluster_count
  pub cluster_entries : length generated_clusters ≡ generated_cluster_count
  pub limits : length generated_min_max_defaults ≡ generated_min_max_default_count
  pub versions : count_of is_server_cluster generated_clusters ≡ fixed_endpoint_data_version_count
  pub endpoints : length fixed_endpoint_array ≡ fixed_endpoint_count
  pub types : length fixed_endpoint_types ≡ fixed_endpoint_count
  pub types_exist : All (λ i. suc i ≤ length generated_endpoint_types) fixed_endpoint_types

-- The attributes of the clusters, in the order of the clusters, are the whole attribute table with
-- none shared or left over; so are the clusters of the endpoint types; each table has as many
-- entries as its constant says; and there is a data version for each server cluster.
pub generated_tables-IsLaidOut : IsLaidOut
generated_tables-IsLaidOut = record {
  attributes = omega arith;
  attribute_entries = refl;
  clusters = omega arith;
  cluster_entries = refl;
  limits = refl;
  versions = refl;
  endpoints = refl;
  types = refl;
  types_exist = omega arith;
}
