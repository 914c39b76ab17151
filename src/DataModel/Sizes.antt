-- ===== src/DataModel/Sizes.antt =====
-- The sizes in the tables of src/zap-generated/endpoint_config.h: of an attribute by its type, of
-- a cluster and an endpoint by the attributes that the SDK stores for them.
use shirokumakun_matter.Common.{
  ℕ, ◌+◌, ◌≤◌, ◌≡◌, ◌^◌, ◌==◌, ◌&&◌, leb, ltb, refl, Bool, true, Option, none, some, List, [], ◌∷◌,
  All, all-All, arith, if◌then◌else◌,
}
use shirokumakun_matter.DataModel.Types.{
  ZapType, array, bitmap16, bitmap32, bitmap8, boolean, char_string, enum8, fabric_idx, int16u,
  int32s, int32u, int64u, int8s, int8u, octet_string, percent, single, struct, temperature,
  vendor_id, Attribute, simple, Cluster, EndpointType,
}
use shirokumakun_matter.DataModel.Attributes.{generated_attributes}
use shirokumakun_matter.DataModel.Endpoints.{
  generated_clusters, generated_endpoint_types, attribute_largest, attribute_max_size,
}
use shirokumakun_matter.DataModel.Lookup.{
  is_stored, attributes_of, clusters_of, attribute_of, attribute_of-All,
}

-- The bytes of a value; `none` for a string, which has a byte for its length and at most 254
-- more. An array or a structure is never stored and has size 0.
abbrev pub width : ZapType → Option ℕ
width array = some 0
width struct = some 0
width bitmap8 = some 1
width bitmap16 = some 2
width bitmap32 = some 4
width boolean = some 1
width enum8 = some 1
width fabric_idx = some 1
width int8s = some 1
width int8u = some 1
width int16u = some 2
width int32s = some 4
width int32u = some 4
width int64u = some 8
width percent = some 1
width single = some 4
width temperature = some 2
width vendor_id = some 2
width char_string = none
width octet_string = none

abbrev pub has_width : Attribute → Bool
has_width a = elim (width a.type) [ none ↦ ltb 1 a.size && leb a.size 255 | some n ↦ a.size == n ]

-- A default value fits the attribute, and what is stored has a size.
abbrev pub default_fits : Attribute → Bool
default_fits a = elim a.default [ simple v ↦ ltb v (256 ^ a.size) | _ ↦ true ]

abbrev pub stored_has_size : Attribute → Bool
stored_has_size a = if is_stored a then ltb 0 a.size else true

abbrev pub is_typed : Attribute → Bool
is_typed a = has_width a && default_fits a && stored_has_size a

generated_attributes-typed : All (λ a. is_typed a ≡ true) generated_attributes
generated_attributes-typed = all-All is_typed generated_attributes refl

-- Every attribute that any endpoint's server cluster has by any number is declared with the size
-- of its type (a string with 2 to 255 bytes), a default that fits that size, and a size above 0 if
-- it is stored.
pub attribute_of-typed :
    (endpoint cluster id : ℕ) (a : Attribute)
    → attribute_of endpoint cluster id ≡ some a
    → is_typed a ≡ true
attribute_of-typed = attribute_of-All (λ a. is_typed a ≡ true) generated_attributes-typed

abbrev pub stored_size : List Attribute → ℕ
stored_size [] = 0
stored_size (a ∷ attributes) =
    if is_stored a then a.size + stored_size attributes else stored_size attributes

abbrev pub size_of_clusters : List Cluster → ℕ
size_of_clusters [] = 0
size_of_clusters (c ∷ clusters) = c.cluster_size + size_of_clusters clusters

abbrev pub size_of_endpoints : List EndpointType → ℕ
size_of_endpoints [] = 0
size_of_endpoints (e ∷ endpoints) = e.endpoint_size + size_of_endpoints endpoints

pub record AreSized : Type 0 where
  pub clusters : All (λ c. c.cluster_size ≡ stored_size (attributes_of c)) generated_clusters
  pub endpoints :
      All (λ e. e.endpoint_size ≡ size_of_clusters (clusters_of e)) generated_endpoint_types
  pub store : size_of_endpoints generated_endpoint_types ≡ attribute_max_size
  pub largest : All (λ a. a.size ≤ attribute_largest) generated_attributes

-- The size given for each cluster is what its stored attributes take, that of each endpoint is the
-- sum over its clusters, the store has room for exactly all endpoints, and no attribute is larger
-- than the largest one is said to be.
pub generated_tables-AreSized : AreSized
generated_tables-AreSized = record {
  clusters = omega arith;
  endpoints = omega arith;
  store = refl;
  largest = omega arith;
}
