-- ===== src/DataModel/RootSecurity.antt =====
-- The attributes of the fabrics and keys of endpoint 0, from src/zap-generated/endpoint_config.h.
use shirokumakun_matter.Common.{List, [], ◌∷◌}
use shirokumakun_matter.DataModel.Types.{
  Attribute, attribute, empty, simple, array, bitmap32, enum8, fabric_idx, int16u, int8u, vendor_id,
  external_storage, readable, writable, nullable,
}

abbrev pub administrator_commissioning_0 : List Attribute
administrator_commissioning_0 =
    attribute empty 0 1 enum8 (external_storage ∷ readable ∷ [])
    ∷ attribute empty 1 1 fabric_idx (external_storage ∷ readable ∷ nullable ∷ [])
    ∷ attribute empty 2 2 vendor_id (external_storage ∷ readable ∷ nullable ∷ [])
    ∷ attribute (simple 1) 0xfffc 4 bitmap32 (readable ∷ [])
    ∷ attribute empty 0xfffd 2 int16u (external_storage ∷ readable ∷ [])
    ∷ []

abbrev pub operational_credentials_0 : List Attribute
operational_credentials_0 =
    attribute empty 0 0 array (external_storage ∷ readable ∷ [])
    ∷ attribute empty 1 0 array (external_storage ∷ readable ∷ [])
    ∷ attribute empty 2 1 int8u (external_storage ∷ readable ∷ [])
    ∷ attribute empty 3 1 int8u (external_storage ∷ readable ∷ [])
    ∷ attribute empty 4 0 array (external_storage ∷ readable ∷ [])
    ∷ attribute empty 5 1 int8u (external_storage ∷ readable ∷ [])
    ∷ attribute empty 0xfffc 4 bitmap32 (external_storage ∷ readable ∷ [])
    ∷ attribute empty 0xfffd 2 int16u (external_storage ∷ readable ∷ [])
    ∷ []

abbrev pub group_key_management_0 : List Attribute
group_key_management_0 =
    attribute empty 0 0 array (external_storage ∷ writable ∷ readable ∷ [])
    ∷ attribute empty 1 0 array (external_storage ∷ readable ∷ [])
    ∷ attribute empty 2 2 int16u (external_storage ∷ readable ∷ [])
    ∷ attribute empty 3 2 int16u (external_storage ∷ readable ∷ [])
    ∷ attribute empty 0xfffc 4 bitmap32 (external_storage ∷ readable ∷ [])
    ∷ attribute empty 0xfffd 2 int16u (external_storage ∷ readable ∷ [])
    ∷ []
