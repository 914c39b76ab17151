-- ===== src/DataModel/Root.antt =====
-- The attributes of the root node, endpoint 0: its data model and commissioning, from src/zap-generated/endpoint_config.h.
use shirokumakun_matter.Common.{List, [], ◌∷◌}
use shirokumakun_matter.DataModel.Types.{
  Attribute, attribute, empty, array, bitmap16, bitmap32, boolean, char_string, enum8, int16u,
  int32s, int32u, int64u, int8u, octet_string, struct, vendor_id, external_storage, readable,
  writable, nullable,
}

abbrev pub descriptor_0 : List Attribute
descriptor_0 =
    attribute empty 0 0 array (external_storage ∷ readable ∷ [])
    ∷ attribute empty 1 0 array (external_storage ∷ readable ∷ [])
    ∷ attribute empty 2 0 array (external_storage ∷ readable ∷ [])
    ∷ attribute empty 3 0 array (external_storage ∷ readable ∷ [])
    ∷ attribute empty 0xfffc 4 bitmap32 (external_storage ∷ readable ∷ [])
    ∷ attribute empty 0xfffd 2 int16u (external_storage ∷ readable ∷ [])
    ∷ []

abbrev pub access_control_0 : List Attribute
access_control_0 =
    attribute empty 0 0 array (external_storage ∷ writable ∷ readable ∷ [])
    ∷ attribute empty 1 0 array (external_storage ∷ writable ∷ readable ∷ [])
    ∷ attribute empty 2 2 int16u (external_storage ∷ readable ∷ [])
    ∷ attribute empty 3 2 int16u (external_storage ∷ readable ∷ [])
    ∷ attribute empty 4 2 int16u (external_storage ∷ readable ∷ [])
    ∷ attribute empty 0xfffc 4 bitmap32 (external_storage ∷ readable ∷ [])
    ∷ attribute empty 0xfffd 2 int16u (external_storage ∷ readable ∷ [])
    ∷ []

abbrev pub basic_information_0 : List Attribute
basic_information_0 =
    attribute empty 0 2 int16u (external_storage ∷ readable ∷ [])
    ∷ attribute empty 1 33 char_string (external_storage ∷ readable ∷ [])
    ∷ attribute empty 2 2 vendor_id (external_storage ∷ readable ∷ [])
    ∷ attribute empty 3 33 char_string (external_storage ∷ readable ∷ [])
    ∷ attribute empty 4 2 int16u (external_storage ∷ readable ∷ [])
    ∷ attribute empty 5 33 char_string (external_storage ∷ writable ∷ readable ∷ [])
    ∷ attribute empty 6 3 char_string (external_storage ∷ writable ∷ readable ∷ [])
    ∷ attribute empty 7 2 int16u (external_storage ∷ readable ∷ [])
    ∷ attribute empty 8 65 char_string (external_storage ∷ readable ∷ [])
    ∷ attribute empty 9 4 int32u (external_storage ∷ readable ∷ [])
    ∷ attribute empty 0xa 65 char_string (external_storage ∷ readable ∷ [])
    ∷ attribute empty 0xb 17 char_string (external_storage ∷ readable ∷ [])
    ∷ attribute empty 0xf 33 char_string (external_storage ∷ readable ∷ [])
    ∷ attribute empty 0x12 33 char_string (external_storage ∷ readable ∷ [])
    ∷ attribute empty 0x13 0 struct (external_storage ∷ readable ∷ [])
    ∷ attribute empty 0x15 4 int32u (external_storage ∷ readable ∷ [])
    ∷ attribute empty 0x16 2 int16u (external_storage ∷ readable ∷ [])
    ∷ attribute empty 0xfffc 4 bitmap32 (external_storage ∷ readable ∷ [])
    ∷ attribute empty 0xfffd 2 int16u (external_storage ∷ readable ∷ [])
    ∷ []

abbrev pub general_commissioning_0 : List Attribute
general_commissioning_0 =
    attribute empty 0 8 int64u (external_storage ∷ writable ∷ readable ∷ [])
    ∷ attribute empty 1 0 struct (external_storage ∷ readable ∷ [])
    ∷ attribute empty 2 1 enum8 (external_storage ∷ readable ∷ [])
    ∷ attribute empty 3 1 enum8 (external_storage ∷ readable ∷ [])
    ∷ attribute empty 4 1 boolean (external_storage ∷ readable ∷ [])
    ∷ attribute empty 0xfffc 4 bitmap32 (external_storage ∷ readable ∷ [])
    ∷ attribute empty 0xfffd 2 int16u (external_storage ∷ readable ∷ [])
    ∷ []

abbrev pub network_commissioning_0 : List Attribute
network_commissioning_0 =
    attribute empty 0 1 int8u (external_storage ∷ readable ∷ [])
    ∷ attribute empty 1 0 array (external_storage ∷ readable ∷ [])
    ∷ attribute empty 2 1 int8u (external_storage ∷ readable ∷ [])
    ∷ attribute empty 3 1 int8u (external_storage ∷ readable ∷ [])
    ∷ attribute empty 4 1 boolean (external_storage ∷ writable ∷ readable ∷ [])
    ∷ attribute empty 5 1 enum8 (external_storage ∷ readable ∷ nullable ∷ [])
    ∷ attribute empty 6 33 octet_string (external_storage ∷ readable ∷ nullable ∷ [])
    ∷ attribute empty 7 4 int32s (external_storage ∷ readable ∷ nullable ∷ [])
    ∷ attribute empty 8 0 array (external_storage ∷ readable ∷ [])
    ∷ attribute empty 9 2 bitmap16 (external_storage ∷ readable ∷ [])
    ∷ attribute empty 0xa 2 int16u (external_storage ∷ readable ∷ [])
    ∷ attribute empty 0xfffc 4 bitmap32 (external_storage ∷ readable ∷ [])
    ∷ attribute empty 0xfffd 2 int16u (external_storage ∷ readable ∷ [])
    ∷ []

abbrev pub diagnostic_logs_0 : List Attribute
diagnostic_logs_0 =
    attribute empty 0xfffc 4 bitmap32 (external_storage ∷ readable ∷ [])
    ∷ attribute empty 0xfffd 2 int16u (external_storage ∷ readable ∷ [])
    ∷ []

abbrev pub general_diagnostics_0 : List Attribute
general_diagnostics_0 =
    attribute empty 0 0 array (external_storage ∷ readable ∷ [])
    ∷ attribute empty 1 2 int16u (external_storage ∷ readable ∷ [])
    ∷ attribute empty 2 8 int64u (external_storage ∷ readable ∷ [])
    ∷ attribute empty 3 4 int32u (external_storage ∷ readable ∷ [])
    ∷ attribute empty 4 1 enum8 (external_storage ∷ readable ∷ [])
    ∷ attribute empty 8 1 boolean (external_storage ∷ readable ∷ [])
    ∷ attribute empty 0xfffc 4 bitmap32 (external_storage ∷ readable ∷ [])
    ∷ attribute empty 0xfffd 2 int16u (external_storage ∷ readable ∷ [])
    ∷ []

abbrev pub software_diagnostics_0 : List Attribute
software_diagnostics_0 =
    attribute empty 1 8 int64u (external_storage ∷ readable ∷ [])
    ∷ attribute empty 2 8 int64u (external_storage ∷ readable ∷ [])
    ∷ attribute empty 0xfffc 4 bitmap32 (external_storage ∷ readable ∷ [])
    ∷ attribute empty 0xfffd 2 int16u (external_storage ∷ readable ∷ [])
    ∷ []
