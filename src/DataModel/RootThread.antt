-- ===== src/DataModel/RootThread.antt =====
-- The attributes of the Thread diagnostics of endpoint 0, from src/zap-generated/endpoint_config.h.
use shirokumakun_matter.Common.{List, [], ◌∷◌}
use shirokumakun_matter.DataModel.Types.{
  Attribute, attribute, empty, simple, array, bitmap32, char_string, enum8, int16u, int32u, int64u,
  int8u, octet_string, struct, external_storage, readable, nullable,
}

abbrev pub thread_network_diagnostics_0 : List Attribute
thread_network_diagnostics_0 =
    attribute empty 0 2 int16u (external_storage ∷ readable ∷ nullable ∷ [])
    ∷ attribute empty 1 1 enum8 (external_storage ∷ readable ∷ nullable ∷ [])
    ∷ attribute empty 2 17 char_string (external_storage ∷ readable ∷ nullable ∷ [])
    ∷ attribute empty 3 2 int16u (external_storage ∷ readable ∷ nullable ∷ [])
    ∷ attribute empty 4 8 int64u (external_storage ∷ readable ∷ nullable ∷ [])
    ∷ attribute empty 5 18 octet_string (external_storage ∷ readable ∷ nullable ∷ [])
    ∷ attribute empty 6 8 int64u (external_storage ∷ readable ∷ [])
    ∷ attribute empty 7 0 array (external_storage ∷ readable ∷ [])
    ∷ attribute empty 8 0 array (external_storage ∷ readable ∷ [])
    ∷ attribute empty 9 4 int32u (external_storage ∷ readable ∷ nullable ∷ [])
    ∷ attribute empty 0xa 2 int16u (external_storage ∷ readable ∷ nullable ∷ [])
    ∷ attribute empty 0xb 2 int16u (external_storage ∷ readable ∷ nullable ∷ [])
    ∷ attribute empty 0xc 2 int16u (external_storage ∷ readable ∷ nullable ∷ [])
    ∷ attribute empty 0xd 1 int8u (external_storage ∷ readable ∷ nullable ∷ [])
    ∷ attribute empty 0xe 2 int16u (external_storage ∷ readable ∷ [])
    ∷ attribute empty 0xf 2 int16u (external_storage ∷ readable ∷ [])
    ∷ attribute empty 0x10 2 int16u (external_storage ∷ readable ∷ [])
    ∷ attribute empty 0x11 2 int16u (external_storage ∷ readable ∷ [])
    ∷ attribute empty 0x12 2 int16u (external_storage ∷ readable ∷ [])
    ∷ attribute empty 0x13 2 int16u (external_storage ∷ readable ∷ [])
    ∷ attribute empty 0x14 2 int16u (external_storage ∷ readable ∷ [])
    ∷ attribute empty 0x15 2 int16u (external_storage ∷ readable ∷ [])
    ∷ attribute empty 0x16 4 int32u (external_storage ∷ readable ∷ [])
    ∷ attribute empty 0x17 4 int32u (external_storage ∷ readable ∷ [])
    ∷ attribute empty 0x18 4 int32u (external_storage ∷ readable ∷ [])
    ∷ attribute empty 0x19 4 int32u (external_storage ∷ readable ∷ [])
    ∷ attribute empty 0x1a 4 int32u (external_storage ∷ readable ∷ [])
    ∷ attribute empty 0x1b 4 int32u (external_storage ∷ readable ∷ [])
    ∷ attribute empty 0x1c 4 int32u (external_storage ∷ readable ∷ [])
    ∷ attribute empty 0x1d 4 int32u (external_storage ∷ readable ∷ [])
    ∷ attribute empty 0x1e 4 int32u (external_storage ∷ readable ∷ [])
    ∷ attribute empty 0x1f 4 int32u (external_storage ∷ readable ∷ [])
    ∷ attribute empty 0x20 4 int32u (external_storage ∷ readable ∷ [])
    ∷ attribute empty 0x21 4 int32u (external_storage ∷ readable ∷ [])
    ∷ attribute empty 0x22 4 int32u (external_storage ∷ readable ∷ [])
    ∷ attribute empty 0x23 4 int32u (external_storage ∷ readable ∷ [])
    ∷ attribute empty 0x24 4 int32u (external_storage ∷ readable ∷ [])
    ∷ attribute empty 0x25 4 int32u (external_storage ∷ readable ∷ [])
    ∷ attribute empty 0x26 4 int32u (external_storage ∷ readable ∷ [])
    ∷ attribute empty 0x27 4 int32u (external_storage ∷ readable ∷ [])
    ∷ attribute empty 0x28 4 int32u (external_storage ∷ readable ∷ [])
    ∷ attribute empty 0x29 4 int32u (external_storage ∷ readable ∷ [])
    ∷ attribute empty 0x2a 4 int32u (external_storage ∷ readable ∷ [])
    ∷ attribute empty 0x2b 4 int32u (external_storage ∷ readable ∷ [])
    ∷ attribute empty 0x2c 4 int32u (external_storage ∷ readable ∷ [])
    ∷ attribute empty 0x2d 4 int32u (external_storage ∷ readable ∷ [])
    ∷ attribute empty 0x2e 4 int32u (external_storage ∷ readable ∷ [])
    ∷ attribute empty 0x2f 4 int32u (external_storage ∷ readable ∷ [])
    ∷ attribute empty 0x30 4 int32u (external_storage ∷ readable ∷ [])
    ∷ attribute empty 0x31 4 int32u (external_storage ∷ readable ∷ [])
    ∷ attribute empty 0x32 4 int32u (external_storage ∷ readable ∷ [])
    ∷ attribute empty 0x33 4 int32u (external_storage ∷ readable ∷ [])
    ∷ attribute empty 0x34 4 int32u (external_storage ∷ readable ∷ [])
    ∷ attribute empty 0x35 4 int32u (external_storage ∷ readable ∷ [])
    ∷ attribute empty 0x36 4 int32u (external_storage ∷ readable ∷ [])
    ∷ attribute empty 0x37 4 int32u (external_storage ∷ readable ∷ [])
    ∷ attribute empty 0x38 8 int64u (external_storage ∷ readable ∷ nullable ∷ [])
    ∷ attribute empty 0x39 8 int64u (external_storage ∷ readable ∷ nullable ∷ [])
    ∷ attribute empty 0x3a 4 int32u (external_storage ∷ readable ∷ nullable ∷ [])
    ∷ attribute empty 0x3b 0 struct (external_storage ∷ readable ∷ nullable ∷ [])
    ∷ attribute empty 0x3c 5 octet_string (external_storage ∷ readable ∷ nullable ∷ [])
    ∷ attribute empty 0x3d 0 struct (external_storage ∷ readable ∷ nullable ∷ [])
    ∷ attribute empty 0x3e 0 array (external_storage ∷ readable ∷ [])
    ∷ attribute (simple 0x000F) 0xfffc 4 bitmap32 (readable ∷ [])
    ∷ attribute empty 0xfffd 2 int16u (external_storage ∷ readable ∷ [])
    ∷ []
