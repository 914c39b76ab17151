-- ===== src/DataModel/AirConditioner.antt =====
-- The attributes of the air conditioner, endpoint 1, from src/zap-generated/endpoint_config.h.
use shirokumakun_matter.Common.{List, [], ◌∷◌}
use shirokumakun_matter.DataModel.Types.{
  Attribute, attribute, empty, simple, min_max_index, array, bitmap32, bitmap8, boolean, enum8,
  int16u, int8s, int8u, percent, temperature, external_storage, readable, writable, nullable,
  tokenize, min_max,
}

abbrev pub identify_1 : List Attribute
identify_1 =
    attribute empty 0 2 int16u (external_storage ∷ writable ∷ readable ∷ [])
    ∷ attribute empty 1 1 enum8 (external_storage ∷ readable ∷ [])
    ∷ attribute empty 0xfffc 4 bitmap32 (external_storage ∷ readable ∷ [])
    ∷ attribute empty 0xfffd 2 int16u (external_storage ∷ readable ∷ [])
    ∷ []

abbrev pub groups_1 : List Attribute
groups_1 =
    attribute empty 0 1 bitmap8 (readable ∷ [])
    ∷ attribute (simple 0) 0xfffc 4 bitmap32 (readable ∷ [])
    ∷ attribute (simple 4) 0xfffd 2 int16u (readable ∷ [])
    ∷ []

abbrev pub on_off_1 : List Attribute
on_off_1 =
    attribute (simple 0x00) 0 1 boolean (tokenize ∷ readable ∷ [])
    ∷ attribute (simple 0x01) 0x4000 1 boolean (readable ∷ [])
    ∷ attribute (simple 0x0000) 0x4001 2 int16u (writable ∷ readable ∷ [])
    ∷ attribute (simple 0x0000) 0x4002 2 int16u (writable ∷ readable ∷ [])
    ∷ attribute (min_max_index 0) 0x4003 1 enum8
        (min_max ∷ tokenize ∷ writable ∷ readable ∷ nullable ∷ [])
    ∷ attribute (simple 2) 0xfffc 4 bitmap32 (readable ∷ [])
    ∷ attribute (simple 6) 0xfffd 2 int16u (readable ∷ [])
    ∷ []

abbrev pub descriptor_1 : List Attribute
descriptor_1 =
    attribute empty 0 0 array (external_storage ∷ readable ∷ [])
    ∷ attribute empty 1 0 array (external_storage ∷ readable ∷ [])
    ∷ attribute empty 2 0 array (external_storage ∷ readable ∷ [])
    ∷ attribute empty 3 0 array (external_storage ∷ readable ∷ [])
    ∷ attribute empty 0xfffc 4 bitmap32 (external_storage ∷ readable ∷ [])
    ∷ attribute empty 0xfffd 2 int16u (external_storage ∷ readable ∷ [])
    ∷ []

abbrev pub binding_1 : List Attribute
binding_1 =
    attribute empty 0 0 array (external_storage ∷ writable ∷ readable ∷ [])
    ∷ attribute empty 0xfffc 4 bitmap32 (external_storage ∷ readable ∷ [])
    ∷ attribute empty 0xfffd 2 int16u (external_storage ∷ readable ∷ [])
    ∷ []

abbrev pub thermostat_1 : List Attribute
thermostat_1 =
    attribute (simple 0x8000) 0 2 temperature (readable ∷ nullable ∷ [])
    ∷ attribute (simple 0x8000) 1 2 temperature (readable ∷ nullable ∷ [])
    ∷ attribute (simple 700) 3 2 temperature (readable ∷ [])
    ∷ attribute (simple 3000) 4 2 temperature (readable ∷ [])
    ∷ attribute (simple 1600) 5 2 temperature (readable ∷ [])
    ∷ attribute (simple 3200) 6 2 temperature (readable ∷ [])
    ∷ attribute (min_max_index 1) 0x11 2 temperature (min_max ∷ writable ∷ readable ∷ [])
    ∷ attribute (min_max_index 2) 0x12 2 temperature (min_max ∷ writable ∷ readable ∷ [])
    ∷ attribute (min_max_index 3) 0x15 2 temperature (min_max ∷ writable ∷ readable ∷ [])
    ∷ attribute (min_max_index 4) 0x16 2 temperature (min_max ∷ writable ∷ readable ∷ [])
    ∷ attribute (min_max_index 5) 0x17 2 temperature (min_max ∷ writable ∷ readable ∷ [])
    ∷ attribute (min_max_index 6) 0x18 2 temperature (min_max ∷ writable ∷ readable ∷ [])
    ∷ attribute (min_max_index 7) 0x19 1 int8s (min_max ∷ writable ∷ readable ∷ [])
    ∷ attribute (min_max_index 8) 0x1b 1 enum8 (min_max ∷ writable ∷ readable ∷ [])
    ∷ attribute (min_max_index 9) 0x1c 1 enum8 (min_max ∷ writable ∷ readable ∷ [])
    ∷ attribute (simple 0x03) 0xfffc 4 bitmap32 (readable ∷ [])
    ∷ attribute empty 0xfffd 2 int16u (external_storage ∷ readable ∷ [])
    ∷ []

abbrev pub fan_control_1 : List Attribute
fan_control_1 =
    attribute (min_max_index 10) 0 1 enum8 (min_max ∷ writable ∷ readable ∷ [])
    ∷ attribute (simple 0x02) 1 1 enum8 (readable ∷ [])
    ∷ attribute (min_max_index 11) 2 1 percent (min_max ∷ writable ∷ readable ∷ nullable ∷ [])
    ∷ attribute (simple 0x00) 3 1 percent (readable ∷ [])
    ∷ attribute (simple 100) 4 1 int8u (readable ∷ [])
    ∷ attribute (min_max_index 12) 5 1 int8u (min_max ∷ writable ∷ readable ∷ nullable ∷ [])
    ∷ attribute (simple 0x00) 6 1 int8u (readable ∷ [])
    ∷ attribute (simple 0x03) 7 1 bitmap8 (readable ∷ [])
    ∷ attribute (min_max_index 13) 8 1 bitmap8 (min_max ∷ writable ∷ readable ∷ [])
    ∷ attribute (simple 0x03) 9 1 bitmap8 (readable ∷ [])
    ∷ attribute (min_max_index 14) 0xa 1 bitmap8 (min_max ∷ writable ∷ readable ∷ [])
    ∷ attribute (min_max_index 15) 0xb 1 enum8 (min_max ∷ writable ∷ readable ∷ [])
    ∷ attribute (simple 0x3F) 0xfffc 4 bitmap32 (readable ∷ [])
    ∷ attribute (simple 4) 0xfffd 2 int16u (readable ∷ [])
    ∷ []
