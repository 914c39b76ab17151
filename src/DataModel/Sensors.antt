-- ===== src/DataModel/Sensors.antt =====
-- The attributes of the humidity and air quality sensors, endpoints 2 and 3, from src/zap-generated/endpoint_config.h.
use shirokumakun_matter.Common.{List, [], ◌∷◌}
use shirokumakun_matter.DataModel.Types.{
  Attribute, attribute, empty, simple, array, bitmap32, enum8, int16u, single, external_storage,
  readable, writable, nullable,
}

abbrev pub identify_2 : List Attribute
identify_2 =
    attribute empty 0 2 int16u (external_storage ∷ writable ∷ readable ∷ [])
    ∷ attribute empty 1 1 enum8 (external_storage ∷ readable ∷ [])
    ∷ attribute empty 0xfffc 4 bitmap32 (external_storage ∷ readable ∷ [])
    ∷ attribute empty 0xfffd 2 int16u (external_storage ∷ readable ∷ [])
    ∷ []

abbrev pub descriptor_2 : List Attribute
descriptor_2 =
    attribute empty 0 0 array (external_storage ∷ readable ∷ [])
    ∷ attribute empty 1 0 array (external_storage ∷ readable ∷ [])
    ∷ attribute empty 2 0 array (external_storage ∷ readable ∷ [])
    ∷ attribute empty 3 0 array (external_storage ∷ readable ∷ [])
    ∷ attribute empty 0xfffc 4 bitmap32 (external_storage ∷ readable ∷ [])
    ∷ attribute empty 0xfffd 2 int16u (external_storage ∷ readable ∷ [])
    ∷ []

abbrev pub relative_humidity_2 : List Attribute
relative_humidity_2 =
    attribute (simple 4600) 0 2 int16u (readable ∷ nullable ∷ [])
    ∷ attribute (simple 0) 1 2 int16u (readable ∷ nullable ∷ [])
    ∷ attribute (simple 10000) 2 2 int16u (readable ∷ nullable ∷ [])
    ∷ attribute (simple 1) 3 2 int16u (readable ∷ [])
    ∷ attribute (simple 0) 0xfffc 4 bitmap32 (readable ∷ [])
    ∷ attribute (simple 3) 0xfffd 2 int16u (readable ∷ [])
    ∷ []

abbrev pub identify_3 : List Attribute
identify_3 =
    attribute empty 0 2 int16u (external_storage ∷ writable ∷ readable ∷ [])
    ∷ attribute empty 1 1 enum8 (external_storage ∷ readable ∷ [])
    ∷ attribute empty 0xfffc 4 bitmap32 (external_storage ∷ readable ∷ [])
    ∷ attribute empty 0xfffd 2 int16u (external_storage ∷ readable ∷ [])
    ∷ []

abbrev pub descriptor_3 : List Attribute
descriptor_3 =
    attribute empty 0 0 array (external_storage ∷ readable ∷ [])
    ∷ attribute empty 1 0 array (external_storage ∷ readable ∷ [])
    ∷ attribute empty 2 0 array (external_storage ∷ readable ∷ [])
    ∷ attribute empty 3 0 array (external_storage ∷ readable ∷ [])
    ∷ attribute empty 0xfffc 4 bitmap32 (external_storage ∷ readable ∷ [])
    ∷ attribute empty 0xfffd 2 int16u (external_storage ∷ readable ∷ [])
    ∷ []

abbrev pub air_quality_3 : List Attribute
air_quality_3 =
    attribute empty 0 1 enum8 (external_storage ∷ readable ∷ [])
    ∷ attribute empty 0xfffc 4 bitmap32 (external_storage ∷ readable ∷ [])
    ∷ attribute (simple 1) 0xfffd 2 int16u (readable ∷ [])
    ∷ []

abbrev pub carbon_dioxide_3 : List Attribute
carbon_dioxide_3 =
    attribute empty 0 4 single (external_storage ∷ readable ∷ nullable ∷ [])
    ∷ attribute empty 1 4 single (external_storage ∷ readable ∷ nullable ∷ [])
    ∷ attribute empty 2 4 single (external_storage ∷ readable ∷ nullable ∷ [])
    ∷ attribute empty 8 1 enum8 (external_storage ∷ readable ∷ [])
    ∷ attribute empty 9 1 enum8 (external_storage ∷ readable ∷ [])
    ∷ attribute empty 0xfffc 4 bitmap32 (external_storage ∷ readable ∷ [])
    ∷ attribute (simple 3) 0xfffd 2 int16u (readable ∷ [])
    ∷ []
