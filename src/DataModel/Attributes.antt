-- ===== src/DataModel/Attributes.antt =====
-- The attribute table and its defaults with limits, from src/zap-generated/endpoint_config.h.
use shirokumakun_matter.Common.{List, [], ◌∷◌, ◌-◌, ◌^◌, ℕ, u16, concat}
use shirokumakun_matter.DataModel.Types.{Attribute, MinMax, min_max_default}
use shirokumakun_matter.DataModel.Root.{
  descriptor_0, access_control_0, basic_information_0, general_commissioning_0,
  network_commissioning_0, diagnostic_logs_0, general_diagnostics_0, software_diagnostics_0,
}
use shirokumakun_matter.DataModel.RootThread.{thread_network_diagnostics_0}
use shirokumakun_matter.DataModel.RootSecurity.{
  administrator_commissioning_0, operational_credentials_0, group_key_management_0,
}
use shirokumakun_matter.DataModel.AirConditioner.{
  identify_1, groups_1, on_off_1, descriptor_1, binding_1, thermostat_1, fan_control_1,
}
use shirokumakun_matter.DataModel.Sensors.{
  identify_2, descriptor_2, relative_humidity_2, identify_3, descriptor_3, air_quality_3,
  carbon_dioxide_3,
}

abbrev pub generated_min_max_default_count : ℕ
generated_min_max_default_count = 16

abbrev pub generated_min_max_defaults : List MinMax
generated_min_max_defaults =
    min_max_default 0xFF 0x0 0x2
    ∷ min_max_default 0xA28 (u16 (2 ^ 16 - 0x6AB3)) 0x7FFF
    ∷ min_max_default 0x7D0 (u16 (2 ^ 16 - 0x6AB3)) 0x7FFF
    ∷ min_max_default 0x2BC (u16 (2 ^ 16 - 0x6AB3)) 0x7FFF
    ∷ min_max_default 0xBB8 (u16 (2 ^ 16 - 0x6AB3)) 0x7FFF
    ∷ min_max_default 0x640 (u16 (2 ^ 16 - 0x6AB3)) 0x7FFF
    ∷ min_max_default 0xC80 (u16 (2 ^ 16 - 0x6AB3)) 0x7FFF
    ∷ min_max_default 0x19 0x0 0x7F
    ∷ min_max_default 0x4 0x0 0x5
    ∷ min_max_default 0x1 0x0 0x9
    ∷ min_max_default 0x0 0x0 0x6
    ∷ min_max_default 0x0 0x0 0x64
    ∷ min_max_default 0x0 0x0 0x64
    ∷ min_max_default 0x0 0x0 0x7
    ∷ min_max_default 0x0 0x0 0x3
    ∷ min_max_default 0x0 0x0 0x1
    ∷ []

abbrev pub generated_attribute_count : ℕ
generated_attribute_count = 240

abbrev pub generated_attributes : List Attribute
generated_attributes = concat (
    descriptor_0 ∷ access_control_0 ∷ basic_information_0 ∷ general_commissioning_0
    ∷ network_commissioning_0 ∷ diagnostic_logs_0 ∷ general_diagnostics_0 ∷ software_diagnostics_0
    ∷ thread_network_diagnostics_0 ∷ administrator_commissioning_0 ∷ operational_credentials_0
    ∷ group_key_management_0 ∷ identify_1 ∷ groups_1 ∷ on_off_1 ∷ descriptor_1 ∷ binding_1
    ∷ thermostat_1 ∷ fan_control_1 ∷ identify_2 ∷ descriptor_2 ∷ relative_humidity_2 ∷ identify_3
    ∷ descriptor_3 ∷ air_quality_3 ∷ carbon_dioxide_3 ∷ [])
