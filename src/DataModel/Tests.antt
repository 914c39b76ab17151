-- ===== src/DataModel/Tests.antt =====
-- Tests of the data model, and its theorems at concrete attributes.
use shirokumakun_matter.Common.{◌≡◌, refl, some, [], ◌∷◌}
use shirokumakun_matter.DataModel.Types.{
  Attribute, attribute, min_max_index, temperature, min_max, readable, writable,
}
use shirokumakun_matter.DataModel.Lookup.{attribute_of}
use shirokumakun_matter.DataModel.CommandLists.{accepted_commands}
use shirokumakun_matter.DataModel.Access.{administer}
use shirokumakun_matter.DataModel.Privileges.{
  operational_credentials, privilege_of, invoke_entries, accepted_commands-administer,
}
use shirokumakun_matter.DataModel.Uses.{default_of}

abbrev heating_setpoint : Attribute
heating_setpoint =
    attribute (min_max_index 2) 0x12 2 temperature (min_max ∷ writable ∷ readable ∷ [])

heating_setpoint_found : attribute_of 1 0x201 0x12 ≡ some heating_setpoint
heating_setpoint_found = refl

-- The setpoints that a node starts with: 26 and 20 degrees.
default_setpoints : (default_of 1 0x201 0x11 ≡ some 2600) × (default_of 1 0x201 0x12 ≡ some 2000)
default_setpoints = (refl, refl)

-- The effect can be triggered on endpoint 2 only.
trigger_effect :
    (accepted_commands 1 0x3 ≡ 0 ∷ [])
    × (accepted_commands 2 0x3 ≡ 0 ∷ 0x40 ∷ [])
    × (accepted_commands 3 0x3 ≡ 0 ∷ [])
trigger_effect = (refl, refl, refl)

accepted_commands-administer_example : privilege_of invoke_entries 0x3E 6 ≡ some administer
accepted_commands-administer_example =
    accepted_commands-administer 0x3E 6 operational_credentials refl
