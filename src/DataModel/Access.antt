-- ===== src/DataModel/Access.antt =====
-- The privileges that reads, writes and commands need beyond the usual ones, the parallel arrays of
-- src/zap-generated/access.h.
use shirokumakun_matter.Common.{ℕ, List, [], ◌∷◌}

-- `chip::Access::Privilege`, of which the arrays use two.
pub data Privilege : Type 0 where
  manage administer : Privilege

abbrev pub access_read_attribute_cluster : List ℕ
access_read_attribute_cluster = 0x1f ∷ 0x1f ∷ 0x31 ∷ 0x31 ∷ 0x31 ∷ 0x31 ∷ 0x31 ∷ 0x3e ∷ []

abbrev pub access_read_attribute_attribute : List ℕ
access_read_attribute_attribute = 0 ∷ 1 ∷ 0 ∷ 1 ∷ 5 ∷ 6 ∷ 7 ∷ 0 ∷ []

abbrev pub access_read_attribute_privilege : List Privilege
access_read_attribute_privilege =
    administer ∷ administer ∷ administer ∷ administer ∷ administer ∷ administer ∷ administer
    ∷ administer ∷ []

abbrev pub access_write_attribute_cluster : List ℕ
access_write_attribute_cluster =
    6 ∷ 0x1e ∷ 0x1f ∷ 0x1f ∷ 0x28 ∷ 0x28 ∷ 0x30 ∷ 0x31 ∷ 0x3f ∷ 0x201 ∷ 0x201 ∷ 0x201 ∷ 0x201
    ∷ 0x201 ∷ 0x201 ∷ 0x201 ∷ []

abbrev pub access_write_attribute_attribute : List ℕ
access_write_attribute_attribute =
    0x4003 ∷ 0 ∷ 0 ∷ 1 ∷ 5 ∷ 6 ∷ 0 ∷ 4 ∷ 0 ∷ 0x15 ∷ 0x16 ∷ 0x17 ∷ 0x18 ∷ 0x19 ∷ 0x1b ∷ 0x1c ∷ []

abbrev pub access_write_attribute_privilege : List Privilege
access_write_attribute_privilege =
    manage ∷ manage ∷ administer ∷ administer ∷ manage ∷ administer ∷ administer ∷ administer
    ∷ manage ∷ manage ∷ manage ∷ manage ∷ manage ∷ manage ∷ manage ∷ manage ∷ []

abbrev pub access_invoke_command_cluster : List ℕ
access_invoke_command_cluster =
    3 ∷ 3 ∷ 4 ∷ 4 ∷ 4 ∷ 4 ∷ 0x30 ∷ 0x30 ∷ 0x30 ∷ 0x31 ∷ 0x31 ∷ 0x31 ∷ 0x31 ∷ 0x31 ∷ 0x31 ∷ 0x33
    ∷ 0x35 ∷ 0x3c ∷ 0x3c ∷ 0x3c ∷ 0x3e ∷ 0x3e ∷ 0x3e ∷ 0x3e ∷ 0x3e ∷ 0x3e ∷ 0x3e ∷ 0x3e ∷ 0x3f
    ∷ 0x3f ∷ 0x3f ∷ 0x3f ∷ []

abbrev pub access_invoke_command_command : List ℕ
access_invoke_command_command =
    0 ∷ 0x40 ∷ 0 ∷ 3 ∷ 4 ∷ 5 ∷ 0 ∷ 2 ∷ 4 ∷ 0 ∷ 2 ∷ 3 ∷ 4 ∷ 6 ∷ 8 ∷ 0 ∷ 0 ∷ 0 ∷ 1 ∷ 2 ∷ 0 ∷ 2 ∷ 4 ∷ 6
    ∷ 7 ∷ 9 ∷ 0xa ∷ 0xb ∷ 0 ∷ 1 ∷ 3 ∷ 4 ∷ []

abbrev pub access_invoke_command_privilege : List Privilege
access_invoke_command_privilege =
    manage ∷ manage ∷ manage ∷ manage ∷ manage ∷ manage ∷ administer ∷ administer ∷ administer
    ∷ administer ∷ administer ∷ administer ∷ administer ∷ administer ∷ administer ∷ manage ∷ manage
    ∷ administer ∷ administer ∷ administer ∷ administer ∷ administer ∷ administer ∷ administer
    ∷ administer ∷ administer ∷ administer ∷ administer ∷ administer ∷ administer ∷ administer
    ∷ administer ∷ []

abbrev pub access_read_event_cluster : List ℕ
access_read_event_cluster = 0x1f ∷ 0x1f ∷ 0x1f ∷ []

abbrev pub access_read_event_event : List ℕ
access_read_event_event = 0 ∷ 1 ∷ 2 ∷ []

abbrev pub access_read_event_privilege : List Privilege
access_read_event_privilege = administer ∷ administer ∷ administer ∷ []
