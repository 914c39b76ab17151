-- ===== src/DataModel/Privileges.antt =====
-- The parallel arrays of src/zap-generated/access.h against the tables of
-- src/zap-generated/endpoint_config.h.
use shirokumakun_matter.Common.{
  ℕ, Bool, true, false, ◌&&◌, ◌==◌, if◌then◌else◌, ◌≡◌, refl, List, [], ◌∷◌, Option, none, some,
  length, All, all-All, contains, contains-All,
}
use shirokumakun_matter.DataModel.Types.{Mask, writable, Attribute}
use shirokumakun_matter.DataModel.Lookup.{any, attribute_of}
use shirokumakun_matter.DataModel.CommandLists.{accepted_commands}
use shirokumakun_matter.DataModel.Endpoints.{fixed_endpoint_array}
use shirokumakun_matter.DataModel.Access.{
  Privilege, administer, access_read_attribute_cluster, access_read_attribute_attribute,
  access_read_attribute_privilege, access_write_attribute_cluster, access_write_attribute_attribute,
  access_write_attribute_privilege, access_invoke_command_cluster, access_invoke_command_command,
  access_invoke_command_privilege, access_read_event_cluster, access_read_event_event,
  access_read_event_privilege,
}

-- What the three arrays say at one index.
pub record Entry : Type 0 where
  pub cluster : ℕ
  pub number : ℕ
  pub privilege : Privilege

abbrev pub entries : List ℕ → List ℕ → List Privilege → List Entry
entries (c ∷ cs) (n ∷ ns) (p ∷ ps) =
    record { cluster = c; number = n; privilege = p } ∷ entries cs ns ps
entries _ _ _ = []

abbrev pub read_entries : List Entry
read_entries =
    entries access_read_attribute_cluster access_read_attribute_attribute
      access_read_attribute_privilege

abbrev pub write_entries : List Entry
write_entries =
    entries access_write_attribute_cluster access_write_attribute_attribute
      access_write_attribute_privilege

abbrev pub invoke_entries : List Entry
invoke_entries =
    entries access_invoke_command_cluster access_invoke_command_command
      access_invoke_command_privilege

abbrev is_accepted : Entry → Bool
is_accepted r = any (λ e. contains r.number (accepted_commands e r.cluster)) fixed_endpoint_array

abbrev is_writable : Mask → Bool
is_writable writable = true
is_writable _ = false

abbrev exists_where : (Attribute → Bool) → Option Attribute → Bool
exists_where p none = false
exists_where p (some a) = p a

abbrev is_written : Entry → Bool
is_written r =
    any (λ e. exists_where (λ a. any is_writable a.mask) (attribute_of e r.cluster r.number))
      fixed_endpoint_array

abbrev is_present : Entry → Bool
is_present r =
    any (λ e. exists_where (λ a. true) (attribute_of e r.cluster r.number)) fixed_endpoint_array

-- The privilege that the entries ask for, `none` where they say nothing.
abbrev pub privilege_of : List Entry → ℕ → ℕ → Option Privilege
privilege_of [] cluster number = none
privilege_of (r ∷ rs) cluster number =
    if r.cluster == cluster && r.number == number
    then some r.privilege
    else privilege_of rs cluster number

pub record AreConsistent : Type 0 where
  pub read_attributes :
      length access_read_attribute_cluster ≡ length access_read_attribute_attribute
  pub read_privileges :
      length access_read_attribute_cluster ≡ length access_read_attribute_privilege
  pub written_attributes :
      length access_write_attribute_cluster ≡ length access_write_attribute_attribute
  pub write_privileges :
      length access_write_attribute_cluster ≡ length access_write_attribute_privilege
  pub invoked_commands : length access_invoke_command_cluster ≡ length access_invoke_command_command
  pub invoke_privileges :
      length access_invoke_command_cluster ≡ length access_invoke_command_privilege
  pub read_events : length access_read_event_cluster ≡ length access_read_event_event
  pub event_privileges : length access_read_event_cluster ≡ length access_read_event_privilege
  pub read : All (λ r. is_present r ≡ true) read_entries
  pub written : All (λ r. is_written r ≡ true) write_entries
  pub accepted : All (λ r. is_accepted r ≡ true) invoke_entries

-- The three arrays of each kind are equally long; each attribute that needs a privilege to be read
-- is there on an endpoint, each one that needs one to be written is there and writable, and each
-- command that needs one is accepted on an endpoint.
pub access_entries-AreConsistent : AreConsistent
access_entries-AreConsistent = record {
  read_attributes = refl;
  read_privileges = refl;
  written_attributes = refl;
  write_privileges = refl;
  invoked_commands = refl;
  invoke_privileges = refl;
  read_events = refl;
  event_privileges = refl;
  read = all-All is_present read_entries refl;
  written = all-All is_written write_entries refl;
  accepted = all-All is_accepted invoke_entries refl;
}

-- The clusters that put the node on a fabric and keep its credentials.
pub data IsAdministrative : ℕ → Type 0 where
  general_commissioning : IsAdministrative 0x30
  network_commissioning : IsAdministrative 0x31
  administrator_commissioning : IsAdministrative 0x3C
  operational_credentials : IsAdministrative 0x3E
  group_key_management : IsAdministrative 0x3F

abbrev NeedsAdminister : ℕ → ℕ → Type 0
NeedsAdminister cluster n = privilege_of invoke_entries cluster n ≡ some administer

-- Each command that general commissioning, network commissioning, administrator commissioning,
-- operational credentials and group key management accept on endpoint 0 needs the privilege
-- Administer.
pub accepted_commands-administer :
    (cluster command : ℕ)
    → IsAdministrative cluster
    → contains command (accepted_commands 0 cluster) ≡ true
    → privilege_of invoke_entries cluster command ≡ some administer
accepted_commands-administer _ n general_commissioning h =
    contains-All (NeedsAdminister 0x30) n (accepted_commands 0 0x30) (refl, (refl, (refl, tt))) h
accepted_commands-administer _ n network_commissioning h =
    contains-All (NeedsAdminister 0x31) n (accepted_commands 0 0x31)
      (refl, (refl, (refl, (refl, (refl, (refl, tt)))))) h
accepted_commands-administer _ n administrator_commissioning h =
    contains-All (NeedsAdminister 0x3C) n (accepted_commands 0 0x3C) (refl, (refl, (refl, tt))) h
accepted_commands-administer _ n operational_credentials h =
    contains-All (NeedsAdminister 0x3E) n (accepted_commands 0 0x3E)
      (refl, (refl, (refl, (refl, (refl, (refl, (refl, (refl, tt)))))))) h
accepted_commands-administer _ n group_key_management h =
    contains-All (NeedsAdminister 0x3F) n (accepted_commands 0 0x3F)
      (refl, (refl, (refl, (refl, tt)))) h
