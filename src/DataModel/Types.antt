-- ===== src/DataModel/Types.antt =====
-- The entries of the tables of src/zap-generated/endpoint_config.h, with the fields that the macros
-- of the SDK fill in.
use shirokumakun_matter.Common.{ℕ, List, Option}

-- The types that the attributes have.
pub data ZapType : Type 0 where
  array bitmap16 bitmap32 bitmap8 boolean char_string enum8 fabric_idx int16u int32s int32u int64u
        int8s int8u octet_string percent single struct temperature vendor_id :
      ZapType

pub data Mask : Type 0 where
  external_storage readable writable nullable tokenize min_max : Mask

-- `ZAP_EMPTY_DEFAULT`, `ZAP_SIMPLE_DEFAULT` and `ZAP_MIN_MAX_DEFAULTS_INDEX`.
pub data Default : Type 0 where
  empty : Default
  simple : ℕ → Default
  min_max_index : ℕ → Default

pub record Attribute : Type 0 where
  pub default : Default
  pub attribute_id : ℕ
  pub size : ℕ
  pub type : ZapType
  pub mask : List Mask

abbrev pub attribute : Default → ℕ → ℕ → ZapType → List Mask → Attribute
attribute d i n t m = record { default = d; attribute_id = i; size = n; type = t; mask = m }

-- Three values of `uint16_t`: a default and its limits.
pub record MinMax : Type 0 where
  pub default_value : ℕ
  pub min_value : ℕ
  pub max_value : ℕ

abbrev pub min_max_default : ℕ → ℕ → ℕ → MinMax
min_max_default d lo hi = record { default_value = d; min_value = lo; max_value = hi }

-- `chip::kInvalidCommandId` ends a list.
pub data CommandEntry : Type 0 where
  command : ℕ → CommandEntry
  end_of_list : CommandEntry

pub data ClusterMask : Type 0 where
  server client init_function shutdown_function attribute_changed_function
        pre_attribute_changed_function :
      ClusterMask

-- The arrays of the functions of a cluster.
pub data Functions : Type 0 where
  chip_func_array_fan_control_server chip_func_array_groups_server chip_func_array_on_off_server
        chip_func_array_thermostat_server :
      Functions

-- `EmberAfCluster`; an index into a table, or `none` for a null pointer.
pub record Cluster : Type 0 where
  pub cluster_id : ℕ
  pub attributes : ℕ
  pub attribute_count : ℕ
  pub cluster_size : ℕ
  pub mask : List ClusterMask
  pub functions : Option Functions
  pub accepted_command_list : Option ℕ
  pub generated_command_list : Option ℕ
  pub event_list : Option ℕ
  pub event_count : ℕ

-- `EmberAfEndpointType`.
pub record EndpointType : Type 0 where
  pub clusters : ℕ
  pub cluster_count : ℕ
  pub endpoint_size : ℕ

pub record DeviceType : Type 0 where
  pub device_id : ℕ
  pub version : ℕ
