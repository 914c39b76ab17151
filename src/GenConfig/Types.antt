-- ===== src/GenConfig/Types.antt =====
-- The entries of src/zap-generated/gen_config.h.
use Prim.Native.String.{String}
use shirokumakun_matter.Common.{ℕ}

-- A constant MATTER_DM_<name>_CLUSTER_SERVER_ENDPOINT_COUNT, or one for the clients.
pub record Count : Type 0 where
  pub name : String
  pub count : ℕ

abbrev pub count_entry : String → ℕ → Count
count_entry name n = record { name = name; count = n }

-- A constant <cluster>_ENABLE_<command>_CMD, which is 1.
pub record Enabled : Type 0 where
  pub cluster : String
  pub command : String

abbrev pub enabled_entry : String → String → Enabled
enabled_entry cluster command = record { cluster = cluster; command = command }
