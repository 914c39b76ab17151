-- ===== src/CommandHandler/Tests.antt =====
-- Tests of the dispatch of commands, and its theorems at concrete commands.
use shirokumakun_matter.Common.{
  ℕ, ◌≡◌, ◌≢◌, ◌↔◌, refl, true, contains, none, List, [], ◌∷◌, ◌==◌, arith,
}
use shirokumakun_matter.Common.Int.{pos, negsuc}
use shirokumakun_matter.DataModel.Lookup.{server_of}
use shirokumakun_matter.DataModel.CommandLists.{accepted_commands}
use shirokumakun_matter.CommandHandler.{
  Status, unsupported_command, unsupported_cluster, invalid_command, Sdk, dispatch_to_cluster,
  dispatch_single_cluster_command,
}
use shirokumakun_matter.CommandHandler.Table.{
  path, dispatch_by_table, dispatch_single_cluster_command-by_table,
}
use shirokumakun_matter.CommandHandler.Accepted.{dispatch_to_cluster-accepted_commands}

-- It keeps the statuses added, decodes every command but the groups', and its callbacks handle
-- what is for endpoint 1.
abbrev logging : Sdk (List Status) ℕ
logging = record {
  decode = λ c w. record { world = w; error = pos 0; data_of = 0 };
  decode_in_fabric = λ c f w. record { world = w; error = negsuc 0; data_of = f };
  accessing_fabric_index = λ w. 1;
  callback = λ c p d w. (w, p.endpoint_id == 1);
  add_status = λ p s w. s ∷ w;
}

statuses :
    (dispatch_single_cluster_command logging (path 1 0x6 2) [] ≡ [])
    × (dispatch_single_cluster_command logging (path 1 0x6 3) [] ≡ unsupported_command ∷ [])
    × (dispatch_single_cluster_command logging (path 2 0x6 2) [] ≡ invalid_command ∷ [])
    × (dispatch_single_cluster_command logging (path 1 0x4 0) [] ≡ invalid_command ∷ [])
    × (dispatch_single_cluster_command logging (path 1 0x3 0) [] ≡ unsupported_cluster ∷ [])
unfolding dispatch_single_cluster_command
statuses = (refl, refl, refl, refl, refl)

dispatch_single_cluster_command-by_table_example :
    dispatch_single_cluster_command logging (path 1 0x4 0) []
    ≡ dispatch_by_table logging (path 1 0x4 0) []
dispatch_single_cluster_command-by_table_example =
    dispatch_single_cluster_command-by_table logging (path 1 0x4 0) []

toggle_known : (dispatch_to_cluster logging (path 1 0x6 2) []).1 ≢ unsupported_cluster
unfolding dispatch_to_cluster
toggle_known h = ground arith

has_on_off : server_of 1 0x6 ≢ none
has_on_off h = ground arith

dispatch_to_cluster-accepted_commands_example :
    ((dispatch_to_cluster logging (path 1 0x6 2) []).1 ≢ unsupported_command)
    ↔ (contains 2 (accepted_commands 1 0x6) ≡ true)
dispatch_to_cluster-accepted_commands_example =
    dispatch_to_cluster-accepted_commands logging (path 1 0x6 2) [] has_on_off toggle_known
