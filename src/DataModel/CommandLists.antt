-- ===== src/DataModel/CommandLists.antt =====
-- The command lists of the clusters of src/zap-generated/endpoint_config.h, and the functions that
-- the SDK calls by a cluster's mask.
use shirokumakun_matter.Common.{
  ℕ, suc, ◌≡◌, refl, Bool, true, false, Option, none, some, List, [], ◌∷◌, ◌++◌, map, length, drop,
  concat, All, arith, if◌then◌else◌,
}
use shirokumakun_matter.DataModel.Types.{
  CommandEntry, command, end_of_list, Functions, ClusterMask, server, client, Cluster,
}
use shirokumakun_matter.DataModel.Commands.{
  generated_commands, generated_event_count, generated_events, function_array,
}
use shirokumakun_matter.DataModel.Endpoints.{generated_clusters}
use shirokumakun_matter.DataModel.Lookup.{server_of}
use shirokumakun_matter.DataModel.Layout.{Tiles}

-- A list as the SDK reads it, up to its end.
abbrev read_list : List CommandEntry → List ℕ
read_list [] = []
read_list (command c ∷ entries) = c ∷ read_list entries
read_list (end_of_list ∷ entries) = []

abbrev pub commands_at : Option ℕ → List ℕ
commands_at none = []
commands_at (some i) = read_list (drop i generated_commands)

abbrev pub accepted_commands : ℕ → ℕ → List ℕ
accepted_commands endpoint cluster = elim (server_of endpoint cluster) [
  | none ↦ []
  | some c ↦ commands_at c.accepted_command_list
]

abbrev pub generated_commands_of : ℕ → ℕ → List ℕ
generated_commands_of endpoint cluster = elim (server_of endpoint cluster) [
  | none ↦ []
  | some c ↦ commands_at c.generated_command_list
]

-- The entries of a list, its end among them.
abbrev list_slice : Option ℕ → List (ℕ × ℕ)
list_slice none = []
list_slice (some i) = (i, suc (length (commands_at (some i)))) ∷ []

abbrev list_slices : Cluster → List (ℕ × ℕ)
list_slices c = list_slice c.accepted_command_list ++ list_slice c.generated_command_list

-- The command lists of the clusters, each with its end, make up the command table in order.
pub command_lists-Tiles :
    Tiles 0 (concat (map list_slices generated_clusters)) (length generated_commands)
command_lists-Tiles = omega arith

-- The functions of a mask, in the order in which the SDK counts its bits.
abbrev is_function : ClusterMask → Bool
is_function server = false
is_function client = false
is_function _ = true

abbrev functions_of : List ClusterMask → List ClusterMask
functions_of [] = []
functions_of (m ∷ mask) = if is_function m then m ∷ functions_of mask else functions_of mask

abbrev array_of : Option Functions → List ClusterMask
array_of none = []
array_of (some f) = function_array f

abbrev event_slice : Cluster → List (ℕ × ℕ)
event_slice c = elim c.event_list [ none ↦ [] | some i ↦ (i, c.event_count) ∷ [] ]

pub record AreComplete : Type 0 where
  pub functions : All (λ c. array_of c.functions ≡ functions_of c.mask) generated_clusters
  pub events : Tiles 0 (concat (map event_slice generated_clusters)) generated_event_count
  pub event_entries : length generated_events ≡ generated_event_count

-- Each cluster's array has a function for each one that its mask announces, in the order of the
-- mask, and no other; the events of the clusters make up the event table.
pub generated_clusters-AreComplete : AreComplete
generated_clusters-AreComplete = record {
  functions = (
    refl,
    (
      refl,
      (
        refl,
        (
          refl,
          (
            refl,
            (
              refl,
              (
                refl,
                (
                  refl,
                  (
                    refl,
                    (
                      refl,
                      (
                        refl,
                        (
                          refl,
                          (
                            refl,
                            (
                              refl,
                              (
                                refl,
                                (
                                  refl,
                                  (
                                    refl,
                                    (
                                      refl,
                                      (
                                        refl,
                                        (
                                          refl,
                                          (
                                            refl,
                                            (
                                              refl,
                                              (refl, (refl, (refl, (refl, (refl, (refl, tt)))))),
                                            ),
                                          ),
                                        ),
                                      ),
                                    ),
                                  ),
                                ),
                              ),
                            ),
                          ),
                        ),
                      ),
                    ),
                  ),
                ),
              ),
            ),
          ),
        ),
      ),
    ),
  );
  events = omega arith;
  event_entries = refl;
}
