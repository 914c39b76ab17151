-- ===== src/GenConfig/Counted.antt =====
-- The constants of src/zap-generated/gen_config.h against the tables of endpoint_config.h.
use Prim.Native.Nat.{max}
use Prim.Native.String.{String}
use text.Mathlib.Text.{◌==◌ as ◌=s=◌}
use shirokumakun_matter.Common.{
  ℕ, ◌≡◌, refl, Bool, true, false, ◌&&◌, some, List, [], ◌∷◌, ◌==◌, ==_iff, ltb, if◌then◌else◌,
  length, all, all-All, All, arith,
}
use shirokumakun_matter.DataModel.Types.{Cluster}
use shirokumakun_matter.DataModel.Endpoints.{generated_clusters}
use shirokumakun_matter.DataModel.CommandLists.{commands_at}
use shirokumakun_matter.DataModel.Lookup.{any, is_server_cluster, All-find_first}
use shirokumakun_matter.GenConfig.{
  is_named, has_name, servers_named, clients_named, count_entry_of, enabled_count,
}
use shirokumakun_matter.GenConfig.Types.{Count}
use shirokumakun_matter.GenConfig.Servers.{server_endpoint_counts}
use shirokumakun_matter.GenConfig.Clients.{client_endpoint_counts}
use shirokumakun_matter.GenConfig.Plugins.{
  using_server, using_client, plugin_server, plugin_client, plugin,
}

abbrev agree : Bool → Bool → Bool
agree true b = b
agree false b = if b then false else true

agree-eq : (a b : Bool) → agree a b ≡ true → a ≡ b
agree-eq a b h = ground arith

-- The most commands that a server of a name accepts on an endpoint.
abbrev pub most_accepted : String → List Cluster → ℕ
most_accepted name [] = 0
most_accepted name (c ∷ cs) =
    let rest = most_accepted name cs in
    if is_named name c && is_server_cluster c
    then max (length (commands_at c.accepted_command_list)) rest
    else rest

abbrev server_checks : Count → List Bool
server_checks c =
    (c.count == servers_named c.name)
    ∷ agree (has_name c.name using_server) (ltb 0 c.count)
    ∷ agree (has_name c.name plugin_server) (ltb 0 c.count)
    ∷ agree (has_name c.name plugin) (ltb 0 c.count)
    ∷ (enabled_count c.name == most_accepted c.name generated_clusters)
    ∷ []

abbrev check_server : Count → Bool
check_server c = all (λ b. b) (server_checks c)

-- What a constant for the servers of a cluster says.
pub record IsServed (c : Count) : Type 0 where
  pub counted : c.count ≡ servers_named c.name
  pub used : has_name c.name using_server ≡ ltb 0 c.count
  pub plugged : has_name c.name plugin_server ≡ ltb 0 c.count
  pub plugged_any : has_name c.name plugin ≡ ltb 0 c.count
  pub enabled : enabled_count c.name ≡ most_accepted c.name generated_clusters

check_server-IsServed : (c : Count) → check_server c ≡ true → IsServed c
check_server-IsServed c h =
    let (counted, (used, (plugged, (any_plugged, (enabled, done))))) =
      all-All (λ b. b) (server_checks c) h in
    record {
      counted = (==_iff c.count (servers_named c.name)).0 counted;
      used = agree-eq _ _ used;
      plugged = agree-eq _ _ plugged;
      plugged_any = agree-eq _ _ any_plugged;
      enabled = (==_iff (enabled_count c.name) (most_accepted c.name generated_clusters)).0 enabled;
    }

abbrev client_checks : Count → List Bool
client_checks c =
    (c.count == clients_named c.name)
    ∷ agree (has_name c.name using_client) (ltb 0 c.count)
    ∷ agree (has_name c.name plugin_client) (ltb 0 c.count)
    ∷ []

abbrev check_client : Count → Bool
check_client c = all (λ b. b) (client_checks c)

-- What a constant for the clients of a cluster says.
pub record IsUsed (c : Count) : Type 0 where
  pub counted : c.count ≡ clients_named c.name
  pub used : has_name c.name using_client ≡ ltb 0 c.count
  pub plugged : has_name c.name plugin_client ≡ ltb 0 c.count

check_client-IsUsed : (c : Count) → check_client c ≡ true → IsUsed c
check_client-IsUsed c h =
    let (counted, (used, (plugged, done))) = all-All (λ b. b) (client_checks c) h in
    record {
      counted = (==_iff c.count (clients_named c.name)).0 counted;
      used = agree-eq _ _ used;
      plugged = agree-eq _ _ plugged;
    }

all_servers : all check_server server_endpoint_counts ≡ true
all_servers = refl

all_clients : all check_client client_endpoint_counts ≡ true
all_clients = refl

-- Each cluster of the tables has a constant under its name.
abbrev pub is_known : Cluster → Bool
is_known cl =
    any (λ c. is_named c.name cl)
      (if is_server_cluster cl then server_endpoint_counts else client_endpoint_counts)

all_known : all is_known generated_clusters ≡ true
all_known = refl

-- For every name that has a constant: the count for the servers is the number of the clusters of
-- that name in endpoint_config.h that are servers; the constants that say that the server is used
-- are there just if it is not 0; and as many commands are enabled as the server accepts on the
-- endpoint where it accepts most. The count for the clients and the constants for their use are the
-- same of the clients. Each cluster of endpoint_config.h has a constant under its name.
pub counts-AreRight :
    (name : String) (s c : Count)
    → count_entry_of name server_endpoint_counts ≡ some s
    → count_entry_of name client_endpoint_counts ≡ some c
    → IsServed s × IsUsed c × All (λ cl. is_known cl ≡ true) generated_clusters
counts-AreRight name s c hs hc = (
  check_server-IsServed s (
      All-find_first (λ x. check_server x ≡ true) (λ x. x.name =s= name) server_endpoint_counts s
        (all-All check_server server_endpoint_counts all_servers) hs),
  check_client-IsUsed c (
      All-find_first (λ x. check_client x ≡ true) (λ x. x.name =s= name) client_endpoint_counts c
        (all-All check_client client_endpoint_counts all_clients) hc),
  all-All is_known generated_clusters all_known,
)
