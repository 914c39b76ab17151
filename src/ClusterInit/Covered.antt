-- ===== src/ClusterInit/Covered.antt =====
-- The switches of the callbacks against the tables of src/zap-generated/endpoint_config.h.
use mathlib.Core.Bool.{false≢true}
use shirokumakun_matter.Common.{
  ℕ, ◌≡◌, refl, Bool, true, false, not, ◌||◌, ◌&&◌, ◌==◌, if◌then◌else◌, [], ◌∷◌, Option, none,
  some, All, all-All, and-true, ==_iff, arith,
}
use shirokumakun_matter.DataModel.Types.{Cluster}
use shirokumakun_matter.DataModel.Endpoints.{generated_clusters}
use shirokumakun_matter.DataModel.Lookup.{
  server_of, server_of-All, server_of-passes, count_of, is_server_cluster,
}
use shirokumakun_matter.CommandHandler.Table.{command_table, has_cluster}
use shirokumakun_matter.ClusterInit.{
  ember_cluster_init, app_cluster_init, app_cluster_shutdown, matter_cluster_server_init,
  matter_cluster_server_shutdown,
}

abbrev is_called {ℓ} : {A : Type ℓ} → Option A → Bool
is_called none = false
is_called (some x) = true

-- Who handles the commands of a cluster: the dispatch of IMClusterCommandHandler.cpp, the server
-- that `MatterClusterServerInitCallback` starts, or the driver of the network (0x31).
abbrev handlers_of : ℕ → ℕ → ℕ
handlers_of endpoint cluster =
    count_of (λ b. b)
      (has_cluster command_table cluster
        ∷ is_called (matter_cluster_server_init endpoint cluster)
        ∷ (cluster == 0x31)
        ∷ [])

-- The tests of a server `s` of a cluster, on an endpoint.
abbrev pub has_one_handler : ℕ → ℕ → Cluster → Bool
has_one_handler endpoint cluster s =
    not (is_called s.accepted_command_list) || handlers_of endpoint cluster == 1

abbrev pub app_copy_starts : ℕ → ℕ → Bool
app_copy_starts endpoint cluster =
    (cluster == 0x6)
    || (is_called (app_cluster_init endpoint cluster)
        && is_called (app_cluster_shutdown endpoint cluster))

abbrev same_calls : ℕ → ℕ → Bool
same_calls endpoint cluster =
    if is_called (matter_cluster_server_init endpoint cluster)
    then is_called (matter_cluster_server_shutdown endpoint cluster)
    else not (is_called (matter_cluster_server_shutdown endpoint cluster))

abbrev is_covered : ℕ → ℕ → Cluster → Bool
is_covered endpoint cluster s =
    is_called (ember_cluster_init endpoint cluster)
    && app_copy_starts endpoint cluster
    && same_calls endpoint cluster
    && has_one_handler endpoint cluster s

abbrev Holds : ℕ → Cluster → Type 0
Holds endpoint s = (not (is_server_cluster s) || is_covered endpoint s.cluster_id s) ≡ true

or-true : (a b : Bool) → a ≡ true → (not a || b) ≡ true → b ≡ true
or-true true b is h = h
or-true false b is h = absurd (false≢true is)

holds :
    (endpoint : ℕ) (s : Cluster)
    → is_server_cluster s ≡ true
    → Holds endpoint s
    → is_covered endpoint s.cluster_id s ≡ true
holds endpoint s is h = or-true (is_server_cluster s) (is_covered endpoint s.cluster_id s) is h

generated_clusters-Holds : (endpoint : ℕ) → All (Holds endpoint) generated_clusters
unfolding has_cluster
generated_clusters-Holds endpoint =
    all-All (λ s. not (is_server_cluster s) || is_covered endpoint s.cluster_id s)
      generated_clusters refl

pub record IsCovered (endpoint cluster : ℕ) (s : Cluster) : Type 0 where
  pub starts : is_called (ember_cluster_init endpoint cluster) ≡ true
  pub app_copy : app_copy_starts endpoint cluster ≡ true
  pub stops : same_calls endpoint cluster ≡ true
  pub handled : has_one_handler endpoint cluster s ≡ true

four :
    (a b c d : Bool) → (a && b && c && d) ≡ true → (a ≡ true) × (b ≡ true) × (c ≡ true) × (d ≡ true)
four a b c d h = ground arith

split :
    (endpoint cluster : ℕ) (s : Cluster)
    → is_covered endpoint cluster s ≡ true
    → IsCovered endpoint cluster s
split endpoint cluster s h =
    let each =
      four (is_called (ember_cluster_init endpoint cluster)) (app_copy_starts endpoint cluster)
        (same_calls endpoint cluster) (has_one_handler endpoint cluster s) h in
    record { starts = each.0; app_copy = each.1; stops = each.2; handled = each.3 }

-- On every endpoint, for each cluster whose server it has: emberAfClusterInitCallback of
-- callback-stub.cpp calls a callback for the cluster; so do the switches of
-- app/cluster-callbacks.cpp when it starts and stops, On/Off (0x6) aside;
-- MatterClusterServerInitCallback and MatterClusterServerShutdownCallback both know the cluster or
-- both do not; and if the cluster accepts commands, exactly one of three takes them: the dispatch of
-- IMClusterCommandHandler.cpp, a server that MatterClusterServerInitCallback starts, and the network
-- commissioning cluster.
pub server_of-IsCovered :
    (endpoint cluster : ℕ) (s : Cluster)
    → server_of endpoint cluster ≡ some s
    → IsCovered endpoint cluster s
server_of-IsCovered endpoint cluster s h =
    let passed =
      and-true (s.cluster_id == cluster) (is_server_cluster s)
        (server_of-passes endpoint cluster s h) in
    let c = (==_iff s.cluster_id cluster).0 passed.0 in
    let covered =
      server_of-All (λ s. Holds endpoint s) (generated_clusters-Holds endpoint) endpoint cluster s
        h in
    rw (← c) (split endpoint s.cluster_id s (holds endpoint s passed.1 covered))
