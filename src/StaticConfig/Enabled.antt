-- ===== src/StaticConfig/Enabled.antt =====
-- The functions of the headers in src/zap-generated/app/static-cluster-config against their arrays,
-- and the arrays against the tables of src/zap-generated/endpoint_config.h.
use shirokumakun_matter.Common.{
  ℕ, ◌≡◌, refl, sym, Bool, true, false, ◌||◌, ◌&&◌, ◌==◌, List, [], ◌∷◌, ◌++◌, Option, none, some,
  map, concat, contains, contains-All, All, all, all-All, and-true,
}
use shirokumakun_matter.DataModel.Lookup.{attribute_of, All-find_first}
use shirokumakun_matter.DataModel.CommandLists.{accepted_commands, generated_commands_of}
use shirokumakun_matter.StaticConfig.Types.{FixedConfig, StaticCluster}
use shirokumakun_matter.StaticConfig.{
  static_clusters, static_of, is_attribute_enabled_on_some_endpoint,
  is_command_enabled_on_some_endpoint,
}

-- What the arrays of all endpoints enable.
abbrev pub attributes_enabled : StaticCluster → List ℕ
attributes_enabled s = concat (map (λ f. f.enabled_attributes) s.fixed_cluster_config)

abbrev pub commands_enabled : StaticCluster → List ℕ
commands_enabled s = concat (map (λ f. f.enabled_commands) s.fixed_cluster_config)

-- The three lists that the SDK answers for every cluster.
abbrev pub is_global_list : ℕ → Bool
is_global_list id = contains id (0xFFF8 ∷ 0xFFF9 ∷ 0xFFFB ∷ [])

abbrev is_found {ℓ} : {A : Type ℓ} → Option A → Bool
is_found none = false
is_found (some x) = true

-- What an endpoint enables is in the tables of the data model: an attribute is declared, or one of
-- the three lists, and a command is accepted or generated.
abbrev pub attribute_declared : ℕ → ℕ → ℕ → Bool
attribute_declared endpoint cluster id =
    is_global_list id || is_found (attribute_of endpoint cluster id)

abbrev pub command_declared : ℕ → ℕ → ℕ → Bool
command_declared endpoint cluster id =
    contains id (accepted_commands endpoint cluster ++ generated_commands_of endpoint cluster)

abbrev config_declared : ℕ → FixedConfig → Bool
config_declared cluster f =
    all (attribute_declared f.endpoint_number cluster) f.enabled_attributes
    && all (command_declared f.endpoint_number cluster) f.enabled_commands

abbrev subset : List ℕ → List ℕ → Bool
subset xs ys = all (λ n. contains n ys) xs

abbrev same_members : List ℕ → List ℕ → Bool
same_members xs ys = subset xs ys && subset ys xs

contains-subset :
    (xs ys : List ℕ) (n : ℕ) → subset xs ys ≡ true → contains n xs ≡ true → contains n ys ≡ true
contains-subset xs ys n h =
    contains-All (λ m. contains m ys ≡ true) n xs (all-All (λ m. contains m ys) xs h)

same_truth : (a b : Bool) → (a ≡ true → b ≡ true) → (b ≡ true → a ≡ true) → a ≡ b
same_truth true b there back = sym (there refl)
same_truth false true there back = back refl
same_truth false false there back = refl

contains_same : (xs ys : List ℕ) (n : ℕ) → same_members xs ys ≡ true → contains n xs ≡ contains n ys
contains_same xs ys n h =
    let both = and-true (subset xs ys) (subset ys xs) h in
    same_truth (contains n xs) (contains n ys) (contains-subset xs ys n both.0)
      (contains-subset ys xs n both.1)

pub record IsFaithful (s : StaticCluster) : Type 0 where
  pub attributes :
      (id : ℕ) → is_attribute_enabled_on_some_endpoint s id ≡ contains id (attributes_enabled s)
  pub commands :
      (id : ℕ) → is_command_enabled_on_some_endpoint s id ≡ contains id (commands_enabled s)
  pub declared : All (λ f. config_declared s.cluster_id f ≡ true) s.fixed_cluster_config

abbrev is_faithful : StaticCluster → Bool
is_faithful s =
    same_members s.attribute_cases (attributes_enabled s)
    && (same_members s.command_cases (commands_enabled s)
        && all (config_declared s.cluster_id) s.fixed_cluster_config)

faithful : (s : StaticCluster) → is_faithful s ≡ true → IsFaithful s
faithful s h =
    let a =
      and-true (same_members s.attribute_cases (attributes_enabled s))
        (same_members s.command_cases (commands_enabled s)
          && all (config_declared s.cluster_id) s.fixed_cluster_config)
        h in
    let b =
      and-true (same_members s.command_cases (commands_enabled s))
        (all (config_declared s.cluster_id) s.fixed_cluster_config) a.1 in
    record {
      attributes = λ id. contains_same s.attribute_cases (attributes_enabled s) id a.0;
      commands = λ id. contains_same s.command_cases (commands_enabled s) id b.0;
      declared = all-All (config_declared s.cluster_id) s.fixed_cluster_config b.1;
    }

static_clusters-IsFaithful : All (λ s. is_faithful s ≡ true) static_clusters
static_clusters-IsFaithful = all-All is_faithful static_clusters refl

-- In the header of each cluster, IsAttributeEnabledOnSomeEndpoint and
-- IsCommandEnabledOnSomeEndpoint are true of exactly the numbers that some endpoint's array has;
-- and on its endpoint, endpoint_config.h declares each attribute that an array enables, the three
-- lists that every cluster has aside, and lists each command as accepted or generated.
pub static_of-IsFaithful :
    (cluster : ℕ) (s : StaticCluster) → static_of cluster ≡ some s → IsFaithful s
static_of-IsFaithful cluster s h = faithful s (
    All-find_first (λ s. is_faithful s ≡ true) (λ s. s.cluster_id == cluster) static_clusters s
      static_clusters-IsFaithful h)
