-- ===== src/DataModel/Lookup.antt =====
-- How the tables of src/zap-generated/endpoint_config.h refer to one another: the entries that an
-- index and a count name, and the attribute of an endpoint.
use mathlib.Core.Option.{some-injective, none-ne-some}
use shirokumakun_matter.Common.{
  ℕ, suc, ◌==◌, Bool, true, false, not, ◌&&◌, List, [], ◌∷◌, Option, none, some, take, drop,
  if◌then◌else◌, get_elem?, Bool-cases, inl, inr, All, All-take, All-drop, ◌≡◌,
}
use shirokumakun_matter.DataModel.Types.{
  Attribute, Mask, external_storage, readable, nullable, min_max, Cluster, ClusterMask, server,
  EndpointType,
}
use shirokumakun_matter.DataModel.Attributes.{generated_attributes}
use shirokumakun_matter.DataModel.Endpoints.{
  generated_clusters, generated_endpoint_types, fixed_endpoint_array, fixed_endpoint_types,
}

abbrev is_external : Mask → Bool
is_external external_storage = true
is_external _ = false

abbrev is_min_max : Mask → Bool
is_min_max min_max = true
is_min_max _ = false

abbrev is_nullable : Mask → Bool
is_nullable nullable = true
is_nullable _ = false

abbrev is_readable : Mask → Bool
is_readable readable = true
is_readable _ = false

abbrev is_server : ClusterMask → Bool
is_server server = true
is_server _ = false

abbrev pub any {ℓ} : {A : Type ℓ} → (A → Bool) → List A → Bool
any p [] = false
any p (x ∷ xs) = if p x then true else any p xs

-- An attribute that the SDK keeps in its store, not the cluster's own code.
abbrev pub is_stored : Attribute → Bool
is_stored a = not (any is_external a.mask)

abbrev pub has_limits : Attribute → Bool
has_limits a = any is_min_max a.mask

abbrev pub may_be_null : Attribute → Bool
may_be_null a = any is_nullable a.mask

abbrev pub may_be_read : Attribute → Bool
may_be_read a = any is_readable a.mask

abbrev pub is_server_cluster : Cluster → Bool
is_server_cluster c = any is_server c.mask

abbrev pub attributes_of : Cluster → List Attribute
attributes_of c = take c.attribute_count (drop c.attributes generated_attributes)

abbrev pub clusters_of : EndpointType → List Cluster
clusters_of e = take e.cluster_count (drop e.clusters generated_clusters)

abbrev pub count_of {ℓ} : {A : Type ℓ} → (A → Bool) → List A → ℕ
count_of p [] = 0
count_of p (x ∷ xs) = if p x then suc (count_of p xs) else count_of p xs

-- The first entry that passes a test.
abbrev pub find_first {ℓ} : {A : Type ℓ} → (A → Bool) → List A → Option A
find_first p [] = none
find_first p (x ∷ xs) = if p x then some x else find_first p xs

-- The number of the endpoint is looked up in the array of endpoints, and its type beside it.
abbrev position : ℕ → List ℕ → ℕ
position n [] = 0
position n (m ∷ ms) = if n == m then 0 else suc (position n ms)

abbrev pub type_of_endpoint : ℕ → Option EndpointType
type_of_endpoint n = elim (get_elem? fixed_endpoint_types (position n fixed_endpoint_array)) [
  | none ↦ none
  | some i ↦ get_elem? generated_endpoint_types i
]

abbrev pub is_server_of : ℕ → Cluster → Bool
is_server_of cluster c = c.cluster_id == cluster && is_server_cluster c

abbrev server_in : ℕ → Option EndpointType → Option Cluster
server_in cluster none = none
server_in cluster (some e) = find_first (is_server_of cluster) (clusters_of e)

abbrev pub server_of : ℕ → ℕ → Option Cluster
server_of endpoint cluster = server_in cluster (type_of_endpoint endpoint)

abbrev attribute_in : ℕ → Option Cluster → Option Attribute
attribute_in id none = none
attribute_in id (some c) = find_first (λ a. a.attribute_id == id) (attributes_of c)

abbrev pub attribute_of : ℕ → ℕ → ℕ → Option Attribute
attribute_of endpoint cluster id = attribute_in id (server_of endpoint cluster)

module _ {ℓ κ} {A : Type ℓ} (P : A → Type κ) where
  All-chosen :
      (b : Bool) (x a : A) (rest : Option A)
      → P x
      → (rest ≡ some a → P a)
      → (if b then some x else rest) ≡ some a
      → P a
  All-chosen true x a rest px later h = rw (← some-injective x a h) px
  All-chosen false x a rest px later h = later h

  pub All-find_first :
      (p : A → Bool) (xs : List A) (a : A) → All P xs → find_first p xs ≡ some a → P a
  All-find_first p [] a all h = absurd (none-ne-some a h)
  All-find_first p (x ∷ xs) a all h =
      All-chosen (p x) x a (find_first p xs) all.0 (All-find_first p xs a all.1) h

-- What holds of each cluster of the table holds of a server that an endpoint has.
module _ {κ} (P : Cluster → Type κ) (all : All P generated_clusters) where
  server_in-All :
      (cluster : ℕ) (e : Option EndpointType) (s : Cluster) → server_in cluster e ≡ some s → P s
  server_in-All cluster none s h = absurd (none-ne-some s h)
  server_in-All cluster (some e) s h =
      All-find_first P (is_server_of cluster) (clusters_of e) s
        (All-take P e.cluster_count (drop e.clusters generated_clusters)
          (All-drop P e.clusters generated_clusters all))
        h

  pub server_of-All :
      (endpoint cluster : ℕ) (s : Cluster) → server_of endpoint cluster ≡ some s → P s
  server_of-All endpoint cluster s h = server_in-All cluster (type_of_endpoint endpoint) s h

find_first-passes {ℓ} :
    {A : Type ℓ} (p : A → Bool) (xs : List A) (a : A) → find_first p xs ≡ some a → p a ≡ true
find_first-passes p [] a h = absurd (none-ne-some a h)
find_first-passes p (x ∷ xs) a h = elim (Bool-cases (p x)) [
  | inl passes ↦ rw (← some-injective x a (rw passes at h)) passes
  | inr fails ↦ find_first-passes p xs a (rw fails at h)
]

server_in-passes :
    (cluster : ℕ) (e : Option EndpointType) (s : Cluster)
    → server_in cluster e ≡ some s
    → is_server_of cluster s ≡ true
server_in-passes cluster none s h = absurd (none-ne-some s h)
server_in-passes cluster (some e) s h = find_first-passes (is_server_of cluster) (clusters_of e) s h

pub server_of-passes :
    (endpoint cluster : ℕ) (s : Cluster)
    → server_of endpoint cluster ≡ some s
    → is_server_of cluster s ≡ true
server_of-passes endpoint cluster s h = server_in-passes cluster (type_of_endpoint endpoint) s h

module _ {κ} (P : Attribute → Type κ) (all : All P generated_attributes) where
  attribute_in-All :
      (id : ℕ) (c : Option Cluster) (a : Attribute) → attribute_in id c ≡ some a → P a
  attribute_in-All id none a h = absurd (none-ne-some a h)
  attribute_in-All id (some c) a h =
      All-find_first P (λ x. x.attribute_id == id) (attributes_of c) a
        (All-take P c.attribute_count (drop c.attributes generated_attributes)
          (All-drop P c.attributes generated_attributes all))
        h

  -- What holds of each attribute of the table holds of one that is found.
  pub attribute_of-All :
      (endpoint cluster id : ℕ) (a : Attribute) → attribute_of endpoint cluster id ≡ some a → P a
  attribute_of-All endpoint cluster id a h = attribute_in-All id (server_of endpoint cluster) a h
