-- ===== src/DataModel/Limits.antt =====
-- The limits of the attributes of src/zap-generated/endpoint_config.h.
use shirokumakun_matter.Common.{
  ℕ, some, ◌+◌, ◌%◌, ◌^◌, ◌==◌, ◌&&◌, ◌||◌, not, leb, ◌≡◌, refl, Bool, true, false, List, [], ◌∷◌,
  All, all-All, get_or, if◌then◌else◌, suc, zero,
}
use shirokumakun_matter.DataModel.Types.{
  ZapType, int32s, int8s, temperature, Attribute, min_max_index, MinMax, min_max_default,
}
use shirokumakun_matter.DataModel.Attributes.{
  generated_attributes, generated_min_max_defaults, generated_min_max_default_count,
}
use shirokumakun_matter.DataModel.Lookup.{has_limits, may_be_null, attribute_of, attribute_of-All}

abbrev is_signed : ZapType → Bool
is_signed int8s = true
is_signed int32s = true
is_signed temperature = true
is_signed _ = false

-- The order of 16-bit values, as signed or unsigned numbers.
abbrev rank : ZapType → ℕ → ℕ
rank t v = if is_signed t then (v + 2 ^ 15) % 2 ^ 16 else v

abbrev no_limits : MinMax
no_limits = min_max_default 0 1 0

-- The null value of an unsigned attribute has all its bits set.
abbrev is_null : Attribute → ℕ → Bool
is_null a v = may_be_null a && (v + 1 == 256 ^ a.size)

abbrev within : Attribute → MinMax → Bool
within a m =
    leb (rank a.type m.min_value) (rank a.type m.default_value)
      && leb (rank a.type m.default_value) (rank a.type m.max_value)
    || is_null a m.default_value

abbrev pub is_limited : Attribute → Bool
is_limited a = elim a.default [
  | min_max_index i ↦ has_limits a && within a (get_or generated_min_max_defaults i no_limits)
  | _ ↦ not (has_limits a)
]

generated_attributes-limited : All (λ a. is_limited a ≡ true) generated_attributes
generated_attributes-limited = all-All is_limited generated_attributes refl

-- An attribute that any endpoint's server cluster has by any number is marked to have limits just
-- if its default is an entry of the table of limits; then that entry exists and its default lies
-- within its limits, as numbers of the attribute's type, or is null where the attribute may be
-- null.
pub attribute_of-limited :
    (endpoint cluster id : ℕ) (a : Attribute)
    → attribute_of endpoint cluster id ≡ some a
    → is_limited a ≡ true
attribute_of-limited = attribute_of-All (λ a. is_limited a ≡ true) generated_attributes-limited

abbrev pub limits_used : List Attribute → List ℕ
limits_used [] = []
limits_used (a ∷ attributes) = elim a.default [
  | min_max_index i ↦ i ∷ limits_used attributes
  | _ ↦ limits_used attributes
]

abbrev counting : ℕ → ℕ → List ℕ
counting zero n = []
counting (suc left) n = n ∷ counting left (n + 1)

-- The attributes use each entry of the table of limits once, in order.
pub limits_used-counting :
    limits_used generated_attributes ≡ counting generated_min_max_default_count 0
limits_used-counting = refl
