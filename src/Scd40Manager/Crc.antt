-- ===== src/Scd40Manager/Crc.antt =====
-- The checksum of src/scd40_manager.cpp finds every corrupted byte.
use native.Mathlib.Decide.{dec_lt}
use shirokumakun_matter.Common.{
  ℕ, zero, suc, ◌+◌, ◌/◌, ◌%◌, ◌≤◌, ◌<◌, ◌≡◌, ◌≢◌, ◌⊎◌, inl, inr, refl, sym, ap, ◌∙◌, Bool, true,
  false, List, [], ◌∷◌, arith, bit_xor, ◌==◌, ==_iff, if◌then◌else◌, all_below, all_below_sound,
  bit_xor_cancel_left, bit_xor_cancel_right, bit_xor-lt, length, get_or, set, All, get_or-set,
  All-get_or,
}
use shirokumakun_matter.Scd40Manager.{
  crc_shift, crc_bits, sensirion_crc, crc_matches, ok, err, eio, Measurement, decode_measurement,
}

-- One shift undone: an odd result comes from a set top digit.
unshift : ℕ → ℕ
unshift c = if c % 2 == 0 then c / 2 else bit_xor c 0x31 / 2 + 128

unbits : ℕ → ℕ → ℕ
unbits zero c = c
unbits (suc left) c = unbits left (unshift c)

unbits_table : all_below 256 (λ x. unbits 8 (crc_bits 8 x) == x) ≡ true
unfolding all_below unbits unshift crc_bits
unbits_table = refl

unbits-crc_bits : (x : ℕ) → x < 256 → unbits 8 (crc_bits 8 x) ≡ x
unbits-crc_bits x h = (==_iff _ x).0 (all_below_sound 256 _ unbits_table x h)

crc_bits-injective : (x y : ℕ) → x < 256 → y < 256 → crc_bits 8 x ≡ crc_bits 8 y → x ≡ y
crc_bits-injective x y p q e = sym (unbits-crc_bits x p) ∙ ap (unbits 8) e ∙ unbits-crc_bits y q

crc_shift-lt : (c : ℕ) → crc_shift c < 256
unfolding crc_shift
crc_shift-lt c = ground arith

crc_bits-lt : (n c : ℕ) → crc_bits (suc n) c < 256
unfolding crc_bits
crc_bits-lt zero c = crc_shift-lt c
crc_bits-lt (suc n) c = crc_bits-lt n (crc_shift c)

xor_byte : (a b : ℕ) → a < 256 → b < 256 → bit_xor a b < 256
xor_byte a b p q = bit_xor-lt 8 a b p q

-- A word with another high byte has another checksum,
sensirion_crc-hi :
    (hi hi' lo : ℕ)
    → hi < 256
    → hi' < 256
    → lo < 256
    → sensirion_crc (hi ∷ lo ∷ []) ≡ sensirion_crc (hi' ∷ lo ∷ [])
    → hi ≡ hi'
unfolding sensirion_crc
sensirion_crc-hi hi hi' lo p q r e = bit_xor_cancel_left 0xFF hi hi' (
    crc_bits-injective (bit_xor 0xFF hi) (bit_xor 0xFF hi') (first hi p) (first hi' q) (
      bit_xor_cancel_right (crc_bits 8 (bit_xor 0xFF hi)) (crc_bits 8 (bit_xor 0xFF hi')) lo
        (crc_bits-injective _ _ (second hi) (second hi') e)))
  where
    first : (b : ℕ) → b < 256 → bit_xor 0xFF b < 256
    first b h = xor_byte 0xFF b (omega arith) h

    second : (b : ℕ) → bit_xor (crc_bits 8 (bit_xor 0xFF b)) lo < 256
    second b = xor_byte (crc_bits 8 (bit_xor 0xFF b)) lo (crc_bits-lt 7 (bit_xor 0xFF b)) r

-- and so has one with another low byte.
sensirion_crc-lo :
    (hi lo lo' : ℕ)
    → lo < 256
    → lo' < 256
    → sensirion_crc (hi ∷ lo ∷ []) ≡ sensirion_crc (hi ∷ lo' ∷ [])
    → lo ≡ lo'
unfolding sensirion_crc
sensirion_crc-lo hi lo lo' p q e =
    bit_xor_cancel_left (crc_bits 8 (bit_xor 0xFF hi)) lo lo'
      (crc_bits-injective _ _ (second lo p) (second lo' q) e)
  where
    second : (b : ℕ) → b < 256 → bit_xor (crc_bits 8 (bit_xor 0xFF hi)) b < 256
    second b h = xor_byte (crc_bits 8 (bit_xor 0xFF hi)) b (crc_bits-lt 7 (bit_xor 0xFF hi)) h

-- Where a word matches its checksum, it does not with one of the three bytes replaced.
crc_matches_corrupted :
    (hi lo crc b : ℕ)
    → hi < 256
    → lo < 256
    → b < 256
    → crc_matches hi lo crc ≡ true
    → (b ≢ hi → crc_matches b lo crc ≡ false)
      × (b ≢ lo → crc_matches hi b crc ≡ false)
      × (b ≢ crc → crc_matches hi lo b ≡ false)
unfolding crc_matches
crc_matches_corrupted hi lo crc b p q r e = (
  λ ne. ground (arith, sensirion_crc-hi hi b lo p r q),
  λ ne. ground (arith, sensirion_crc-lo hi lo b q r),
  λ ne. ground arith,
)

-- Word `k` of an answer matches its checksum.
abbrev word_matches : List ℕ → ℕ → Bool
word_matches buf k = crc_matches (get_or buf k 0) (get_or buf (k + 1) 0) (get_or buf (k + 2) 0)

accepted_words :
    (buf : List ℕ) {m : Measurement}
    → decode_measurement buf ≡ ok m
    → (word_matches buf 0 ≡ true) × (word_matches buf 3 ≡ true) × (word_matches buf 6 ≡ true)
unfolding decode_measurement
accepted_words buf h = ground arith

rejected_word :
    (buf : List ℕ)
    → (word_matches buf 0 ≡ false) ⊎ ((word_matches buf 3 ≡ false) ⊎ (word_matches buf 6 ≡ false))
    → decode_measurement buf ≡ err eio
unfolding decode_measurement
rejected_word buf h = ground arith

-- An answer of nine bytes that is accepted.
pub record IsAccepted (buf : List ℕ) : Type 0 where
  pub measurement : Measurement
  pub accepted : decode_measurement buf ≡ ok measurement
  pub nine : length buf ≡ 9
  pub bytes : All (λ b. b < 256) buf

-- A word in which one byte is replaced no longer matches.
word_corrupted :
    (buf : List ℕ) (k i b : ℕ)
    → All (λ x. x < 256) buf
    → k + 2 < length buf
    → k ≤ i
    → i < k + 3
    → b < 256
    → b ≢ get_or buf i 0
    → word_matches buf k ≡ true
    → word_matches (set buf i b) k ≡ false
word_corrupted buf k i b bytes room low high byte ne e = ground (
  arith,
  get_or-set buf i k b 0,
  get_or-set buf i (k + 1) b 0,
  get_or-set buf i (k + 2) b 0,
  crc_matches_corrupted (get_or buf k 0) (get_or buf (k + 1) 0) (get_or buf (k + 2) 0) b
      (All-get_or _ buf k 0 bytes (omega arith)) (All-get_or _ buf (k + 1) 0 bytes (omega arith))
      byte e,
)

-- An accepted answer of nine bytes with any one byte replaced by another is rejected with `-EIO`.
pub decode_measurement_corrupted :
    (buf : List ℕ) (i b : ℕ)
    → IsAccepted buf
    → i < 9
    → b < 256
    → b ≢ get_or buf i 0
    → decode_measurement (set buf i b) ≡ err eio
decode_measurement_corrupted buf i b a lt byte ne = rejected_word (set buf i b) (elim (dec_lt i 3) [
  | yes first ↦ inl (broken 0 (omega arith) (omega arith) (omega (arith, a.nine)) words.0)
  | no later ↦ elim (dec_lt i 6) [
    | yes second ↦ inr (inl (broken 3 (omega arith) (omega arith) (omega (arith, a.nine)) words.1))
    | no third ↦ inr (inr (broken 6 (omega arith) (omega arith) (omega (arith, a.nine)) words.2))
  ]
])
  where
    words : (word_matches buf 0 ≡ true) × (word_matches buf 3 ≡ true) × (word_matches buf 6 ≡ true)
    words = accepted_words buf a.accepted

    broken :
        (k : ℕ)
        → k ≤ i
        → i < k + 3
        → k + 2 < length buf
        → word_matches buf k ≡ true
        → word_matches (set buf i b) k ≡ false
    broken k low high room e = word_corrupted buf k i b a.bytes room low high byte ne e
