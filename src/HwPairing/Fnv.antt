-- ===== src/HwPairing/Fnv.antt =====
-- `fnv1a32` of src/hw_pairing.cpp separates its seeds.
use shirokumakun_matter.Common.{
  ℕ, ◌*◌, ◌^◌, ◌<◌, ◌≡◌, sym, ap, ◌∙◌, List, [], ◌∷◌, arith, bit_xor, u32, All,
  bit_xor_cancel_right, bit_xor-lt,
}
use shirokumakun_matter.HwPairing.{fnv1a32, fnv_prime, device_bytes}

abbrev pub AreBytes : List ℕ → Type 0
AreBytes = All (λ b. b < 256)

-- 899433627 is the inverse of the prime modulo 2 ^ 32.
unmultiply : (x : ℕ) → x < 2 ^ 32 → u32 (u32 (x * fnv_prime) * 899433627) ≡ x
unmultiply x h = omega arith

bit_xor_word : (h b : ℕ) → h < 2 ^ 32 → b < 256 → bit_xor h b < 2 ^ 32
bit_xor_word h b p q = bit_xor-lt 32 h b p (omega arith)

-- One round of the hash loses nothing.
round-injective :
    (g h b : ℕ)
    → g < 2 ^ 32
    → h < 2 ^ 32
    → b < 256
    → u32 (bit_xor g b * fnv_prime) ≡ u32 (bit_xor h b * fnv_prime)
    → g ≡ h
round-injective g h b p q r e = bit_xor_cancel_right g h b (
    sym (unmultiply (bit_xor g b) (bit_xor_word g b p r))
    ∙ ap (λ x. u32 (x * 899433627)) e
    ∙ unmultiply (bit_xor h b) (bit_xor_word h b q r))

-- On the same bytes two 32-bit seeds give the same hash only if they are equal.
pub fnv1a32-injective :
    (bytes : List ℕ) (g h : ℕ)
    → AreBytes bytes
    → g < 2 ^ 32
    → h < 2 ^ 32
    → fnv1a32 bytes g ≡ fnv1a32 bytes h
    → g ≡ h
unfolding fnv1a32
fnv1a32-injective [] g h bs p q e = e
fnv1a32-injective (b ∷ bytes) g h bs p q e =
    round-injective g h b p q bs.0 (fnv1a32-injective bytes _ _ bs.1 (omega arith) (omega arith) e)

pub device_bytes-AreBytes : (id0 id1 : ℕ) → AreBytes (device_bytes id0 id1)
unfolding device_bytes
device_bytes-AreBytes id0 id1 = omega arith
