-- ===== src/HwPairing/Tests.antt =====
-- Tests of the pairing credentials, and their theorems at concrete devices.
use shirokumakun_matter.Common.{ℕ, ◌≡◌, refl, false, List, [], ◌∷◌, arith}
use shirokumakun_matter.HwPairing.{
  fnv1a32, make_passcode, Result, ok, Provider, init, get_spake2p_verifier,
}
use shirokumakun_matter.HwPairing.Fnv.{fnv1a32-injective}
use shirokumakun_matter.HwPairing.Passcode.{IsAllowed, make_passcode-IsAllowed}
use shirokumakun_matter.HwPairing.Credentials.{
  IsPaired, init-IsPaired, calls, fresh_verifier, get_spake2p_verifier-calls,
}

-- The published FNV-1a hash of "a".
fnv1a32-a : fnv1a32 (0x61 ∷ []) 2166136261 ≡ 0xE40C292C
unfolding fnv1a32
fnv1a32-a = refl

-- 12345677 is the remainder that leads to the forbidden 12345678.
bumped : make_passcode 12345677 ≡ 12345679
unfolding make_passcode
bumped = refl

abbrev blank : Provider
blank = record {
  discriminator = 0;
  passcode = 0;
  salt = [];
  verifier = [];
  raw_ready = false;
  verifier_ready = false;
}

abbrev generate : ℕ → List ℕ → ℕ → Result ℕ
generate iterations salt passcode = ok passcode

abbrev serialize : ℕ → Result (List ℕ)
serialize v = ok (v ∷ [])

make_passcode-IsAllowed_example : IsAllowed (make_passcode 12345677)
make_passcode-IsAllowed_example = make_passcode-IsAllowed 12345677

fnv1a32-injective_example : ◌≡◌ {A = ℕ} 5 5
fnv1a32-injective_example =
    fnv1a32-injective (1 ∷ 2 ∷ []) 5 5 (omega arith) (omega arith) (omega arith) refl

init-IsPaired_example : IsPaired (init 0x12345678 0x9ABCDEF0 blank)
init-IsPaired_example = init-IsPaired 0x12345678 0x9ABCDEF0 blank

-- The first call makes the verifier, the second hands out the one that is kept, and the third has
-- too small a buffer.
get_spake2p_verifier-calls_example :
    calls (get_spake2p_verifier generate serialize 1) (8 ∷ 8 ∷ 0 ∷ []) (init 1 2 blank)
    ≡ calls (fresh_verifier generate serialize 1) (8 ∷ 8 ∷ 0 ∷ []) (init 1 2 blank)
get_spake2p_verifier-calls_example =
    get_spake2p_verifier-calls generate serialize 1 2 1 (8 ∷ 8 ∷ 0 ∷ []) blank refl
