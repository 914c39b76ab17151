-- ===== src/HwPairing.antt =====
-- The pairing credentials of src/hw_pairing.cpp; the children hold the proofs.
-- The FICR words are arguments. The SDK's SPAKE2+ verifier is a parameter: `generate` and
-- `serialize`, each of which may fail, and the length of a serialized verifier. The words are
-- stored lowest byte first, as on the Cortex-M4.
pub mod Fnv
pub mod Passcode
pub mod Credentials
mod Tests
use shirokumakun_matter.Common.{
  ℕ, zero, suc, ◌+◌, ◌*◌, ◌/◌, ◌%◌, ◌^◌, Bool, true, false, not, List, [], ◌∷◌, ◌++◌, bit_and,
  bit_xor, u16, u32, shr, ltb, ◌==◌, if◌then◌else◌, replicate,
}

abbrev pub fnv_prime : ℕ
fnv_prime = 16777619

-- The loop of `fnv1a32`, with the hash so far.
unfoldable pub fnv1a32 : List ℕ → ℕ → ℕ
fnv1a32 [] h = h
fnv1a32 (b ∷ bytes) h = fnv1a32 bytes (u32 (bit_xor h b * fnv_prime))

abbrev pub forbidden : List ℕ
forbidden =
    00000000 ∷ 11111111 ∷ 22222222 ∷ 33333333 ∷ 44444444 ∷ 55555555 ∷ 66666666 ∷ 77777777 ∷ 88888888
    ∷ 99999999 ∷ 12345678 ∷ 87654321 ∷ []

-- The loop over `kForbidden`, which breaks at the first match.
pub bump_forbidden : List ℕ → ℕ → ℕ
bump_forbidden [] code = code
bump_forbidden (f ∷ fs) code =
    if code == f then u32 (code % 99999998 + 1) else bump_forbidden fs code

unfoldable pub make_passcode : ℕ → ℕ
unfolding bump_forbidden
make_passcode h = bump_forbidden forbidden (u32 (h % 99999998 + 1))

pub data ChipError : Type 0 where
  not_implemented incorrect_state buffer_too_small : ChipError
  sdk : ℕ → ChipError

pub data Result {ℓ} (A : Type ℓ) : Type ℓ where
  ok : A → Result A
  err : ChipError → Result A

abbrev pub salt_len : ℕ
salt_len = 16

abbrev pub iterations : ℕ
iterations = 1000

-- The members of `HwCommissionableDataProvider`.
pub record Provider : Type 0 where
  pub discriminator : ℕ  -- uint16_t
  pub passcode : ℕ  -- uint32_t
  pub salt : List ℕ  -- uint8_t[16]
  pub verifier : List ℕ
  pub raw_ready : Bool
  pub verifier_ready : Bool

-- `memcpy` from a `uint32_t`.
abbrev pub word_bytes : ℕ → List ℕ
word_bytes w = w % 256 ∷ w / 256 % 256 ∷ w / 65536 % 256 ∷ w / 16777216 % 256 ∷ []

unfoldable pub device_bytes : ℕ → ℕ → List ℕ
device_bytes id0 id1 = word_bytes id0 ++ word_bytes id1

-- The loop that fills the salt: rounds left, and `i`.
pub salt_words : ℕ → ℕ → List ℕ → List ℕ
salt_words zero i raw = []
salt_words (suc left) i raw =
    word_bytes (fnv1a32 raw (u32 (0xD15C0003 + i))) ++ salt_words left (i + 1) raw

-- `HwCommissionableDataProvider::Init`, which cannot fail.
unfoldable pub init : ℕ → ℕ → Provider → Provider
unfolding salt_words
init id0 id1 p =
    let raw = device_bytes id0 id1 in
    record p {
      discriminator = u16 (bit_and (fnv1a32 raw 0xD15C0001) 0x0FFF);
      passcode = make_passcode (fnv1a32 raw 0xD15C0002);
      salt = salt_words 4 0 raw;
      raw_ready = true;
    }

unfoldable pub get_setup_discriminator : Provider → Result ℕ
get_setup_discriminator p = if p.raw_ready then ok p.discriminator else err incorrect_state

unfoldable pub set_setup_discriminator : ℕ → Provider → Result (Unit {0})
set_setup_discriminator d p = err not_implemented

unfoldable pub get_spake2p_iteration_count : Provider → Result ℕ
get_spake2p_iteration_count p = ok iterations

-- The bytes copied into a buffer of `size` bytes.
unfoldable pub get_spake2p_salt : ℕ → Provider → Result (List ℕ)
get_spake2p_salt size p =
    if not p.raw_ready
    then err incorrect_state
    else (if ltb size salt_len then err buffer_too_small else ok p.salt)

unfoldable pub get_setup_passcode : Provider → Result ℕ
get_setup_passcode p = if p.raw_ready then ok p.passcode else err incorrect_state

unfoldable pub set_setup_passcode : ℕ → Provider → Result (Unit {0})
set_setup_passcode c p = err not_implemented

infixl 5 ◌>>=◌
abbrev pub ◌>>=◌ : {A B : Type 0} → Result A → (A → Result B) → Result B
ok a >>= f = f a
err e >>= f = err e

-- The copy into a buffer of `size` bytes, once the verifier is there.
pub copy_verifier : ℕ → ℕ → Provider → Result (List ℕ)
copy_verifier verifier_len size p =
    if ltb size verifier_len then err buffer_too_small else ok p.verifier

module _ {V : Type 0} (generate : ℕ → List ℕ → ℕ → Result V) (serialize : V → Result (List ℕ)) where
  -- `Generate`, then `Serialize` into the member array.
  unfoldable pub make_verifier : Provider → Result (List ℕ)
  make_verifier p = generate iterations p.salt p.passcode >>= serialize

  -- `if (!mVerifierReady) { … }`
  pub ensure_verifier : Provider → Result Provider
  ensure_verifier p =
      if p.verifier_ready
      then ok p
      else (make_verifier p >>= λ v. ok (record p { verifier = v; verifier_ready = true }))

  -- The provider afterwards, and the bytes copied out.
  unfoldable pub get_spake2p_verifier : ℕ → ℕ → Provider → Provider × Result (List ℕ)
  unfolding make_verifier ensure_verifier copy_verifier
  get_spake2p_verifier verifier_len size p =
      if not p.raw_ready then (p, err incorrect_state) else (elim (ensure_verifier p) [
        | err e ↦ (p, err e)
        | ok p' ↦ (p', copy_verifier verifier_len size p')
      ])
