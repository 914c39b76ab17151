-- ===== src/HwPairing/Credentials.antt =====
-- What the provider of src/hw_pairing.cpp hands out, before and after `Init`.
use mathlib.Core.Bool.{true≢false}
use shirokumakun_matter.Common.{
  ℕ, ◌^◌, ◌<◌, ◌≡◌, refl, sym, ap, ◌∙◌, true, false, List, [], ◌∷◌, arith, length, ltb,
  if◌then◌else◌, bit_and_mask,
}
use shirokumakun_matter.HwPairing.{
  fnv1a32, device_bytes, Result, ok, err, incorrect_state, buffer_too_small, Provider, init,
  get_setup_discriminator, get_spake2p_salt, get_setup_passcode, make_verifier,
  get_spake2p_verifier,
}
use shirokumakun_matter.HwPairing.Fnv.{AreBytes}
use shirokumakun_matter.HwPairing.Passcode.{IsAllowed, make_passcode-IsAllowed}

-- Credentials of the form that Matter asks for, ready to be handed out.
pub record IsPaired (p : Provider) : Type 0 where
  pub ready : p.raw_ready ≡ true
  pub discriminator_fits : p.discriminator < 2 ^ 12
  pub passcode_allowed : IsAllowed p.passcode
  pub salt_length : length p.salt ≡ 16
  pub salt_bytes : AreBytes p.salt

-- On every device `Init` gives a 12-bit discriminator, an allowed passcode and a salt of 16 bytes,
-- and marks them ready.
pub init-IsPaired : (id0 id1 : ℕ) (p : Provider) → IsPaired (init id0 id1 p)
unfolding init
init-IsPaired id0 id1 p = record {
  ready = refl;
  discriminator_fits = omega (arith, bit_and_mask 12 (fnv1a32 (device_bytes id0 id1) 0xD15C0001));
  passcode_allowed = make_passcode-IsAllowed (fnv1a32 (device_bytes id0 id1) 0xD15C0002);
  salt_length = refl;
  salt_bytes = omega arith;
}

-- Before `Init` the discriminator, the passcode, the salt and the verifier are all refused with
-- `CHIP_ERROR_INCORRECT_STATE`, the SDK is not asked for a verifier, and nothing changes.
pub provider_closed :
    {V : Type 0} (generate : ℕ → List ℕ → ℕ → Result V) (serialize : V → Result (List ℕ))
    (verifier_len size : ℕ) (p : Provider)
    → p.raw_ready ≡ false
    → (get_setup_discriminator p ≡ err incorrect_state)
      × (get_setup_passcode p ≡ err incorrect_state)
      × (get_spake2p_salt size p ≡ err incorrect_state)
      × (get_spake2p_verifier generate serialize verifier_len size p ≡ (p, err incorrect_state))
unfolding get_setup_discriminator get_setup_passcode get_spake2p_salt get_spake2p_verifier
provider_closed generate serialize verifier_len size p e = (rw e, rw e, rw e, rw e)

-- Calls of a getter one after the other, each with its own size, and their results.
abbrev pub calls :
    (ℕ → Provider → Provider × Result (List ℕ))
    → List ℕ
    → Provider
    → Provider × List (Result (List ℕ))
calls getter [] p = (p, [])
calls getter (size ∷ sizes) p =
    let now = getter size p in let after = calls getter sizes now.0 in (after.0, now.1 ∷ after.1)

module _ {V : Type 0} (generate : ℕ → List ℕ → ℕ → Result V) (serialize : V → Result (List ℕ)) where
  -- A verifier that is kept is the one of the salt and passcode that are handed out.
  unfoldable pub IsCurrent : Provider → Type 0
  IsCurrent p = p.verifier_ready ≡ true → make_verifier generate serialize p ≡ ok p.verifier

  -- The getter without its cache.
  pub fresh_verifier : ℕ → ℕ → Provider → Provider × Result (List ℕ)
  fresh_verifier verifier_len size p = elim (make_verifier generate serialize p) [
    | err e ↦ (p, err e)
    | ok v ↦ (
      record p { verifier = v; verifier_ready = true },
      if ltb size verifier_len then err buffer_too_small else ok v,
    )
  ]

  -- After `Init`, while the kept verifier (if there is one) is that of the salt and passcode, a
  -- call of the getter, which keeps it, ends on every branch as one that makes it anew does.
  pub get_spake2p_verifier-fresh :
      (verifier_len size : ℕ) (p : Provider)
      → p.raw_ready ≡ true
      → IsCurrent p
      → get_spake2p_verifier generate serialize verifier_len size p
        ≡ fresh_verifier verifier_len size p
  unfolding get_spake2p_verifier IsCurrent fresh_verifier
  get_spake2p_verifier-fresh verifier_len size p ready current = ground arith

  pub get_spake2p_verifier-IsCurrent :
      (verifier_len size : ℕ) (p : Provider)
      → IsCurrent p
      → IsCurrent (get_spake2p_verifier generate serialize verifier_len size p).0
  unfolding get_spake2p_verifier IsCurrent make_verifier
  get_spake2p_verifier-IsCurrent verifier_len size p current = ground arith

  get_spake2p_verifier-raw_ready :
      (verifier_len size : ℕ) (p : Provider)
      → (get_spake2p_verifier generate serialize verifier_len size p).0.raw_ready ≡ p.raw_ready
  unfolding get_spake2p_verifier
  get_spake2p_verifier-raw_ready verifier_len size p = ground arith

  calls-IsCurrent :
      (verifier_len : ℕ) (sizes : List ℕ) (p : Provider)
      → p.raw_ready ≡ true
      → IsCurrent p
      → calls (get_spake2p_verifier generate serialize verifier_len) sizes p
        ≡ calls (fresh_verifier verifier_len) sizes p
  calls-IsCurrent verifier_len [] p ready current = refl
  calls-IsCurrent verifier_len (size ∷ sizes) p ready current =
      let q = (get_spake2p_verifier generate serialize verifier_len size p).0 in
      let rest =
        calls-IsCurrent verifier_len sizes q
          (get_spake2p_verifier-raw_ready verifier_len size p ∙ ready)
          (get_spake2p_verifier-IsCurrent verifier_len size p current) in
      let same = get_spake2p_verifier-fresh verifier_len size p ready current in
      ap
        (λ after.
          (after.0, (get_spake2p_verifier generate serialize verifier_len size p).1 ∷ after.1))
        rest
      ∙ ap
          (λ now. (
            (calls (fresh_verifier verifier_len) sizes now.0).0,
            now.1 ∷ (calls (fresh_verifier verifier_len) sizes now.0).1,
          ))
          same

  -- After `Init` of a provider that keeps no verifier, any sequence of calls of the getter, each
  -- with a buffer of its own size, gives what a getter without a cache gives, and leaves the same
  -- provider: a call that fails keeps nothing, and a kept verifier is that of the salt and passcode.
  pub get_spake2p_verifier-calls :
      (id0 id1 verifier_len : ℕ) (sizes : List ℕ) (p : Provider)
      → p.verifier_ready ≡ false
      → calls (get_spake2p_verifier generate serialize verifier_len) sizes (init id0 id1 p)
        ≡ calls (fresh_verifier verifier_len) sizes (init id0 id1 p)
  unfolding init IsCurrent
  get_spake2p_verifier-calls id0 id1 verifier_len sizes p closed =
      calls-IsCurrent verifier_len sizes (init id0 id1 p) refl
        (λ h. absurd (true≢false (sym h ∙ closed)))

-- Once a call has handed out a verifier, it is the one that the SDK makes from the salt and the
-- passcode, and every later call hands out the same bytes (or refuses too small a buffer) and
-- changes nothing, whatever the SDK would answer if it were asked again.
pub get_spake2p_verifier_cached :
    {V W : Type 0} (generate : ℕ → List ℕ → ℕ → Result V) (serialize : V → Result (List ℕ))
    (generate' : ℕ → List ℕ → ℕ → Result W) (serialize' : W → Result (List ℕ))
    (verifier_len size size' : ℕ) (p : Provider) {v : List ℕ}
    → p.raw_ready ≡ true
    → IsCurrent generate serialize p
    → (get_spake2p_verifier generate serialize verifier_len size p).1 ≡ ok v
    → (make_verifier generate serialize p ≡ ok v)
      × (get_spake2p_verifier generate' serialize' verifier_len size'
            (get_spake2p_verifier generate serialize verifier_len size p).0
          ≡ (
            (get_spake2p_verifier generate serialize verifier_len size p).0,
            if ltb size' verifier_len then err buffer_too_small else ok v,
          ))
unfolding get_spake2p_verifier IsCurrent
get_spake2p_verifier_cached generate serialize generate' serialize' verifier_len size size' p ready
      current handed =
    (ground arith, ground arith)
