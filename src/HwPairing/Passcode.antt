-- ===== src/HwPairing/Passcode.antt =====
-- `make_passcode` of src/hw_pairing.cpp gives codes that the Matter specification allows.
use shirokumakun_matter.Common.{ℕ, ◌≤◌, ◌≢◌, arith, All}
use shirokumakun_matter.HwPairing.{make_passcode, forbidden}

-- In range, and none of the trivial codes.
pub record IsAllowed (code : ℕ) : Type 0 where
  pub low : 1 ≤ code
  pub high : code ≤ 99999998
  pub not_trivial : All (λ f. code ≢ f) forbidden

-- Every hash gives a passcode from 1 to 99999998 that is none of the twelve forbidden ones.
pub make_passcode-IsAllowed : (h : ℕ) → IsAllowed (make_passcode h)
unfolding make_passcode
make_passcode-IsAllowed h = ground arith
