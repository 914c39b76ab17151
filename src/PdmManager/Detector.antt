-- ===== src/PdmManager/Detector.antt =====
-- The CA-CFAR detector of src/pdm_manager.cpp: which bins it reads, and what it compares.
use shirokumakun_matter.Common.{
  ℕ, zero, suc, ◌+◌, ◌*◌, ◌≤◌, ◌<◌, ◌≡◌, refl, some, List, [], ◌∷◌, arith, length, get_elem?,
  get_or, if◌then◌else◌, Bool-cases, inl, inr,
}
use shirokumakun_matter.Common.Int.{pos}
use shirokumakun_matter.PdmManager.{
  Floats, bin_power, is_training, noise_loop, noise_sum, detection_of, detect,
}

get_elem?-get_or {ℓ} :
    {A : Type ℓ} (xs : List A) (i : ℕ) (d : A)
    → i < length xs
    → get_elem? xs i ≡ some (get_or xs i d)
get_elem?-get_or [] i d h = absurd (omega arith)
get_elem?-get_or (x ∷ xs) zero d h = refl
get_elem?-get_or (x ∷ xs) (suc i) d h = get_elem?-get_or xs i d (omega arith)

module _ (floats : Floats) where
  open floats use {F, zero_f, of_ℤ, add, mul, div, gt}

  -- The squared magnitude of bin `k` of a spectrum that has it.
  pub power : List F → ℕ → F
  power out k =
      add (mul (get_or out (2 * k) zero_f) (get_or out (2 * k) zero_f))
        (mul (get_or out (2 * k + 1) zero_f) (get_or out (2 * k + 1) zero_f))

  -- The sum over bins, in their order.
  pub sum_powers : List F → List ℕ → F → F
  sum_powers out [] sum = sum
  sum_powers out (k ∷ ks) sum = sum_powers out ks (add sum (power out k))

  -- Ten bins on either side of bin 127, with two between.
  abbrev pub training_bins : List ℕ
  training_bins =
      115 ∷ 116 ∷ 117 ∷ 118 ∷ 119 ∷ 120 ∷ 121 ∷ 122 ∷ 123 ∷ 124 ∷ 130 ∷ 131 ∷ 132 ∷ 133 ∷ 134 ∷ 135
      ∷ 136 ∷ 137 ∷ 138 ∷ 139 ∷ []

  bin_power-power :
      (out : List F) (k : ℕ) → 2 * k + 1 < length out → bin_power floats out k ≡ some (power out k)
  unfolding bin_power power
  bin_power-power out k h = ground (
    arith,
    get_elem?-get_or out (2 * k) zero_f (omega arith),
    get_elem?-get_or out (2 * k + 1) zero_f h,
  )

  chosen : ℕ → ℕ → List ℕ
  chosen zero k = []
  chosen (suc left) k =
      let rest = chosen left (k + 1) in if is_training floats k then k ∷ rest else rest

  noise_loop-sum :
      (left k : ℕ) (out : List F) (sum : F)
      → 2 * (k + left) ≤ length out
      → noise_loop floats left k out sum ≡ some (sum_powers out (chosen left k) sum)
  unfolding noise_loop sum_powers chosen
  noise_loop-sum zero k out sum h = refl
  noise_loop-sum (suc left) k out sum h = elim (Bool-cases (is_training floats k)) [
    | inl training ↦
        rw (training, noise_loop, bin_power-power out k (omega arith))
          (noise_loop-sum left (k + 1) out (add sum (power out k)) (omega arith))
    | inr guarded ↦ rw (guarded, noise_loop) (noise_loop-sum left (k + 1) out sum (omega arith))
  ]

  noise_sum-training :
      (out : List F)
      → 280 ≤ length out
      → noise_sum floats out ≡ some (sum_powers out training_bins zero_f)
  unfolding noise_sum chosen is_training
  noise_sum-training out h = noise_loop-sum 25 115 out zero_f h

  -- On a spectrum of at least 280 values, so on one of 1024, no read is out of range; the power
  -- under test is that of bin 127, and the threshold is the mean of the powers of the 20 training
  -- bins times the multiplier.
  pub detect_lem :
      (threshold : F) (out : List F)
      → 280 ≤ length out
      → detect floats threshold out
        ≡ some (record {
          cut = power out 127;
          cfar_thresh = mul (div (sum_powers out training_bins zero_f) (of_ℤ (pos 20))) threshold;
        })
  unfolding detect detection_of
  detect_lem threshold out h = rw (bin_power-power out 127 (omega arith), noise_sum-training out h)
