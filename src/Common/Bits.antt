-- ===== src/Common/Bits.antt =====
-- Facts about the bit operations at variables, from the recursion on binary digits that the
-- native operations stand for.
use Prim.Native.Nat.{
  ℕ, zero, suc, ◌+◌, ◌-◌, ◌*◌, ◌/◌, ◌%◌, ◌^◌, ◌≤◌, ◌<◌, min, max, bit_and, bit_or, bit_xor, digits,
  bitwise, differ, bit_and-bitwise, bit_or-bitwise, bit_xor-bitwise,
}
use mathlib.Core.Path.{◌≡◌, refl, sym, ap, ◌∙◌}
use mathlib.Core.Bool.{Bool, true, ◌&&◌}
use native.Mathlib.Nat.{pow-suc, one-le-pow, le_refl}
use native.Mathlib.Omega.{arith}

-- A test that holds of all numbers below a bound, found out by running it.
unfoldable pub all_below : ℕ → (ℕ → Bool) → Bool
all_below zero test = true
all_below (suc bound) test = test bound && all_below bound test

pub all_below_sound :
    (bound : ℕ) (test : ℕ → Bool)
    → all_below bound test ≡ true
    → (v : ℕ) → v < bound
    → test v ≡ true
unfolding all_below
all_below_sound zero test holds v lt = absurd (omega arith)
all_below_sound (suc bound) test holds v lt =
    ground (arith, λ (rest : all_below bound test ≡ true). all_below_sound bound test rest v)

-- Fuel beyond the first number changes nothing.
module _ (alone : ℕ → ℕ) (join : ℕ → ℕ → ℕ) where
  digits_enough : (k l x y : ℕ) → x ≤ k → x ≤ l → digits alone join k x y ≡ digits alone join l x y
  digits_enough (suc k) (suc l) (suc x) y u v =
      rw (digits_enough k l (suc x / 2) (y / 2) (omega arith) (omega arith))
  digits_enough (suc k) (suc l) zero y u v = refl
  digits_enough (suc k) zero zero y u v = refl
  digits_enough (suc k) zero (suc x) y u v = absurd (omega arith)
  digits_enough zero zero x y u v = refl
  digits_enough zero (suc l) zero y u v = refl
  digits_enough zero (suc l) (suc x) y u v = absurd (omega arith)

  bitwise_lowest :
      (x y : ℕ)
      → bitwise alone join (suc x) y
        ≡ bitwise alone join (suc x / 2) (y / 2) * 2 + join (suc x % 2) (y % 2)
  bitwise_lowest x y =
      omega (arith, digits_enough x (suc x / 2) (suc x / 2) (y / 2) (omega arith) (le_refl _))

pub bit_and_step : (x y : ℕ) → bit_and x y ≡ bit_and (x / 2) (y / 2) * 2 + min (x % 2) (y % 2)
bit_and_step (suc x) y = simp bit_and-bitwise (bitwise_lowest (λ d. 0) min x y)
bit_and_step zero y = simp bit_and-bitwise (omega arith)

pub bit_xor_step : (x y : ℕ) → bit_xor x y ≡ bit_xor (x / 2) (y / 2) * 2 + differ (x % 2) (y % 2)
bit_xor_step (suc x) y = simp bit_xor-bitwise (bitwise_lowest (λ d. d) differ x y)
bit_xor_step zero y = simp bit_xor-bitwise (omega arith)

bit_and-zero_below : (k x : ℕ) → x ≤ k → bit_and x 0 ≡ 0
bit_and-zero_below (suc k) (suc x) le =
    omega (arith, bit_and_step (suc x) 0, bit_and-zero_below k (suc x / 2) (omega arith))
bit_and-zero_below zero (suc x) le = absurd (omega arith)
bit_and-zero_below k zero le = refl

-- `x & 1` is the lowest digit.
pub bit_and-one : (a : ℕ) → bit_and a 1 ≡ a % 2
bit_and-one a = omega (arith, bit_and_step a 1, bit_and-zero_below (a / 2) (a / 2) (omega arith))

bit_and_low : (k high low : ℕ) → low < 2 ^ k → bit_and (high * 2 ^ k + low) (2 ^ k - 1) ≡ low
bit_and_low zero high low fits =
    omega (arith, bit_and-zero_below (high * 1 + low) (high * 1 + low) (omega arith))
bit_and_low (suc k) high low fits = ground (
  arith,
  pow-suc 2 k,
  one-le-pow k 2,
  ap (λ (t : ℕ). high * t) (pow-suc 2 k),
  bit_and_step (high * 2 ^ suc k + low) (2 ^ suc k - 1),
  bit_and_low k high (low / 2),
)

-- A mask of `k` ones keeps the `k` lowest digits.
pub bit_and_mask : (k a : ℕ) → bit_and a (2 ^ k - 1) ≡ a % 2 ^ k
bit_and_mask k a = ground (arith, one-le-pow k 2, bit_and_low k (a / 2 ^ k) (a % 2 ^ k))

pub bit_or_step : (x y : ℕ) → bit_or x y ≡ bit_or (x / 2) (y / 2) * 2 + max (x % 2) (y % 2)
bit_or_step (suc x) y = simp bit_or-bitwise (bitwise_lowest (λ d. d) max x y)
bit_or_step zero y = simp bit_or-bitwise (omega arith)

bit_or-zero_below : (n a : ℕ) → a ≤ n → bit_or a 0 ≡ a
bit_or-zero_below n zero h = refl
bit_or-zero_below zero (suc a) h = absurd (omega arith)
bit_or-zero_below (suc n) (suc a) h =
    omega (arith, bit_or_step (suc a) 0, bit_or-zero_below n (suc a / 2) (omega arith))

-- A field shifted above another is added to it.
pub bit_or_low : (k high low : ℕ) → low < 2 ^ k → bit_or (high * 2 ^ k) low ≡ high * 2 ^ k + low
bit_or_low zero high low fits = ground (arith, bit_or-zero_below high high (omega arith))
bit_or_low (suc k) high low fits = ground (
  arith,
  pow-suc 2 k,
  ap (λ (t : ℕ). high * t) (pow-suc 2 k),
  bit_or_step (high * 2 ^ suc k) low,
  bit_or_low k high (low / 2) (omega (arith, pow-suc 2 k)),
)

differ_twice : (a b : ℕ) → a < 2 → b < 2 → differ (differ a b) b ≡ a
differ_twice zero zero p q = refl
differ_twice zero (suc zero) p q = refl
differ_twice (suc zero) zero p q = refl
differ_twice (suc zero) (suc zero) p q = refl
differ_twice zero (suc (suc b)) p q = absurd (omega arith)
differ_twice (suc zero) (suc (suc b)) p q = absurd (omega arith)
differ_twice (suc (suc a)) b p q = absurd (omega arith)

differ_small : (a b : ℕ) → a < 2 → b < 2 → differ a b < 2
differ_small zero b p q = q
differ_small (suc zero) zero p q = omega arith
differ_small (suc zero) (suc zero) p q = omega arith
differ_small (suc zero) (suc (suc b)) p q = absurd (omega arith)
differ_small (suc (suc a)) b p q = absurd (omega arith)

bit_xor_digits :
    (a b : ℕ)
    → (bit_xor a b / 2 ≡ bit_xor (a / 2) (b / 2)) × (bit_xor a b % 2 ≡ differ (a % 2) (b % 2))
bit_xor_digits a b =
    omega (arith, bit_xor_step a b, differ_small (a % 2) (b % 2) (omega arith) (omega arith))

bit_xor_twice_below : (n a b : ℕ) → a ≤ n → b ≤ n → bit_xor (bit_xor a b) b ≡ a
bit_xor_twice_below zero zero zero p q = refl
bit_xor_twice_below zero (suc a) b p q = absurd (omega arith)
bit_xor_twice_below zero zero (suc b) p q = absurd (omega arith)
bit_xor_twice_below (suc n) a b p q =
    rw (bit_xor_step (bit_xor a b) b, (bit_xor_digits a b).0, (bit_xor_digits a b).1)
      (omega (
        arith,
        differ_twice (a % 2) (b % 2) (omega arith) (omega arith),
        bit_xor_twice_below n (a / 2) (b / 2) (omega arith) (omega arith),
      ))

-- Exclusive or undoes itself.
pub bit_xor_twice : (a b : ℕ) → bit_xor (bit_xor a b) b ≡ a
bit_xor_twice a b = bit_xor_twice_below (a + b) a b (omega arith) (omega arith)

differ_comm : (a b : ℕ) → a < 2 → b < 2 → differ a b ≡ differ b a
differ_comm zero zero p q = refl
differ_comm zero (suc b) p q = refl
differ_comm (suc a) zero p q = refl
differ_comm (suc zero) (suc zero) p q = refl
differ_comm (suc zero) (suc (suc b)) p q = absurd (omega arith)
differ_comm (suc (suc a)) (suc b) p q = absurd (omega arith)

bit_xor_comm_below : (n a b : ℕ) → a ≤ n → b ≤ n → bit_xor a b ≡ bit_xor b a
bit_xor_comm_below zero zero zero p q = refl
bit_xor_comm_below zero (suc a) b p q = absurd (omega arith)
bit_xor_comm_below zero zero (suc b) p q = absurd (omega arith)
bit_xor_comm_below (suc n) a b p q = omega (
  arith,
  bit_xor_step a b,
  bit_xor_step b a,
  differ_comm (a % 2) (b % 2) (omega arith) (omega arith),
  bit_xor_comm_below n (a / 2) (b / 2) (omega arith) (omega arith),
)

pub bit_xor_comm : (a b : ℕ) → bit_xor a b ≡ bit_xor b a
bit_xor_comm a b = bit_xor_comm_below (a + b) a b (omega arith) (omega arith)

-- Both arguments of an exclusive or can be cancelled.
pub bit_xor_cancel_right : (a b c : ℕ) → bit_xor a c ≡ bit_xor b c → a ≡ b
bit_xor_cancel_right a b c e = sym (bit_xor_twice a c) ∙ ap (λ x. bit_xor x c) e ∙ bit_xor_twice b c

pub bit_xor_cancel_left : (c a b : ℕ) → bit_xor c a ≡ bit_xor c b → a ≡ b
bit_xor_cancel_left c a b e = bit_xor_cancel_right a b c (bit_xor_comm a c ∙ e ∙ bit_xor_comm c b)

-- Exclusive or stays within the width of its arguments.
pub bit_xor-lt : (k a b : ℕ) → a < 2 ^ k → b < 2 ^ k → bit_xor a b < 2 ^ k
bit_xor-lt zero zero zero p q = omega arith
bit_xor-lt zero zero (suc b) p q = absurd (omega arith)
bit_xor-lt zero (suc a) b p q = absurd (omega arith)
bit_xor-lt (suc k) a b p q = omega (
  arith,
  pow-suc 2 k,
  bit_xor_step a b,
  differ_small (a % 2) (b % 2) (omega arith) (omega arith),
  bit_xor-lt k (a / 2) (b / 2) (ground (arith, pow-suc 2 k)) (ground (arith, pow-suc 2 k)),
)
