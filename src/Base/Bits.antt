-- ===== src/Base/Bits.antt =====
-- The bit operations of C by their lowest bits.
use Prim.Native.Nat.{
  ℕ, zero, suc, ◌+◌, ◌*◌, ◌/◌, ◌%◌, ◌^◌, ◌≤◌, ◌<◌, min, max, digits, bit_and, bit_or, bit_xor,
  differ, bit_and-bitwise, bit_or-bitwise, bit_xor-bitwise,
}
use native.Mathlib.Nat.{pow-suc, pow-zero, div-div-eq-div-mul}
use mathlib.Core.Path.{◌≡◌, refl, ap, ◌∙◌}
use native.Mathlib.Decide.{ℕ_discrete}
use native.Mathlib.Omega.{arith}

-- `digits` goes on halving its first number for as many rounds as it is given. Rounds behind the last
-- digit change nothing.
module _ (z : ℕ → ℕ) (f : ℕ → ℕ → ℕ) where
  one_more : (n a b : ℕ) → a ≤ n → digits z f (suc n) a b ≡ digits z f n a b
  one_more zero zero b le = refl
  one_more zero (suc a) b le = absurd (omega arith)
  one_more (suc n) zero b le = refl
  one_more (suc n) (suc a) b le =
      ap (λ t. t * 2 + f (suc a % 2) (b % 2)) (one_more n (suc a / 2) (b / 2) (omega arith))

  pub spare_rounds : (n a b : ℕ) → a ≤ n → digits z f n a b ≡ digits z f a a b
  spare_rounds zero zero b le = refl
  spare_rounds zero (suc a) b le = absurd (omega arith)
  spare_rounds (suc n) a b le = elim (ℕ_discrete a (suc n)) [
    | yes last ↦ rw last (refl)
    | no before ↦ one_more n a b (omega arith) ∙ spare_rounds n a b (omega arith)
  ]

pub bit_xor_step : (m n : ℕ) → bit_xor m n ≡ bit_xor (m / 2) (n / 2) * 2 + differ (m % 2) (n % 2)
bit_xor_step zero n = omega (arith, bit_xor-bitwise 0 n, bit_xor-bitwise 0 (n / 2))
bit_xor_step (suc m) n =
    let same = spare_rounds (λ y. y) differ m (suc m / 2) (n / 2) (omega arith) in
    omega (bit_xor-bitwise (suc m) n, same, bit_xor-bitwise (suc m / 2) (n / 2), arith)

pub bit_and_step : (m n : ℕ) → bit_and m n ≡ bit_and (m / 2) (n / 2) * 2 + min (m % 2) (n % 2)
bit_and_step zero n = omega (arith, bit_and-bitwise 0 n, bit_and-bitwise 0 (n / 2))
bit_and_step (suc m) n =
    let same = spare_rounds (λ y. 0) min m (suc m / 2) (n / 2) (omega arith) in
    omega (bit_and-bitwise (suc m) n, same, bit_and-bitwise (suc m / 2) (n / 2), arith)

pub bit_or_step : (m n : ℕ) → bit_or m n ≡ bit_or (m / 2) (n / 2) * 2 + max (m % 2) (n % 2)
bit_or_step zero n = omega (arith, bit_or-bitwise 0 n, bit_or-bitwise 0 (n / 2))
bit_or_step (suc m) n =
    let same = spare_rounds (λ y. y) max m (suc m / 2) (n / 2) (omega arith) in
    omega (bit_or-bitwise (suc m) n, same, bit_or-bitwise (suc m / 2) (n / 2), arith)

bit_or_zero : (n a : ℕ) → a ≤ n → bit_or a 0 ≡ a
bit_or_zero zero zero le = refl
bit_or_zero zero (suc a) le = absurd (omega arith)
bit_or_zero (suc n) a le = omega (arith, bit_or_step a 0, bit_or_zero n (a / 2) (omega arith))

bit_and_zero : (n a : ℕ) → a ≤ n → bit_and a 0 ≡ 0
bit_and_zero zero zero le = refl
bit_and_zero zero (suc a) le = absurd (omega arith)
bit_and_zero (suc n) a le = omega (arith, bit_and_step a 0, bit_and_zero n (a / 2) (omega arith))

-- A number shifted up and one below the shift have no bit in common.
pub bit_or_disjoint : (k a c : ℕ) → c < 2 ^ k → bit_or (a * 2 ^ k) c ≡ a * 2 ^ k + c
bit_or_disjoint zero a c lt =
    let null : c ≡ 0 = omega (arith, pow-zero 2) in
    let one : a * 2 ^ 0 ≡ a = omega (arith, ap (λ t. a * t) (pow-zero 2)) in
    rw (null, one) (bit_or_zero a a (omega arith) ∙ omega arith)
bit_or_disjoint (suc k) a c lt =
    let double : a * 2 ^ suc k ≡ a * 2 ^ k * 2 = omega (arith, ap (λ t. a * t) (pow-suc 2 k)) in
    let half : a * 2 ^ suc k / 2 ≡ a * 2 ^ k = omega (arith, double) in
    omega (
      arith,
      bit_or_step (a * 2 ^ suc k) c,
      ap (λ t. bit_or t (c / 2)) half,
      bit_or_disjoint k a (c / 2) (omega (arith, pow-suc 2 k)),
      double,
    )

-- The bit `k` of a number, by a mask.
pub bit_and_mask : (k a : ℕ) → bit_and a (2 ^ k) ≡ a / 2 ^ k % 2 * 2 ^ k
bit_and_mask zero a = omega (arith, bit_and_step a 1, bit_and_zero (a / 2) (a / 2) (omega arith))
bit_and_mask (suc k) a =
    let half : 2 ^ suc k / 2 ≡ 2 ^ k = omega (arith, pow-suc 2 k) in
    let even : 2 ^ suc k % 2 ≡ 0 = omega (arith, pow-suc 2 k) in
    let down : a / 2 / 2 ^ k ≡ a / 2 ^ suc k =
      div-div-eq-div-mul a 2 (2 ^ k) ∙ ap (λ t. a / t) (omega (arith, pow-suc 2 k)) in
    omega (
      arith,
      bit_and_step a (2 ^ suc k),
      ap (bit_and (a / 2)) half,
      ap (min (a % 2)) even,
      bit_and_mask k (a / 2),
      ap (λ t. t % 2 * 2 ^ k) down,
      ap (λ t. a / 2 ^ suc k % 2 * t) (pow-suc 2 k),
    )
