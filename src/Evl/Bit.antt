-- ===== src/Evl/Bit.antt =====
-- The bits of a row under the bit operations of C.
use Prim.Native.Nat.{bit_and, bit_or, bit_xor, differ, min, max}
use native.Mathlib.Nat.{pow-suc, pow-zero, div-div-eq-div-mul}
use com_richard_test.Base.{
  ℕ, zero, suc, ◌+◌, ◌-◌, ◌*◌, ◌/◌, ◌%◌, ◌^◌, ◌≤◌, ◌≡◌, refl, sym, ap, ◌∙◌, arith, bit_xor_step,
  bit_and_step, bit_or_step,
}
use com_richard_test.Evl.{bit, without}

bit_zero : (a : ℕ) → bit a 0 ≡ a % 2
bit_zero a = omega (arith, ap (λ k. a / k % 2) (pow-zero 2))

bit_next : (a j : ℕ) → bit a (suc j) ≡ bit (a / 2) j
bit_next a j =
    ap (λ k. k % 2)
      (sym (div-div-eq-div-mul a 2 (2 ^ j) ∙ ap (λ k. a / k) (omega (arith, pow-suc 2 j))))

pub bit-le-one : (a j : ℕ) → bit a j ≤ 1
bit-le-one a j = omega arith

-- An operation on numbers that is one on bits at each place.
module _ (op f : ℕ → ℕ → ℕ) (step : (a b : ℕ) → op a b ≡ op (a / 2) (b / 2) * 2 + f (a % 2) (b % 2))
    (small : (a b : ℕ) → a ≤ 1 → b ≤ 1 → f a b ≤ 1) where
  bit_wise : (a b j : ℕ) → bit (op a b) j ≡ f (bit a j) (bit b j)
  bit_wise a b zero =
      let low : op a b % 2 ≡ f (a % 2) (b % 2) =
        omega (arith, step a b, small (a % 2) (b % 2) (omega arith) (omega arith)) in
      rw (bit_zero a, bit_zero b) (bit_zero (op a b) ∙ low)
  bit_wise a b (suc j) =
      let half : op a b / 2 ≡ op (a / 2) (b / 2) =
        omega (arith, step a b, small (a % 2) (b % 2) (omega arith) (omega arith)) in
      rw (bit_next a j, bit_next b j)
        (bit_next (op a b) j ∙ ap (λ k. bit k j) half ∙ bit_wise (a / 2) (b / 2) j)

differ_small : (a b : ℕ) → a ≤ 1 → b ≤ 1 → differ a b ≤ 1
differ_small zero b ha hb = hb
differ_small (suc a) zero ha hb = ha
differ_small (suc zero) (suc zero) ha hb = omega arith
differ_small (suc zero) (suc (suc b)) ha hb = absurd (omega arith)
differ_small (suc (suc a)) (suc b) ha hb = absurd (omega arith)

pub bit-bit_xor : (a b j : ℕ) → bit (bit_xor a b) j ≡ differ (bit a j) (bit b j)
bit-bit_xor = bit_wise bit_xor differ bit_xor_step differ_small

pub bit-bit_or : (a b j : ℕ) → bit (bit_or a b) j ≡ max (bit a j) (bit b j)
bit-bit_or = bit_wise bit_or max bit_or_step (λ a b ha hb. omega arith)

bit-bit_and : (a b j : ℕ) → bit (bit_and a b) j ≡ min (bit a j) (bit b j)
bit-bit_and = bit_wise bit_and min bit_and_step (λ a b ha hb. omega arith)

keeps : (x c : ℕ) → x ≤ 1 → c ≤ 1 → differ x (min x c) ≡ x - c
keeps zero c hx hc = omega arith
keeps (suc zero) zero hx hc = refl
keeps (suc zero) (suc zero) hx hc = refl
keeps (suc zero) (suc (suc c)) hx hc = absurd (omega arith)
keeps (suc (suc x)) c hx hc = absurd (omega arith)

-- A bit of `~c & x` is one of `x` that is none of `c`.
pub bit-without : (c x j : ℕ) → bit (without c x) j ≡ bit x j - bit c j
unfolding without
bit-without c x j =
    bit-bit_xor x (bit_and x c) j
    ∙ ap (differ (bit x j)) (bit-bit_and x c j)
    ∙ keeps (bit x j) (bit c j) (bit-le-one x j) (bit-le-one c j)

pub bit_empty : (j : ℕ) → bit 0 j ≡ 0
bit_empty zero = bit_zero 0
bit_empty (suc j) = bit_next 0 j ∙ bit_empty j
