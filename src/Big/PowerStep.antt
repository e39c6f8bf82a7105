-- ===== src/Big/PowerStep.antt =====
-- The arithmetic of one round of `power_mod`, and what its test of a bit says.
use Prim.Native.Nat.{bit_and}
use native.Mathlib.Nat.{one-le-pow}
use com_richard_test.Base.{
  ℕ, zero, suc, ◌*◌, ◌/◌, ◌%◌, ◌^◌, ◌<◌, ◌==◌, Bool-cases, true, false, ◌⊎◌, inl, inr, ◌≡◌, refl,
  ap, ◌∙◌, arith, bit_and_mask,
}
use com_richard_test.Big.Crypt.{mask}

mask_32 : (j : ℕ) → j < 32 → mask 32 j ≡ 2 ^ j
mask_32 j lt = elim (Bool-cases (j == 31)) [
  | inl last ↦ let e : j ≡ 31 = ground arith in rw e refl
  | inr other ↦ rw other refl
]

-- What the test of a bit says.
pub bit_value :
    (cell j : ℕ)
    → j < 32
    → (((bit_and cell (mask 32 j) == 0) ≡ true) × (cell / 2 ^ j % 2 ≡ 0))
      ⊎ (((bit_and cell (mask 32 j) == 0) ≡ false) × (cell / 2 ^ j % 2 ≡ 1))
bit_value cell j lt = by_bit (cell / 2 ^ j % 2) refl
  where
    masked : bit_and cell (mask 32 j) ≡ cell / 2 ^ j % 2 * 2 ^ j
    masked = ap (bit_and cell) (mask_32 j lt) ∙ bit_and_mask j cell

    by_bit :
        (b : ℕ)
        → cell / 2 ^ j % 2 ≡ b
        → (((bit_and cell (mask 32 j) == 0) ≡ true) × (cell / 2 ^ j % 2 ≡ 0))
          ⊎ (((bit_and cell (mask 32 j) == 0) ≡ false) × (cell / 2 ^ j % 2 ≡ 1))
    by_bit zero e =
        let z : bit_and cell (mask 32 j) ≡ 0 = omega (arith, masked, ap (λ t. t * 2 ^ j) e) in
        inl (ap (λ t. t == 0) z, e)
    by_bit (suc zero) e =
        let z : bit_and cell (mask 32 j) ≡ 2 ^ j = omega (arith, masked, ap (λ t. t * 2 ^ j) e) in
        inr (ground (arith, z, one-le-pow j 2 (omega arith)), e)
    by_bit (suc (suc b)) e = absurd (omega (arith, e))
