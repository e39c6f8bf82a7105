-- ===== src/Big/Compare.antt =====
-- `Compare` of cpp/BigNum.cpp, and the tests that use it.
use native.Mathlib.Nat.{mul-le-mul_right, pow-le-pow_right}
use com_richard_test.Base.{
  ℕ, zero, suc, ◌+◌, ◌-◌, ◌*◌, ◌^◌, ◌<◌, List, ltb, Bool-cases, inl, inr, ◌≡◌, refl, sym, ap, arith,
  get_or,
}
use com_richard_test.Big.Ops.{BigNum, compare_loop, compare}
use com_richard_test.Big.Value.{base, upto, IsSmall, IsNum, mag, upto-lt-pow}

-- What the verdicts say of two numbers.
pub data Order (m n : ℕ) : ℕ → Type 0 where
  greater : n < m → Order m n 0
  less : m < n → Order m n 1
  equal : m ≡ n → Order m n 2

-- The top cell decides.
top_decides : (x y p q t : ℕ) → y < t → p < q → y + p * t < x + q * t
top_decides x y p q t hy lt = omega (arith, mul-le-mul_right {m = suc p} {n = q} t lt)

compare_loop-Order :
    (n : ℕ) (a b : List ℕ)
    → IsSmall a
    → IsSmall b
    → Order (upto a n) (upto b n) (compare_loop n a b)
unfolding compare_loop
compare_loop-Order zero a b ha hb = equal refl
compare_loop-Order (suc n) a b ha hb = elim (Bool-cases (ltb (get_or b n 0) (get_or a n 0))) [
  | inl gt ↦ rw gt (
      greater (
        top_decides (upto a n) (upto b n) (get_or b n 0) (get_or a n 0) (base ^ n)
          (upto-lt-pow b n hb) (ground arith)))
  | inr ge ↦ elim (Bool-cases (ltb (get_or a n 0) (get_or b n 0))) [
    | inl lt ↦
        rw (ge, lt)
          (less (
            top_decides (upto b n) (upto a n) (get_or a n 0) (get_or b n 0) (base ^ n)
              (upto-lt-pow a n ha) (ground arith)))
    | inr le ↦
        let same : get_or a n 0 ≡ get_or b n 0 = ground arith in
        rw (ge, le) (below same (compare_loop-Order n a b ha hb))
  ]
]
  where
    below :
        {v : ℕ}
        → get_or a n 0 ≡ get_or b n 0
        → Order (upto a n) (upto b n) v
        → Order (upto a (suc n)) (upto b (suc n)) v
    below same (greater h) = greater (omega (arith, h, ap (λ t. t * base ^ n) same))
    below same (less h) = less (omega (arith, h, ap (λ t. t * base ^ n) same))
    below same (equal h) = equal (omega (arith, h, ap (λ t. t * base ^ n) same))

-- A number of more cells is greater.
pub longer_greater : (a b : BigNum) → IsNum a → IsNum b → b.length < a.length → mag b < mag a
longer_greater a b va vb lt =
    let e : a.length ≡ suc (a.length - 1) = omega arith in
    let split = ap (upto a.array) e in
    let lead = va.lead (omega (arith, vb.some_cell)) in
    omega (
      arith,
      split,
      mul-le-mul_right {m = 1} {n = get_or a.array (a.length - 1) 0} (base ^ (a.length - 1))
          (omega arith),
      upto-lt-pow b.array b.length vb.small,
      pow-le-pow_right {n = base} (omega arith) {i = b.length} {j = a.length - 1} (omega arith),
    )

-- `Compare` of two well-formed numbers returns 0, 1 or 2, and which one says truly whether the first
-- absolute value is the greater one, the lesser one, or equal.
pub compare-Order : (a b : BigNum) → IsNum a → IsNum b → Order (mag a) (mag b) (compare a b)
unfolding compare
compare-Order a b va vb = elim (Bool-cases (ltb b.length a.length)) [
  | inl gt ↦ rw gt (greater (longer_greater a b va vb (ground arith)))
  | inr ge ↦ elim (Bool-cases (ltb a.length b.length)) [
    | inl lt ↦ rw (ge, lt) (less (longer_greater b a vb va (ground arith)))
    | inr le ↦
        let same : a.length ≡ b.length = ground arith in
        rw (ge, le) (rw (sym same) (compare_loop-Order a.length a.array b.array va.small vb.small))
  ]
]
