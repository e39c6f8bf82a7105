-- ===== src/Big/Mul.antt =====
-- `operator*`, with an `unsigned long` of 32 bits.
use native.Mathlib.Nat.{pow-zero, pow-suc, mul-le-mul, mul-le-mul_right}
use com_richard_test.Base.{
  ℕ, zero, suc, ◌+◌, ◌*◌, ◌/◌, ◌%◌, ◌^◌, ◌≤◌, ◌<◌, List, ltb, ◌==◌, if◌then◌else◌, false, ◌≡◌, refl,
  sym, ap, ◌∙◌, arith, get_or, set, length, length-set, get_or-set_self, get_or-set_ne, replicate,
  length-replicate, ℕ_discrete,
}
use com_richard_test.Big.Ops.{BigNum, cells, Row, row_loop, mul_loop, mul}
use com_richard_test.Big.Value.{
  base, upto, IsSmall, IsZeroFrom, IsNum, mag, upto_next, pow_next, upto-set, upto-lt-pow,
  set-IsSmall, of_cells,
}
use com_richard_test.Big.Add.{replicate-zero, upto-replicate, Gives, given, upto-mag}

-- The value of the array when one cell in it is written.
upto-set_at :
    (a : List ℕ) (i v m : ℕ)
    → i < m
    → i < length a
    → upto (set a i v) m + get_or a i 0 * base ^ i ≡ upto a m + v * base ^ i
upto-set_at a i v zero lt len = absurd (omega arith)
upto-set_at a i v (suc m) lt len = elim (ℕ_discrete i m) [
  | yes e ↦ rw (sym e) (
      omega (
        arith,
        upto-set a i i v (omega arith),
        ap (λ t. t * base ^ i) (get_or-set_self a i v 0 len),
      ))
  | no ne ↦ omega (
    arith,
    upto-set_at a i v m (omega arith) len,
    ap (λ t. t * base ^ m) (get_or-set_ne a i m v 0 ne),
  )
]

pow-add : (i j : ℕ) → base ^ (i + j) ≡ base ^ i * base ^ j
pow-add i zero =
    let e : i + 0 ≡ i = omega arith in
    ap (λ t. base ^ t) e ∙ omega (arith, ap (λ t. base ^ i * t) (pow-zero base))
pow-add i (suc j) =
    let e : i + suc j ≡ suc (i + j) = omega arith in
    ap (λ t. base ^ t) e
    ∙ pow-suc base (i + j)
    ∙ omega (arith, ap (λ t. t * base) (pow-add i j), ap (λ t. base ^ i * t) (pow-suc base j))

weigh_next :
    (x i j : ℕ) (a : List ℕ)
    → x * upto a (j + 1) * base ^ i ≡ x * upto a j * base ^ i + x * get_or a j 0 * base ^ (i + j)
weigh_next x i j a = omega (
  arith,
  ap (λ t. x * t * base ^ i) (upto_next a j),
  ap (λ t. x * get_or a j 0 * t) (pow-add i j),
)

record RowRun (i j m x : ℕ) (a : List ℕ) (r0 r : Row) : Type 0 where
  count : length r.out ≡ length r0.out
  small : IsSmall r.out
  behind : (k : ℕ) → i + m ≤ k → get_or r.out k 0 ≡ get_or r0.out k 0
  total :
      upto r.out (i + m) + r.carry * base ^ (i + m) + x * upto a j * base ^ i
      ≡ upto r0.out (i + m) + r0.carry * base ^ (i + j) + x * upto a m * base ^ i

module _ (i x : ℕ) (a : List ℕ) (ha : IsSmall a) (hx : x < base) where
  row_loop-RowRun :
      (n j m : ℕ) (r : Row)
      → j + n ≡ m
      → i + m ≤ length r.out
      → r.carry < base
      → IsSmall r.out
      → RowRun i j m x a r (row_loop 32 n i j a x r)
  unfolding row_loop
  row_loop-RowRun zero j m r e len lt small =
      let same : j ≡ m = omega arith in
      record { count = refl; small = small; behind = λ k h. refl; total = rw same refl }
  row_loop-RowRun (suc n) j m r e len lt small =
      let pro : ℕ = (x * get_or a j 0 + r.carry) % 2 ^ 64 in
      let sum : ℕ = (get_or r.out (i + j) 0 + pro) % 2 ^ 64 in
      let carry : ℕ = if ltb 0xffffffff sum then sum / 2 ^ 32 else 0 in
      let cell : ℕ = (get_or r.out (i + j) 0 + pro % 2 ^ 32) % 2 ^ 32 in
      let bound : x * get_or a j 0 ≤ 4294967295 * 4294967295 =
        mul-le-mul {n₁ = x} {m₁ = get_or a j 0} {n₂ = 4294967295} {m₂ = 4294967295} (omega arith)
          (omega (arith, ha j)) in
      let fits : get_or r.out (i + j) 0 + x * get_or a j 0 + r.carry ≡ sum =
        omega (arith, bound, small (i + j)) in
      let digits : get_or r.out (i + j) 0 + x * get_or a j 0 + r.carry ≡ cell + carry * base =
        ground (arith, bound, small (i + j)) in
      let carry_lt : carry < base = ground (arith, bound, small (i + j)) in
      let r1 : Row = record { carry = carry; out = set r.out (i + j) cell } in
      let run =
        row_loop-RowRun n (j + 1) m r1 (omega arith) (omega (arith, length-set r.out (i + j) cell))
          carry_lt (set-IsSmall r.out (i + j) cell (omega arith) small) in
      let e1 : i + (j + 1) ≡ (i + j) + 1 = omega arith in
      record {
        count = run.count ∙ length-set r.out (i + j) cell;
        small = run.small;
        behind = λ k h. run.behind k h ∙ get_or-set_ne r.out (i + j) k cell 0 (omega arith);
        total = omega (
          arith,
          run.total,
          upto-set_at r.out (i + j) cell (i + m) (omega arith) (omega arith),
          ap (λ t. carry * base ^ t) e1,
          ap (λ t. carry * t) (pow_next (i + j)),
          weigh_next x i j a,
          ap (λ t. t * base ^ (i + j)) digits,
        );
      }

record MulRun (j n0 v : ℕ) (r : Row) : Type 0 where
  count : length r.out ≡ n0
  small : IsSmall r.out
  zeros : IsZeroFrom j r.out
  value : upto r.out j ≡ v

no_carry : (m p v w : ℕ) → v < p → w + m * p ≡ v → m ≡ 0
no_carry zero p v w lt e = refl
no_carry (suc m) p v w lt e =
    absurd (omega (arith, mul-le-mul_right {m = 1} {n = suc m} p (omega arith)))

-- The product of two numbers below powers of the base.
product_lt : (p q m n : ℕ) → p < m → q < n → p * q < m * n
product_lt p q zero n hp hq = absurd (omega arith)
product_lt p q (suc m) zero hp hq = absurd (omega arith)
product_lt p q (suc m) (suc n) hp hq =
    omega (arith, mul-le-mul {n₁ = p} {m₁ = q} {n₂ = m} {m₂ = n} (omega arith) (omega arith))

module _ (a : BigNum) (b : List ℕ) (va : IsNum a) (hb : IsSmall b) where
  row_value :
      (i : ℕ) (r : Row) (r' : Row)
      → r.carry ≡ 0
      → MulRun (i + a.length) cells (mag a * upto b i) r
      → RowRun i 0 (a.length + 1) (get_or b i 0) a.array r r'
      → MulRun (i + 1 + a.length) cells (mag a * upto b (i + 1)) r' × (r'.carry ≡ 0)
  row_value i r r' nil_c inv run =
      let top : i + (a.length + 1) ≡ i + 1 + a.length = omega arith in
      let top' : i + (a.length + 1) ≡ i + a.length + 1 = omega arith in
      let v : ℕ = mag a * upto b (i + 1) in
      let split : v ≡ mag a * upto b i + get_or b i 0 * mag a * base ^ i =
        omega (arith, ap (λ t. mag a * t) (upto_next b i)) in
      let old : upto r.out (i + (a.length + 1)) ≡ mag a * upto b i =
        ap (upto r.out) top'
        ∙ upto_next r.out (i + a.length)
        ∙ omega (
          arith,
          ap (λ t. t * base ^ (i + a.length)) (inv.zeros (i + a.length) (omega arith)),
          inv.value,
        ) in
      let new : upto r'.out (i + (a.length + 1)) + r'.carry * base ^ (i + (a.length + 1)) ≡ v =
        omega (
          arith,
          run.total,
          old,
          split,
          ap (λ t. t * base ^ (i + 0)) nil_c,
          ap (λ t. get_or b i 0 * t * base ^ i) (upto-mag {a = a} (a.length + 1) va (omega arith)),
        ) in
      let lt : v < base ^ (i + (a.length + 1)) =
        rw (top, pow-add (i + 1) a.length)
          (omega (
            arith,
            product_lt (mag a) (upto b (i + 1)) (base ^ a.length) (base ^ (i + 1))
                (upto-lt-pow a.array a.length va.small) (upto-lt-pow b (i + 1) hb),
          )) in
      let done =
        no_carry r'.carry (base ^ (i + (a.length + 1))) v (upto r'.out (i + (a.length + 1))) lt
          new in
      (
        record {
          count = run.count ∙ inv.count;
          small = run.small;
          zeros = λ k h. run.behind k (omega arith) ∙ inv.zeros k (omega arith);
          value =
              sym (ap (upto r'.out) top)
              ∙ omega (arith, new, ap (λ t. t * base ^ (i + (a.length + 1))) done);
        },
        done,
      )

  mul_loop-MulRun :
      (n i j : ℕ) (r : Row)
      → i + n ≡ j
      → j + a.length ≤ cells
      → r.carry ≡ 0
      → MulRun (i + a.length) cells (mag a * upto b i) r
      → MulRun (j + a.length) cells (mag a * upto b j) (mul_loop 32 n i a b r)
  unfolding mul_loop
  mul_loop-MulRun zero i j r e len nil_c inv = let same : i ≡ j = omega arith in rw (sym same) inv
  mul_loop-MulRun (suc n) i j r e len nil_c inv =
      let r' = row_loop 32 (a.length + 1) i 0 a.array (get_or b i 0) r in
      let run =
        row_loop-RowRun i (get_or b i 0) a.array va.small (hb i) (a.length + 1) 0 (a.length + 1) r
          (omega arith) (omega (arith, inv.count)) (omega arith) inv.small in
      let (next, none_left) = row_value i r r' nil_c inv run in
      mul_loop-MulRun n (i + 1) j r' (omega arith) len none_left next

-- Two well-formed numbers whose lengths make up at most the 128 cells have a well-formed product, whose
-- absolute value is the product of theirs, with the sign 0 if theirs are equal, and else 1.
pub mul-Gives :
    (a b : BigNum)
    → IsNum a
    → IsNum b
    → a.length + b.length ≤ cells
    → Gives (mul 32 a b) (if a.signal == b.signal then 0 else 1) (mag a * mag b)
unfolding mul
mul-Gives a b va vb le =
    let room : ltb cells (a.length + b.length) ≡ false = ground arith in
    let r0 : Row = record { carry = 0; out = replicate cells 0 } in
    let start : MulRun (0 + a.length) cells (mag a * upto b.array 0) r0 = record {
      count = length-replicate cells zero;
      small = λ i. omega (arith, replicate-zero cells i);
      zeros = λ i h. replicate-zero cells i;
      value = upto-replicate cells (0 + a.length) ∙ omega arith;
    } in
    let run =
      mul_loop-MulRun a b.array va vb.small b.length 0 b.length r0 (omega arith) (omega arith) refl
        start in
    let e : b.length + a.length ≡ a.length + b.length = omega arith in
    let out = (mul_loop 32 b.length 0 a b.array r0).out in
    let made =
      of_cells (a.length + b.length) (if a.signal == b.signal then 0 else 1) out run.count run.small
        (λ k h. run.zeros k (omega arith)) (omega (arith, va.some_cell)) le in
    rw room (given made.0 (made.1 ∙ sym (ap (upto out) e) ∙ run.value))
