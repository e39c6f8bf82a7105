-- ===== src/Num/Product.antt =====
-- `big_num_multi`, the long multiplication.
use native.Mathlib.Nat.{pow-suc, mul-le-mul_left, mul-lt-mul_of_pos_left}
use com_richard_test.Base.{
  ℕ, zero, suc, ◌+◌, ◌-◌, ◌*◌, ◌^◌, ◌≤◌, ◌<◌, List, false, ◌&&◌, ltb, Bool-cases, ◌⊎◌, inl, inr,
  Option, ◌≡◌, ap, ◌∙◌, arith, length,
}
use com_richard_test.Num.Ops.{BigNum, less}
use com_richard_test.Num.Digits.{val, IsDigits, val-lt-pow, pow_step}
use com_richard_test.Num.Scale.{Gives, scaled, scaled_lem}
use com_richard_test.Num.Shift.{shifted, val-shifted, length-shifted}
use com_richard_test.Num.Compare.{Compared}
use com_richard_test.Num.InPlace.{carry_out, carry_out-zero}

pow_mono : (m k : ℕ) → 10 ^ m ≤ 10 ^ (k + m)
pow_mono m zero = omega (arith, ap (λ (t : ℕ). 10 ^ t) (zero_add m))
  where
    zero_add : (m : ℕ) → 0 + m ≡ m
    zero_add m = omega arith
pow_mono m (suc k) =
    omega (arith, pow_mono m k, pow-suc 10 (k + m), ap (λ (t : ℕ). 10 ^ t) (suc_add k m))
  where
    suc_add : (k m : ℕ) → suc k + m ≡ suc (k + m)
    suc_add k m = omega arith

pub pow-add : (m n : ℕ) → 10 ^ (m + n) ≡ 10 ^ m * 10 ^ n
pow-add zero n = let e : 0 + n ≡ n = omega arith in ap (λ (t : ℕ). 10 ^ t) e ∙ omega arith
pow-add (suc m) n =
    let e : suc m + n ≡ suc (m + n) = omega arith in
    ap (λ (t : ℕ). 10 ^ t) e ∙ omega (arith, pow-suc 10 (m + n), pow-add m n, pow_step m (10 ^ n))

pub lt_of_pow-lt : (m n : ℕ) → 10 ^ m < 10 ^ n → m < n
lt_of_pow-lt m n h = elim (Bool-cases (ltb m n)) [
  | inl lt ↦ ground arith
  | inr ge ↦
      let back : m - n + n ≡ m = ground arith in
      absurd (omega (arith, h, pow_mono n (m - n), ap (λ (t : ℕ). 10 ^ t) back))
]

pub product_bound : (a p b q : ℕ) → a < p → b < q → a * b < p * q
product_bound a p b q ha hb = grind arith

-- The partial product is below the next multiple, if neither factor is zero.
partial_below : (a p t w : ℕ) → 0 < a → 0 < w → p < t → a * p < t * (a * w)
partial_below a p t w ha hw h = grind (arith, step1, step2)
  where
    step1 : a * p < a * t
    step1 = mul-lt-mul_of_pos_left h ha

    step2 : t * a * 1 ≤ t * a * w
    step2 = mul-le-mul_left (t * a) hw

-- `o` is a number of value `v`, of at most `size` digits.
pub record Product (o : Option BigNum) (v size : ℕ) : Type 0 where
  pub out : List ℕ
  pub gives : Gives o out 0
  pub value : val out ≡ v
  pub fits : length out ≤ size

-- The digits that one round adds to the partial product.
abbrev pub term_of : List ℕ → ℕ → ℕ → List ℕ
term_of xs w i = shifted i (scaled w xs)

module _ (xs : List ℕ) (digits : IsDigits xs) (positive : 0 < length xs) where
  abbrev pub term : ℕ → ℕ → List ℕ
  term w i = term_of xs w i

  pub val-term : (w i : ℕ) → w < 10 → val (term w i) ≡ 10 ^ i * (val xs * w)
  val-term w i small =
      val-shifted i (scaled w xs)
      ∙ ap (λ (k : ℕ). 10 ^ i * k) (scaled_lem w xs small digits positive).0

  pub length-term : (w i : ℕ) → w < 10 → length (term w i) ≤ i + length xs + 1
  length-term w i small =
      omega (arith, length-shifted i (scaled w xs), (scaled_lem w xs small digits positive).1)

  -- The addition of a round is one on which `big_num_add_0` adds.
  pub addable :
      (rs done : List ℕ) (w : ℕ) (y : BigNum)
      → w < 10
      → IsDigits rs
      → IsDigits done
      → IsDigits (term w (length done))
      → val rs ≡ val xs * val done
      → length rs ≤ length xs + length done
      → length (term w (length done)) < y.arr_len
      → (z : ℕ)
      → (Compared less rs (term w (length done))
          × ((length (term w (length done)) < y.arr_len) ⊎ (length (term w (length done)) < z)))
        ⊎ ((length (term w (length done)) ≤ length rs)
            × (carry_out rs (term w (length done)) ≡ 0)
            × (¬ Compared less rs (term w (length done))))
  addable rs done w y small hr hd ht e len room z =
      elim (Bool-cases (ltb (length rs) (length ys))) [
        | inl shorter ↦ inl (inl (ground arith), inl room)
        | inr longer ↦ elim (Bool-cases (ltb 0 (val xs) && ltb 0 w)) [
          | inl both ↦
              let below : val rs < val ys = omega (
                arith,
                e,
                val-term w (length done) small,
                partial_below (val xs) (val done) (10 ^ length done) w (ground arith) (ground arith)
                    (val-lt-pow done hd),
              ) in
              let size : length rs ≡ length ys = omega (
                arith,
                ge longer,
                length-shifted (length done) (scaled w xs),
                (scaled_lem w xs small digits positive).2 (ground arith),
              ) in
              inl (inr (size, below), inl room)
          | inr one_zero ↦
              let vanishes : val ys ≡ 0 = nothing one_zero in
              inr (
                ge longer,
                carry_out-zero rs ys hr ht (ge longer) vanishes,
                λ c. elim c [
                  | inl lt ↦ absurd (omega (arith, ge longer))
                  | inr (_, lt) ↦ absurd (omega (arith, vanishes))
                ],
              )
        ]
      ]
    where
      ys : List ℕ
      ys = term w (length done)

      ge : ltb (length rs) (length ys) ≡ false → length ys ≤ length rs
      ge h = ground arith

      zero_factor : (a b t : ℕ) → (ltb 0 a && ltb 0 b) ≡ false → t * (a * b) ≡ 0
      zero_factor zero b t h = omega arith
      zero_factor (suc a) zero t h = omega arith
      zero_factor (suc a) (suc b) t h = absurd (ground arith)

      nothing : (ltb 0 (val xs) && ltb 0 w) ≡ false → val ys ≡ 0
      nothing h = val-term w (length done) small ∙ zero_factor (val xs) w (10 ^ length done) h
