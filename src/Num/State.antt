-- ===== src/Num/State.antt =====
-- The well-formedness of a big number, and that the operations that grow its block keep it.
use com_richard_test.Base.{
  ℕ, zero, suc, ◌+◌, ◌-◌, ◌*◌, ◌≤◌, ◌<◌, List, [], ◌∷◌, ◌++◌, ◌==◌, ltb, Bool-cases, inl, inr,
  Option, none, ◌≡◌, refl, sym, ap, ◌∙◌, arith, length, replicate, length-append, length-replicate,
}
use com_richard_test.Num.Memory.{Block, realloc}
use com_richard_test.Num.Ops.{BigNum, get_zero, extend_big_num, extend_below, extend_full}
use com_richard_test.Num.Digits.{IsDigits}
use com_richard_test.Num.Cells.{cells, length-cells, cells-back}

-- The object `b` stands for the digits `ds`, lowest first: they are in the first `wei` cells of a
-- block of `arr_len` cells, and there is one at least.
pub record IsNum (b : BigNum) (ds : List ℕ) : Type 0 where
  pub rest : Block
  pub held : b.arr ≡ cells ds rest
  pub count : b.wei ≡ length ds
  pub room : b.arr_len ≡ length b.arr
  pub digits : IsDigits ds
  pub positive : 0 < length ds

pub arr_len-eq : {b : BigNum} {ds : List ℕ} (v : IsNum b ds) → b.arr_len ≡ length ds + length v.rest
arr_len-eq {b} {ds} v = v.room ∙ ap length v.held ∙ length-cells ds v.rest

pub get_zero-IsNum : IsNum get_zero (0 ∷ [])
unfolding get_zero
get_zero-IsNum = record {
  rest = none ∷ [];
  held = refl;
  count = refl;
  room = refl;
  digits = omega arith;
  positive = omega arith;
}

length-realloc : (arr : Block) (n : ℕ) → length arr ≤ n → length (realloc arr n) ≡ n
unfolding realloc
length-realloc arr n h = omega (
  arith,
  length-append arr (replicate (n - length arr) none),
  length-replicate {A = Option ℕ} (n - length arr) none,
)

realloc-cells :
    (ds : List ℕ) (rest : Block) (n : ℕ)
    → realloc (cells ds rest) n ≡ cells ds (realloc rest (n - length ds))
unfolding realloc
realloc-cells ds rest n =
    cells-back ds rest _
    ∙ ap (λ k. cells ds (rest ++ replicate k none)) (omega (arith, length-cells ds rest))

-- A block that is given more cells still holds the same digits.
pub grown-IsNum :
    {b : BigNum} {ds : List ℕ} (n : ℕ)
    → IsNum b ds
    → b.arr_len ≤ n
    → IsNum (record b { arr = realloc b.arr n; arr_len = n }) ds
grown-IsNum {b} {ds} n v h = record {
  rest = realloc v.rest (n - length ds);
  held = ap (λ t. realloc t n) v.held ∙ realloc-cells ds v.rest n;
  count = v.count;
  room = sym (length-realloc b.arr n (omega (arith, v.room)));
  digits = v.digits;
  positive = v.positive;
}

pub extend_big_num-IsNum : {b : BigNum} {ds : List ℕ} → IsNum b ds → IsNum (extend_big_num b) ds
unfolding extend_big_num
extend_big_num-IsNum {b} v = grown-IsNum (b.arr_len * 2) v (omega arith)

-- `r` stands for the digits that `b` stood for, and has at least `n` cells and no fewer than `b`.
pub record Grows (b r : BigNum) (ds : List ℕ) (n : ℕ) : Type 0 where
  pub num : IsNum r ds
  pub enough : n ≤ r.arr_len
  pub no_less : b.arr_len ≤ r.arr_len

extend_below-fuel :
    (fuel n : ℕ) {b : BigNum} {ds : List ℕ}
    → IsNum b ds
    → n ≤ fuel + b.arr_len
    → Grows b (extend_below fuel n b) ds n
unfolding extend_below
extend_below-fuel zero n v h = record { num = v; enough = omega arith; no_less = omega arith }
extend_below-fuel (suc fuel) n {b} {ds} v h = elim (Bool-cases (ltb b.arr_len n)) [
  | inl short ↦
      let g =
        extend_below-fuel fuel n (extend_big_num-IsNum v)
          (unfold extend_big_num in omega (arith, arr_len-eq v, v.positive)) in
      rw short (record {
        num = g.num;
        enough = g.enough;
        no_less = twice_no_less b (extend_below fuel n (extend_big_num b)) g.no_less;
      })
  | inr long ↦ rw long (record { num = v; enough = ground arith; no_less = omega arith })
]
  where
    twice_no_less : (b r : BigNum) → (extend_big_num b).arr_len ≤ r.arr_len → b.arr_len ≤ r.arr_len
    twice_no_less b r h = unfold extend_big_num in omega arith

-- The loop of doublings ends with enough cells.
pub extend_below-Grows :
    (n : ℕ) {b : BigNum} {ds : List ℕ} → IsNum b ds → Grows b (extend_below n n b) ds n
extend_below-Grows n v = extend_below-fuel n n v (omega arith)

-- Behind `extend_full` there is a free cell.
pub extend_full-Grows :
    {b : BigNum} {ds : List ℕ} → IsNum b ds → Grows b (extend_full b) ds (suc (length ds))
unfolding extend_full
extend_full-Grows {b} {ds} v = elim (Bool-cases (b.wei == b.arr_len)) [
  | inl full ↦ rw full (record {
    num = extend_big_num-IsNum v;
    enough = unfold extend_big_num in omega (arith, arr_len-eq v, v.positive);
    no_less = unfold extend_big_num in omega arith;
  })
  | inr free ↦
      rw free
        (record { num = v; enough = ground (arith, arr_len-eq v, v.count); no_less = omega arith })
]

-- A free cell behind the digits, by name.
pub free_cell :
    {b : BigNum} {ds : List ℕ} (v : IsNum b ds)
    → length ds < b.arr_len
    → (c : Option ℕ) × (rest : Block) × (v.rest ≡ c ∷ rest)
free_cell {b} {ds} v h = split v.rest (omega (arith, arr_len-eq v))
  where
    split : (r : Block) → 0 < length r → (c : Option ℕ) × (rest : Block) × (r ≡ c ∷ rest)
    split [] h = absurd (omega arith)
    split (c ∷ rest) h = (c, rest, refl)
