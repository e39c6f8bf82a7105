-- ===== src/Num/NewSum.antt =====
-- `big_num_add` of cpp/algorithm/big_num.c, which returns the sum as a new number. It gives both operands
-- more cells, so they are results too.
use Prim.Native.Nat.{max}
use mathlib.Core.List.{append-nil}
use com_richard_test.Base.{
  ◌>>=◌, ℕ, zero, suc, ◌+◌, ◌-◌, ◌*◌, ◌≤◌, ◌<◌, List, [], ◌++◌, ltb, if◌then◌else◌, Bool-cases, ◌⊎◌,
  inl, inr, Option, none, some, ◌≡◌, refl, sym, ap, ◌∙◌, arith, length, replicate,
}
use com_richard_test.Num.Memory.{Block, realloc, clear}
use com_richard_test.Num.Ops.{
  BigNum, Cmp, less, equal, greater, get_zero, big_num_cpy, big_num_cmp, extend_big_num,
  extend_below, extend_full, add_loop, put_one, put_carry,
}
use com_richard_test.Num.Digits.{
  val, IsDigits-append, IsDigits-zeros, zeros, add_out, add_carry, length-add_out, add_out_lem,
}
use com_richard_test.Num.Cells.{cells, cells-append, cells-back, clear-cells, add_loop-cells}
use com_richard_test.Num.State.{IsNum, arr_len-eq, grown-IsNum, extend_full-Grows}
use com_richard_test.Num.Compare.{Compared, big_num_cmp-Compared}
use com_richard_test.Num.Scale.{top, val-top, put_carry-Gives, cpy-Gives, length-top}
use com_richard_test.Num.Sum.{padded, length-padded, val-padded, zeros-add}

-- The sum, and the operands as they are behind the call.
pub record Added : Type 0 where
  pub sum : BigNum
  pub b1 : BigNum
  pub b2 : BigNum

-- `if (b2->_arrLen < res._arrLen)`: as many cells, with zeros behind the digits
unfoldable pub equal_room : BigNum → ℕ → Option BigNum
equal_room b n =
    if ltb b.arr_len n
    then (do
      arr ← clear (n - b.wei) b.wei (realloc b.arr n)
      some (record b { arr = arr; arr_len = n }))
    else some b

-- The addition when `b1` is not the less one. `while (b2->_arrLen <= n)` is `< n + 1`.
unfoldable pub add_ordered : BigNum → BigNum → Option Added
add_ordered b1 b2 = do
  let b1' = extend_full b1
  res ← big_num_cpy get_zero b1'
  b2' ← equal_room b2 res.arr_len
  let b2'' = extend_below (res.arr_len + 1) (res.arr_len + 1) b2'
  (arr, next) ← add_loop res.wei 0 0 res.arr b2''.arr
  sum ← put_one arr next res.wei res
  some (record { sum = sum; b1 = b1'; b2 = b2'' })

unfoldable pub exchanged : Added → Added
exchanged a = record a { b1 = a.b2; b2 = a.b1 }

unfoldable pub add_by : Cmp → BigNum → BigNum → Option Added
add_by less b1 b2 = do a ← add_ordered b2 b1; some (exchanged a)
add_by equal b1 b2 = add_ordered b1 b2
add_by greater b1 b2 = add_ordered b1 b2

unfoldable pub big_num_add : BigNum → BigNum → Option Added
big_num_add b1 b2 = do flag ← big_num_cmp b1 b2; add_by flag b1 b2

-- More cells come behind those that are there.
extend_below-cells :
    (fuel n : ℕ) (b : BigNum) (ds : List ℕ) (rest : Block)
    → b.arr ≡ cells ds rest
    → (more : Block) × ((extend_below fuel n b).arr ≡ cells ds more)
unfolding extend_below extend_big_num realloc
extend_below-cells zero n b ds rest e = (rest, e)
extend_below-cells (suc fuel) n b ds rest e = elim (Bool-cases (ltb b.arr_len n)) [
  | inl short ↦ rw short (
      extend_below-cells fuel n (extend_big_num b) ds
        (rest ++ replicate (b.arr_len * 2 - length b.arr) none)
        (ap (λ t. t ++ replicate (b.arr_len * 2 - length b.arr) none) e ∙ cells-back ds rest _))
  | inr long ↦ rw long (rest, e)
]

-- The digits of `ys` with zeros on top, up to `k` of them, are in the first cells.
record Holds (k : ℕ) (ys : List ℕ) (o : Option BigNum) : Type 0 where
  b : BigNum
  returns : o ≡ some b
  rest : Block
  held : b.arr ≡ cells (padded k ys) rest

equal_room-Holds :
    (k n : ℕ) {y : BigNum} {ys : List ℕ}
    → IsNum y ys
    → length ys ≤ k
    → k ≤ n
    → (y.arr_len < n) ⊎ (length ys ≡ k)
    → Holds k ys (equal_room y n)
unfolding equal_room
equal_room-Holds k n {y} {ys} v le fits cases = elim (Bool-cases (ltb y.arr_len n)) [
  | inl short ↦
      let g = grown-IsNum n v (ground arith) in
      let d = length ys in
      let total : d + length g.rest ≡ n = sym (arr_len-eq g) in
      let left : n - y.wei ≡ (k - d) + (n - k) = omega (arith, v.count) in
      let spread : cells ys (cells (zeros (n - y.wei)) [])
          ≡ cells (padded k ys) (cells (zeros (n - k)) []) =
        ap (λ t. cells ys (cells t [])) (ap zeros left ∙ zeros-add (k - d) (n - k))
        ∙ ap (cells ys) (cells-append (zeros (k - d)) (zeros (n - k)) [])
        ∙ sym (cells-append ys (zeros (k - d)) (cells (zeros (n - k)) [])) in
      let cleared : clear (n - y.wei) y.wei (realloc y.arr n)
          ≡ some (cells ys (cells (zeros (n - y.wei)) [])) =
        ap (clear (n - y.wei) y.wei) (g.held ∙ ap (cells ys) (sym (append-nil g.rest)))
        ∙ clear-cells g.rest ys [] (n - y.wei) y.wei (omega (arith, total, v.count)) v.count in
      rw (short, cleared)
        (record {
          b = record y { arr = cells ys (cells (zeros (n - y.wei)) []); arr_len = n };
          returns = refl;
          rest = cells (zeros (n - k)) [];
          held = spread;
        })
  | inr long ↦
      let same : length ys ≡ k = elim (cases) [ inl lt ↦ absurd (ground arith) | inr e ↦ e ] in
      let none_more : k - length ys ≡ 0 = omega arith in
      rw long (record {
        b = y;
        returns = refl;
        rest = v.rest;
        held =
            v.held
            ∙ ap (λ t. cells t v.rest)
                (sym (append-nil ys) ∙ ap (λ j. ys ++ zeros j) (sym none_more));
      })
]

put_one-put_carry :
    (arr : Block) (c : ℕ) (b : BigNum) → c ≤ 1 → put_one arr c b.wei b ≡ put_carry arr c b
unfolding put_one put_carry
put_one-put_carry arr zero b le = refl
put_one-put_carry arr (suc zero) b le = refl
put_one-put_carry arr (suc (suc c)) b le = absurd (omega arith)

-- The sum is a well-formed number with the sum of the values, and has at most one digit more than the
-- longer operand.
pub record NewSum (o : Option Added) (xs ys : List ℕ) : Type 0 where
  pub added : Added
  pub returns : o ≡ some added
  pub digits : List ℕ
  pub num : IsNum added.sum digits
  pub value : val digits ≡ val xs + val ys
  pub size : length digits ≤ max (length xs) (length ys) + 1

add_ordered-NewSum :
    {x y : BigNum} {xs ys : List ℕ}
    → IsNum x xs
    → IsNum y ys
    → length ys ≤ length xs
    → (y.arr_len < (extend_full x).arr_len) ⊎ (length ys ≡ length xs)
    → NewSum (add_ordered x y) xs ys
unfolding add_ordered
add_ordered-NewSum {x} {y} {xs} {ys} vx vy le cases =
    let k = length xs in
    let g = extend_full-Grows vx in
    let copy = cpy-Gives (extend_full x) xs g.num in
    let res = copy.r in
    let free : k < res.arr_len = omega (arith, g.enough, copy.enough) in
    let wide : (y.arr_len < res.arr_len) ⊎ (length ys ≡ k) = elim (cases) [
      | inl lt ↦ inl (omega (arith, lt, copy.enough))
      | inr e ↦ inr e
    ] in
    let h = equal_room-Holds k res.arr_len vy le (omega (arith, free)) wide in
    let (more, held) =
      extend_below-cells (res.arr_len + 1) (res.arr_len + 1) h.b (padded k ys) h.rest h.held in
    let ys' = padded k ys in
    let same_size : length xs ≡ length ys' = sym (length-padded k ys le) in
    let facts =
      add_out_lem 0 xs ys' same_size vx.digits
        (IsDigits-append ys (zeros (k - length ys)) vy.digits (IsDigits-zeros (k - length ys)))
        (omega arith) in
    let out = add_out 0 xs ys' in
    let c = add_carry 0 xs ys' in
    let looped : add_loop res.wei 0 0 res.arr
          (extend_below (res.arr_len + 1) (res.arr_len + 1) h.b).arr
        ≡ some (cells out copy.num.rest, c) =
      (λ i. add_loop res.wei 0 0 (copy.num.held i) (held i))
      ∙ add_loop-cells xs ys' [] [] copy.num.rest more 0 res.wei 0 (copy.num.count ∙ same_size)
          same_size refl refl in
    let out_len = length-add_out 0 xs ys' same_size in
    let put =
      put_carry-Gives res xs out c free (omega (arith, out_len, same_size)) facts.1
        (omega (arith, facts.2)) copy.num in
    rw
      (
        copy.returns,
        h.returns,
        looped,
        put_one-put_carry (cells out copy.num.rest) c res facts.2,
        put.returns,
      )
      (record {
        added = record {
          sum = put.r;
          b1 = extend_full x;
          b2 = extend_below (res.arr_len + 1) (res.arr_len + 1) h.b;
        };
        returns = refl;
        digits = out ++ top c;
        num = put.num;
        value = omega (arith, val-top out c (length ys') (sym out_len), facts.0, val-padded k ys);
        size = omega (arith, (length-top out c).0, out_len, same_size);
      })

swapped_operands :
    {o : Option Added} {xs ys : List ℕ}
    → NewSum o ys xs
    → NewSum (o >>= λ a. some (exchanged a)) xs ys
unfolding exchanged
swapped_operands n = rw n.returns (record {
  added = exchanged n.added;
  returns = refl;
  digits = n.digits;
  num = n.num;
  value = omega (arith, n.value);
  size = omega (arith, n.size);
})

-- If two well-formed numbers have the same number of digits, or the block of the one with fewer digits
-- has strictly fewer cells than that of the other, which gets more first if it is full, `big_num_add`
-- returns, touches no cell outside the blocks and reads no indeterminate one, and its result is the sum.
pub big_num_add-NewSum :
    {x y : BigNum} {xs ys : List ℕ}
    → IsNum x xs
    → IsNum y ys
    → (length xs ≡ length ys)
      ⊎ ((length ys < length xs) × (y.arr_len < (extend_full x).arr_len))
      ⊎ ((length xs < length ys) × (x.arr_len < (extend_full y).arr_len))
    → NewSum (big_num_add x y) xs ys
unfolding big_num_add add_by
big_num_add-NewSum {x} {y} {xs} {ys} vx vy cases = by_verdict verdict.0 verdict.2 verdict.1
  where
    verdict : (c : Cmp) × (big_num_cmp x y ≡ some c) × Compared c xs ys
    verdict = big_num_cmp-Compared vx vy

    in_order :
        length ys ≤ length xs → (y.arr_len < (extend_full x).arr_len) ⊎ (length ys ≡ length xs)
    in_order le = elim (cases) [
      | inl same ↦ inr (omega arith)
      | inr (inl (lt, cells)) ↦ inl cells
      | inr (inr (lt, cells)) ↦ absurd (omega arith)
    ]

    out_of_order :
        length xs ≤ length ys → (x.arr_len < (extend_full y).arr_len) ⊎ (length xs ≡ length ys)
    out_of_order le = elim (cases) [
      | inl same ↦ inr same
      | inr (inl (lt, cells)) ↦ absurd (omega arith)
      | inr (inr (lt, cells)) ↦ inl cells
    ]

    by_verdict :
        (c : Cmp) → Compared c xs ys → big_num_cmp x y ≡ some c → NewSum (big_num_add x y) xs ys
    by_verdict less said e =
        let le : length xs ≤ length ys = ground arith in
        rw e (swapped_operands (add_ordered-NewSum vy vx le (out_of_order le)))
    by_verdict equal said e =
        let le : length ys ≤ length xs = ground arith in
        rw e (add_ordered-NewSum vx vy le (in_order le))
    by_verdict greater said e =
        let le : length ys ≤ length xs = ground arith in
        rw e (add_ordered-NewSum vx vy le (in_order le))
