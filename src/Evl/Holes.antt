-- ===== src/Evl/Holes.antt =====
-- `gt_hl` of cpp/test/eipd.c, against the holes: the empty cells with a filled one somewhere above.
use Prim.Native.Nat.{bit_or, max}
use com_richard_test.Base.{
  ℕ, zero, suc, ◌+◌, ◌-◌, ◌≤◌, ◌<◌, List, ◌≡◌, refl, sym, ap, ◌∙◌, arith, get_or,
}
use com_richard_test.Evl.{bit, bits_loop, without, hl_loop, gt_hl}
use com_richard_test.Evl.Bit.{bit-le-one, bit_empty, bit-bit_or, bit-without}

-- `f j + f (j + 1) + ...`, of `n` numbers
abbrev pub sum : ℕ → ℕ → (ℕ → ℕ) → ℕ
sum zero j f = 0
sum (suc n) j f = f j + sum n (j + 1) f

pub sum_ext : (n j : ℕ) (f g : ℕ → ℕ) → ((k : ℕ) → f k ≡ g k) → sum n j f ≡ sum n j g
sum_ext zero j f g h = refl
sum_ext (suc n) j f g h = omega (arith, h j, sum_ext n (j + 1) f g h)

pub bits_loop-sum : (n j row t : ℕ) → bits_loop n j row t ≡ t + sum n j (bit row)
unfolding bits_loop
bits_loop-sum zero j row t = omega arith
bits_loop-sum (suc n) j row t = omega (arith, bits_loop-sum n (j + 1) row (t + bit row j))

-- 1 if one of the `n` rows above row `i` has the cell `j`, else 0.
abbrev pub above : List ℕ → ℕ → ℕ → ℕ → ℕ
above brd i zero j = 0
above brd i (suc n) j = max (bit (get_or brd (i + 1) 0) j) (above brd (i + 1) n j)

-- 1 if the cell `j` of row `i` is empty and lies below a filled one, else 0.
abbrev pub hole : List ℕ → ℕ → ℕ → ℕ → ℕ
hole brd rw_n i j = above brd i (rw_n - 1 - i) j - bit (get_or brd i 0) j

-- The holes of the rows from 1 to `n`.
abbrev pub holes : List ℕ → ℕ → ℕ → ℕ → ℕ
holes brd col rw_n zero = 0
holes brd col rw_n (suc n) = holes brd col rw_n n + sum col 0 (hole brd rw_n (suc n))

above-le-one : (brd : List ℕ) (i n j : ℕ) → above brd i n j ≤ 1
above-le-one brd i zero j = omega arith
above-le-one brd i (suc n) j =
    omega (arith, bit-le-one (get_or brd (i + 1) 0) j, above-le-one brd (i + 1) n j)

module _ (brd : List ℕ) (col rw_n : ℕ) where
  -- The holes of a row, from those of the row above.
  next_holes :
      (i p h j : ℕ)
      → i + 1 < rw_n
      → p ≡ get_or brd (i + 1) 0
      → bit h j ≡ hole brd rw_n (i + 1) j
      → bit (without (get_or brd i 0) (bit_or p h)) j ≡ hole brd rw_n i j
  next_holes i p h j lt ep eh =
      let more : rw_n - 1 - i ≡ suc (rw_n - 1 - (i + 1)) = omega arith in
      let up = above brd (i + 1) (rw_n - 1 - (i + 1)) j in
      bit-without (get_or brd i 0) (bit_or p h) j
      ∙ ap (λ k. k - bit (get_or brd i 0) j)
          (bit-bit_or p h j
            ∙ omega (
              arith,
              eh,
              ap (λ r. bit r j) ep,
              bit-le-one p j,
              above-le-one brd (i + 1) (rw_n - 1 - (i + 1)) j,
              ap (λ k. above brd i k j) more,
            ))

  hl_loop-holes :
      (n p h hl : ℕ)
      → n + 1 < rw_n
      → p ≡ get_or brd (n + 1) 0
      → ((j : ℕ) → bit h j ≡ hole brd rw_n (n + 1) j)
      → hl_loop n col brd p h hl ≡ hl + holes brd col rw_n n
  unfolding hl_loop
  hl_loop-holes zero p h hl lt ep eh = omega arith
  hl_loop-holes (suc n) p h hl lt ep eh =
      let c = get_or brd (suc n) 0 in
      let h' = without c (bit_or p h) in
      let here : (j : ℕ) → bit h' j ≡ hole brd rw_n (suc n) j =
        λ j. next_holes (suc n) p h j lt ep (eh j) in
      let one : n + 1 ≡ suc n = omega arith in
      hl_loop-holes n c h' (bits_loop col 0 h' hl) (omega arith)
        (ap (λ k. get_or brd k 0) (sym one)) (λ j. here j ∙ ap (λ k. hole brd rw_n k j) (sym one))
      ∙ omega
          (arith, bits_loop-sum col 0 h' hl, sum_ext col 0 (bit h') (hole brd rw_n (suc n)) here)

-- On a board of at least two rows, `gt_hl` is the number of the holes in the rows from 1 to `rw_n - 2`:
-- the cells below `col` that are empty and have a filled cell in some row above, up to `rw_n - 1`.
-- The holes of row 0 are not counted.
pub gt_hl-holes :
    (brd : List ℕ) (col rw_n : ℕ) → 2 ≤ rw_n → gt_hl brd col rw_n ≡ holes brd col rw_n (rw_n - 2)
unfolding gt_hl
gt_hl-holes brd col rw_n two =
    let top : rw_n - 2 + 1 ≡ rw_n - 1 = omega arith in
    hl_loop-holes brd col rw_n (rw_n - 2) (get_or brd (rw_n - 1) 0) 0 0 (omega arith)
      (ap (λ k. get_or brd k 0) (sym top))
      (λ j.
        let none_above : rw_n - 1 - (rw_n - 2 + 1) ≡ 0 = omega arith in
        omega (arith, bit_empty j, ap (λ k. above brd (rw_n - 2 + 1) k j) none_above))
    ∙ omega arith
