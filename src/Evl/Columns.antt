-- ===== src/Evl/Columns.antt =====
-- `get_col_t` of cpp/test/eipd.c counts the changes between filled and empty along the columns.
use Prim.Native.Nat.{bit_xor, differ}
use com_richard_test.Base.{ℕ, zero, suc, ◌+◌, ◌-◌, List, ◌≡◌, ap, ◌∙◌, arith, get_or}
use com_richard_test.Evl.{bit, bits_loop, col_loop, get_col_t}
use com_richard_test.Evl.Bit.{bit-bit_xor}
use com_richard_test.Evl.Holes.{sum, sum_ext, bits_loop-sum}

-- The cells below `col` in which two rows differ.
abbrev pub changes : ℕ → ℕ → ℕ → ℕ
changes col a b = sum col 0 (λ j. differ (bit a j) (bit b j))

bits_loop-changes : (col a b t : ℕ) → bits_loop col 0 (bit_xor a b) t ≡ t + changes col a b
bits_loop-changes col a b t =
    bits_loop-sum col 0 (bit_xor a b) t
    ∙ ap (λ k. t + k) (sum_ext col 0 (bit (bit_xor a b)) _ (bit-bit_xor a b))

col_loop-changes :
    (n i col : ℕ) (brd : List ℕ) (t : ℕ)
    → col_loop n i col brd t
      ≡ t + sum n i (λ k. changes col (get_or brd k 0) (get_or brd (k - 1) 0))
unfolding col_loop
col_loop-changes zero i col brd t = omega arith
col_loop-changes (suc n) i col brd t =
    col_loop-changes n (i + 1) col brd
      (bits_loop col 0 (bit_xor (get_or brd i 0) (get_or brd (i - 1) 0)) t)
    ∙ omega (arith, bits_loop-changes col (get_or brd i 0) (get_or brd (i - 1) 0) t)

-- `get_col_t` is the number of the cells below `col` in which row 0 differs from `col_max`, and of those
-- in which a row from 1 to `rw_n - 1` differs from the one before.
pub get_col_t-changes :
    (brd : List ℕ) (col rw_n col_max : ℕ)
    → get_col_t brd col rw_n col_max
      ≡ changes col (get_or brd 0 0) col_max
        + sum (rw_n - 1) 1 (λ k. changes col (get_or brd k 0) (get_or brd (k - 1) 0))
unfolding get_col_t
get_col_t-changes brd col rw_n col_max =
    col_loop-changes (rw_n - 1) 1 col brd (bits_loop col 0 (bit_xor (get_or brd 0 0) col_max) 0)
    ∙ omega (arith, bits_loop-changes col (get_or brd 0 0) col_max 0)
