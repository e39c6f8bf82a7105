-- ===== src/Evl.antt =====
-- The board evaluation of cpp/test/eipd.c. A row of the board is the number whose bits are its cells, and
-- not negative; the board is the list of the rows, at least `rw_n` of them, from the bottom up. pop_i and
-- insert_i return the array as it is.
pub mod Bit
pub mod Holes
pub mod Columns
mod Tests
use com_richard_test.Base.{
  ℕ, zero, suc, ◌+◌, ◌-◌, ◌/◌, ◌%◌, ◌^◌, List, [], ◌∷◌, Bool, true, false, ◌==◌, if◌then◌else◌,
  get_or,
}
use Prim.Native.Nat.{bit_and, bit_or, bit_xor}

-- `(row >> j) & 1`
abbrev pub bit : ℕ → ℕ → ℕ
bit row j = row / 2 ^ j % 2

-- `for (j = 0; j < col; j++)` over the bits, which are added to `t`, with `n` bits left
unfoldable pub bits_loop : ℕ → ℕ → ℕ → ℕ → ℕ
bits_loop zero j row t = t
bits_loop (suc n) j row t = bits_loop n (j + 1) row (t + bit row j)

-- The loop of `get_rw_rm` at row `i`, with `n` rows left.
unfoldable pub rm_loop : ℕ → ℕ → ℕ → List ℕ → ℕ → ℕ
rm_loop zero i col_max brd c = c
rm_loop (suc n) i col_max brd c =
    let rest = rm_loop n (i + 1) col_max brd in
    if get_or brd i 0 == col_max then rest (c + 1) else (if get_or brd i 0 == 0 then c else rest c)

unfoldable pub get_rw_rm : List ℕ → ℕ → ℕ → ℕ
get_rw_rm brd col_max rw_n = rm_loop rw_n 0 col_max brd 0

-- What the loop of `get_rw_t` over the cells of a row keeps.
pub record Row : Type 0 where
  pub t : ℕ
  pub last_bit : ℕ
  pub bit_here : ℕ

-- The cells of a row from `j` on, with `n` cells left.
unfoldable pub row_loop : ℕ → ℕ → ℕ → Row → Row
row_loop zero j row r = r
row_loop (suc n) j row r =
    let b = bit row j in
    row_loop n (j + 1) row (
      if b == r.last_bit
      then record r { bit_here = b }
      else record { t = r.t + 1; last_bit = b; bit_here = b })

-- The rows from `i` on, with `n` rows left; `last` is the bit that the row before has left in `bit`.
unfoldable pub rows_loop : ℕ → ℕ → ℕ → List ℕ → ℕ → ℕ → ℕ
rows_loop zero i col brd t last = t
rows_loop (suc n) i col brd t last =
    let row = get_or brd i 0 in
    let r = row_loop col 0 row (record { t = t; last_bit = 1; bit_here = last }) in
    rows_loop n (i + 1) col brd
      (if row == 0 then t + 2 else (if r.bit_here == 0 then r.t + 1 else r.t))
      (if row == 0 then last else r.bit_here)

unfoldable pub get_rw_t : List ℕ → ℕ → ℕ → ℕ
get_rw_t brd col rw_n = rows_loop rw_n 0 col brd 0 0

-- The rows of `get_col_t` from `i` on, with `n` rows left.
unfoldable pub col_loop : ℕ → ℕ → ℕ → List ℕ → ℕ → ℕ
col_loop zero i col brd t = t
col_loop (suc n) i col brd t =
    col_loop n (i + 1) col brd (bits_loop col 0 (bit_xor (get_or brd i 0) (get_or brd (i - 1) 0)) t)

unfoldable pub get_col_t : List ℕ → ℕ → ℕ → ℕ → ℕ
get_col_t brd col rw_n col_max =
    col_loop (rw_n - 1) 1 col brd (bits_loop col 0 (bit_xor (get_or brd 0 0) col_max) 0)

-- `~c & x` for an `x` that is not negative
unfoldable pub without : ℕ → ℕ → ℕ
without c x = bit_xor x (bit_and x c)

-- The rows of `gt_hl` from `n` down to 1.
unfoldable pub hl_loop : ℕ → ℕ → List ℕ → ℕ → ℕ → ℕ → ℕ
hl_loop zero col brd p_rw rw_hl hl = hl
hl_loop (suc n) col brd p_rw rw_hl hl =
    let c_rw = get_or brd (suc n) 0 in
    let rw_hl' = without c_rw (bit_or p_rw rw_hl) in
    hl_loop n col brd c_rw rw_hl' (bits_loop col 0 rw_hl' hl)

unfoldable pub gt_hl : List ℕ → ℕ → ℕ → ℕ
gt_hl brd col rw_n = hl_loop (rw_n - 2) col brd (get_or brd (rw_n - 1) 0) 0 0
