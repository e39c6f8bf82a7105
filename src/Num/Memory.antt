-- ===== src/Num/Memory.antt =====
-- A block of `int` cells as malloc and realloc give it. `none` in a cell is an indeterminate value;
-- a read of it, and any access outside the block, is undefined in C: here the result is `none`.
use com_richard_test.Base.{
  ◌>>=◌, ℕ, zero, suc, ◌+◌, ◌-◌, List, [], ◌∷◌, ◌++◌, Option, none, some, replicate, length,
}

abbrev pub Block : Type 0
Block = List (Option ℕ)

unfoldable pub load : Block → ℕ → Option ℕ
load [] i = none
load (c ∷ cs) zero = c
load (c ∷ cs) (suc i) = load cs i

unfoldable pub store : Block → ℕ → ℕ → Option Block
store [] i v = none
store (c ∷ cs) zero v = some (some v ∷ cs)
store (c ∷ cs) (suc i) v = do cs' ← store cs i v; some (c ∷ cs')

-- A block that grows keeps its cells; the new ones are indeterminate.
unfoldable pub realloc : Block → ℕ → Block
realloc cells n = cells ++ replicate (n - length cells) none

-- `for (k = i; k < i + n; k++) cells[k] = 0`
unfoldable pub clear : ℕ → ℕ → Block → Option Block
clear zero i cells = some cells
clear (suc n) i cells = do cells' ← store cells i 0; clear n (i + 1) cells'
