-- ===== src/Sort/Quick.antt =====
-- `q_sort` of cpp/algorithm/algorithm.c. The `int` index `right` can be -1: the argument `end` is one more.
-- The counter `round` and the array that is printed are left out.
use com_richard_test.Base.{
  ◌>>=◌, ℕ, zero, suc, ◌+◌, ◌-◌, List, true, false, Option, none, some, ltb, leb, if◌then◌else◌,
  get_or, set, length,
}

-- `while (i < j && key <= a[j]) j--`, with `n` rounds from `j` down to `i`
unfoldable pub down_loop : ℕ → ℕ → ℕ → List ℕ → ℕ
down_loop zero j key a = j
down_loop (suc n) j key a =
    let rest = down_loop n (j - 1) key a in if leb key (get_or a j 0) then rest else j

-- `while (i < j && key >= a[i]) i++`, with `n` rounds from `i` up to `j`
unfoldable pub up_loop : ℕ → ℕ → ℕ → List ℕ → ℕ
up_loop zero i key a = i
up_loop (suc n) i key a =
    let rest = up_loop n (i + 1) key a in if leb (get_or a i 0) key then rest else i

-- Where the loops meet, and the array there.
pub record Parted : Type 0 where
  pub at : ℕ
  pub array : List ℕ

-- `while (i < j)`; `none` is that the fuel has run out
unfoldable pub part_loop : ℕ → ℕ → ℕ → ℕ → List ℕ → Option Parted
part_loop zero i j key a = none
part_loop (suc fuel) i j key a =
    let j' = down_loop (j - i) j key a in
    let a' = set a i (get_or a j' 0) in
    let i' = up_loop (j' - i) i key a' in
    elim (ltb i j) [
      | true ↦ part_loop fuel i' j' key (set a' j' (get_or a' i' 0))
      | false ↦ some (record { at = i; array = a })
    ]

unfoldable pub q_sort : ℕ → ℕ → ℕ → List ℕ → Option (List ℕ)
q_sort zero left end a = none
q_sort (suc fuel) left end a = elim (leb end (left + 1)) [
  | true ↦ some a
  | false ↦ do
    p ← part_loop (end - left) left (end - 1) (get_or a left 0) a
    let a' = set p.array p.at (get_or a left 0)
    b ← q_sort fuel left p.at a'
    q_sort fuel (p.at + 1) end b
]

-- The call of `myqsort`
unfoldable pub myqsort : List ℕ → Option (List ℕ)
myqsort a = q_sort (length a + 1) 0 (length a) a
