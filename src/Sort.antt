-- ===== src/Sort.antt =====
-- `popup` of cpp/algorithm/algorithm.c, which sorts an array downwards by exchanges. The array of random
-- numbers is the argument. The counter `round`, which is only printed, is left out.
pub mod Exchange
pub mod Count
pub mod Quick
pub mod Shuffle
pub mod Partition
pub mod Sorted
mod Tests
use com_richard_test.Base.{ℕ, zero, suc, ◌+◌, ◌-◌, List, ltb, if◌then◌else◌, get_or, set, length}

-- The body of the inner loop: `if (a[i] < a[j])`, exchange the two.
unfoldable pub exchange : ℕ → ℕ → List ℕ → List ℕ
exchange i j a =
    if ltb (get_or a i 0) (get_or a j 0) then set (set a i (get_or a j 0)) j (get_or a i 0) else a

-- `for (j = ...; j < l; j++)`, with `n` rounds left
unfoldable pub inner_loop : ℕ → ℕ → ℕ → List ℕ → List ℕ
inner_loop zero i j a = a
inner_loop (suc n) i j a = inner_loop n i (j + 1) (exchange i j a)

-- `for (i = ...; i < l; i++)`, with `n` rounds left. The inner loop starts at `i` and has as many.
unfoldable pub outer_loop : ℕ → ℕ → List ℕ → List ℕ
outer_loop zero i a = a
outer_loop (suc n) i a = outer_loop n (i + 1) (inner_loop (suc n) i i a)

unfoldable pub popup : List ℕ → List ℕ
popup a = outer_loop (length a) 0 a
