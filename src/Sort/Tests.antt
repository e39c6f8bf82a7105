-- ===== src/Sort/Tests.antt =====
-- `popup` on a concrete array, and the theorems at concrete inputs.
use com_richard_test.Base.{ℕ, ◌≤◌, ◌<◌, List, [], ◌∷◌, some, ◌≡◌, refl, length, get_or}
use com_richard_test.Sort.{exchange, inner_loop, outer_loop, popup}
use com_richard_test.Sort.Count.{count}
use com_richard_test.Sort.Quick.{down_loop, up_loop, part_loop, q_sort, myqsort}
use com_richard_test.Sort.Sorted.{Ascends, myqsort-Sorted, popup-Sorted}

abbrev numbers : List ℕ
numbers = 3 ∷ 9 ∷ 0 ∷ 9 ∷ 5 ∷ []

numbers_sorted : popup numbers ≡ 9 ∷ 9 ∷ 5 ∷ 3 ∷ 0 ∷ []
unfolding popup outer_loop inner_loop exchange
numbers_sorted = refl

quick_sorted : myqsort numbers ≡ some (0 ∷ 3 ∷ 5 ∷ 9 ∷ 9 ∷ [])
unfolding myqsort q_sort part_loop down_loop up_loop
quick_sorted = refl

popup-Sorted_example :
    ((k m : ℕ) → k ≤ m → m < 5 → get_or (popup numbers) m 0 ≤ get_or (popup numbers) k 0)
    × ((v : ℕ) → count v (popup numbers) ≡ count v numbers)
popup-Sorted_example = popup-Sorted numbers

myqsort-Sorted_example :
    (b : List ℕ) × (myqsort numbers ≡ some b)
    × Ascends 0 (length b) b
    × ((v : ℕ) → count v b ≡ count v numbers)
myqsort-Sorted_example = myqsort-Sorted numbers
