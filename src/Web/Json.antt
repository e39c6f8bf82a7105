-- ===== src/Web/Json.antt =====
-- What `getjsonv` of cpp/http/util.c does when the key is not there.
use com_richard_test.Base.{
  ℕ, zero, suc, ◌+◌, ◌≤◌, ◌<◌, List, false, leb, Bool-cases, inl, inr, ◌≡◌, refl, arith, length,
  drop,
}
use com_richard_test.Web.{put, starts_with, json_loop, getjsonv}

-- The key does not begin at any index from `i` on.
abbrev pub Missing : List ℕ → List ℕ → ℕ → Type 0
Missing s key i = (k : ℕ) → i ≤ k → k < length s → starts_with (drop k s) key ≡ false

json_loop-Missing :
    (fuel : ℕ) (s key : List ℕ) (i n : ℕ) (t : List ℕ)
    → i + fuel ≡ length s + 1
    → i ≤ length s
    → Missing s key i
    → json_loop fuel s key i 0 0 n t ≡ put t (length s) 0
unfolding json_loop
json_loop-Missing zero s key i n t e le h = absurd (omega arith)
json_loop-Missing (suc fuel) s key i n t e le h = elim (Bool-cases (leb (length s) i)) [
  | inl at_end ↦ let here : i ≡ length s = ground arith in rw (at_end, here) refl
  | inr inside ↦
      let differs = h i (omega arith) (ground arith) in
      rw (inside, differs)
        (json_loop-Missing fuel s key (i + 1) n t (omega arith) (ground arith)
          (λ k le' lt. h k (omega arith) lt))
]

-- If the key begins nowhere in the text, `getjsonv` writes nothing but a 0, at the index that is the
-- length of the text.
pub getjsonv-Missing :
    (s t key : List ℕ) (n : ℕ) → Missing s key 0 → getjsonv s t key n ≡ put t (length s) 0
unfolding getjsonv
getjsonv-Missing s t key n h =
    json_loop-Missing (length s + 1) s key 0 n t (omega arith) (omega arith) h
