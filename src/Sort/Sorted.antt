-- ===== src/Sort/Sorted.antt =====
-- `q_sort` and `myqsort` return the sorted array.
use com_richard_test.Base.{
  ℕ, zero, suc, ◌+◌, ◌-◌, ◌≤◌, ◌<◌, List, Option, some, leb, ltb, Bool-cases, inl, inr, ◌≡◌, refl,
  ap, ◌∙◌, arith, get_or, set, length, ℕ_discrete,
}
use mathlib.Core.Path.{subst}
use com_richard_test.Sort.{popup}
use com_richard_test.Sort.Exchange.{popup_descends}
use com_richard_test.Sort.Count.{count, count-popup}
use com_richard_test.Sort.Quick.{q_sort, myqsort}
use com_richard_test.Sort.Shuffle.{
  Shuffle, same, trans, widen, length-Shuffle, outside, inside, count-Shuffle, set_same,
}
use com_richard_test.Sort.Partition.{part_loop-IsParted}

-- From `lo` to `hi` no cell is less than one before it.
abbrev pub Ascends : ℕ → ℕ → List ℕ → Type 0
Ascends lo hi a = (k m : ℕ) → lo ≤ k → k ≤ m → m < hi → get_or a k 0 ≤ get_or a m 0

-- Two ascending ranges round a cell between them.
join :
    (lo hi at key : ℕ) (a : List ℕ)
    → get_or a at 0 ≡ key
    → ((k : ℕ) → lo ≤ k → k < at → get_or a k 0 ≤ key)
    → ((k : ℕ) → at + 1 ≤ k → k < hi → key ≤ get_or a k 0)
    → Ascends lo at a
    → Ascends (at + 1) hi a
    → Ascends lo hi a
join lo hi at key a here smaller greater before behind k m lk le ltm =
    elim (Bool-cases (ltb m at)) [
      | inl m_before ↦ before k m lk le (ground arith)
      | inr m_not ↦ elim (Bool-cases (ltb at k)) [
        | inl k_behind ↦ behind k m (ground arith) le ltm
        | inr k_not ↦
            let low : get_or a k 0 ≤ key = elim (ℕ_discrete k at) [
              | yes e ↦ omega (arith, here, ap (λ x. get_or a x 0) e)
              | no ne ↦ smaller k lk (ground arith)
            ] in
            let high : key ≤ get_or a m 0 = elim (ℕ_discrete m at) [
              | yes e ↦ omega (arith, here, ap (λ x. get_or a x 0) e)
              | no ne ↦ greater m (ground arith) ltm
            ] in
            omega (arith, low, high)
      ]
    ]

-- The range is sorted, and nothing but exchanges in it has happened.
record Sorts (lo hi : ℕ) (a : List ℕ) (o : Option (List ℕ)) : Type 0 where
  out : List ℕ
  returns : o ≡ some out
  shuffled : Shuffle lo hi a out
  ascends : Ascends lo hi out
  long : length out ≡ length a

-- The parts are sorted one after the other.
both :
    (lo hi at key : ℕ) (a a' b c : List ℕ)
    → lo ≤ at
    → at < hi
    → hi ≤ length a
    → Shuffle lo hi a a'
    → ((k : ℕ) → lo ≤ k → k < at → get_or a' k 0 ≤ key)
    → ((k : ℕ) → at < k → k < hi → key ≤ get_or a' k 0)
    → get_or a' at 0 ≡ key
    → Shuffle lo at a' b
    → Ascends lo at b
    → Shuffle (at + 1) hi b c
    → Ascends (at + 1) hi c
    → Sorts lo hi a (some c)
both lo hi at key a a' b c l h fits parts smaller greater here sh1 up1 sh2 up2 = record {
  out = c;
  returns = refl;
  shuffled = trans parts (
      trans (widen lo hi (omega arith) (omega arith) sh1)
        (widen lo hi (omega arith) (omega arith) sh2));
  ascends =
      join lo hi at key c
        (outside sh2 at (inl (omega arith)) ∙ outside sh1 at (inr (omega arith)) ∙ here)
        (λ k lk ltk. omega (
          arith,
          outside sh2 k (inl (omega arith)),
          inside (omega (arith, long)) (λ x. x ≤ key) sh1 smaller k lk ltk,
        ))
        (inside (omega (arith, long, length-Shuffle sh1)) (λ x. key ≤ x) sh2
          (λ k lk ltk.
            omega (arith, outside sh1 k (inr (omega arith)), greater k (omega arith) ltk)))
        (λ k m lk le ltm. omega (
          arith,
          up1 k m lk le ltm,
          outside sh2 k (inl (omega arith)),
          outside sh2 m (inl (omega arith)),
        ))
        up2;
  long = length-Shuffle sh2 ∙ length-Shuffle sh1 ∙ long;
}
  where
    long : length a' ≡ length a
    long = length-Shuffle parts

q_sort-Sorts :
    (fuel left end : ℕ) (a : List ℕ)
    → end ≤ length a
    → end - left < fuel
    → Sorts left end a (q_sort fuel left end a)
unfolding q_sort
q_sort-Sorts zero left end a fits enough = absurd (omega arith)
q_sort-Sorts (suc fuel) left end a fits enough = elim (Bool-cases (leb end (left + 1))) [
  | inl short ↦
      rw (q_sort, short)
        (record {
          out = a;
          returns = refl;
          shuffled = same;
          ascends = λ k m lk le ltm.
              let one : k ≡ m = ground arith in omega (arith, ap (λ x. get_or a x 0) one);
          long = refl;
        })
  | inr long ↦
      let key = get_or a left 0 in
      let p =
        part_loop-IsParted left end key (end - left) left (end - 1) a (omega arith) (ground arith)
          (ground arith) fits (ground arith)
          (record {
            low = λ k lk ltk. absurd (omega arith);
            high = λ k lk ltk. absurd (omega arith);
          }) in
      let a' = set p.part.array p.part.at key in
      let parts : Shuffle left end a a' =
        subst (λ t. Shuffle left end t a') (set_same a left) p.shuffled in
      let size = length-Shuffle parts in
      let first =
        q_sort-Sorts fuel left p.part.at a' (ground (arith, p.to, size)) (ground (arith, p.to)) in
      let second =
        q_sort-Sorts fuel (p.part.at + 1) end first.out (omega (arith, size, first.long))
          (ground (arith, p.from)) in
      rw (q_sort, long, p.returns, first.returns, second.returns)
        (both left end p.part.at key a a' first.out second.out p.from (ground (arith, p.to)) fits
          parts p.smaller p.greater p.here first.shuffled first.ascends second.shuffled
          second.ascends)
]

-- `myqsort` returns an array in which no cell is less than one before it, and every value stands as often
-- as in the array that was given.
pub myqsort-Sorted :
    (a : List ℕ)
    → (b : List ℕ) × (myqsort a ≡ some b)
      × Ascends 0 (length b) b
      × ((v : ℕ) → count v b ≡ count v a)
unfolding myqsort
myqsort-Sorted a =
    let s = q_sort-Sorts (length a + 1) 0 (length a) a (omega arith) (omega arith) in
    (
      s.out,
      s.returns,
      λ k m lk le ltm. s.ascends k m lk le (omega (arith, s.long)),
      λ v. count-Shuffle (omega arith) v s.shuffled,
    )

-- `popup` sorts downwards: no cell of its array is greater than one before it, and every value stands as
-- often as in the array that was given.
pub popup-Sorted :
    (a : List ℕ)
    → ((k m : ℕ) → k ≤ m → m < length a → get_or (popup a) m 0 ≤ get_or (popup a) k 0)
      × ((v : ℕ) → count v (popup a) ≡ count v a)
popup-Sorted a = (popup_descends a, λ v. count-popup v a)
