-- ===== src/Sort/Partition.antt =====
-- The partition of `q_sort`: the cells before the place of the key are at most the key, the cells behind
-- it at least. While the loop runs, the key has no cell: the cell at `i` is free for it.
use com_richard_test.Base.{
  ℕ, zero, suc, ◌+◌, ◌-◌, ◌≤◌, ◌<◌, List, Option, some, ltb, leb, Bool-cases, ◌⊎◌, inl, inr, ◌≡◌,
  refl, ap, ◌∙◌, arith, get_or, get_or-set_self, get_or-set_ne, set, length, length-set, ℕ_discrete,
}
use com_richard_test.Sort.Quick.{down_loop, up_loop, Parted, part_loop}
use com_richard_test.Sort.Shuffle.{Shuffle, same, trans, key_moves}

-- Where the search from above stops.
record Down (i j key : ℕ) (a : List ℕ) (k : ℕ) : Type 0 where
  low : i ≤ k
  high : k ≤ j
  passed : (m : ℕ) → k < m → m ≤ j → key ≤ get_or a m 0
  stopped : (k ≡ i) ⊎ (get_or a k 0 < key)

down_loop-Down : (n i j key : ℕ) (a : List ℕ) → i + n ≡ j → Down i j key a (down_loop n j key a)
unfolding down_loop
down_loop-Down zero i j key a e = record {
  low = omega arith;
  high = omega arith;
  passed = λ m lt le. absurd (omega arith);
  stopped = inl (omega arith);
}
down_loop-Down (suc n) i j key a e = elim (Bool-cases (leb key (get_or a j 0))) [
  | inl more ↦
      let d = down_loop-Down n i (j - 1) key a (omega arith) in
      rw more (record {
        low = d.low;
        high = omega (arith, d.high);
        passed = λ m lt le. elim (ℕ_discrete j m) [
          | yes e ↦
              let key_le : key ≤ get_or a j 0 = ground arith in
              omega (arith, key_le, ap (λ x. get_or a x 0) e)
          | no ne ↦ d.passed m lt (omega arith)
        ];
        stopped = d.stopped;
      })
  | inr stop ↦ rw stop (record {
    low = omega arith;
    high = omega arith;
    passed = λ m lt le. absurd (omega arith);
    stopped = inr (ground arith);
  })
]

-- Where the search from below stops.
record Up (i j key : ℕ) (a : List ℕ) (k : ℕ) : Type 0 where
  low : i ≤ k
  high : k ≤ j
  passed : (m : ℕ) → i ≤ m → m < k → get_or a m 0 ≤ key
  stopped : (k ≡ j) ⊎ (key < get_or a k 0)

up_loop-Up : (n i j key : ℕ) (a : List ℕ) → i + n ≡ j → Up i j key a (up_loop n i key a)
unfolding up_loop
up_loop-Up zero i j key a e = record {
  low = omega arith;
  high = omega arith;
  passed = λ m le lt. absurd (omega arith);
  stopped = inl (omega arith);
}
up_loop-Up (suc n) i j key a e = elim (Bool-cases (leb (get_or a i 0) key)) [
  | inl more ↦
      let u = up_loop-Up n (i + 1) j key a (omega arith) in
      rw more (record {
        low = omega (arith, u.low);
        high = u.high;
        passed = λ m le lt. elim (ℕ_discrete i m) [
          | yes e ↦
              let le_key : get_or a i 0 ≤ key = ground arith in
              omega (arith, le_key, ap (λ x. get_or a x 0) e)
          | no ne ↦ u.passed m (omega arith) lt
        ];
        stopped = u.stopped;
      })
  | inr stop ↦ rw stop (record {
    low = omega arith;
    high = omega arith;
    passed = λ m le lt. absurd (omega arith);
    stopped = inr (ground arith);
  })
]

module _ (lo hi key : ℕ) where
  -- The cells from `lo` to `i` are at most the key, and those behind `j` at least.
  pub record Split (i j : ℕ) (a : List ℕ) : Type 0 where
    pub low : (k : ℕ) → lo ≤ k → k < i → get_or a k 0 ≤ key
    pub high : (k : ℕ) → j < k → k < hi → key ≤ get_or a k 0

  -- One round of the loop: `i` and `j` come closer.
  record Round (i j : ℕ) (a : List ℕ) (i' j' : ℕ) (b : List ℕ) : Type 0 where
    lower : i ≤ i'
    ordered : i' ≤ j'
    upper : j' ≤ j
    closer : j' - i' < j - i
    parts : Split i' j' b
    shuffled : Shuffle lo hi (set a i key) (set b i' key)
    long : length b ≡ length a

  round :
      (i j k m : ℕ) (a : List ℕ)
      → lo ≤ i
      → i < j
      → j < hi
      → hi ≤ length a
      → Split i j a
      → Down i j key a k
      → Up i k key (set a i (get_or a k 0)) m
      → Round i j a m k (set (set a i (get_or a k 0)) k (get_or (set a i (get_or a k 0)) m 0))
  round i j k m a li lt hj fits s d u = record {
    lower = u.low;
    ordered = u.high;
    upper = d.high;
    closer = closer (d.stopped) (u.stopped);
    parts = record { low = low; high = high };
    shuffled = trans first second;
    long = length-set b k (get_or b m 0) ∙ b_long;
  }
    where
      b : List ℕ
      b = set a i (get_or a k 0)

      b_long : length b ≡ length a
      b_long = length-set a i (get_or a k 0)

      first : Shuffle lo hi (set a i key) (set b k key)
      first =
          key_moves lo hi a i k key li (omega arith) (omega (arith, d.low)) (omega (arith, d.high))
            fits

      second : Shuffle lo hi (set b k key) (set (set b k (get_or b m 0)) m key)
      second =
          key_moves lo hi b k m key (omega (arith, d.low)) (omega (arith, d.high))
            (omega (arith, u.low)) (omega (arith, u.high, d.high)) (omega (arith, b_long))

      low : (x : ℕ) → lo ≤ x → x < m → get_or (set b k (get_or b m 0)) x 0 ≤ key
      low x lx ltx =
          let kept : get_or (set b k (get_or b m 0)) x 0 ≡ get_or b x 0 =
            get_or-set_ne b k x (get_or b m 0) 0 (λ e. absurd (omega (arith, u.high, ltx, e))) in
          elim (Bool-cases (ltb x i)) [
            | inl before ↦
                let old : get_or b x 0 ≡ get_or a x 0 =
                  get_or-set_ne a i x (get_or a k 0) 0 (λ e. absurd (ground arith)) in
                omega (arith, kept, old, s.low x lx (ground arith))
            | inr behind ↦ omega (arith, kept, u.passed x (ground arith) ltx)
          ]

      high : (x : ℕ) → k < x → x < hi → key ≤ get_or (set b k (get_or b m 0)) x 0
      high x lx ltx =
          let kept : get_or (set b k (get_or b m 0)) x 0 ≡ get_or b x 0 =
            get_or-set_ne b k x (get_or b m 0) 0 (λ e. absurd (omega (arith, lx, e))) in
          let old : get_or b x 0 ≡ get_or a x 0 =
            get_or-set_ne a i x (get_or a k 0) 0 (λ e. absurd (omega (arith, lx, d.low, e))) in
          elim (Bool-cases (ltb j x)) [
            | inl far ↦ omega (arith, kept, old, s.high x (ground arith) ltx)
            | inr near ↦ omega (arith, kept, old, d.passed x lx (ground arith))
          ]

      at_i : get_or b i 0 ≡ get_or a k 0
      at_i = get_or-set_self a i (get_or a k 0) 0 (omega arith)

      closer : (k ≡ i) ⊎ (get_or a k 0 < key) → (m ≡ k) ⊎ (key < get_or b m 0) → k - m < j - i
      closer (inl e) q = omega (arith, e, u.low, u.high)
      closer (inr less) (inl e) = omega (arith, e)
      closer (inr less) (inr more) = elim (ℕ_discrete m i) [
        | yes e ↦ absurd (omega (arith, at_i, less, more, ap (λ x. get_or b x 0) e))
        | no ne ↦ omega (arith, ne, u.low, u.high, d.high)
      ]

  -- What the loop leaves, with the key put into its cell.
  pub record IsParted (i j : ℕ) (a : List ℕ) (o : Option Parted) : Type 0 where
    pub part : Parted
    pub returns : o ≡ some part
    pub from : i ≤ part.at
    pub to : part.at ≤ j
    pub smaller : (k : ℕ) → lo ≤ k → k < part.at → get_or (set part.array part.at key) k 0 ≤ key
    pub greater : (k : ℕ) → part.at < k → k < hi → key ≤ get_or (set part.array part.at key) k 0
    pub here : get_or (set part.array part.at key) part.at 0 ≡ key
    pub shuffled : Shuffle lo hi (set a i key) (set part.array part.at key)

  pub part_loop-IsParted :
      (fuel i j : ℕ) (a : List ℕ)
      → lo ≤ i
      → i ≤ j
      → j < hi
      → hi ≤ length a
      → j - i < fuel
      → Split i j a
      → IsParted i j a (part_loop fuel i j key a)
  unfolding part_loop
  part_loop-IsParted zero i j a li le hj fits enough s = absurd (omega arith)
  part_loop-IsParted (suc fuel) i j a li le hj fits enough s = elim (Bool-cases (ltb i j)) [
    | inl apart ↦
        let k = down_loop (j - i) j key a in
        let d = down_loop-Down (j - i) i j key a (omega arith) in
        let b = set a i (get_or a k 0) in
        let m = up_loop (k - i) i key b in
        let u = up_loop-Up (k - i) i k key b (omega (arith, d.low)) in
        let r = round i j k m a li (ground arith) hj fits s d u in
        let rest =
          part_loop-IsParted fuel m k (set b k (get_or b m 0)) (omega (arith, r.lower)) r.ordered
            (omega (arith, r.upper)) (omega (arith, r.long)) (omega (arith, r.closer)) r.parts in
        rw (part_loop, apart)
          (record {
            part = rest.part;
            returns = rest.returns;
            from = omega (arith, r.lower, rest.from);
            to = omega (arith, r.upper, rest.to);
            smaller = rest.smaller;
            greater = rest.greater;
            here = rest.here;
            shuffled = trans r.shuffled rest.shuffled;
          })
    | inr met ↦
        let one : i ≡ j = ground arith in
        rw (part_loop, met)
          (record {
            part = record { at = i; array = a };
            returns = refl;
            from = omega arith;
            to = omega arith;
            smaller = λ k lk ltk. omega (
              arith,
              s.low k lk ltk,
              get_or-set_ne a i k key 0 (λ e. absurd (omega (arith, ltk, e))),
            );
            greater = λ k lk ltk. omega (
              arith,
              s.high k (omega (arith, one, lk)) ltk,
              get_or-set_ne a i k key 0 (λ e. absurd (omega (arith, lk, e))),
            );
            here = get_or-set_self a i key 0 (omega arith);
            shuffled = same;
          })
  ]
