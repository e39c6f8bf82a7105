-- ===== src/Sort/Exchange.antt =====
-- The order that the exchanges of `popup` bring about.
use com_richard_test.Base.{
  ℕ, zero, suc, ◌+◌, ◌≤◌, ◌<◌, List, ltb, Bool-cases, inl, inr, ◌≡◌, ◌≢◌, refl, ap, ◌∙◌, arith,
  get_or, get_or-set_self, get_or-set_ne, set, length, length-set, ℕ_discrete,
}
use com_richard_test.Sort.{exchange, inner_loop, outer_loop, popup}
use com_richard_test.Sort.Count.{length-exchange, length-inner_loop}

-- What an exchange of the cells `i` and `j` of `a` leaves in `b`.
record Exchanged (i j : ℕ) (a b : List ℕ) : Type 0 where
  grows : get_or a i 0 ≤ get_or b i 0
  ordered : get_or b j 0 ≤ get_or b i 0
  bounded : (m : ℕ) → get_or a i 0 ≤ m → get_or a j 0 ≤ m → (get_or b i 0 ≤ m) × (get_or b j 0 ≤ m)
  others : (k : ℕ) → i ≢ k → j ≢ k → get_or b k 0 ≡ get_or a k 0

exchange-Exchanged :
    (i j : ℕ) (a : List ℕ) → i < length a → j < length a → Exchanged i j a (exchange i j a)
unfolding exchange
exchange-Exchanged i j a hi hj = elim (Bool-cases (ltb (get_or a i 0) (get_or a j 0))) [
  | inl lt ↦ rw lt (swapped (ground arith))
  | inr ge ↦ rw ge (record {
    grows = omega arith;
    ordered = ground arith;
    bounded = λ m p q. (p, q);
    others = λ k p q. refl;
  })
]
  where
    swapped :
        get_or a i 0 < get_or a j 0
        → Exchanged i j a (set (set a i (get_or a j 0)) j (get_or a i 0))
    swapped lt =
        let b = set a i (get_or a j 0) in
        let ne : j ≢ i = λ e. absurd (omega (arith, lt, ap (λ k. get_or a k 0) e)) in
        let at_j : get_or (set b j (get_or a i 0)) j 0 ≡ get_or a i 0 =
          get_or-set_self b j (get_or a i 0) 0 (omega (arith, length-set a i (get_or a j 0))) in
        let at_i : get_or (set b j (get_or a i 0)) i 0 ≡ get_or a j 0 =
          get_or-set_ne b j i (get_or a i 0) 0 ne ∙ get_or-set_self a i (get_or a j 0) 0 hi in
        record {
          grows = omega (arith, at_i, lt);
          ordered = omega (arith, at_i, at_j, lt);
          bounded = λ m p q. (omega (arith, at_i), omega (arith, at_j));
          others = λ k p q.
              get_or-set_ne b j k (get_or a i 0) 0 q ∙ get_or-set_ne a i k (get_or a j 0) 0 p;
        }

-- No cell from `i` to `j` is greater than cell `i`.
abbrev Heads : ℕ → ℕ → List ℕ → Type 0
Heads i j a = (k : ℕ) → i ≤ k → k < j → get_or a k 0 ≤ get_or a i 0

-- The first `i` cells are in place: none behind one of them is greater.
abbrev Placed : ℕ → List ℕ → Type 0
Placed i a = (k m : ℕ) → k < i → k ≤ m → m < length a → get_or a m 0 ≤ get_or a k 0

exchange-Heads :
    (i j : ℕ) (a : List ℕ) → i ≤ j → j < length a → Heads i j a → Heads i (j + 1) (exchange i j a)
exchange-Heads i j a le lt heads k lo hi =
    let x = exchange-Exchanged i j a (omega arith) lt in
    elim (ℕ_discrete j k) [
      | yes e ↦ omega (arith, x.ordered, ap (λ t. get_or (exchange i j a) t 0) e)
      | no nj ↦ elim (ℕ_discrete i k) [
        | yes e ↦ omega (arith, ap (λ t. get_or (exchange i j a) t 0) e)
        | no ni ↦ omega (arith, x.others k ni nj, x.grows, heads k lo (omega arith))
      ]
    ]

exchange-Placed :
    (i j : ℕ) (a : List ℕ) → i ≤ j → j < length a → Placed i a → Placed i (exchange i j a)
exchange-Placed i j a le lt placed k m hk hm hl =
    let x = exchange-Exchanged i j a (omega arith) lt in
    let fixed = x.others k (omega arith) (omega arith) in
    let both =
      x.bounded (get_or a k 0) (placed k i hk (omega arith) (omega arith))
        (placed k j hk (omega arith) lt) in
    elim (ℕ_discrete i m) [
      | yes e ↦ omega (arith, both.0, fixed, ap (λ t. get_or (exchange i j a) t 0) e)
      | no ni ↦ elim (ℕ_discrete j m) [
        | yes e ↦ omega (arith, both.1, fixed, ap (λ t. get_or (exchange i j a) t 0) e)
        | no nj ↦ omega (
          arith,
          fixed,
          x.others m ni nj,
          placed k m hk hm (omega (arith, length-exchange i j a)),
        )
      ]
    ]

inner_loop_lem :
    (n i j : ℕ) (a : List ℕ)
    → i ≤ j
    → j + n ≤ length a
    → Heads i j a
    → Placed i a
    → Heads i (j + n) (inner_loop n i j a) × Placed i (inner_loop n i j a)
unfolding inner_loop
inner_loop_lem zero i j a le h heads placed = (λ k lo hi. heads k lo (omega arith), placed)
inner_loop_lem (suc n) i j a le h heads placed =
    let r =
      inner_loop_lem n i (j + 1) (exchange i j a) (omega arith)
        (omega (arith, length-exchange i j a)) (exchange-Heads i j a le (omega arith) heads)
        (exchange-Placed i j a le (omega arith) placed) in
    (λ k lo hi. r.0 k lo (omega arith), r.1)

outer_loop-Placed :
    (n i : ℕ) (a : List ℕ) → i + n ≡ length a → Placed i a → Placed (i + n) (outer_loop n i a)
unfolding outer_loop
outer_loop-Placed zero i a h placed = λ k m hk. placed k m (omega arith)
outer_loop-Placed (suc n) i a h placed =
    let b = inner_loop (suc n) i i a in
    let r =
      inner_loop_lem (suc n) i i a (omega arith) (omega arith) (λ k lo hi. absurd (omega arith))
        placed in
    let same : length b ≡ length a = length-inner_loop (suc n) i i a in
    let next : Placed (i + 1) b = λ k m hk hm hl. elim (ℕ_discrete i k) [
      | yes e ↦ omega (arith, r.0 m (omega arith) (omega (arith, same)), ap (λ t. get_or b t 0) e)
      | no ne ↦ r.1 k m (omega arith) hm hl
    ] in
    let rest = outer_loop-Placed n (i + 1) b (omega (arith, same)) next in
    λ k m hk. rest k m (omega arith)

length-outer_loop : (n i : ℕ) (a : List ℕ) → length (outer_loop n i a) ≡ length a
unfolding outer_loop
length-outer_loop zero i a = refl
length-outer_loop (suc n) i a =
    length-outer_loop n (i + 1) (inner_loop (suc n) i i a) ∙ length-inner_loop (suc n) i i a

-- `popup` sorts downwards: no cell of the result is greater than one before it.
pub popup_descends :
    (a : List ℕ) (k m : ℕ) → k ≤ m → m < length a → get_or (popup a) m 0 ≤ get_or (popup a) k 0
unfolding popup
popup_descends a k m le lt =
    outer_loop-Placed (length a) 0 a (omega arith) (λ k m hk. absurd (omega arith)) k m
      (omega arith) le (omega (arith, length-outer_loop (length a) 0 a))
