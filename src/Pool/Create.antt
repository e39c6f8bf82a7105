-- ===== src/Pool/Create.antt =====
-- The pool that `init_pool` makes.
use com_richard_test.Base.{
  ℕ, zero, suc, ◌+◌, ◌≤◌, ◌<◌, List, [], ◌∷◌, ◌++◌, Option, some, none, ◌≡◌, ◌≢◌, refl, sym, ap,
  ◌∙◌, arith, get_or, length,
}
use mathlib.Core.List.{append-nil, append_assoc}
use com_richard_test.Pool.{ConPool, max_connections, create_con_pool, connect_loop, init_pool}
use com_richard_test.Pool.Leases.{IsPool}

-- `c i, c (i + 1), ...`, of `n` elements.
abbrev row : (ℕ → ℕ) → ℕ → ℕ → List ℕ
row c zero i = []
row c (suc n) i = c i ∷ row c n (i + 1)

length-row : (c : ℕ → ℕ) (n i : ℕ) → length (row c n i) ≡ n
length-row c zero i = refl
length-row c (suc n) i = ap suc (length-row c n (i + 1))

get_or-row : (c : ℕ → ℕ) (n i k : ℕ) → k < n → get_or (row c n i) k 0 ≡ c (i + k)
get_or-row c zero i k h = absurd (omega arith)
get_or-row c (suc n) i zero h = ap c (omega arith)
get_or-row c (suc n) i (suc k) h = get_or-row c n (i + 1) k (omega arith) ∙ ap c (omega arith)

connect_loop-row :
    (connect : ℕ → Option ℕ) (c : ℕ → ℕ) (n i : ℕ) (cons : List ℕ)
    → ((k : ℕ) → i ≤ k → k < i + n → connect k ≡ some (c k))
    → connect_loop connect n i cons ≡ some (cons ++ row c n i)
unfolding connect_loop
connect_loop-row connect c zero i cons h = ap some (sym (append-nil cons))
connect_loop-row connect c (suc n) i cons h =
    rw (connect_loop, h i (omega arith) (omega arith))
      (connect_loop-row connect c n (i + 1) (cons ++ c i ∷ [])
          (λ k lo hi. h k (omega arith) (omega arith))
        ∙ ap some (append_assoc cons (c i ∷ []) (row c n (i + 1))))

-- If the ten calls of `init_con` return connections that are not NULL and all different, `init_pool`
-- returns a well-formed pool with none of them busy.
pub init_pool-IsPool :
    (connect : ℕ → Option ℕ) (c : ℕ → ℕ)
    → ((k : ℕ) → k < max_connections → connect k ≡ some (c k))
    → ((k : ℕ) → k < max_connections → c k ≢ 0)
    → ((j k : ℕ) → j < max_connections → k < max_connections → c j ≡ c k → j ≡ k)
    → (p : ConPool) × (init_pool connect ≡ some p)
      × IsPool p
      × (p.busy ≡ 0)
      × ((k : ℕ) → k < p.size → get_or p.cons k 0 ≡ c k)
unfolding init_pool create_con_pool
init_pool-IsPool connect c opens live distinct = (
  record create_con_pool { cons = row c 10 0 },
  ap put_in (connect_loop-row connect c 10 0 [] (λ k lo hi. opens k hi)),
  record {
    flags = refl;
    conns = refl;
    counted = refl;
    small = omega arith;
    live = λ k h e. live k h (sym (cell k h) ∙ e);
    distinct = λ j k hj hk e. distinct j k hj hk (sym (cell j hj) ∙ e ∙ cell k hk);
  },
  refl,
  cell,
)
  where
    put_in : Option (List ℕ) → Option ConPool
    put_in o = elim o [ none ↦ none | some cons ↦ some (record create_con_pool { cons = cons }) ]

    cell : (k : ℕ) → k < 10 → get_or (row c 10 0) k 0 ≡ c k
    cell k h = get_or-row c 10 0 k h ∙ ap c (omega arith)
