-- ===== src/Pool/Tests.antt =====
-- The theorems on the pool at a concrete pool of three connections, the first of them taken.
use com_richard_test.Base.{
  ℕ, zero, suc, true, false, ◌+◌, ◌<◌, [], ◌∷◌, ◌⊎◌, ◌≡◌, ◌≢◌, refl, arith, get_or, some,
}
use com_richard_test.Pool.{ConPool, init_pool, get_con, get_loop}
use com_richard_test.Pool.Leases.{IsPool, LeasesSlot, get_con-IsPool}
use com_richard_test.Pool.Clients.{
  System, mark, gets, Reach, here, next, Refines, idle, Reach-Refines, get_con-fresh,
}
use com_richard_test.Pool.Create.{init_pool-IsPool}

abbrev three : ConPool
three = record { size = 3; busy = 1; flag = 1 ∷ 0 ∷ 0 ∷ []; cons = 11 ∷ 12 ∷ 13 ∷ [] }

three_live : (k : ℕ) → k < 3 → get_or three.cons k 0 ≢ 0
three_live zero h = omega arith
three_live (suc zero) h = omega arith
three_live (suc (suc zero)) h = omega arith
three_live (suc (suc (suc k))) h = absurd (omega arith)

three_slot : (k : ℕ) → k < 3 → get_or three.cons k 0 ≡ k + 11
three_slot zero h = refl
three_slot (suc zero) h = refl
three_slot (suc (suc zero)) h = refl
three_slot (suc (suc (suc k))) h = absurd (omega arith)

three-IsPool : IsPool three
three-IsPool = record {
  flags = refl;
  conns = refl;
  counted = refl;
  small = omega arith;
  live = three_live;
  distinct = λ j k hj hk e. omega (arith, three_slot j hj, three_slot k hk, e);
}

get_con-IsPool_example :
    ((three.busy ≡ three.size) × (get_con three ≡ record { con = 0; pool = three }))
    ⊎ ((k : ℕ) × LeasesSlot three k
        × IsPool (get_con three).pool
        × ((get_con three).pool.busy ≡ three.busy + 1)
        × ((get_con three).con ≢ 0))
get_con-IsPool_example = get_con-IsPool three three-IsPool

second_lease : (get_con (get_con three).pool).con ≡ 13
unfolding get_con get_loop
second_lease = refl

init_pool-IsPool_example :
    (p : ConPool) × (init_pool (λ i. some (i + 100)) ≡ some p)
    × IsPool p
    × (p.busy ≡ 0)
    × ((k : ℕ) → k < p.size → get_or p.cons k 0 ≡ k + 100)
init_pool-IsPool_example =
    init_pool-IsPool (λ i. some (i + 100)) (λ i. i + 100) (λ k h. refl) (λ k h. omega arith)
      (λ j k hj hk e. omega arith)

abbrev two : ConPool
two = record { size = 2; busy = 0; flag = 0 ∷ 0 ∷ []; cons = 11 ∷ 12 ∷ [] }

two_live : (k : ℕ) → k < 2 → get_or two.cons k 0 ≢ 0
two_live zero h = omega arith
two_live (suc zero) h = omega arith
two_live (suc (suc k)) h = absurd (omega arith)

two_slot : (k : ℕ) → k < 2 → get_or two.cons k 0 ≡ k + 11
two_slot zero h = refl
two_slot (suc zero) h = refl
two_slot (suc (suc k)) h = absurd (omega arith)

two-IsPool : IsPool two
two-IsPool = record {
  flags = refl;
  conns = refl;
  counted = refl;
  small = omega arith;
  live = two_live;
  distinct = λ j k hj hk e. omega (arith, two_slot j hj, two_slot k hk, e);
}

first_lease : (get_con two).con ≡ 11
unfolding get_con get_loop
first_lease = refl

-- One client has a connection.
abbrev one_client : System
one_client = record { pool = (get_con two).pool; leased = mark (λ c. false) (get_con two).con true }

one_client-Reach : Reach (idle two) one_client
one_client-Reach = next here (gets (idle two) (omega (arith, first_lease)))

Reach-Refines_example : Refines one_client
Reach-Refines_example = Reach-Refines two one_client two-IsPool refl one_client-Reach

get_con-fresh_example :
    ((one_client.leased (get_con one_client.pool).con ≡ false)
      × ((k : ℕ) × (k < one_client.pool.size)
          × (get_or one_client.pool.cons k 0 ≡ (get_con one_client.pool).con)))
    ⊎ (((get_con one_client.pool).con ≡ 0)
        × ((k : ℕ)
            → k < one_client.pool.size
            → one_client.leased (get_or one_client.pool.cons k 0) ≡ true))
get_con-fresh_example = get_con-fresh two one_client two-IsPool refl one_client-Reach
