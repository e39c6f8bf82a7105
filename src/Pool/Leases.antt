-- ===== src/Pool/Leases.antt =====
-- The invariant of the pool, and what a lease and its end do to it.
use com_richard_test.Base.{
  ℕ, zero, suc, ◌+◌, ◌-◌, ◌%◌, ◌^◌, ◌<◌, List, [], ◌∷◌, ◌⊎◌, inl, inr, ◌≡◌, ◌≢◌, refl, sym, ap, ◌∙◌,
  arith, get_or, set, length, length-set, get_or-set_self,
}
use com_richard_test.Pool.{ConPool, get_con, release_con}
use com_richard_test.Pool.Loops.{
  taken, taken-le-length, taken-set_one, taken-set_zero, taken-set_same, taken_all, lease,
  give_back, GetCases, all_busy, first_free, get_loop-GetCases, ReleaseCases, unknown, at_slot,
  release_loop-ReleaseCases,
}

-- Both arrays have `size` cells, `busy` counts the taken slots, and the connections are not NULL and
-- all different.
pub record IsPool (p : ConPool) : Type 0 where
  pub flags : length p.flag ≡ p.size
  pub conns : length p.cons ≡ p.size
  pub counted : p.busy ≡ taken p.flag
  pub small : p.size < 2 ^ 31
  pub live : (k : ℕ) → k < p.size → get_or p.cons k 0 ≢ 0
  pub distinct : (j k : ℕ) → j < p.size → k < p.size → get_or p.cons j 0 ≡ get_or p.cons k 0 → j ≡ k

get_cases : (p : ConPool) → GetCases p 0 p.size (get_con p)
unfolding get_con
get_cases p = get_loop-GetCases p.size 0 p.size p (omega arith)

release_cases : (p : ConPool) (con : ℕ) → ReleaseCases p con 0 p.size (release_con p con)
unfolding release_con
release_cases p con = release_loop-ReleaseCases p.size 0 p.size con p (omega arith)

pub lease-IsPool :
    (p : ConPool) (k : ℕ) → IsPool p → k < p.size → get_or p.flag k 0 ≡ 0 → IsPool (lease p k)
lease-IsPool p k v lt free = record {
  flags = length-set p.flag k 1 ∙ v.flags;
  conns = v.conns;
  counted = omega (
    arith,
    v.counted,
    v.small,
    v.flags,
    taken-le-length p.flag,
    taken-set_one p.flag k (omega (arith, v.flags)) free,
  );
  small = v.small;
  live = v.live;
  distinct = v.distinct;
}

pub give_back-IsPool :
    (p : ConPool) (k : ℕ) → IsPool p → k < p.size → get_or p.flag k 0 ≢ 0 → IsPool (give_back p k)
give_back-IsPool p k v lt busy = record {
  flags = length-set p.flag k 0 ∙ v.flags;
  conns = v.conns;
  counted = omega (
    arith,
    v.counted,
    v.small,
    v.flags,
    taken-le-length p.flag,
    taken-set_zero p.flag k (omega (arith, v.flags)) busy,
  );
  small = v.small;
  live = v.live;
  distinct = v.distinct;
}

-- Slot `k` is the one that is leased: its connection is returned, and no other slot changes.
pub record LeasesSlot (p : ConPool) (k : ℕ) : Type 0 where
  pub inside : k < p.size
  pub was_free : get_or p.flag k 0 ≡ 0
  pub first : (m : ℕ) → m < k → get_or p.flag m 0 ≢ 0
  pub returned : get_con p ≡ record { con = get_or p.cons k 0; pool = lease p k }

-- On a well-formed pool either every slot is busy, and `get_con` returns NULL and leaves the pool as
-- it is; or it leases the first free slot, and the pool stays well-formed with one more busy slot.
pub get_con-IsPool :
    (p : ConPool)
    → IsPool p
    → ((p.busy ≡ p.size) × (get_con p ≡ record { con = 0; pool = p }))
      ⊎ ((k : ℕ) × LeasesSlot p k
          × IsPool (get_con p).pool
          × ((get_con p).pool.busy ≡ p.busy + 1)
          × ((get_con p).con ≢ 0))
get_con-IsPool p v = by_cases (get_cases p)
  where
    by_cases :
        GetCases p 0 p.size (get_con p)
        → ((p.busy ≡ p.size) × (get_con p ≡ record { con = 0; pool = p }))
          ⊎ ((k : ℕ) × LeasesSlot p k
              × IsPool (get_con p).pool
              × ((get_con p).pool.busy ≡ p.busy + 1)
              × ((get_con p).con ≢ 0))
    by_cases (all_busy none_free e) = inl (
      v.counted
          ∙ taken_all p.flag (λ i lt. none_free i (omega arith) (omega (arith, v.flags)))
          ∙ v.flags,
      e,
    )
    by_cases (first_free k lo hi free before e) = inr (
      k,
      record {
        inside = hi;
        was_free = free;
        first = λ m lt. before m (omega arith) lt;
        returned = e;
      },
      rw e (lease-IsPool p k v hi free),
      rw e (omega (arith, v.counted, v.small, v.flags, taken-le-length p.flag)),
      rw e (v.live k hi),
    )

-- The connection of a busy slot, released, frees that slot and no other, and the pool stays well-formed.
pub release_con-IsPool :
    (p : ConPool) (k : ℕ)
    → IsPool p
    → k < p.size
    → get_or p.flag k 0 ≢ 0
    → (release_con p (get_or p.cons k 0) ≡ give_back p k)
      × IsPool (release_con p (get_or p.cons k 0))
      × ((release_con p (get_or p.cons k 0)).busy + 1 ≡ p.busy)
release_con-IsPool p k v lt busy =
    let e = freed (release_cases p (get_or p.cons k 0)) in
    (
      e,
      rw e (give_back-IsPool p k v lt busy),
      rw e (
          omega (
            arith,
            v.counted,
            v.small,
            v.flags,
            taken-le-length p.flag,
            taken-set_zero p.flag k (omega (arith, v.flags)) busy,
          )),
    )
  where
    freed : {q : ConPool} → ReleaseCases p (get_or p.cons k 0) 0 p.size q → q ≡ give_back p k
    freed (unknown nowhere e) = absurd (nowhere k (omega arith) lt refl)
    freed (at_slot m lo hi same e) = e ∙ ap (give_back p) (v.distinct m k hi lt (sym same))

set_back : (fs : List ℕ) (k : ℕ) → get_or fs k 0 ≡ 0 → set (set fs k 1) k 0 ≡ fs
set_back [] k e = refl
set_back (f ∷ fs) zero e = ap (λ t. t ∷ fs) (sym e)
set_back (f ∷ fs) (suc k) e = ap (λ t. f ∷ t) (set_back fs k e)

-- Releasing the connection that was just leased gives the pool back as it was.
pub release_con-get_con :
    (p : ConPool) → IsPool p → p.busy ≢ p.size → release_con (get_con p).pool (get_con p).con ≡ p
release_con-get_con p v room = by_cases (get_con-IsPool p v)
  where
    by_cases :
        ((p.busy ≡ p.size) × (get_con p ≡ record { con = 0; pool = p }))
          ⊎ ((k : ℕ) × LeasesSlot p k
              × IsPool (get_con p).pool
              × ((get_con p).pool.busy ≡ p.busy + 1)
              × ((get_con p).con ≢ 0))
        → release_con (get_con p).pool (get_con p).con ≡ p
    by_cases (inl (full, _)) = absurd (room full)
    by_cases (inr (k, s, _, _, _)) =
        let leased = lease-IsPool p k v s.inside s.was_free in
        let now_busy : get_or (set p.flag k 1) k 0 ≡ 1 =
          get_or-set_self p.flag k 1 0 (omega (arith, s.inside, v.flags)) in
        let b : ((p.busy + 1) % 2 ^ 32 + 2 ^ 32 - 1) % 2 ^ 32 ≡ p.busy =
          omega (arith, v.counted, v.small, v.flags, taken-le-length p.flag) in
        rw s.returned (
          (release_con-IsPool (lease p k) k leased s.inside (omega (arith, now_busy))).0
          ∙ (λ i. record p { flag = set_back p.flag k s.was_free i; busy = b i }))

two_slots :
    (p : ConPool) (k j : ℕ)
    → IsPool p
    → LeasesSlot p k
    → LeasesSlot (lease p k) j
    → get_or p.cons k 0 ≢ get_or p.cons j 0
two_slots p k j v s t same =
    let now_busy : get_or (set p.flag k 1) k 0 ≡ 1 =
      get_or-set_self p.flag k 1 0 (omega (arith, s.inside, v.flags)) in
    let one : k ≡ j = v.distinct k j s.inside t.inside same in
    absurd (omega (arith, now_busy, ap (λ i. get_or (set p.flag k 1) i 0) one, t.was_free))

-- On a well-formed pool, two calls of `get_con` in a row that both return a connection return two
-- different ones.
pub get_con_twice :
    (p : ConPool)
    → IsPool p
    → (get_con (get_con p).pool).con ≢ 0
    → (get_con p).con ≢ (get_con (get_con p).pool).con
get_con_twice p v = first_call (get_con-IsPool p v)
  where
    after :
        (k j : ℕ)
        → LeasesSlot p k
        → LeasesSlot (lease p k) j
        → (get_con p).con ≢ (get_con (get_con p).pool).con
    after k j s t = rw (s.returned, t.returned) (two_slots p k j v s t)

    after_first :
        (k : ℕ)
        → LeasesSlot p k
        → (get_con (get_con p).pool).con ≢ 0
        → (get_con p).con ≢ (get_con (get_con p).pool).con
    after_first k s second =
        elim (get_con-IsPool (lease p k) (lease-IsPool p k v s.inside s.was_free)) [
          | inl (_, full) ↦
              absurd (second (ap (λ g. (get_con g.pool).con) s.returned ∙ ap (λ g. g.con) full))
          | inr (j, t, _, _, _) ↦ after k j s t
        ]

    first_call :
        ((p.busy ≡ p.size) × (get_con p ≡ record { con = 0; pool = p }))
          ⊎ ((k : ℕ) × LeasesSlot p k
              × IsPool (get_con p).pool
              × ((get_con p).pool.busy ≡ p.busy + 1)
              × ((get_con p).con ≢ 0))
        → (get_con (get_con p).pool).con ≢ 0
        → (get_con p).con ≢ (get_con (get_con p).pool).con
    first_call (inl (_, full)) =
        λ second. absurd (second (ap (λ g. (get_con g.pool).con) full ∙ ap (λ g. g.con) full))
    first_call (inr (k, s, _, _, _)) = after_first k s

-- Releasing the connection of an idle slot of a well-formed pool spoils the count: `busy` differs from
-- the number of busy slots in the pool that `release_con` leaves.
pub release_con_idle :
    (p : ConPool) (k : ℕ)
    → IsPool p
    → k < p.size
    → get_or p.flag k 0 ≡ 0
    → (release_con p (get_or p.cons k 0)).busy ≢ taken (release_con p (get_or p.cons k 0)).flag
release_con_idle p k v lt idle = spoiled (release_cases p (get_or p.cons k 0))
  where
    spoiled : {q : ConPool} → ReleaseCases p (get_or p.cons k 0) 0 p.size q → q.busy ≢ taken q.flag
    spoiled (unknown nowhere e) = absurd (nowhere k (omega arith) lt refl)
    spoiled (at_slot m lo hi same e) =
        let one : m ≡ k = v.distinct m k hi lt (sym same) in
        rw (e, one)
          (omega (
            arith,
            v.counted,
            v.small,
            v.flags,
            taken-le-length p.flag,
            taken-set_same p.flag k idle,
          ))
