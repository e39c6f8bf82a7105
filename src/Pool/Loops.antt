-- ===== src/Pool/Loops.antt =====
-- The two searches of the pool, and the count of the busy slots.
use com_richard_test.Base.{
  ℕ, zero, suc, ◌+◌, ◌-◌, ◌%◌, ◌^◌, ◌≤◌, ◌<◌, List, [], ◌∷◌, ◌==◌, Bool-cases, if◌then◌else◌, inl,
  inr, ◌≡◌, ◌≢◌, refl, arith, get_or, set, length,
}
use com_richard_test.Pool.{ConPool, Got, get_loop, release_loop}

-- How many slots are taken.
abbrev pub taken : List ℕ → ℕ
taken [] = 0
taken (f ∷ fs) = (if f == 0 then 0 else 1) + taken fs

pub taken-le-length : (fs : List ℕ) → taken fs ≤ length fs
taken-le-length [] = omega arith
taken-le-length (f ∷ fs) = ground (arith, taken-le-length fs)

pub taken-set_one :
    (fs : List ℕ) (i : ℕ) → i < length fs → get_or fs i 0 ≡ 0 → taken (set fs i 1) ≡ taken fs + 1
taken-set_one [] i h e = absurd (omega arith)
taken-set_one (f ∷ fs) zero h e = ground arith
taken-set_one (f ∷ fs) (suc i) h e = omega (arith, taken-set_one fs i (omega arith) e)

pub taken-set_zero :
    (fs : List ℕ) (i : ℕ) → i < length fs → get_or fs i 0 ≢ 0 → taken (set fs i 0) + 1 ≡ taken fs
taken-set_zero [] i h e = absurd (omega arith)
taken-set_zero (f ∷ fs) zero h e = ground arith
taken-set_zero (f ∷ fs) (suc i) h e = omega (arith, taken-set_zero fs i (omega arith) e)

pub taken-set_same : (fs : List ℕ) (i : ℕ) → get_or fs i 0 ≡ 0 → taken (set fs i 0) ≡ taken fs
taken-set_same [] i e = refl
taken-set_same (f ∷ fs) zero e = ground arith
taken-set_same (f ∷ fs) (suc i) e = omega (arith, taken-set_same fs i e)

pub taken_all : (fs : List ℕ) → ((i : ℕ) → i < length fs → get_or fs i 0 ≢ 0) → taken fs ≡ length fs
taken_all [] h = refl
taken_all (f ∷ fs) h = ground (arith, h 0, taken_all fs (λ i lt. h (suc i) (omega arith)))

-- The pool behind the lease of slot `k`.
abbrev pub lease : ConPool → ℕ → ConPool
lease p k = record p { flag = set p.flag k 1; busy = (p.busy + 1) % 2 ^ 32 }

abbrev pub give_back : ConPool → ℕ → ConPool
give_back p k = record p { flag = set p.flag k 0; busy = (p.busy + 2 ^ 32 - 1) % 2 ^ 32 }

-- The search of `get_con` over the slots from `i` to `j`: none is free, or the first free one is `k`.
pub data GetCases (p : ConPool) (i j : ℕ) (g : Got) : Type 0 where
  all_busy :
      ((k : ℕ) → i ≤ k → k < j → get_or p.flag k 0 ≢ 0)
      → g ≡ record { con = 0; pool = p }
      → GetCases p i j g
  first_free :
      (k : ℕ)
      → i ≤ k
      → k < j
      → get_or p.flag k 0 ≡ 0
      → ((m : ℕ) → i ≤ m → m < k → get_or p.flag m 0 ≢ 0)
      → g ≡ record { con = get_or p.cons k 0; pool = lease p k }
      → GetCases p i j g

pub get_loop-GetCases : (n i j : ℕ) (p : ConPool) → i + n ≡ j → GetCases p i j (get_loop n i p)
unfolding get_loop
get_loop-GetCases zero i j p e = all_busy (λ k lo hi. absurd (omega arith)) refl
get_loop-GetCases (suc n) i j p e = elim (Bool-cases (get_or p.flag i 0 == 0)) [
  | inl free ↦
      first_free i (omega arith) (omega arith) (ground arith) (λ m lo hi. absurd (omega arith))
        (rw free)
  | inr busy ↦ rw busy (behind (ground arith) (get_loop-GetCases n (i + 1) j p (omega arith)))
]
  where
    behind :
        get_or p.flag i 0 ≢ 0
        → GetCases p (i + 1) j (get_loop n (i + 1) p)
        → GetCases p i j (get_loop n (i + 1) p)
    behind ne (all_busy none_free g) = all_busy (from_next none_free) g
      where
        from_next :
            ((k : ℕ) → i + 1 ≤ k → k < j → get_or p.flag k 0 ≢ 0)
            → (k : ℕ) → i ≤ k
            → k < j
            → get_or p.flag k 0 ≢ 0
        from_next h k lo hi = ground (arith, h k)
    behind ne (first_free k lo hi free before g) =
        first_free k (omega arith) hi free (λ m l h. ground (arith, before m)) g

-- The search of `release_con`: the connection is in no slot, or its first slot is `k`.
pub data ReleaseCases (p : ConPool) (con i j : ℕ) (q : ConPool) : Type 0 where
  unknown : ((k : ℕ) → i ≤ k → k < j → con ≢ get_or p.cons k 0) → q ≡ p → ReleaseCases p con i j q
  at_slot :
      (k : ℕ)
      → i ≤ k
      → k < j
      → con ≡ get_or p.cons k 0
      → q ≡ give_back p k
      → ReleaseCases p con i j q

pub release_loop-ReleaseCases :
    (n i j con : ℕ) (p : ConPool) → i + n ≡ j → ReleaseCases p con i j (release_loop n i con p)
unfolding release_loop
release_loop-ReleaseCases zero i j con p e = unknown (λ k lo hi. absurd (omega arith)) refl
release_loop-ReleaseCases (suc n) i j con p e = elim (Bool-cases (con == get_or p.cons i 0)) [
  | inl here ↦ at_slot i (omega arith) (omega arith) (ground arith) (rw here)
  | inr other ↦
      rw other (behind (ground arith) (release_loop-ReleaseCases n (i + 1) j con p (omega arith)))
]
  where
    behind :
        con ≢ get_or p.cons i 0
        → ReleaseCases p con (i + 1) j (release_loop n (i + 1) con p)
        → ReleaseCases p con i j (release_loop n (i + 1) con p)
    behind ne (unknown nowhere q) = unknown (λ k lo hi. ground (arith, nowhere k)) q
    behind ne (at_slot k lo hi eq q) = at_slot k (omega arith) hi eq q
