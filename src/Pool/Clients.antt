-- ===== src/Pool/Clients.antt =====
-- The pool and its clients, as a transition system: any clients call `get_con` and `release_con` of
-- cpp/mysql/dbpool.c in any order, and each releases only a connection that is leased. The abstract view
-- is the set of the connections that are leased.
use com_richard_test.Base.{
  ℕ, zero, suc, ◌<◌, List, [], ◌∷◌, Bool, true, false, not, ◌==◌, if◌then◌else◌, Bool-cases, ==_iff,
  ◌⊎◌, inl, inr, ◌≡◌, ◌≢◌, refl, sym, ap, ◌∙◌, arith, get_or, set, length, get_or-set_self,
  get_or-set_ne, ℕ_discrete,
}
use mathlib.Core.Path.{subst}
use mathlib.Core.Bool.{false≢true}
use com_richard_test.Pool.{ConPool, get_con, release_con}
use com_richard_test.Pool.Loops.{taken, taken-le-length}
use com_richard_test.Pool.Leases.{
  IsPool, LeasesSlot, lease-IsPool, give_back-IsPool, get_con-IsPool, release_con-IsPool,
}

pub record System : Type 0 where
  pub pool : ConPool
  pub leased : ℕ → Bool

abbrev pub mark : (ℕ → Bool) → ℕ → Bool → ℕ → Bool
mark f c b d = if d == c then b else f d

-- A client gets a connection, or finds none, or releases a leased one.
pub data Step : System → System → Type 0 where
  gets :
      (s : System)
      → (get_con s.pool).con ≢ 0
      → Step s (record {
        pool = (get_con s.pool).pool;
        leased = mark s.leased (get_con s.pool).con true;
      })
  finds_none :
      (s : System) → (get_con s.pool).con ≡ 0 → Step s (record s { pool = (get_con s.pool).pool })
  releases :
      (s : System) (c : ℕ)
      → s.leased c ≡ true
      → Step s (record { pool = release_con s.pool c; leased = mark s.leased c false })

pub data Reach (s : System) : System → Type 0 where
  here : Reach s s
  next : {t u : System} → Reach s t → Step t u → Reach s u

-- The flags say of each connection of the pool whether it is leased, and no other is.
abbrev Flagged : List ℕ → List ℕ → ℕ → (ℕ → Bool) → Type 0
Flagged flag cons size leased =
    (k : ℕ) → k < size → leased (get_or cons k 0) ≡ not (get_or flag k 0 == 0)

pub record Refines (s : System) : Type 0 where
  pub valid : IsPool s.pool
  pub slots :
      (k : ℕ)
      → k < s.pool.size
      → s.leased (get_or s.pool.cons k 0) ≡ not (get_or s.pool.flag k 0 == 0)
  pub only :
      (c : ℕ) → s.leased c ≡ true → (k : ℕ) × (k < s.pool.size) × (get_or s.pool.cons k 0 ≡ c)

-- One slot and one connection change together.
mark-Flagged :
    (p : ConPool) (leased : ℕ → Bool) (k v : ℕ)
    → IsPool p
    → k < p.size
    → Flagged p.flag p.cons p.size leased
    → Flagged (set p.flag k v) p.cons p.size (mark leased (get_or p.cons k 0) (not (v == 0)))
mark-Flagged p leased k v valid lt slots j ltj = elim (ℕ_discrete j k) [
  | yes e ↦
      let same : (get_or p.cons j 0 == get_or p.cons k 0) ≡ true =
        (==_iff _ _).1 (ap (λ i. get_or p.cons i 0) e) in
      let now : get_or (set p.flag k v) j 0 ≡ v =
        ap (λ i. get_or (set p.flag k v) i 0) e
        ∙ get_or-set_self p.flag k v 0 (omega (arith, valid.flags)) in
      rw (same, now) refl
  | no ne ↦
      let other : (get_or p.cons j 0 == get_or p.cons k 0) ≡ false =
        differ (λ e. ne (valid.distinct j k ltj lt e)) in
      let kept : get_or (set p.flag k v) j 0 ≡ get_or p.flag j 0 =
        get_or-set_ne p.flag k j v 0 (λ e. ne (sym e)) in
      rw (other, kept) (slots j ltj)
]
  where
    differ : {a b : ℕ} → a ≢ b → (a == b) ≡ false
    differ ne = ground arith

mark-only :
    (p : ConPool) (leased : ℕ → Bool) (k : ℕ) (b : Bool)
    → k < p.size
    → ((c : ℕ) → leased c ≡ true → (j : ℕ) × (j < p.size) × (get_or p.cons j 0 ≡ c))
    → (c : ℕ) → mark leased (get_or p.cons k 0) b c ≡ true
    → (j : ℕ) × (j < p.size) × (get_or p.cons j 0 ≡ c)
mark-only p leased k b lt only c h = elim (Bool-cases (c == get_or p.cons k 0)) [
  | inl same ↦ (k, lt, sym ((==_iff _ _).0 same))
  | inr other ↦ only c (rw (other) at h)
]

leases-Refines :
    (s : System) (k : ℕ)
    → Refines s
    → LeasesSlot s.pool k
    → Refines
        (record { pool = (get_con s.pool).pool; leased = mark s.leased (get_con s.pool).con true })
leases-Refines s k r l = rw (l.returned) (record {
  valid = lease-IsPool s.pool k r.valid l.inside l.was_free;
  slots = mark-Flagged s.pool s.leased k 1 r.valid l.inside r.slots;
  only = mark-only s.pool s.leased k true l.inside r.only;
})

returns-Refines :
    (s : System) (k : ℕ)
    → Refines s
    → k < s.pool.size
    → s.leased (get_or s.pool.cons k 0) ≡ true
    → Refines (record {
      pool = release_con s.pool (get_or s.pool.cons k 0);
      leased = mark s.leased (get_or s.pool.cons k 0) false;
    })
returns-Refines s k r lt out =
    let busy : get_or s.pool.flag k 0 ≢ 0 = is_set (sym (r.slots k lt) ∙ out) in
    let (e, valid, fewer) = release_con-IsPool s.pool k r.valid lt busy in
    rw (e) (record {
      valid = give_back-IsPool s.pool k r.valid lt busy;
      slots = mark-Flagged s.pool s.leased k 0 r.valid lt r.slots;
      only = mark-only s.pool s.leased k false lt r.only;
    })
  where
    is_set : {f : ℕ} → not (f == 0) ≡ true → f ≢ 0
    is_set h = ground arith

Step-Refines : {s t : System} → Step s t → Refines s → Refines t
Step-Refines (gets s some_con) r = elim (get_con-IsPool s.pool r.valid) [
  | inl (full, e) ↦ absurd (some_con (ap (λ g. g.con) e))
  | inr (k, l, valid, more, live) ↦ leases-Refines s k r l
]
Step-Refines (finds_none s none_free) r = elim (get_con-IsPool s.pool r.valid) [
  | inl (full, e) ↦ rw (e) r
  | inr (k, l, valid, more, some_con) ↦ absurd (some_con none_free)
]
Step-Refines (releases s c out) r =
    let (k, lt, e) = r.only c out in
    subst (λ d. Refines (record { pool = release_con s.pool d; leased = mark s.leased d false })) e
      (returns-Refines s k r lt (ap s.leased e ∙ out))

none_taken : (fs : List ℕ) (k : ℕ) → taken fs ≡ 0 → get_or fs k 0 ≡ 0
none_taken [] k e = refl
none_taken (f ∷ fs) zero e = ground arith
none_taken (f ∷ fs) (suc k) e = none_taken fs k (ground arith)

all_taken : (fs : List ℕ) (k : ℕ) → taken fs ≡ length fs → k < length fs → get_or fs k 0 ≢ 0
all_taken [] k e lt = absurd (omega arith)
all_taken (f ∷ fs) zero e lt = ground (arith, taken-le-length fs)
all_taken (f ∷ fs) (suc k) e lt = all_taken fs k (ground (arith, taken-le-length fs)) (omega arith)

-- A pool with no slot busy, and no connection leased.
abbrev pub idle : ConPool → System
idle p = record { pool = p; leased = λ c. false }

idle-Refines : (p : ConPool) → IsPool p → p.busy ≡ 0 → Refines (idle p)
idle-Refines p v none_busy = record {
  valid = v;
  slots = λ k lt. let free = none_taken p.flag k (sym v.counted ∙ none_busy) in rw free refl;
  only = λ c h. absurd (false≢true h);
}

-- Whatever the clients of a well-formed pool that starts with no slot busy do, the pool stays
-- well-formed, and its flags are the set of the leased connections.
pub Reach-Refines :
    (p : ConPool) (s : System) → IsPool p → p.busy ≡ 0 → Reach (idle p) s → Refines s
Reach-Refines p s v none_busy here = idle-Refines p v none_busy
Reach-Refines p s v none_busy (next {t = t} r st) =
    Step-Refines st (Reach-Refines p t v none_busy r)

-- In every state that the clients can reach, `get_con` either returns a connection of the pool that no
-- client has, or NULL, and then all connections of the pool are leased.
pub get_con-fresh :
    (p : ConPool) (s : System)
    → IsPool p
    → p.busy ≡ 0
    → Reach (idle p) s
    → ((s.leased (get_con s.pool).con ≡ false)
        × ((k : ℕ) × (k < s.pool.size) × (get_or s.pool.cons k 0 ≡ (get_con s.pool).con)))
      ⊎ (((get_con s.pool).con ≡ 0)
          × ((k : ℕ) → k < s.pool.size → s.leased (get_or s.pool.cons k 0) ≡ true))
get_con-fresh p s v none_busy reach =
    let r = Reach-Refines p s v none_busy reach in
    elim (get_con-IsPool s.pool r.valid) [
      | inl (full, e) ↦ inr (
        ap (λ g. g.con) e,
        λ k lt.
            r.slots k lt
            ∙ busy_slot (
                all_taken s.pool.flag k (sym r.valid.counted ∙ full ∙ sym r.valid.flags)
                  (omega (arith, lt, r.valid.flags))),
      )
      | inr (k, l, valid, more, live) ↦
          let con : get_or s.pool.cons k 0 ≡ (get_con s.pool).con =
            sym (ap (λ g. g.con) l.returned) in
          inl (
            ap s.leased (sym con) ∙ r.slots k l.inside ∙ ap (λ f. not (f == 0)) l.was_free,
            (k, l.inside, con),
          )
    ]
  where
    busy_slot : {f : ℕ} → f ≢ 0 → not (f == 0) ≡ true
    busy_slot ne = ground arith
