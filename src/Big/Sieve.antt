-- ===== src/Big/Sieve.antt =====
-- The table of small primes of cpp/BigNum.cpp against the prime numbers.
use native.Mathlib.Nat.{mul-le-mul, mul_comm, mul-mod_left, div-add-mod'}
use com_richard_test.Base.{
  ℕ, zero, suc, ◌+◌, ◌*◌, ◌/◌, ◌%◌, ◌≤◌, ◌<◌, List, [], ◌∷◌, Bool, ltb, ◌==◌, if◌then◌else◌,
  Bool-cases, true, false, ◌&&◌, ◌⊎◌, inl, inr, ◌↔◌, ◌≡◌, ◌≢◌, ℕ_discrete, refl, sym, ap, ◌∙◌,
  arith,
}
use mathlib.Core.Bool.{false≢true}
use com_richard_test.Big.Primes.{primes}

-- Division by the numbers from `d` on, up to the square root.
fast_loop : ℕ → ℕ → ℕ → Bool
fast_loop zero d n = true
fast_loop (suc fuel) d n =
    let rest = fast_loop fuel (d + 1) n in
    if ltb n (d * d) then true else (if n % d == 0 then false else rest)

fast : ℕ → Bool
fast n = fast_loop 160 2 n

abbrev hit : Bool → ℕ → List ℕ → Bool
hit false n ps = true
hit true n [] = false
hit true n (p ∷ ps) = p == n

abbrev skip : Bool → List ℕ → List ℕ
skip false ps = ps
skip true [] = []
skip true (p ∷ ps) = ps

abbrev is_empty : List ℕ → Bool
is_empty [] = true
is_empty (p ∷ ps) = false

-- The table goes through the primes among the `c` numbers from `n` on.
walk : ℕ → ℕ → List ℕ → Bool
walk zero n ps = is_empty ps
walk (suc c) n ps = hit (fast n) n ps && walk c (n + 1) (skip (fast n) ps)

-- No number from 2 up to `n` divides it.
abbrev pub IsPrime : ℕ → Type 0
IsPrime n = (k : ℕ) → 2 ≤ k → k < n → n % k ≢ 0

abbrev NoneBelow : ℕ → ℕ → Type 0
NoneBelow d n = (k : ℕ) → 2 ≤ k → k < d → n % k ≢ 0

abbrev Decides : Bool → ℕ → Type 0
Decides true n = IsPrime n
Decides false n = ¬ IsPrime n

-- A divisor has a partner, and one of the two is small.
root : (d n : ℕ) → n < d * d → 2 ≤ n → NoneBelow d n → IsPrime n
root d n lt two none k lo hi e =
    let q : ℕ = n / k in
    let whole : q * k ≡ n = omega (arith, div-add-mod' n k, e) in
    elim (Bool-cases (ltb k d)) [
      | inl small ↦ none k lo (ground arith) e
      | inr large ↦
          let q_lt : q < d = elim (Bool-cases (ltb q d)) [
            | inl lt' ↦ ground arith
            | inr ge ↦ absurd (
                omega (
                  arith,
                  whole,
                  mul-le-mul {n₁ = d} {m₁ = d} {n₂ = q} {m₂ = k} (ground arith) (ground arith),
                ))
          ] in
          none q (two_at_least q whole) q_lt
            (ap (λ t. t % q) (sym whole ∙ mul_comm q k) ∙ mul-mod_left k q)
    ]
  where
    two_at_least : (q : ℕ) → q * k ≡ n → 2 ≤ q
    two_at_least zero e = absurd (omega arith)
    two_at_least (suc zero) e = absurd (omega arith)
    two_at_least (suc (suc q)) e = omega arith

fast_loop-Decides :
    (fuel d n : ℕ)
    → 2 ≤ d
    → 2 ≤ n
    → n < (d + fuel) * (d + fuel)
    → NoneBelow d n
    → Decides (fast_loop fuel d n) n
unfolding fast_loop
fast_loop-Decides zero d n hd hn lt none =
    let e : d + 0 ≡ d = omega arith in root d n (omega (arith, ap (λ t. t * t) e)) hn none
fast_loop-Decides (suc fuel) d n hd hn lt none = elim (Bool-cases (ltb n (d * d))) [
  | inl square ↦ rw square (root d n (ground arith) hn none)
  | inr large ↦ elim (Bool-cases (n % d == 0)) [
    | inl divides ↦ rw (large, divides) (λ p. p d hd (smaller (ground arith)) (ground arith))
    | inr passes ↦
        let e : d + suc fuel ≡ d + 1 + fuel = omega arith in
        rw (large, passes)
          (fast_loop-Decides fuel (d + 1) n (omega arith) hn (omega (arith, ap (λ t. t * t) e))
            (one_more (ground arith)))
  ]
]
  where
    smaller : d * d ≤ n → d < n
    smaller le = omega (arith, mul-le-mul {n₁ = 2} {m₁ = d} {n₂ = d} {m₂ = d} hd (omega arith))

    one_more : n % d ≢ 0 → NoneBelow (d + 1) n
    one_more ne k lo hi = elim (ℕ_discrete d k) [
      | yes e ↦ λ z. ne (ap (λ t. n % t) e ∙ z)
      | no nd ↦ none k lo (omega arith)
    ]

fast-Decides : (n : ℕ) → 2 ≤ n → n < 26000 → Decides (fast n) n
unfolding fast
fast-Decides n lo hi =
    fast_loop-Decides 160 2 n (omega arith) lo (omega arith) (λ k l h. absurd (omega arith))

-- The value stands in the list.
abbrev pub Occurs : ℕ → List ℕ → Type 0
Occurs n [] = ⊥
Occurs n (p ∷ ps) = (n ≡ p) ⊎ Occurs n ps

both : (x y : Bool) → (x && y) ≡ true → (x ≡ true) × (y ≡ true)
both true y e = (refl, e)
both false y e = absurd (false≢true e)

-- What a step of the walk says of the numbers behind `n`, and of `n`.
from_step :
    (b : Bool) (n m : ℕ) (ps : List ℕ)
    → hit b n ps ≡ true
    → (Occurs m (skip b ps) → n + 1 ≤ m)
    → Occurs m ps
    → n ≤ m
from_step false n m ps h ih o = omega (arith, ih o)
from_step true n m [] h ih o = absurd o
from_step true n m (p ∷ ps) h ih (inl e) = ground arith
from_step true n m (p ∷ ps) h ih (inr o) = omega (arith, ih o)

walk_from : (c n m : ℕ) (ps : List ℕ) → walk c n ps ≡ true → Occurs m ps → n ≤ m
unfolding walk
walk_from zero n m [] w o = absurd o
walk_from zero n m (p ∷ ps) w o = absurd (false≢true w)
walk_from (suc c) n m ps w o =
    let (h, rest) = both (hit (fast n) n ps) (walk c (n + 1) (skip (fast n) ps)) w in
    from_step (fast n) n m ps h (walk_from c (n + 1) m (skip (fast n) ps) rest) o

here_step :
    (b : Bool) (n : ℕ) (ps : List ℕ)
    → hit b n ps ≡ true
    → (Occurs n (skip b ps) → n + 1 ≤ n)
    → Occurs n ps ↔ (b ≡ true)
here_step false n ps h ih = (λ o. absurd (omega (arith, ih o)), λ e. absurd (false≢true e))
here_step true n [] h ih = absurd (false≢true h)
here_step true n (p ∷ ps) h ih = (λ o. refl, λ e. inl (ground arith))

later_step :
    (b : Bool) (n m : ℕ) (ps : List ℕ)
    → hit b n ps ≡ true
    → n < m
    → Occurs m ps ↔ Occurs m (skip b ps)
later_step false n m ps h lt = (λ o. o, λ o. o)
later_step true n m [] h lt = absurd (false≢true h)
later_step true n m (p ∷ ps) h lt = (λ o. behind o, λ o. inr o)
  where
    behind : Occurs m (p ∷ ps) → Occurs m ps
    behind (inl e) = absurd (ground arith)
    behind (inr o) = o

walk_sound :
    (c n m : ℕ) (ps : List ℕ)
    → walk c n ps ≡ true
    → n ≤ m
    → m < n + c
    → Occurs m ps ↔ (fast m ≡ true)
unfolding walk
walk_sound zero n m ps w lo hi = absurd (omega arith)
walk_sound (suc c) n m ps w lo hi =
    let (h, rest) = both (hit (fast n) n ps) (walk c (n + 1) (skip (fast n) ps)) w in
    elim (ℕ_discrete n m) [
      | yes e ↦
          rw (sym e) (here_step (fast n) n ps h (walk_from c (n + 1) n (skip (fast n) ps) rest))
      | no ne ↦
          let s = later_step (fast n) n m ps h (omega arith) in
          let ih = walk_sound c (n + 1) m (skip (fast n) ps) rest (omega arith) (omega arith) in
          (λ o. ih.0 (s.0 o), λ e. s.1 (ih.1 e))
    ]

whole_table : walk 25407 3 primes ≡ true
unfolding walk fast fast_loop
whole_table = refl

-- The table holds a number from 3 to 25409 exactly when no number from 2 up to it divides it.
pub primes_complete : (n : ℕ) → 3 ≤ n → n < 25410 → Occurs n primes ↔ IsPrime n
primes_complete n lo hi =
    let s = walk_sound 25407 3 n primes whole_table lo (omega arith) in
    by_test (fast n) s (fast-Decides n (omega arith) (omega arith))
  where
    by_test : (b : Bool) → Occurs n primes ↔ (b ≡ true) → Decides b n → Occurs n primes ↔ IsPrime n
    by_test true s d = (λ o. d, λ p. s.1 refl)
    by_test false s d = (λ o. absurd (false≢true (s.0 o)), λ p. absurd (d p))
