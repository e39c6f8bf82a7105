-- ===== src/Rsa/Keys.antt =====
-- `is_prime`, `get_private_key` and `get_random`: what the three searches find.
use native.Mathlib.Nat.{mod-eq_of_lt, mul-le-mul}
use com_richard_test.Base.{
  ℕ, zero, suc, ◌+◌, ◌-◌, ◌*◌, ◌%◌, ◌^◌, ◌≤◌, ◌<◌, Option, some, ◌==◌, Bool-cases, ℕ_discrete, ◌⊎◌,
  inl, inr, ◌≡◌, ◌≢◌, refl, sym, ap, ◌∙◌, arith,
}
use com_richard_test.Rsa.{
  get_com_div, prime_loop, is_prime, key_loop, get_private_key, random_loop, get_random,
}
use com_richard_test.Rsa.Divisor.{get_com_div-IsGcd}
use mathlib.Core.Option.{some-injective}

-- The result of the search over the divisors from `i` up to `j`.
PrimeCases : ℕ → ℕ → ℕ → ℕ → Type 0
PrimeCases i j s r =
    ((r ≡ 1) × ((k : ℕ) → i ≤ k → k < j → s % k ≢ 0))
    ⊎ ((r ≡ 0) × ((k : ℕ) × (i ≤ k) × (k < j) × (s % k ≡ 0)))

prime_loop_cases : (n i j s : ℕ) → i + n ≡ j → PrimeCases i j s (prime_loop n i s)
unfolding prime_loop PrimeCases
prime_loop_cases zero i j s e = inl (refl, λ k lo hi. absurd (omega arith))
prime_loop_cases (suc n) i j s e = elim (Bool-cases (s % i == 0)) [
  | inl divides ↦ rw divides (inr (refl, (i, omega arith, omega arith, ground arith)))
  | inr rest ↦ rw rest (behind (ground arith) (prime_loop_cases n (i + 1) j s (omega arith)))
]
  where
    behind :
        s % i ≢ 0
        → PrimeCases (i + 1) j s (prime_loop n (i + 1) s)
        → PrimeCases i j s (prime_loop n (i + 1) s)
    behind ne (inl (r, none_divides)) =
        inl (r, λ k lo hi z. absurd (ground (arith, none_divides k, z)))
    behind ne (inr (r, (k, lo, hi, z))) = inr (r, (k, omega arith, hi, z))

-- For a number from 2 on `is_prime` returns 1 when no number from 2 up to it divides it, and else 0.
pub is_prime_cases :
    (s : ℕ)
    → 2 ≤ s
    → ((is_prime s ≡ 1) × ((k : ℕ) → 2 ≤ k → k < s → s % k ≢ 0))
      ⊎ ((is_prime s ≡ 0) × ((k : ℕ) × (2 ≤ k) × (k < s) × (s % k ≡ 0)))
unfolding is_prime PrimeCases
is_prime_cases s h = prime_loop_cases (s - 2) 2 s s (omega arith)

KeyCases : ℕ → ℕ → ℕ → ℕ → ℕ → Type 0
KeyCases i j e t d =
    ((d < t) × (e * d % t ≡ 1) × ((k : ℕ) → i ≤ k → k < d → e * k % t ≢ 1))
    ⊎ ((d ≡ 2 ^ 32 - 1) × ((k : ℕ) → i ≤ k → k < j → e * k % t ≢ 1))

-- The product of two numbers below 2 ^ 16 fits.
fits : (e d : ℕ) → e < 65536 → d < 65536 → e * d % 2 ^ 32 ≡ e * d
fits e d he hd = mod-eq_of_lt (
    omega
      (arith, mul-le-mul {n₁ = e} {m₁ = d} {n₂ = 65535} {m₂ = 65535} (omega arith) (omega arith)))

key_loop_cases :
    (n i e t : ℕ) → e < 65536 → t ≤ 65536 → i + n ≡ t → KeyCases i t e t (key_loop n i e t)
unfolding key_loop KeyCases
key_loop_cases zero i e t he ht q = inr (refl, λ k lo hi. absurd (omega arith))
key_loop_cases (suc n) i e t he ht q =
    rw (fits e i he (omega arith)) (elim (Bool-cases (e * i % t == 1)) [
      | inl found ↦ rw found (inl (omega arith, ground arith, λ k lo hi. absurd (omega arith)))
      | inr other ↦
          rw other (behind (ground arith) (key_loop_cases n (i + 1) e t he ht (omega arith)))
    ])
  where
    behind :
        e * i % t ≢ 1
        → KeyCases (i + 1) t e t (key_loop n (i + 1) e t)
        → KeyCases i t e t (key_loop n (i + 1) e t)
    behind ne (inl (lt, inverse, least)) =
        inl (lt, inverse, λ k lo hi z. absurd (ground (arith, least k, z)))
    behind ne (inr (r, nothing)) = inr (r, λ k lo hi z. absurd (ground (arith, nothing k, z)))

-- For a public key below 2 ^ 16 and a totient of at most 2 ^ 16, `get_private_key` returns the least
-- number that is inverse to the key, and 2 ^ 32 - 1, which is -1, when no number below the totient is.
pub get_private_key_cases :
    (e t : ℕ)
    → e < 65536
    → t ≤ 65536
    → ((get_private_key e t < t)
        × (e * get_private_key e t % t ≡ 1)
        × ((k : ℕ) → k < get_private_key e t → e * k % t ≢ 1))
      ⊎ ((get_private_key e t ≡ 2 ^ 32 - 1) × ((k : ℕ) → k < t → e * k % t ≢ 1))
unfolding get_private_key KeyCases
get_private_key_cases e t he ht = from_zero (key_loop_cases t 0 e t he ht (omega arith))
  where
    from_zero :
        {d : ℕ}
        → KeyCases 0 t e t d
        → ((d < t) × (e * d % t ≡ 1) × ((k : ℕ) → k < d → e * k % t ≢ 1))
          ⊎ ((d ≡ 2 ^ 32 - 1) × ((k : ℕ) → k < t → e * k % t ≢ 1))
    from_zero (inl (lt, inverse, least)) = inl (lt, inverse, λ k. least k (omega arith))
    from_zero (inr (r, nothing)) = inr (r, λ k. nothing k (omega arith))

-- The first number of `rand` from `i` on whose residue is coprime to `t`.
pub record Drawn (rand : ℕ → ℕ) (i t : ℕ) (o : Option ℕ) : Type 0 where
  pub at : ℕ
  pub from : i ≤ at
  pub returns : o ≡ some (rand at % t)
  pub coprime : get_com_div (rand at % t) t ≡ some 1
  pub first : (k : ℕ) → i ≤ k → k < at → get_com_div (rand k % t) t ≢ some 1

random_loop-Drawn :
    (rand : ℕ → ℕ) (fuel i m t : ℕ)
    → i ≤ m
    → m < i + fuel
    → get_com_div (rand m % t) t ≡ some 1
    → Drawn rand i t (random_loop rand fuel i t)
unfolding random_loop
random_loop-Drawn rand zero i m t lo hi good = absurd (omega arith)
random_loop-Drawn rand (suc fuel) i m t lo hi good =
    let (g, returns, _) = get_com_div-IsGcd (rand i % t) t in
    rw (random_loop, returns)
      (elim (Bool-cases (g == 1)) [
        | inl one ↦ rw one (drawn_now (returns ∙ ap some (ground arith)))
        | inr other ↦
            let missed : get_com_div (rand i % t) t ≢ some 1 =
              λ e. absurd (ground (arith, some-injective g 1 (sym returns ∙ e))) in
            let later : i + 1 ≤ m = not_at_once (ℕ_discrete i m) missed in
            rw other (
              drawn_later missed (random_loop-Drawn rand fuel (i + 1) m t later (omega arith) good))
      ])
  where
    drawn_now : get_com_div (rand i % t) t ≡ some 1 → Drawn rand i t (some (rand i % t))
    drawn_now e = record {
      at = i;
      from = omega arith;
      returns = refl;
      coprime = e;
      first = λ k l h. absurd (omega arith);
    }

    not_at_once : Dec (i ≡ m) → get_com_div (rand i % t) t ≢ some 1 → i + 1 ≤ m
    not_at_once (yes e) missed = absurd (missed (ap (λ k. get_com_div (rand k % t) t) e ∙ good))
    not_at_once (no ne) missed = omega arith

    drawn_later :
        {o : Option ℕ}
        → get_com_div (rand i % t) t ≢ some 1
        → Drawn rand (i + 1) t o
        → Drawn rand i t o
    drawn_later missed d = record {
      at = d.at;
      from = omega (arith, d.from);
      returns = d.returns;
      coprime = d.coprime;
      first = λ k l h e. elim (ℕ_discrete i k) [
        | yes same ↦ missed (ap (λ j. get_com_div (rand j % t) t) same ∙ e)
        | no ne ↦ d.first k (omega arith) h e
      ];
    }

-- If one of the next `fuel` numbers of `rand` has a residue coprime to `(p - 1) * (q - 1)`, `get_random`
-- returns, and what it returns is the residue of the first such number.
pub get_random-Drawn :
    (rand : ℕ → ℕ) (fuel p q m : ℕ)
    → 0 < p
    → 0 < q
    → p < 65536
    → q < 65536
    → m < fuel
    → get_com_div (rand m % ((p - 1) * (q - 1))) ((p - 1) * (q - 1)) ≡ some 1
    → Drawn rand 0 ((p - 1) * (q - 1)) (get_random rand fuel p q)
unfolding get_random
get_random-Drawn rand fuel p q m hp hq lp lq hm good =
    let a : (p + 2 ^ 32 - 1) % 2 ^ 32 ≡ p - 1 = omega arith in
    let b : (q + 2 ^ 32 - 1) % 2 ^ 32 ≡ q - 1 = omega arith in
    rw (a, b, fits (p - 1) (q - 1) (omega arith) (omega arith))
      (random_loop-Drawn rand fuel 0 m ((p - 1) * (q - 1)) (omega arith) (omega arith) good)
