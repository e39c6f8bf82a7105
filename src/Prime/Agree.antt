-- ===== src/Prime/Agree.antt =====
-- The two tests for prime numbers, of cpp/algorithm/isprime.c and cpp/algorithm/rsa_demo.c.
use native.Mathlib.Nat.{mod_self}
use com_richard_test.Base.{
  ℕ, zero, suc, ◌+◌, ◌-◌, ◌%◌, ◌≤◌, some, ◌==◌, Bool-cases, true, false, inl, inr, ◌≡◌, refl, ap,
  ◌∙◌, arith,
}
use com_richard_test.Prime.{isprime_loop, isprime}
use com_richard_test.Rsa.{prime_loop, is_prime}

last_round : (s : ℕ) → isprime_loop 1 s s ≡ some 0
unfolding isprime_loop
last_round s =
    let divides : (s % s == 0) ≡ true = ground (arith, mod_self s) in
    let itself : (s == s) ≡ true = ground arith in rw (isprime_loop, divides, itself) (refl)

loops_agree : (n i s : ℕ) → i + n ≡ s → isprime_loop (suc n) i s ≡ some (1 - prime_loop n i s)
unfolding isprime_loop prime_loop
loops_agree zero i s e = ap (λ t. isprime_loop 1 t s) (omega arith) ∙ last_round s
loops_agree (suc n) i s e = elim (Bool-cases (s % i == 0)) [
  | inl divides ↦
      let below : (s == i) ≡ false = ground arith in
      rw (isprime_loop, prime_loop, divides, below) (refl)
  | inr other ↦ rw (isprime_loop, prime_loop, other) (loops_agree n (i + 1) s (omega arith))
]

-- For every number from 2 on, `isprime` returns, and it returns 0 where `is_prime` of the RSA
-- demonstration returns 1, and 1 where that one returns 0.
pub isprime-is_prime : (num : ℕ) → 2 ≤ num → isprime num ≡ some (1 - is_prime num)
unfolding isprime is_prime
isprime-is_prime num h =
    ap (λ n. isprime_loop n 2 num) (omega arith) ∙ loops_agree (num - 2) 2 num (omega arith)
