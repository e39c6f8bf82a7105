-- ===== src/Prime.antt =====
-- `isprime` of cpp/algorithm/isprime.c, which returns 0 for a prime number. A call that ends without a
-- `return` is `none`. It is set against the test of cpp/algorithm/rsa_demo.c.
pub mod Agree
mod Tests
use com_richard_test.Base.{
  ℕ, zero, suc, ◌+◌, ◌-◌, ◌%◌, Option, some, none, not, ◌==◌, if◌then◌else◌,
}

-- `for (i = ...; i <= num; i++)`, with `n` rounds left
unfoldable pub isprime_loop : ℕ → ℕ → ℕ → Option ℕ
isprime_loop zero i num = none
isprime_loop (suc n) i num =
    let rest = isprime_loop n (i + 1) num in
    if num % i == 0 then (if not (num == i) then some 1 else some 0) else rest

unfoldable pub isprime : ℕ → Option ℕ
isprime num = isprime_loop (num + 1 - 2) 2 num
