-- ===== src/Prime/Tests.antt =====
-- The calls of `isprime` that end without a value, and the theorem at a concrete input.
use com_richard_test.Base.{◌-◌, some, none, ◌≡◌, refl, arith}
use com_richard_test.Rsa.{is_prime}
use com_richard_test.Prime.{isprime_loop, isprime}
use com_richard_test.Prime.Agree.{isprime-is_prime}

nothing_for_zero : isprime 0 ≡ none
unfolding isprime isprime_loop
nothing_for_zero = refl

nothing_for_one : isprime 1 ≡ none
unfolding isprime isprime_loop
nothing_for_one = refl

isprime-is_prime_example : isprime 91 ≡ some (1 - is_prime 91)
isprime-is_prime_example = isprime-is_prime 91 (omega arith)
