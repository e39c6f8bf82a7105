-- ===== src/Rsa.antt =====
-- The RSA demonstration of cpp/algorithm/rsa_demo.c. An `unsigned int` is a natural number below
-- 2 ^ 32, and products keep their wrap-around. The `int` counters of the loops stay below 2 ^ 31 for
-- arguments up to 2 ^ 31. A modulus is not 0. `rand` is a parameter: `rand i` is what its i-th call returns.
pub mod Divisor
pub mod Power
pub mod Keys
pub mod Demo
mod Tests
use com_richard_test.Base.{
  ℕ, zero, suc, ◌+◌, ◌-◌, ◌*◌, ◌%◌, ◌^◌, List, map, Option, some, none, ltb, ◌==◌, if◌then◌else◌,
}

-- The recursion of `get_com_div`, with `fuel` calls left.
unfoldable pub com_div_loop : ℕ → ℕ → ℕ → Option ℕ
com_div_loop zero p q = none
com_div_loop (suc fuel) p q =
    let a = if ltb q p then p else q in
    let b = if ltb q p then q else p in
    let rest = com_div_loop fuel b (a % b) in if b == 0 then some a else rest

unfoldable pub get_com_div : ℕ → ℕ → Option ℕ
get_com_div p q = com_div_loop (p + q + 1) p q

-- `for (int i = ...; i < s; i++)`, with `n` rounds left
unfoldable pub prime_loop : ℕ → ℕ → ℕ → ℕ
prime_loop zero i s = 1
prime_loop (suc n) i s = let rest = prime_loop n (i + 1) s in if s % i == 0 then 0 else rest

unfoldable pub is_prime : ℕ → ℕ
is_prime s = prime_loop (s - 2) 2 s

-- `for (d = ...; d < t; d++)`, with `n` rounds left. The function returns -1 behind the loop.
unfoldable pub key_loop : ℕ → ℕ → ℕ → ℕ → ℕ
key_loop zero d e t = 2 ^ 32 - 1
key_loop (suc n) d e t =
    let rest = key_loop n (d + 1) e t in if e * d % 2 ^ 32 % t == 1 then d else rest

unfoldable pub get_private_key : ℕ → ℕ → ℕ
get_private_key e t = key_loop t 0 e t

-- `while (1)`, from the i-th number of `rand` on, with `fuel` rounds left
unfoldable pub random_loop : (ℕ → ℕ) → ℕ → ℕ → ℕ → Option ℕ
random_loop rand zero i t = none
random_loop rand (suc fuel) i t =
    let e = rand i % t in
    let rest = random_loop rand fuel (i + 1) t in
    elim (get_com_div e t) [ none ↦ none | some g ↦ if g == 1 then some e else rest ]

unfoldable pub get_random : (ℕ → ℕ) → ℕ → ℕ → ℕ → Option ℕ
get_random rand fuel p q =
    random_loop rand fuel 0 ((p + 2 ^ 32 - 1) % 2 ^ 32 * ((q + 2 ^ 32 - 1) % 2 ^ 32) % 2 ^ 32)

-- `for (j = 0; j < e; j++) flag = flag * x % n`, with `e` rounds left
unfoldable pub flag_loop : ℕ → ℕ → ℕ → ℕ → ℕ
flag_loop zero flag x n = flag
flag_loop (suc e) flag x n = flag_loop e (flag * x % 2 ^ 32 % n) x n

unfoldable pub encrypt_dt : ℕ → ℕ → List ℕ → List ℕ
encrypt_dt e n plain = map (λ c. flag_loop e 1 c n) plain

-- The result is stored to a `char`.
unfoldable pub decrypt_dt : ℕ → ℕ → List ℕ → List ℕ
decrypt_dt d n cypher = map (λ c. flag_loop d 1 c n % 2 ^ 8) cypher
