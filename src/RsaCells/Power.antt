-- ===== src/RsaCells/Power.antt =====
-- The loops of cpp/algorithm/rsa_algorithm.c against the power.
use native.Mathlib.Nat.{mod-eq_of_lt, mod-lt, mul-le-mul, pow-zero, pow-succ', mul_assoc}
use com_richard_test.Base.{
  ℕ, zero, suc, ◌*◌, ◌%◌, ◌^◌, ◌≤◌, ◌<◌, List, [], ◌-◌, ◌∷◌, map, true, some, ltb, ◌≡◌, refl, sym,
  ap, ◌∙◌, arith, length, mod-mul_mod,
}
use com_richard_test.Rsa.Power.{IsChars}
use com_richard_test.RsaCells.{size, read, each, int_loop, long_loop, encrypt_dt, decrypt_dt}

power_none : (f x n : ℕ) → f < n → f ≡ f * x ^ 0 % n
power_none f x n lt =
    let one : f ≡ f * x ^ 0 = omega (arith, ap (λ t. f * t) (pow-zero x)) in
    sym (mod-eq_of_lt lt) ∙ ap (λ t. t % n) one

power_next : (f x e n : ℕ) → f * x % n * x ^ e % n ≡ f * x ^ suc e % n
power_next f x e n =
    mod-mul_mod (f * x) (x ^ e) n
    ∙ ap (λ t. t % n) (mul_assoc f x (x ^ e) ∙ ap (λ t. f * t) (sym (pow-succ' x e)))

-- With a modulus up to 2 ^ 24 and a character no product leaves the `int`.
int_loop-power :
    (e f x n : ℕ) → f < n → n ≤ 2 ^ 24 → x < 128 → int_loop e f x n ≡ some (f * x ^ e % n)
unfolding int_loop
int_loop-power zero f x n hf hn hx = ap some (power_none f x n hf)
int_loop-power (suc e) f x n hf hn hx =
    let below =
      mul-le-mul {n₁ = f} {m₁ = x} {n₂ = 2 ^ 24 - 1} {m₂ = 127} (omega arith) (omega arith) in
    let fits : ltb (f * x) (2 ^ 31) ≡ true = ground (arith, below) in
    rw fits (
      int_loop-power e (f * x % n) x n (mod-lt _ (omega arith)) hn hx
      ∙ ap some (power_next f x e n))

-- With a modulus up to 2 ^ 32 no product of residues wraps around.
long_loop-power : (d f x n : ℕ) → f < n → n ≤ 2 ^ 32 → x < n → long_loop d f x n ≡ f * x ^ d % n
unfolding long_loop
long_loop-power zero f x n hf hn hx = power_none f x n hf
long_loop-power (suc d) f x n hf hn hx =
    let below =
      mul-le-mul {n₁ = f} {m₁ = x} {n₂ = 2 ^ 32 - 1} {m₂ = 2 ^ 32 - 1} (omega arith)
        (omega arith) in
    let whole : f * x % 2 ^ 64 ≡ f * x = mod-eq_of_lt (omega (arith, below)) in
    rw whole (long_loop-power d (f * x % n) x n (mod-lt _ (omega arith)) hn hx ∙ power_next f x d n)

read_all : (n : ℕ) (s : List ℕ) → length s ≡ n → read n s ≡ some s
unfolding read
read_all zero [] e = refl
read_all zero (c ∷ s) e = absurd (omega arith)
read_all (suc n) [] e = absurd (omega arith)
read_all (suc n) (c ∷ s) e = rw (read_all n s (omega arith)) refl

-- Every element is below the bound.
abbrev pub IsBelow : ℕ → List ℕ → Type 0
IsBelow n [] = Unit
IsBelow n (c ∷ s) = (c < n) × IsBelow n s

each-power :
    (e n : ℕ) (plain : List ℕ)
    → 1 < n
    → n ≤ 2 ^ 24
    → IsChars plain
    → each (λ c. int_loop e 1 c n) plain ≡ some (map (λ c. 1 * c ^ e % n) plain)
unfolding each
each-power e n [] low high h = refl
each-power e n (c ∷ plain) low high (hc, h) =
    rw (int_loop-power e 1 c n low high hc, each-power e n plain low high h) refl

pub encrypt_dt-power :
    (e n : ℕ) (plain : List ℕ)
    → 1 < n
    → n ≤ 2 ^ 24
    → length plain ≡ size
    → IsChars plain
    → encrypt_dt e n plain ≡ some (map (λ c. 1 * c ^ e % n) plain)
unfolding encrypt_dt
encrypt_dt-power e n plain low high len h =
    rw (read_all size plain len) (each-power e n plain low high h)

map-power :
    (d n : ℕ) (cypher : List ℕ)
    → 1 < n
    → n ≤ 2 ^ 32
    → IsBelow n cypher
    → map (λ c. long_loop d 1 c n % 2 ^ 8) cypher ≡ map (λ c. 1 * c ^ d % n % 2 ^ 8) cypher
map-power d n [] low high h = refl
map-power d n (c ∷ cypher) low high (hc, h) =
    rw (long_loop-power d 1 c n low high hc, map-power d n cypher low high h) refl

pub decrypt_dt-power :
    (d n : ℕ) (cypher : List ℕ)
    → 1 < n
    → n ≤ 2 ^ 32
    → length cypher ≡ size
    → IsBelow n cypher
    → decrypt_dt d n cypher ≡ some (map (λ c. 1 * c ^ d % n % 2 ^ 8) cypher)
unfolding decrypt_dt
decrypt_dt-power d n cypher low high len h =
    rw (read_all size cypher len) (ap some (map-power d n cypher low high h))
