-- ===== src/Rsa/Power.antt =====
-- The loop of `encrypt_dt` and `decrypt_dt` against the power.
use native.Mathlib.Nat.{mod-eq_of_lt, mod-lt, pow-zero, pow-suc, mul-le-mul, mul_assoc, mul_comm}
use com_richard_test.Base.{
  ℕ, zero, suc, ◌*◌, ◌%◌, ◌^◌, ◌≤◌, ◌<◌, List, [], ◌∷◌, map, ◌≡◌, refl, sym, ap, ◌∙◌, arith,
  mod-mul_mod,
}
use com_richard_test.Rsa.{flag_loop, encrypt_dt}

-- No product of a residue and a number below 2 ^ 16 is cut off.
no_wrap : (f x n : ℕ) → f < n → n ≤ 65536 → x < 65536 → f * x % 2 ^ 32 ≡ f * x
no_wrap f x n hf hn hx = mod-eq_of_lt (
    omega
      (arith, mul-le-mul {n₁ = f} {m₁ = x} {n₂ = 65535} {m₂ = 65535} (omega arith) (omega arith)))

-- Every element is a character of ASCII.
abbrev pub IsChars : List ℕ → Type 0
IsChars [] = Unit
IsChars (c ∷ cs) = (c < 128) × IsChars cs

pub flag_loop-power :
    (e f x n : ℕ) → f < n → n ≤ 65536 → x < 65536 → flag_loop e f x n ≡ f * x ^ e % n
unfolding flag_loop
flag_loop-power zero f x n hf hn hx =
    let one : f ≡ f * x ^ 0 = omega (arith, ap (λ t. f * t) (pow-zero x)) in
    sym (mod-eq_of_lt hf) ∙ ap (λ t. t % n) one
flag_loop-power (suc e) f x n hf hn hx =
    flag_loop-power e (f * x % 2 ^ 32 % n) x n (mod-lt _ (omega arith)) hn hx
    ∙ mod-mul_mod (f * x % 2 ^ 32) (x ^ e) n
    ∙ ap (λ t. t * x ^ e % n) (no_wrap f x n hf hn hx)
    ∙ ap (λ t. t % n)
        (mul_assoc f x (x ^ e) ∙ ap (λ t. f * t) (mul_comm x (x ^ e) ∙ sym (pow-suc x e)))

-- With a modulus from 2 to 2 ^ 16 no product is cut off: the cipher of every character is its power,
-- reduced.
pub encrypt_dt-power :
    (e n : ℕ) (plain : List ℕ)
    → 1 < n
    → n ≤ 65536
    → IsChars plain
    → encrypt_dt e n plain ≡ map (λ c. c ^ e % n) plain
unfolding encrypt_dt
encrypt_dt-power e n [] low high chars = refl
encrypt_dt-power e n (c ∷ plain) low high chars =
    let one : 1 * c ^ e ≡ c ^ e = omega arith in
    let head = flag_loop-power e 1 c n low high (omega (arith, chars.0)) ∙ ap (λ t. t % n) one in
    λ i. head i ∷ encrypt_dt-power e n plain low high chars.1 i
