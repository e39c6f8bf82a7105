-- ===== src/RsaCells/Keys.antt =====
-- The keys in `main` of cpp/algorithm/rsa_algorithm.c, and those of cpp/algorithm/rsa_deploy.c.
use native.Mathlib.Nat.{mod-lt}
use com_richard_test.Base.{
  ◌>>=◌, ℕ, suc, ◌*◌, ◌%◌, ◌^◌, ◌≤◌, ◌<◌, List, [], ◌∷◌, map, Bool, true, ◌||◌, not, some, ◌==◌,
  ==_iff, ◌≡◌, refl, sym, ap, ◌∙◌, arith, length, all_below, all_below_sound, fast, fast-power,
}
use com_richard_test.Rsa.Power.{IsChars}
use com_richard_test.RsaCells.{size, encrypt_dt, decrypt_dt, dec}
use com_richard_test.RsaCells.Power.{IsBelow, encrypt_dt-power, decrypt_dt-power}

-- Whether a character comes back, by squaring: the exponents have at most 20 bits.
comes_back : ℕ → ℕ → ℕ → ℕ → Bool
comes_back e d n c = fast 20 1 (fast 20 1 c e n) d n % 2 ^ 8 == c

module _ (e d n : ℕ) (low : 1 < n) (high : n ≤ 2 ^ 24) where
  raised : ℕ → ℕ
  raised c = 1 * c ^ e % n

  lowered : ℕ → ℕ
  lowered c = 1 * c ^ d % n % 2 ^ 8

  raised-IsBelow : (plain : List ℕ) → IsBelow n (map raised plain)
  unfolding raised
  raised-IsBelow [] = tt
  raised-IsBelow (c ∷ plain) = (mod-lt _ (omega arith), raised-IsBelow plain)

  length-raised : (plain : List ℕ) → length (map raised plain) ≡ length plain
  length-raised [] = refl
  length-raised (c ∷ plain) = ap suc (length-raised plain)

  module _ (e_bits : e < 2 ^ 20) (d_bits : d < 2 ^ 20)
      (back : all_below 128 (comes_back e d n) ≡ true) where
    lowered-raised : (c : ℕ) → c < 128 → lowered (raised c) ≡ c
    unfolding comes_back lowered raised
    lowered-raised c lt =
        let up = fast-power 20 1 c e n e_bits in
        let down = fast-power 20 1 (1 * c ^ e % n) d n d_bits in
        ap (λ t. t % 2 ^ 8) (sym down)
        ∙ ap (λ t. fast 20 1 t d n % 2 ^ 8) (sym up)
        ∙ (==_iff _ _).0 (all_below_sound 128 (comes_back e d n) c back lt)

    all-lowered : (plain : List ℕ) → IsChars plain → map lowered (map raised plain) ≡ plain
    all-lowered [] h = refl
    all-lowered (c ∷ plain) (hc, h) = λ i. lowered-raised c hc i ∷ all-lowered plain h i

    text_back :
        (plain : List ℕ)
        → length plain ≡ size
        → IsChars plain
        → (encrypt_dt e n plain >>= decrypt_dt d n) ≡ some plain
    unfolding raised lowered
    text_back plain len h = rw (encrypt_dt-power e n plain low high len h) (
        decrypt_dt-power d n (map raised plain) low (omega arith) (length-raised plain ∙ len)
          (raised-IsBelow plain)
        ∙ ap some (all-lowered plain h))

all_back : all_below 128 (comes_back 480317 537653 968087) ≡ true
unfolding all_below comes_back fast
all_back = refl

-- With the keys e = 480317 and d = 537653 and the modulus 968087 of `main`, each text of 20 ASCII
-- characters comes back: no product leaves its type, and decryption takes the cipher to the text.
pub decrypt_dt-encrypt_text :
    (plain : List ℕ)
    → length plain ≡ size
    → IsChars plain
    → (encrypt_dt 480317 968087 plain >>= decrypt_dt 537653 968087) ≡ some plain
decrypt_dt-encrypt_text plain len h =
    text_back 480317 537653 968087 (omega arith) (omega arith) (omega arith) (omega arith) all_back
      plain len h

-- Every exponent that can belong to the key of `dec`: 672 is the least common multiple of 42 and 96.
key_works : ℕ → Bool
key_works e = not (e * 3989 % 672 == 1) || all_below 128 (comes_back e 3989 4171)

all_keys : all_below 672 key_works ≡ true
unfolding all_below key_works comes_back fast
all_keys = refl

-- For each public exponent e below 672 that fits the private exponent 3989, e * 3989 % 672 = 1, `dec`
-- takes the cipher of a text of 20 ASCII characters with the modulus 4171 to the text.
pub dec-encrypt_text :
    (e : ℕ) (plain : List ℕ)
    → e < 672
    → e * 3989 % 672 ≡ 1
    → length plain ≡ size
    → IsChars plain
    → (encrypt_dt e 4171 plain >>= dec) ≡ some plain
unfolding dec key_works
dec-encrypt_text e plain lt fits len h =
    let works : key_works e ≡ true = all_below_sound 672 key_works e all_keys lt in
    let test : (e * 3989 % 672 == 1) ≡ true = (==_iff _ _).1 fits in
    let back : all_below 128 (comes_back e 3989 4171) ≡ true =
      sym (ap (λ b. not b || all_below 128 (comes_back e 3989 4171)) test) ∙ works in
    text_back e 3989 4171 (omega arith) (omega arith) (omega arith) (omega arith) back plain len h
