-- ===== src/Rsa/Demo.antt =====
-- The demonstration with its P = 7 and Q = 11: the modulus is 77, and the keys are taken modulo 60.
use com_richard_test.Base.{
  ℕ, ◌%◌, ◌^◌, ◌<◌, List, [], ◌∷◌, map, Bool, true, false, ◌||◌, not, Option, some, none, ◌==◌,
  ==_iff, ◌≡◌, refl, sym, ap, ◌∙◌, all_below, all_below_sound,
}
use com_richard_test.Rsa.{
  com_div_loop, get_com_div, key_loop, get_private_key, flag_loop, encrypt_dt, decrypt_dt,
}
use com_richard_test.Rsa.Power.{IsChars}

is_one : Option ℕ → Bool
is_one o = elim o [ none ↦ false | some g ↦ g == 1 ]

back : ℕ → ℕ → ℕ
back e c = flag_loop (get_private_key e 60) 1 (flag_loop e 1 c 77) 77 % 2 ^ 8

comes_back : ℕ → ℕ → Bool
comes_back e c = back e c == c % 77

key_works : ℕ → Bool
key_works e = not (is_one (get_com_div e 60)) || all_below 128 (comes_back e)

all_keys : all_below 60 key_works ≡ true
unfolding all_below key_works comes_back back is_one com_div_loop get_com_div key_loop
    get_private_key flag_loop
all_keys = refl

back_lem : (e c : ℕ) → e < 60 → get_com_div e 60 ≡ some 1 → c < 128 → back e c ≡ c % 77
unfolding key_works is_one comes_back
back_lem e c he coprime hc =
    let works : key_works e ≡ true = all_below_sound 60 key_works e all_keys he in
    let table : all_below 128 (comes_back e) ≡ true =
      sym (ap (λ o. not (is_one o) || all_below 128 (comes_back e)) coprime) ∙ works in
    (==_iff _ _).0 (all_below_sound 128 (comes_back e) c table hc)

-- With every public key that `get_random` can draw for P = 7 and Q = 11, and the private key that
-- `get_private_key` finds for it, decryption takes the cipher of a text of ASCII characters to their
-- codes modulo 77.
pub decrypt_dt-encrypt_dt :
    (e : ℕ) (plain : List ℕ)
    → e < 60
    → get_com_div e 60 ≡ some 1
    → IsChars plain
    → decrypt_dt (get_private_key e 60) 77 (encrypt_dt e 77 plain) ≡ map (λ c. c % 77) plain
unfolding decrypt_dt encrypt_dt back
decrypt_dt-encrypt_dt e [] he coprime chars = refl
decrypt_dt-encrypt_dt e (c ∷ plain) he coprime chars =
    λ i. back_lem e c he coprime chars.0 i ∷ decrypt_dt-encrypt_dt e plain he coprime chars.1 i
