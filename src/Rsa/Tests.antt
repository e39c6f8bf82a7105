-- ===== src/Rsa/Tests.antt =====
-- The theorems on the RSA demonstration at concrete inputs.
use com_richard_test.Base.{
  ℕ, ◌+◌, ◌-◌, ◌*◌, ◌%◌, ◌^◌, ◌<◌, [], ◌∷◌, some, codes, ◌⊎◌, ◌≡◌, ◌≢◌, refl, arith,
}
use com_richard_test.Rsa.{com_div_loop, get_com_div, get_private_key, encrypt_dt, decrypt_dt}
use com_richard_test.Rsa.Divisor.{IsGcd, get_com_div-IsGcd}
use com_richard_test.Rsa.Keys.{get_private_key_cases}
use com_richard_test.Rsa.Demo.{decrypt_dt-encrypt_dt}

coprime_7 : get_com_div 7 60 ≡ some 1
unfolding get_com_div com_div_loop
coprime_7 = refl

get_com_div-IsGcd_example : (g : ℕ) × (get_com_div 60 48 ≡ some g) × IsGcd g 60 48
get_com_div-IsGcd_example = get_com_div-IsGcd 60 48

get_private_key_cases_example :
    ((get_private_key 7 60 < 60)
      × (7 * get_private_key 7 60 % 60 ≡ 1)
      × ((k : ℕ) → k < get_private_key 7 60 → 7 * k % 60 ≢ 1))
    ⊎ ((get_private_key 7 60 ≡ 2 ^ 32 - 1) × ((k : ℕ) → k < 60 → 7 * k % 60 ≢ 1))
get_private_key_cases_example = get_private_key_cases 7 60 (omega arith) (omega arith)

abbrev draws : ℕ → ℕ
draws i = 66 + i

-- The letters of the source's text come back as other characters: 'h' is 104, and 27 comes back.
decrypt_dt-encrypt_dt_example :
    decrypt_dt (get_private_key 7 60) 77 (encrypt_dt 7 77 (codes "hello1"))
    ≡ 27 ∷ 24 ∷ 31 ∷ 31 ∷ 34 ∷ 49 ∷ []
decrypt_dt-encrypt_dt_example =
    decrypt_dt-encrypt_dt 7 (codes "hello1") (omega arith) coprime_7 (grind arith)
