-- ===== src/RsaCells/Tests.antt =====
-- The RSA over 20 cells at concrete texts.
use com_richard_test.Base.{◌>>=◌, [], ◌∷◌, ◌++◌, none, some, codes, ◌≡◌, refl, arith}
use com_richard_test.RsaCells.{read, long_loop, encrypt_dt, decrypt_dt, dec}
use com_richard_test.RsaCells.Keys.{decrypt_dt-encrypt_text, dec-encrypt_text}

-- The cipher and the text in `main` of cpp/algorithm/rsa_deploy.c.
dec_main :
    dec (
      0xe93 ∷ 0x21b ∷ 0x59 ∷ 0xe93 ∷ 0x126 ∷ 0xe93 ∷ 0x21b ∷ 0x59 ∷ 0xe93 ∷ 0x152 ∷ 0xe93 ∷ 0x21b
      ∷ 0x59 ∷ 0xe93 ∷ 0xee3 ∷ 0xe93 ∷ 0x21b ∷ 0x59 ∷ 0xe93 ∷ 0x751 ∷ [])
    ≡ some (codes "test1test2test3test4")
unfolding dec decrypt_dt read long_loop
dec_main = refl

-- A text of fewer characters: the loop reads behind its end.
short_text : encrypt_dt 7 77 (codes "hi" ++ 0 ∷ []) ≡ none
unfolding encrypt_dt read
short_text = refl

decrypt_dt-encrypt_text_example :
    (encrypt_dt 480317 968087 (codes "ZeYJd8HFkI9l2$lGifRT") >>= decrypt_dt 537653 968087)
    ≡ some (codes "ZeYJd8HFkI9l2$lGifRT")
decrypt_dt-encrypt_text_example =
    decrypt_dt-encrypt_text (codes "ZeYJd8HFkI9l2$lGifRT") refl (omega arith)

dec-encrypt_text_example :
    (encrypt_dt 125 4171 (codes "test1test2test3test4") >>= dec)
    ≡ some (codes "test1test2test3test4")
dec-encrypt_text_example =
    dec-encrypt_text 125 (codes "test1test2test3test4") (omega arith) (omega arith) refl
      (omega arith)
