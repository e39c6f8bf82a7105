-- ===== src/Des/Feistel.antt =====
-- The rounds of `encrypt` and of `decrypt`, one against the other.
use mathlib.Core.Bool.{xor}
use com_richard_test.Base.{
  ℕ, zero, suc, ◌+◌, ◌*◌, ◌<◌, List, [], ◌∷◌, Bool, true, false, ◌≡◌, refl, sym, ap, ◌∙◌, arith,
  length, get_or, take, drop, get_or_ext, length-append, length-take, length-drop, length-replicate,
}
use com_richard_test.Des.Tables.{s_box, p_tbl}
use com_richard_test.Des.Blocks.{bit_cpy, byte_to_bit, xor_bits}
use com_richard_test.Des.Cipher.{
  Halves, zeros, s_row, s_col, s_boxes, s_change, f_change, encrypt_round, decrypt_round,
  encrypt_rounds, decrypt_rounds,
}
use com_richard_test.Des.Cells.{
  bit_cpy_all, length-byte_to_bit, length-xor_bits, get_or-xor_bits, length-tbl_replace,
}

-- Both halves have 32 bits.
pub record IsBlock (m : Halves) : Type 0 where
  pub l32 : length m.l ≡ 32
  pub r32 : length m.r ≡ 32

length-s_boxes : (n i : ℕ) (out inp : List Bool) → length (s_boxes n i out inp) ≡ length out
unfolding s_boxes
length-s_boxes zero i out inp = refl
length-s_boxes (suc n) i out inp =
    let entry = get_or s_box (i * 64 + s_row inp * 16 + s_col inp) 0 in
    let four = byte_to_bit (take 4 out) (entry ∷ []) 4 in
    omega (
      arith,
      length-append four (s_boxes n (i + 1) (drop 4 out) (drop 6 inp)),
      length-byte_to_bit (take 4 out) (entry ∷ []) 4,
      length-s_boxes n (i + 1) (drop 4 out) (drop 6 inp),
      length-take 4 out,
      length-drop 4 out,
    )

length-f_change : (out key : List Bool) → length (f_change out key) ≡ length out
unfolding f_change s_change
length-f_change out key = length-tbl_replace _ _ p_tbl 32 ∙ length-s_boxes 8 0 out _

xor_self_cancel : (a b : Bool) → xor a (xor a b) ≡ b
unfolding xor
xor_self_cancel true true = refl
xor_self_cancel true false = refl
xor_self_cancel false true = refl
xor_self_cancel false false = refl

-- Adding the same bits twice gives the other operand back.
xor_bits_cancel :
    (f b : List Bool) (n : ℕ) → length f ≡ n → length b ≡ n → xor_bits f (xor_bits f b n) n ≡ b
xor_bits_cancel f b n ef eb =
    get_or_ext false (xor_bits f (xor_bits f b n) n) b (length-xor_bits f _ n ∙ ef ∙ sym eb)
      λ j lt. cell j (omega (arith, length-xor_bits f (xor_bits f b n) n))
  where
    cell : (j : ℕ) → j < n → get_or (xor_bits f (xor_bits f b n) n) j false ≡ get_or b j false
    cell j lt =
        get_or-xor_bits f (xor_bits f b n) n j lt (omega arith)
        ∙ ap (xor (get_or f j false)) (get_or-xor_bits f b n j lt (omega arith))
        ∙ xor_self_cancel (get_or f j false) (get_or b j false)

copy_32 : (out inp : List Bool) → length out ≡ 32 → length inp ≡ 32 → bit_cpy out inp 32 ≡ inp
copy_32 out inp = bit_cpy_all out inp 32

pub length-zeros : (n : ℕ) → length (zeros n) ≡ n
unfolding zeros
length-zeros n = length-replicate n false

-- A round of `encrypt` in closed form.
encrypt_round_lem :
    (key : List Bool) (m : Halves)
    → IsBlock m
    → encrypt_round key m ≡ record { l = m.r; r = xor_bits (f_change m.r key) m.l 32 }
unfolding encrypt_round
encrypt_round_lem key m v =
    rw (copy_32 (zeros 32) m.r (length-zeros 32) v.r32, copy_32 m.l m.r v.l32 v.r32)

-- A round of `decrypt` in closed form.
decrypt_round_lem :
    (key : List Bool) (m : Halves)
    → IsBlock m
    → decrypt_round key m ≡ record { l = xor_bits (f_change m.l key) m.r 32; r = m.l }
unfolding decrypt_round
decrypt_round_lem key m v =
    rw (copy_32 (zeros 32) m.l (length-zeros 32) v.l32, copy_32 m.r m.l v.r32 v.l32)

encrypt_round-IsBlock : (key : List Bool) (m : Halves) → IsBlock m → IsBlock (encrypt_round key m)
encrypt_round-IsBlock key m v = rw (encrypt_round_lem key m v) (record {
  l32 = v.r32;
  r32 = length-xor_bits (f_change m.r key) m.l 32 ∙ length-f_change m.r key ∙ v.r32;
})

decrypt-encrypt_round :
    (key : List Bool) (m : Halves) → IsBlock m → decrypt_round key (encrypt_round key m) ≡ m
decrypt-encrypt_round key m v =
    decrypt_round_lem key (encrypt_round key m) (encrypt_round-IsBlock key m v)
    ∙ ap (λ (h : Halves). record { l = xor_bits (f_change h.l key) h.r 32; r = h.l })
        (encrypt_round_lem key m v)
    ∙ ap (λ t. record { l = t; r = m.r })
        (xor_bits_cancel (f_change m.r key) m.l 32 (length-f_change m.r key ∙ v.r32) v.l32)

pub encrypt_rounds-IsBlock :
    (keys : List (List Bool)) (m : Halves) → IsBlock m → IsBlock (encrypt_rounds keys m)
unfolding encrypt_rounds
encrypt_rounds-IsBlock [] m v = v
encrypt_rounds-IsBlock (key ∷ keys) m v =
    encrypt_rounds-IsBlock keys (encrypt_round key m) (encrypt_round-IsBlock key m v)

-- For every list of sub-keys, with whatever bits and of whatever number, the rounds of `decrypt`
-- take a block that the rounds of `encrypt` have mixed back to what it was.
pub decrypt-encrypt_rounds :
    (keys : List (List Bool)) (m : Halves)
    → IsBlock m
    → decrypt_rounds keys (encrypt_rounds keys m) ≡ m
unfolding encrypt_rounds decrypt_rounds
decrypt-encrypt_rounds [] m v = refl
decrypt-encrypt_rounds (key ∷ keys) m v =
    ap (decrypt_round key)
      (decrypt-encrypt_rounds keys (encrypt_round key m) (encrypt_round-IsBlock key m v))
    ∙ decrypt-encrypt_round key m v
