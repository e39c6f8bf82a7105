-- ===== src/Des/Cells.antt =====
-- What each block operation leaves in each cell, and the lengths.
use mathlib.Core.Bool.{xor}
use com_richard_test.Base.{
  ℕ, ◌-◌, ◌/◌, ◌%◌, ◌≤◌, ◌<◌, List, Bool, false, ◌≡◌, refl, ap, ◌∙◌, arith, length, get_or,
  replicate, sweep, length-sweep, get_or-sweep, get_or_ext, length-replicate,
}
use com_richard_test.Des.Blocks.{
  bit_of, bit_cpy, byte_to_bit, hex_digit, nibble, bit_to_hex, hex_value, hex_to_bit, tbl_replace,
  xor_bits,
}

-- A sweep from cell 0 whose body reads other arrays alone.
get_or-fill {ℓ} :
    {A : Type ℓ} (d : A) (f : ℕ → A) (n : ℕ) (out : List A) (j : ℕ)
    → j < n
    → n ≤ length out
    → get_or (sweep n 0 (λ i _. f i) out) j d ≡ f j
get_or-fill d f n out j lt fits =
    get_or-sweep d (λ i _. f i) (λ i o o' h. refl) n 0 out j (omega arith) (omega arith)
      (omega arith)

pub length-bit_cpy : (out inp : List Bool) (n : ℕ) → length (bit_cpy out inp n) ≡ length out
unfolding bit_cpy
length-bit_cpy out inp n = length-sweep n 0 _ out

pub get_or-bit_cpy :
    (out inp : List Bool) (n j : ℕ)
    → j < n
    → n ≤ length out
    → get_or (bit_cpy out inp n) j false ≡ get_or inp j false
unfolding bit_cpy
get_or-bit_cpy out inp n j lt fits = get_or-fill false (λ i. get_or inp i false) n out j lt fits

-- A copy of the whole array.
pub bit_cpy_all :
    (out inp : List Bool) (n : ℕ) → length out ≡ n → length inp ≡ n → bit_cpy out inp n ≡ inp
bit_cpy_all out inp n eo ei =
    get_or_ext false (bit_cpy out inp n) inp (omega (arith, length-bit_cpy out inp n))
      λ i lt. get_or-bit_cpy out inp n i (omega (arith, length-bit_cpy out inp n)) (omega arith)

pub length-tbl_replace :
    (out inp : List Bool) (table : List ℕ) (n : ℕ)
    → length (tbl_replace out inp table n) ≡ length out
unfolding tbl_replace
length-tbl_replace out inp table n = length-bit_cpy out _ n

pub get_or-tbl_replace :
    (out inp : List Bool) (table : List ℕ) (n j : ℕ)
    → j < n
    → n ≤ length out
    → n ≤ 256
    → get_or (tbl_replace out inp table n) j false ≡ get_or inp (get_or table j 0 - 1) false
unfolding tbl_replace
get_or-tbl_replace out inp table n j lt fits small =
    get_or-bit_cpy out _ n j lt fits
    ∙ get_or-fill false (λ i. get_or inp (get_or table i 0 - 1) false) n (replicate 256 false) j lt
        (omega (arith, length-replicate 256 false))

pub length-xor_bits : (out inp : List Bool) (n : ℕ) → length (xor_bits out inp n) ≡ length out
unfolding xor_bits
length-xor_bits out inp n = length-sweep n 0 _ out

pub get_or-xor_bits :
    (out inp : List Bool) (n j : ℕ)
    → j < n
    → n ≤ length out
    → get_or (xor_bits out inp n) j false ≡ xor (get_or out j false) (get_or inp j false)
unfolding xor_bits
get_or-xor_bits out inp n j lt fits =
    get_or-sweep false (λ i o. xor (get_or o i false) (get_or inp i false))
      (λ i o o' h. ap (λ b. xor b (get_or inp i false)) (h i (omega arith))) n 0 out j (omega arith)
      (omega arith) (omega arith)

pub length-byte_to_bit :
    (out : List Bool) (inp : List ℕ) (n : ℕ) → length (byte_to_bit out inp n) ≡ length out
unfolding byte_to_bit
length-byte_to_bit out inp n = length-sweep n 0 _ out

pub get_or-byte_to_bit :
    (out : List Bool) (inp : List ℕ) (n j : ℕ)
    → j < n
    → n ≤ length out
    → get_or (byte_to_bit out inp n) j false ≡ bit_of (get_or inp (j / 8) 0) (j % 8)
unfolding byte_to_bit
get_or-byte_to_bit out inp n j lt fits =
    get_or-fill false (λ i. bit_of (get_or inp (i / 8) 0) (i % 8)) n out j lt fits

pub length-hex_to_bit :
    (out : List Bool) (inp : List ℕ) (n : ℕ) → length (hex_to_bit out inp n) ≡ length out
unfolding hex_to_bit
length-hex_to_bit out inp n = length-sweep n 0 _ out

pub get_or-hex_to_bit :
    (out : List Bool) (inp : List ℕ) (n j : ℕ)
    → j < n
    → n ≤ length out
    → get_or (hex_to_bit out inp n) j false ≡ bit_of (hex_value (get_or inp (j / 4) 0)) (j % 4)
unfolding hex_to_bit
get_or-hex_to_bit out inp n j lt fits =
    get_or-fill false (λ i. bit_of (hex_value (get_or inp (i / 4) 0)) (i % 4)) n out j lt fits

pub length-bit_to_hex :
    (out : List ℕ) (inp : List Bool) (n : ℕ) → length (bit_to_hex out inp n) ≡ length out
unfolding bit_to_hex
length-bit_to_hex out inp n = length-sweep (n / 4) 0 _ _ ∙ length-sweep (n / 4) 0 _ out

pub get_or-bit_to_hex :
    (out : List ℕ) (inp : List Bool) (n j : ℕ)
    → j < n / 4
    → n / 4 ≤ length out
    → get_or (bit_to_hex out inp n) j 0 ≡ hex_digit (nibble inp j)
unfolding bit_to_hex
get_or-bit_to_hex out inp n j lt fits =
    get_or-fill 0 (λ i. hex_digit (nibble inp i)) (n / 4) _ j lt
      (omega (arith, length-sweep (n / 4) 0 (λ (_ : ℕ) (_ : List ℕ). 0) out))
