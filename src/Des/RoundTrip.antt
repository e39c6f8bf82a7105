-- ===== src/Des/RoundTrip.antt =====
-- The whole path of a block through `encrypt` and `decrypt`, from its bytes to the text and back.
use com_richard_test.Base.{
  ℕ, ◌<◌, List, ◌++◌, Bool, ◌≡◌, refl, sym, ap, ◌∙◌, arith, length, get_or, length-append,
  length-take, length-drop, take-append, drop-append, take-append-drop,
}
use com_richard_test.Des.Tables.{ip_tbl, ipr_tbl}
use com_richard_test.Des.Blocks.{byte_to_bit, bit_to_hex, hex_to_bit, bit_to_byte, tbl_replace}
use com_richard_test.Des.Cipher.{
  Halves, zeros, halves, encrypt_rounds, decrypt_rounds, encrypt, decrypt,
}
use com_richard_test.Des.Cells.{length-byte_to_bit, get_or-byte_to_bit, length-tbl_replace}
use com_richard_test.Des.Permute.{ip_undoes_ipr, ipr_undoes_ip}
use com_richard_test.Des.Hex.{hex_to_bit-bit_to_hex}
use com_richard_test.Des.Bytes.{bit_to_byte-bits}
use com_richard_test.Des.Feistel.{
  IsBlock, length-zeros, encrypt_rounds-IsBlock, decrypt-encrypt_rounds,
}

-- Every cell is a byte.
abbrev pub IsBytes : List ℕ → Type 0
IsBytes s = (k : ℕ) → k < length s → get_or s k 0 < 256

halves-IsBlock : (b : List Bool) → length b ≡ 64 → IsBlock (halves b)
halves-IsBlock b e = record {
  l32 = omega (arith, length-take 32 b);
  r32 = omega (arith, length-drop 32 b);
}

halves-append : (m : Halves) → IsBlock m → halves (m.l ++ m.r) ≡ m
halves-append m v =
    λ i. record { l = take-append 32 m.l m.r v.l32 i; r = drop-append 32 m.l m.r v.l32 i }

length-join : (m : Halves) → IsBlock m → length (m.l ++ m.r) ≡ 64
length-join m v = omega (arith, length-append m.l m.r, v.l32, v.r32)

-- From 64 bits through IP, the rounds, the final permutation and the text, and back.
bits_back :
    (keys : List (List Bool)) (b : List Bool) (text : List ℕ)
    → length b ≡ 64
    → length text ≡ 16
    → (m m' : Halves) → m ≡ encrypt_rounds keys (halves (tbl_replace b b ip_tbl 64))
    → m'
      ≡ decrypt_rounds keys (
          halves (
            tbl_replace
              (hex_to_bit
                (zeros 64)
                (bit_to_hex text (tbl_replace (m.l ++ m.r) (m.l ++ m.r) ipr_tbl 64) 64)
                64)
              (hex_to_bit
                (zeros 64)
                (bit_to_hex text (tbl_replace (m.l ++ m.r) (m.l ++ m.r) ipr_tbl 64) 64)
                64)
              ip_tbl
              64))
    → tbl_replace (m'.l ++ m'.r) (m'.l ++ m'.r) ipr_tbl 64 ≡ b
bits_back keys b text eb et m m' em em' =
    ap (λ (h : Halves). tbl_replace (h.l ++ h.r) (h.l ++ h.r) ipr_tbl 64) mixed_back
    ∙ ap (λ t. tbl_replace t t ipr_tbl 64) (take-append-drop 32 permuted)
    ∙ ipr_undoes_ip b permuted b eb eb length-permuted
  where
    permuted : List Bool
    permuted = tbl_replace b b ip_tbl 64

    length-permuted : length permuted ≡ 64
    length-permuted = length-tbl_replace b b ip_tbl 64 ∙ eb

    start : IsBlock (halves permuted)
    start = halves-IsBlock permuted length-permuted

    block : IsBlock m
    block = rw em (encrypt_rounds-IsBlock keys (halves permuted) start)

    final : List Bool
    final = tbl_replace (m.l ++ m.r) (m.l ++ m.r) ipr_tbl 64

    length-final : length final ≡ 64
    length-final = length-tbl_replace (m.l ++ m.r) (m.l ++ m.r) ipr_tbl 64 ∙ length-join m block

    read_back : hex_to_bit (zeros 64) (bit_to_hex text final 64) 64 ≡ final
    read_back = hex_to_bit-bit_to_hex 16 final (zeros 64) text length-final (length-zeros 64) et

    mixed_back : m' ≡ halves permuted
    mixed_back =
        em'
        ∙ ap (λ t. decrypt_rounds keys (halves (tbl_replace t t ip_tbl 64))) read_back
        ∙ ap (λ t. decrypt_rounds keys (halves t))
            (ip_undoes_ipr (m.l ++ m.r) final (m.l ++ m.r) (length-join m block)
              (length-join m block) length-final)
        ∙ ap (decrypt_rounds keys) (halves-append m block)
        ∙ ap (decrypt_rounds keys) em
        ∙ decrypt-encrypt_rounds keys (halves permuted) start

-- With whatever sub-keys, in particular those that `set_key` makes of any key, `decrypt` takes the
-- 16 hexadecimal digits that `encrypt` writes for 8 bytes back to these bytes, whatever the output
-- arrays of 16 and of 8 cells held before.
pub decrypt-encrypt :
    (sub_key : List (List Bool)) (plain cypher out : List ℕ)
    → length plain ≡ 8
    → IsBytes plain
    → length cypher ≡ 16
    → length out ≡ 8
    → decrypt sub_key (encrypt sub_key plain cypher) out ≡ plain
unfolding decrypt encrypt
decrypt-encrypt sub_key plain cypher out ep small ec eo =
    ap (λ b. bit_to_byte out b 64)
      (bits_back sub_key msg_bit cypher (length-byte_to_bit (zeros 64) plain 64 ∙ length-zeros 64)
        ec _ _ refl refl)
    ∙ together
  where
    msg_bit : List Bool
    msg_bit = byte_to_bit (zeros 64) plain 64

    together : bit_to_byte out msg_bit 64 ≡ plain
    together =
        ap (λ t. bit_to_byte out msg_bit t) (omega arith)
        ∙ bit_to_byte-bits plain out msg_bit (eo ∙ sym ep) small λ j lt.
          get_or-byte_to_bit (zeros 64) plain 64 j (omega arith) (omega (arith, length-zeros 64))
