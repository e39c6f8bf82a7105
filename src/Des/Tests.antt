-- ===== src/Des/Tests.antt =====
-- The cipher run on the data of the source's `main`, and the theorems at concrete inputs.
use mathlib.Core.Bool.{xor}
use com_richard_test.Base.{
  ℕ, ◌<◌, ◌≢◌, ◌↔◌, ◌⊎◌, true, false, arith, sweep, ◌≡◌, refl, codes, replicate,
}
use com_richard_test.Des.Tables.{ip_tbl, ipr_tbl, e_tbl, pc1_tbl, pc2_tbl, mv_tbl, s_box, p_tbl}
use com_richard_test.Des.Blocks.{
  bit_of, bit_cpy, byte_to_bit, hex_digit, nibble, bit_to_hex, hex_value, hex_to_bit, or_bits,
  bit_to_byte, tbl_replace, loop_bit, xor_bits,
}
use com_richard_test.Des.Cipher.{
  Halves, zeros, key_rounds, key_halves, set_key, s_row, s_col, s_boxes, s_change, f_change,
  encrypt_round, decrypt_round, encrypt_rounds, decrypt_rounds, encrypt, decrypt,
}
use com_richard_test.Des.RoundTrip.{decrypt-encrypt}
use com_richard_test.Des.Boxes.{s_entry, s_box_rows}

hello_round_trip :
    decrypt
      (set_key (codes "hellokey"))
      (encrypt (set_key (codes "hellokey")) (codes "hellodec") (replicate 16 0))
      (replicate 8 0)
    ≡ codes "hellodec"
unfolding decrypt encrypt set_key key_rounds key_halves loop_bit tbl_replace bit_cpy byte_to_bit
    bit_of sweep zeros s_row s_col s_boxes s_change f_change encrypt_round decrypt_round
    encrypt_rounds decrypt_rounds xor_bits xor hex_digit nibble bit_to_hex hex_value hex_to_bit
    or_bits bit_to_byte ip_tbl ipr_tbl e_tbl pc1_tbl pc2_tbl mv_tbl s_box p_tbl
hello_round_trip = refl

abbrev alternating : Halves
alternating = record { l = replicate 32 true; r = replicate 32 false }

decrypt-encrypt_example :
    decrypt
      (set_key (codes "hellokey"))
      (encrypt (set_key (codes "hellokey")) (codes "hellodec") (replicate 16 0))
      (replicate 8 0)
    ≡ codes "hellodec"
decrypt-encrypt_example =
    decrypt-encrypt (set_key (codes "hellokey")) (codes "hellodec") (replicate 16 0) (replicate 8 0)
      refl (grind arith) refl refl

s_box_rows_example :
    ((v : ℕ) → v < 16 → (c : ℕ) × (c < 16) × (s_entry 6 1 c ≡ v))
    ↔ ((◌≢◌ {A = ℕ} 1 1) ⊎ ((◌≢◌ {A = ℕ} 6 5) × (◌≢◌ {A = ℕ} 6 6)))
s_box_rows_example = s_box_rows 6 1 (omega arith) (omega arith)
