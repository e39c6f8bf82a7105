-- ===== src/Des/Cipher.antt =====
-- The key schedule and the rounds of cpp/algorithm/3des.c: set_key, s_change, f_change, encrypt and
-- decrypt. `msg_bit_l` and `msg_bit_r` point to the halves of `msg_bit`, `key_bit_l` and `key_bit_r`
-- to those of `key_bit`: the halves are values of their own here, joined where the whole is read.
use com_richard_test.Base.{
  ℕ, zero, suc, ◌+◌, ◌*◌, List, [], ◌∷◌, ◌++◌, Bool, false, get_or, take, drop, replicate,
}
use com_richard_test.Des.Tables.{ip_tbl, ipr_tbl, e_tbl, pc1_tbl, pc2_tbl, mv_tbl, s_box, p_tbl}
use com_richard_test.Des.Blocks.{
  bit_value, bit_cpy, byte_to_bit, bit_to_hex, hex_to_bit, bit_to_byte, tbl_replace, loop_bit,
  xor_bits,
}

-- The two halves of a block, or of the 56 key bits.
pub record Halves : Type 0 where
  pub l : List Bool
  pub r : List Bool

unfoldable pub zeros : ℕ → List Bool
zeros n = replicate n false

-- The loop of `set_key`, for the shifts that are left; the sub-keys come in the order of the rounds.
unfoldable pub key_rounds : List ℕ → Halves → List (List Bool)
key_rounds [] k = []
key_rounds (mv ∷ mvs) k =
    let k' : Halves = record { l = loop_bit k.l mv 28; r = loop_bit k.r mv 28 } in
    tbl_replace (zeros 48) (k'.l ++ k'.r) pc2_tbl 48 ∷ key_rounds mvs k'

-- The key bits behind the permuted choice 1.
unfoldable pub key_halves : List ℕ → Halves
key_halves my_key =
    let key_bit = byte_to_bit (zeros 64) my_key 64 in
    let key_bit' = tbl_replace key_bit key_bit pc1_tbl 56 in
    record { l = take 28 key_bit'; r = take 28 (drop 28 key_bit') }

-- The table `sub_key` that `set_key` leaves.
unfoldable pub set_key : List ℕ → List (List Bool)
set_key my_key = key_rounds mv_tbl (key_halves my_key)

-- The row and the column of an S-box that six bits select.
unfoldable pub s_row : List Bool → ℕ
s_row data_in = bit_value (get_or data_in 0 false) * 2 + bit_value (get_or data_in 5 false) * 1

unfoldable pub s_col : List Bool → ℕ
s_col data_in =
    bit_value (get_or data_in 1 false) * 8
    + bit_value (get_or data_in 2 false) * 4
    + bit_value (get_or data_in 3 false) * 2
    + bit_value (get_or data_in 4 false) * 1

-- The loop of `s_change` at box `i`, with `n` boxes left: `data_in` advances by 6, `data_out` by 4.
unfoldable pub s_boxes : ℕ → ℕ → List Bool → List Bool → List Bool
s_boxes zero i data_out data_in = data_out
s_boxes (suc n) i data_out data_in =
    let entry = get_or s_box (i * 64 + s_row data_in * 16 + s_col data_in) 0 in
    byte_to_bit (take 4 data_out) (entry ∷ []) 4
    ++ s_boxes n (i + 1) (drop 4 data_out) (drop 6 data_in)

unfoldable pub s_change : List Bool → List Bool → List Bool
s_change data_out data_in = s_boxes 8 0 data_out data_in

unfoldable pub f_change : List Bool → List Bool → List Bool
f_change data_out data_in =
    let msg_e = tbl_replace (zeros 48) data_out e_tbl 48 in
    let msg_e' = xor_bits msg_e data_in 48 in
    let out = s_change data_out msg_e' in tbl_replace out out p_tbl 32

-- One round of `encrypt`.
unfoldable pub encrypt_round : List Bool → Halves → Halves
encrypt_round key m =
    let tmp = bit_cpy (zeros 32) m.r 32 in
    let r = xor_bits (f_change m.r key) m.l 32 in record { l = bit_cpy m.l tmp 32; r = r }

-- One round of `decrypt`.
unfoldable pub decrypt_round : List Bool → Halves → Halves
decrypt_round key m =
    let tmp = bit_cpy (zeros 32) m.l 32 in
    let l = xor_bits (f_change m.l key) m.r 32 in record { l = l; r = bit_cpy m.r tmp 32 }

-- `for (i = 0; i < 16; i++)` over the table of sub-keys
unfoldable pub encrypt_rounds : List (List Bool) → Halves → Halves
encrypt_rounds [] m = m
encrypt_rounds (key ∷ keys) m = encrypt_rounds keys (encrypt_round key m)

-- `for (i = 15; i >= 0; i--)`: the last sub-key comes first.
unfoldable pub decrypt_rounds : List (List Bool) → Halves → Halves
decrypt_rounds [] m = m
decrypt_rounds (key ∷ keys) m = decrypt_round key (decrypt_rounds keys m)

abbrev pub halves : List Bool → Halves
halves msg_bit = record { l = take 32 msg_bit; r = drop 32 msg_bit }

unfoldable pub encrypt : List (List Bool) → List ℕ → List ℕ → List ℕ
encrypt sub_key plain cypher =
    let msg_bit = byte_to_bit (zeros 64) plain 64 in
    let msg_bit' = tbl_replace msg_bit msg_bit ip_tbl 64 in
    let m = encrypt_rounds sub_key (halves msg_bit') in
    bit_to_hex cypher (tbl_replace (m.l ++ m.r) (m.l ++ m.r) ipr_tbl 64) 64

unfoldable pub decrypt : List (List Bool) → List ℕ → List ℕ → List ℕ
decrypt sub_key cypher plain =
    let msg_bit = hex_to_bit (zeros 64) cypher 64 in
    let msg_bit' = tbl_replace msg_bit msg_bit ip_tbl 64 in
    let m = decrypt_rounds sub_key (halves msg_bit') in
    bit_to_byte plain (tbl_replace (m.l ++ m.r) (m.l ++ m.r) ipr_tbl 64) 64
