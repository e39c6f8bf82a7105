-- ===== src/Des/Blocks.antt =====
-- The block operations of cpp/algorithm/3des.c: bit_cpy, byte_to_bit, bit_to_byte, bit_to_hex,
-- hex_to_bit, tbl_replace, loop_bit and xor. A `bool` cell is a Bool, a `char` the number of its
-- byte; an output array is an argument and the function returns it with its new contents.
use Prim.Native.Nat.{bit_or}
use mathlib.Core.Bool.{xor}
use com_richard_test.Base.{
  ℕ, zero, suc, ◌+◌, ◌-◌, ◌*◌, ◌/◌, ◌%◌, ◌^◌, List, ◌++◌, Bool, true, false, ◌==◌, leb, ltb,
  if◌then◌else◌, get_or, set, take, drop, replicate, sweep,
}

-- The value of a `bool` in an arithmetic expression.
abbrev pub bit_value : Bool → ℕ
bit_value true = 1
bit_value false = 0

-- `(x >> k) & 0x01`
unfoldable pub bit_of : ℕ → ℕ → Bool
bit_of x k = x / 2 ^ k % 2 == 1

unfoldable pub bit_cpy : List Bool → List Bool → ℕ → List Bool
bit_cpy data_out data_in num = sweep num 0 (λ i _. get_or data_in i false) data_out

unfoldable pub byte_to_bit : List Bool → List ℕ → ℕ → List Bool
byte_to_bit data_out data_in num =
    sweep num 0 (λ i _. bit_of (get_or data_in (i / 8) 0) (i % 8)) data_out

-- The digit that a nibble is written as: '0' to '9', or '7' + 10 = 'A' and on.
unfoldable pub hex_digit : ℕ → ℕ
hex_digit v = if ltb 9 (v % 16) then v % 16 + b'7' else v % 16 + b'0'

unfoldable pub nibble : List Bool → ℕ → ℕ
nibble data_in i =
    bit_value (get_or data_in (4 * i) false)
    + bit_value (get_or data_in (4 * i + 1) false) * 2
    + bit_value (get_or data_in (4 * i + 2) false) * 4
    + bit_value (get_or data_in (4 * i + 3) false) * 8

unfoldable pub bit_to_hex : List ℕ → List Bool → ℕ → List ℕ
bit_to_hex data_out data_in num =
    sweep (num / 4) 0 (λ i _. hex_digit (nibble data_in i)) (sweep (num / 4) 0 (λ _ _. 0) data_out)

-- What a digit is read as; the subtraction never goes below zero at a digit that `bit_to_hex` writes.
unfoldable pub hex_value : ℕ → ℕ
hex_value c = if leb c b'9' then c - b'0' else c - b'7'

unfoldable pub hex_to_bit : List Bool → List ℕ → ℕ → List Bool
hex_to_bit data_out data_in num =
    sweep num 0 (λ i _. bit_of (hex_value (get_or data_in (i / 4) 0)) (i % 4)) data_out

-- `for (k = i; k < i + n; k++) my_msg[k / 8] |= msg_in[k] << (k % 8)`
unfoldable pub or_bits : ℕ → ℕ → List Bool → List ℕ → List ℕ
or_bits zero i msg_in my_msg = my_msg
or_bits (suc n) i msg_in my_msg = or_bits n (i + 1) msg_in (
    set my_msg (i / 8)
      (bit_or (get_or my_msg (i / 8) 0) (bit_value (get_or msg_in i false) * 2 ^ (i % 8))))

unfoldable pub bit_to_byte : List ℕ → List Bool → ℕ → List ℕ
bit_to_byte my_msg msg_in num = or_bits num 0 msg_in (sweep (num / 8) 0 (λ _ _. 0) my_msg)

-- The static buffer of 256 cells; each call reads only cells that it has written before.
abbrev pub tmp_256 : List Bool
tmp_256 = replicate 256 false

unfoldable pub tbl_replace : List Bool → List Bool → List ℕ → ℕ → List Bool
tbl_replace data_out data_in table num =
    bit_cpy data_out (sweep num 0 (λ i _. get_or data_in (get_or table i 0 - 1) false) tmp_256) num

-- The second copy moves the array down over itself, `data_out + mv_step` to `data_out`; the third
-- writes behind `data_out + len - mv_step`.
unfoldable pub loop_bit : List Bool → ℕ → ℕ → List Bool
loop_bit data_out mv_step len =
    let tmp = bit_cpy tmp_256 data_out mv_step in
    let moved = sweep (len - mv_step) 0 (λ i out. get_or out (mv_step + i) false) data_out in
    take (len - mv_step) moved ++ bit_cpy (drop (len - mv_step) moved) tmp mv_step

unfoldable pub xor_bits : List Bool → List Bool → ℕ → List Bool
xor_bits msg_out msg_in num =
    sweep num 0 (λ i out. xor (get_or out i false) (get_or msg_in i false)) msg_out
