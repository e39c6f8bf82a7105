-- ===== src/Crc.antt =====
-- CRC16_XMODEM of cpp/algorithm/crc16_xmodem.c. A value stored to `wCRCin` is cut to 16 bits.
pub mod Residue
pub mod Detect
mod Tests
use Prim.Native.Nat.{bit_and, bit_xor}
use com_richard_test.Base.{ℕ, zero, suc, ◌*◌, ◌%◌, ◌^◌, List, [], ◌∷◌, ◌==◌, if◌then◌else◌}

abbrev pub poly : ℕ
poly = 0x1021

-- One round of the inner loop.
unfoldable pub crc_bit : ℕ → ℕ
crc_bit crc = if bit_and crc 0x8000 == 0 then crc * 2 % 2 ^ 16 else bit_xor (crc * 2) poly % 2 ^ 16

-- `for (i = 0; i < 8; i++)`, with `n` rounds left
unfoldable pub crc_bits : ℕ → ℕ → ℕ
crc_bits zero crc = crc
crc_bits (suc n) crc = crc_bits n (crc_bit crc)

-- One round of the outer loop: the byte is mixed into the high half.
unfoldable pub crc_byte : ℕ → ℕ → ℕ
crc_byte crc byte = crc_bits 8 (bit_xor crc (byte * 2 ^ 8) % 2 ^ 16)

unfoldable pub crc_loop : ℕ → List ℕ → ℕ
crc_loop crc [] = crc
crc_loop crc (byte ∷ msg) = crc_loop (crc_byte crc byte) msg

unfoldable pub crc16_xmodem : List ℕ → ℕ
crc16_xmodem msg = crc_loop 0x0000 msg
