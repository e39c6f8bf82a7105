-- ===== src/Crc/Tests.antt =====
-- The checksum of the source's test data, and the theorems at concrete inputs.
use com_richard_test.Base.{[], ◌∷◌, ◌++◌, ◌/◌, ◌%◌, ◌≡◌, ◌≢◌, refl, arith}
use com_richard_test.Crc.{crc_bit, crc_bits, crc_byte, crc_loop, crc16_xmodem}
use com_richard_test.Crc.Residue.{crc16-append_checksum}
use com_richard_test.Crc.Detect.{crc16_detects_byte}

-- The check value of CRC-16/XMODEM, of the text "123456789".
check_value :
    crc16_xmodem (0x31 ∷ 0x32 ∷ 0x33 ∷ 0x34 ∷ 0x35 ∷ 0x36 ∷ 0x37 ∷ 0x38 ∷ 0x39 ∷ []) ≡ 0x31c3
unfolding crc16_xmodem crc_loop crc_byte crc_bits crc_bit
check_value = refl

crc16_detects_byte_example :
    crc16_xmodem (0x98 ∷ 0x00 ∷ 0x12 ∷ []) ≢ crc16_xmodem (0x98 ∷ 0x01 ∷ 0x12 ∷ [])
crc16_detects_byte_example =
    crc16_detects_byte (0x98 ∷ []) (0x12 ∷ []) 0x00 0x01 (omega arith) (omega arith) (omega arith)
      (omega arith)

crc16-append_checksum_example :
    crc16_xmodem (
      (0x98 ∷ 0x00 ∷ [])
      ++ (crc16_xmodem (0x98 ∷ 0x00 ∷ []) / 256) ∷ (crc16_xmodem (0x98 ∷ 0x00 ∷ []) % 256) ∷ [])
    ≡ 0
crc16-append_checksum_example = crc16-append_checksum (0x98 ∷ 0x00 ∷ [])
