-- ===== src/Crc/Residue.antt =====
-- The register of CRC16_XMODEM as a linear map of the message, and its residue.
use Prim.Native.Nat.{bit_xor}
use com_richard_test.Base.{
  ℕ, zero, suc, ◌+◌, ◌*◌, ◌/◌, ◌%◌, ◌^◌, ◌<◌, List, [], ◌∷◌, ◌++◌, Bool, true, ◌&&◌, ◌==◌, ==_iff,
  ◌≡◌, refl, ap, ◌∙◌, arith, all_below, all_below_sound,
}
use com_richard_test.Crc.{crc_bit, crc_bits, crc_byte, crc_loop, crc16_xmodem}

-- A 16-bit state whose high byte is `h` and whose low byte is `l` takes `h` to `l` in the high half.
high_out : ℕ → ℕ → Bool
high_out h l = bit_xor (h * 256 + l) (h * 2 ^ 8) % 2 ^ 16 == l

high_table : all_below 256 (λ h. all_below 256 (high_out h)) ≡ true
unfolding all_below high_out
high_table = refl

shift_out : ℕ → Bool
shift_out l = (crc_bits 8 l == l * 256) && (crc_byte (l * 256) l == 0)

shift_table : all_below 256 shift_out ≡ true
unfolding all_below shift_out crc_bits crc_bit crc_byte
shift_table = refl

crc_bit-lt : (crc : ℕ) → crc_bit crc < 65536
unfolding crc_bit
crc_bit-lt crc = ground arith

crc_bits-lt : (n crc : ℕ) → crc < 65536 → crc_bits n crc < 65536
unfolding crc_bits
crc_bits-lt zero crc h = h
crc_bits-lt (suc n) crc h = crc_bits-lt n (crc_bit crc) (crc_bit-lt crc)

pub crc_byte-lt : (crc byte : ℕ) → crc_byte crc byte < 65536
unfolding crc_byte
crc_byte-lt crc byte = crc_bits-lt 8 _ (omega arith)

pub crc_loop-lt : (crc : ℕ) (msg : List ℕ) → crc < 65536 → crc_loop crc msg < 65536
unfolding crc_loop
crc_loop-lt crc [] h = h
crc_loop-lt crc (byte ∷ msg) h = crc_loop-lt (crc_byte crc byte) msg (crc_byte-lt crc byte)

pub crc_loop-append :
    (crc : ℕ) (msg more : List ℕ) → crc_loop crc (msg ++ more) ≡ crc_loop (crc_loop crc msg) more
unfolding crc_loop
crc_loop-append crc [] more = refl
crc_loop-append crc (byte ∷ msg) more = crc_loop-append (crc_byte crc byte) msg more

high_out_lem : (h l : ℕ) → h < 256 → l < 256 → bit_xor (h * 256 + l) (h * 2 ^ 8) % 2 ^ 16 ≡ l
unfolding high_out
high_out_lem h l hh hl = (==_iff _ _).0 (
    all_below_sound 256 (high_out h) l
      (all_below_sound 256 (λ h. all_below 256 (high_out h)) h high_table hh) hl)

shift_out_lem : (l : ℕ) → l < 256 → (crc_bits 8 l ≡ l * 256) × (crc_byte (l * 256) l ≡ 0)
unfolding shift_out
shift_out_lem l hl = ground (arith, all_below_sound 256 shift_out l shift_table hl)

-- The two bytes of a state bring it to 0.
two_bytes : (h l : ℕ) → h < 256 → l < 256 → crc_loop (h * 256 + l) (h ∷ l ∷ []) ≡ 0
unfolding crc_loop
two_bytes h l hh hl = ap (λ t. crc_byte t l) first ∙ (shift_out_lem l hl).1
  where
    first : crc_byte (h * 256 + l) h ≡ l * 256
    first = unfold crc_byte in rw (high_out_lem h l hh hl) (shift_out_lem l hl).0

-- Every message that is followed by the two bytes of its checksum has the checksum 0, which is how a
-- receiver checks it.
pub crc16-append_checksum :
    (msg : List ℕ)
    → crc16_xmodem (msg ++ (crc16_xmodem msg / 256) ∷ (crc16_xmodem msg % 256) ∷ []) ≡ 0
unfolding crc16_xmodem
crc16-append_checksum msg =
    let c = crc_loop 0 msg in
    let fits = crc_loop-lt 0 msg (omega arith) in
    crc_loop-append 0 msg ((c / 256) ∷ (c % 256) ∷ [])
    ∙ ap (λ t. crc_loop t ((c / 256) ∷ (c % 256) ∷ [])) (omega arith)
    ∙ two_bytes (c / 256) (c % 256) (omega arith) (omega arith)
