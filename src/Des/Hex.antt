-- ===== src/Des/Hex.antt =====
-- `bit_to_hex` and `hex_to_bit`.
use com_richard_test.Base.{
  ℕ, zero, suc, ◌+◌, ◌*◌, ◌/◌, ◌%◌, ◌<◌, List, Bool, false, ◌≡◌, ap, ◌∙◌, arith, length, get_or,
  get_or_ext,
}
use com_richard_test.Des.Blocks.{
  bit_value, bit_of, hex_digit, nibble, bit_to_hex, hex_value, hex_to_bit,
}
use com_richard_test.Des.Cells.{get_or-bit_to_hex, length-hex_to_bit, get_or-hex_to_bit}

hex_value-hex_digit : (v : ℕ) → v < 16 → hex_value (hex_digit v) ≡ v
unfolding hex_value hex_digit
hex_value-hex_digit v h = ground arith

four_bits : Bool → Bool → Bool → Bool → ℕ
four_bits b0 b1 b2 b3 = bit_value b0 + bit_value b1 * 2 + bit_value b2 * 4 + bit_value b3 * 8

four_bits-lt : (b0 b1 b2 b3 : Bool) → four_bits b0 b1 b2 b3 < 16
unfolding four_bits
four_bits-lt b0 b1 b2 b3 = ground arith

bit_of-four_bits :
    (b0 b1 b2 b3 : Bool)
    → (bit_of (four_bits b0 b1 b2 b3) 0 ≡ b0)
      × (bit_of (four_bits b0 b1 b2 b3) 1 ≡ b1)
      × (bit_of (four_bits b0 b1 b2 b3) 2 ≡ b2)
      × (bit_of (four_bits b0 b1 b2 b3) 3 ≡ b3)
unfolding four_bits bit_of
bit_of-four_bits b0 b1 b2 b3 = ground arith

nibble-lt : (b : List Bool) (q : ℕ) → nibble b q < 16
unfolding nibble four_bits
nibble-lt b q = four_bits-lt _ _ _ _

bit_of-nibble :
    (b : List Bool) (q k : ℕ) → k < 4 → bit_of (nibble b q) k ≡ get_or b (4 * q + k) false
unfolding nibble four_bits
bit_of-nibble b q zero h = (bit_of-four_bits _ _ _ _).0 ∙ ap (λ t. get_or b t false) (omega arith)
bit_of-nibble b q (suc zero) h = (bit_of-four_bits _ _ _ _).1
bit_of-nibble b q (suc (suc zero)) h = (bit_of-four_bits _ _ _ _).2
bit_of-nibble b q (suc (suc (suc zero))) h = (bit_of-four_bits _ _ _ _).3
bit_of-nibble b q (suc (suc (suc (suc k)))) h = absurd (omega arith)

-- Reading back the text of a block of `4 * m` bits gives the block.
pub hex_to_bit-bit_to_hex :
    (m : ℕ) (block out : List Bool) (text : List ℕ)
    → length block ≡ 4 * m
    → length out ≡ 4 * m
    → length text ≡ m
    → hex_to_bit out (bit_to_hex text block (4 * m)) (4 * m) ≡ block
hex_to_bit-bit_to_hex m block out text eb eo et =
    get_or_ext false (hex_to_bit out (bit_to_hex text block (4 * m)) (4 * m)) block
      (omega (arith, length-hex_to_bit out (bit_to_hex text block (4 * m)) (4 * m)))
      λ j lt. cell j (omega (arith, length-hex_to_bit out (bit_to_hex text block (4 * m)) (4 * m)))
  where
    cell :
        (j : ℕ)
        → j < 4 * m
        → get_or (hex_to_bit out (bit_to_hex text block (4 * m)) (4 * m)) j false
          ≡ get_or block j false
    cell j lt =
        get_or-hex_to_bit out (bit_to_hex text block (4 * m)) (4 * m) j lt (omega arith)
        ∙ ap (λ c. bit_of (hex_value c) (j % 4))
            (get_or-bit_to_hex text block (4 * m) (j / 4) (omega arith) (omega arith))
        ∙ ap (λ v. bit_of v (j % 4))
            (hex_value-hex_digit (nibble block (j / 4)) (nibble-lt block (j / 4)))
        ∙ bit_of-nibble block (j / 4) (j % 4) (omega arith)
        ∙ ap (λ t. get_or block t false) (omega arith)
