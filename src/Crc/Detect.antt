-- ===== src/Crc/Detect.antt =====
-- CRC16_XMODEM on messages with an error in one byte.
use Prim.Native.Nat.{bit_xor, differ}
use native.Mathlib.Nat.{pow-suc, mod-eq_of_lt}
use com_richard_test.Base.{
  bit_xor_step, ℕ, zero, suc, ◌+◌, ◌*◌, ◌/◌, ◌%◌, ◌^◌, ◌≤◌, ◌<◌, List, [], ◌∷◌, ◌++◌, Bool, true,
  ◌==◌, ==_iff, if◌then◌else◌, ◌≡◌, ◌≢◌, refl, sym, ap, ◌∙◌, arith, all_below, all_below_sound,
}
use com_richard_test.Crc.{poly, crc_bit, crc_bits, crc_byte, crc_loop, crc16_xmodem}
use com_richard_test.Crc.Residue.{crc_byte-lt, crc_loop-lt, crc_loop-append}

-- The round backwards: the polynomial is odd, so the low bit tells which branch was taken.
unbit : ℕ → ℕ
unbit t = if t % 2 == 0 then t / 2 else bit_xor t poly / 2 + 32768

unbit_at : ℕ → ℕ → Bool
unbit_at h l = unbit (crc_bit (h * 256 + l)) == h * 256 + l

unbit_table : all_below 256 (λ h. all_below 256 (unbit_at h)) ≡ true
unfolding all_below unbit_at unbit crc_bit
unbit_table = refl

unbit-crc_bit : (s : ℕ) → s < 65536 → unbit (crc_bit s) ≡ s
unfolding unbit_at
unbit-crc_bit s lt =
    let split : s ≡ s / 256 * 256 + s % 256 = omega arith in
    ap (λ t. unbit (crc_bit t)) split
    ∙ (==_iff _ _).0 (
        all_below_sound 256 (unbit_at (s / 256)) (s % 256)
          (all_below_sound 256 (λ h. all_below 256 (unbit_at h)) (s / 256) unbit_table
            (omega arith))
          (omega arith))
    ∙ sym split

crc_bit-lt : (crc : ℕ) → crc_bit crc < 65536
unfolding crc_bit
crc_bit-lt crc = ground arith

crc_bit_injective : (s t : ℕ) → s < 65536 → t < 65536 → crc_bit s ≡ crc_bit t → s ≡ t
crc_bit_injective s t hs ht e = sym (unbit-crc_bit s hs) ∙ ap unbit e ∙ unbit-crc_bit t ht

crc_bits_injective : (n s t : ℕ) → s < 65536 → t < 65536 → crc_bits n s ≡ crc_bits n t → s ≡ t
unfolding crc_bits
crc_bits_injective zero s t hs ht e = e
crc_bits_injective (suc n) s t hs ht e =
    crc_bit_injective s t hs ht
      (crc_bits_injective n (crc_bit s) (crc_bit t) (crc_bit-lt s) (crc_bit-lt t) e)

differ_bits :
    (p q : ℕ)
    → p < 2
    → q < 2
    → (differ (differ p q) q ≡ p) × (differ p (differ p q) ≡ q) × (differ p q < 2)
differ_bits zero zero hp hq = (refl, refl, omega arith)
differ_bits zero (suc zero) hp hq = (refl, refl, omega arith)
differ_bits (suc zero) zero hp hq = (refl, refl, omega arith)
differ_bits (suc zero) (suc zero) hp hq = (refl, refl, omega arith)
differ_bits zero (suc (suc q)) hp hq = absurd (omega arith)
differ_bits (suc zero) (suc (suc q)) hp hq = absurd (omega arith)
differ_bits (suc (suc p)) q hp hq = absurd (omega arith)

cancel_step :
    (x y : ℕ)
    → (bit_xor (bit_xor (x / 2) (y / 2)) (y / 2) ≡ x / 2)
      × (bit_xor (x / 2) (bit_xor (x / 2) (y / 2)) ≡ y / 2)
    → (bit_xor (bit_xor x y) y ≡ x) × (bit_xor x (bit_xor x y) ≡ y)
cancel_step x y ih = (
  bit_xor_step (bit_xor x y) y
      ∙ (λ i. bit_xor (upper i) (y / 2) * 2 + differ (lower i) (y % 2))
      ∙ omega (arith, ih.0, bits.0),
  bit_xor_step x (bit_xor x y)
      ∙ (λ i. bit_xor (x / 2) (upper i) * 2 + differ (x % 2) (lower i))
      ∙ omega (arith, ih.1, bits.1),
)
  where
    bits :
        (differ (differ (x % 2) (y % 2)) (y % 2) ≡ x % 2)
        × (differ (x % 2) (differ (x % 2) (y % 2)) ≡ y % 2)
        × (differ (x % 2) (y % 2) < 2)
    bits = differ_bits (x % 2) (y % 2) (omega arith) (omega arith)

    upper : bit_xor x y / 2 ≡ bit_xor (x / 2) (y / 2)
    upper = omega (arith, bit_xor_step x y, bits.2)

    lower : bit_xor x y % 2 ≡ differ (x % 2) (y % 2)
    lower = omega (arith, bit_xor_step x y, bits.2)

-- Each operand is had back from the result and the other one.
bit_xor_cancel :
    (n x y : ℕ) → x ≤ n → y ≤ n → (bit_xor (bit_xor x y) y ≡ x) × (bit_xor x (bit_xor x y) ≡ y)
bit_xor_cancel zero zero zero hx hy = (refl, refl)
bit_xor_cancel zero zero (suc y) hx hy = absurd (omega arith)
bit_xor_cancel zero (suc x) y hx hy = absurd (omega arith)
bit_xor_cancel (suc n) x y hx hy =
    cancel_step x y (bit_xor_cancel n (x / 2) (y / 2) (omega arith) (omega arith))

pub bit_xor-lt-pow : (k x y : ℕ) → x < 2 ^ k → y < 2 ^ k → bit_xor x y < 2 ^ k
bit_xor-lt-pow zero zero zero hx hy = omega arith
bit_xor-lt-pow zero zero (suc y) hx hy = absurd (omega arith)
bit_xor-lt-pow zero (suc x) y hx hy = absurd (omega arith)
bit_xor-lt-pow (suc k) x y hx hy = omega (
  arith,
  pow-suc 2 k,
  bit_xor_step x y,
  (differ_bits (x % 2) (y % 2) (omega arith) (omega arith)).2,
  bit_xor-lt-pow k (x / 2) (y / 2) (omega (arith, pow-suc 2 k)) (omega (arith, pow-suc 2 k)),
)

mixed : ℕ → ℕ → ℕ
mixed crc byte = bit_xor crc (byte * 2 ^ 8) % 2 ^ 16

-- No bit is cut off when a byte is mixed into a 16-bit state.
mixed_lem : (crc byte : ℕ) → crc < 65536 → byte < 256 → mixed crc byte ≡ bit_xor crc (byte * 2 ^ 8)
unfolding mixed
mixed_lem crc byte hc hb =
    mod-eq_of_lt (bit_xor-lt-pow 16 crc (byte * 2 ^ 8) (omega arith) (omega arith))

mixed-lt : (crc byte : ℕ) → mixed crc byte < 65536
unfolding mixed
mixed-lt crc byte = omega arith

state_injective :
    (s t byte : ℕ) → s < 65536 → t < 65536 → byte < 256 → crc_byte s byte ≡ crc_byte t byte → s ≡ t
unfolding crc_byte mixed
state_injective s t byte hs ht hb e =
    let m = byte * 2 ^ 8 in
    let same : mixed s byte ≡ mixed t byte =
      crc_bits_injective 8 (mixed s byte) (mixed t byte) (mixed-lt s byte) (mixed-lt t byte) e in
    sym (bit_xor_cancel (s + m) s m (omega arith) (omega arith)).0
    ∙ ap (λ r. bit_xor r m) (sym (mixed_lem s byte hs hb) ∙ same ∙ mixed_lem t byte ht hb)
    ∙ (bit_xor_cancel (t + m) t m (omega arith) (omega arith)).0

byte_injective : (s a b : ℕ) → s < 65536 → a < 256 → b < 256 → crc_byte s a ≡ crc_byte s b → a ≡ b
unfolding crc_byte mixed
byte_injective s a b hs ha hb e =
    let same : mixed s a ≡ mixed s b =
      crc_bits_injective 8 (mixed s a) (mixed s b) (mixed-lt s a) (mixed-lt s b) e in
    let shifted : a * 2 ^ 8 ≡ b * 2 ^ 8 =
      sym (bit_xor_cancel (s + a * 2 ^ 8) s (a * 2 ^ 8) (omega arith) (omega arith)).1
      ∙ ap (bit_xor s) (sym (mixed_lem s a hs ha) ∙ same ∙ mixed_lem s b hs hb)
      ∙ (bit_xor_cancel (s + b * 2 ^ 8) s (b * 2 ^ 8) (omega arith) (omega arith)).1 in
    omega arith

-- Every element is a byte.
abbrev pub AllBytes : List ℕ → Type 0
AllBytes [] = Unit
AllBytes (byte ∷ msg) = (byte < 256) × AllBytes msg

loop_injective :
    (msg : List ℕ) (s t : ℕ)
    → AllBytes msg
    → s < 65536
    → t < 65536
    → crc_loop s msg ≡ crc_loop t msg
    → s ≡ t
unfolding crc_loop
loop_injective [] s t h hs ht e = e
loop_injective (byte ∷ msg) s t h hs ht e = state_injective s t byte hs ht h.0 (
    loop_injective msg (crc_byte s byte) (crc_byte t byte) h.1 (crc_byte-lt s byte)
      (crc_byte-lt t byte) e)

-- Two messages of bytes that differ in exactly one byte, at any place, have different checksums.
pub crc16_detects_byte :
    (before after : List ℕ) (a b : ℕ)
    → AllBytes after
    → a < 256
    → b < 256
    → a ≢ b
    → crc16_xmodem (before ++ a ∷ after) ≢ crc16_xmodem (before ++ b ∷ after)
unfolding crc16_xmodem crc_loop
crc16_detects_byte before after a b bytes ha hb ne e =
    let s = crc_loop 0 before in
    let fits : s < 65536 = crc_loop-lt 0 before (omega arith) in
    let rest : crc_loop (crc_byte s a) after ≡ crc_loop (crc_byte s b) after =
      sym (crc_loop-append 0 before (a ∷ after)) ∙ e ∙ crc_loop-append 0 before (b ∷ after) in
    ne (
      byte_injective s a b fits ha hb (
        loop_injective after (crc_byte s a) (crc_byte s b) bytes (crc_byte-lt s a) (crc_byte-lt s b)
          rest))
