-- ===== src/Des/Bytes.antt =====
-- `byte_to_bit` and `bit_to_byte`.
use Prim.Native.Nat.{bit_or, min}
use native.Mathlib.Nat.{mod-eq_of_lt}
use native.Mathlib.Decide.{ℕ_discrete}
use com_richard_test.Base.{
  ℕ, zero, suc, ◌+◌, ◌-◌, ◌*◌, ◌/◌, ◌%◌, ◌^◌, ◌≤◌, ◌<◌, List, Bool, true, false, ◌==◌, ◌≡◌, ◌≢◌,
  refl, sym, ap, ◌∙◌, arith, length, get_or, set, sweep, length-set, get_or-set_self, get_or-set_ne,
  length-sweep, get_or-sweep, get_or_ext, all_below, all_below_sound, ==_iff,
}
use com_richard_test.Des.Blocks.{bit_value, bit_of, or_bits, bit_to_byte}

-- Bit `c` joined to the `c` bits below it gives the `c + 1` low bits.
join_bit : ℕ → ℕ → Bool
join_bit c x = bit_or (x % 2 ^ c) (bit_value (bit_of x c) * 2 ^ c) == x % 2 ^ (c + 1)

join_table : all_below 8 (λ c. all_below 256 (join_bit c)) ≡ true
unfolding all_below join_bit bit_of
join_table = refl

join_bit_lem :
    (c x : ℕ)
    → c < 8
    → x < 256
    → bit_or (x % 2 ^ c) (bit_value (bit_of x c) * 2 ^ c) ≡ x % 2 ^ (c + 1)
unfolding join_bit
join_bit_lem c x hc hx = (==_iff _ _).0 (
    all_below_sound 256 (join_bit c) x
      (all_below_sound 8 (λ c. all_below 256 (join_bit c)) c join_table hc) hx)

zero_bits : (x : ℕ) → 0 ≡ x % 2 ^ 0
zero_bits x = omega arith

length-or_bits :
    (n i : ℕ) (msg : List Bool) (out : List ℕ) → length (or_bits n i msg out) ≡ length out
unfolding or_bits
length-or_bits zero i msg out = refl
length-or_bits (suc n) i msg out = length-or_bits n (i + 1) msg _ ∙ length-set out (i / 8) _

-- How many bits of byte `k` are in when the loop stands at bit `i`.
level : ℕ → ℕ → ℕ
level i k = min (i - 8 * k) 8

level_facts :
    (i k : ℕ)
    → (level i (i / 8) ≡ i % 8)
      × (level (i + 1) (i / 8) ≡ i % 8 + 1)
      × (k ≢ i / 8 → level (i + 1) k ≡ level i k)
      × (level 0 k ≡ 0)
      × (8 * k + 8 ≤ i → level i k ≡ 8)
unfolding level
level_facts i k = (omega arith, omega arith, λ ne. omega arith, omega arith, λ h. omega arith)

module _ (bytes : List ℕ) (msg : List Bool) where
  abbrev AtLevel : ℕ → List ℕ → Type 0
  AtLevel i out = (k : ℕ) → k < length bytes → get_or out k 0 ≡ get_or bytes k 0 % 2 ^ level i k

  or_bits-AtLevel :
      ((k : ℕ) → k < length bytes → get_or bytes k 0 < 256)
      → ((j : ℕ)
          → j < 8 * length bytes
          → get_or msg j false ≡ bit_of (get_or bytes (j / 8) 0) (j % 8))
      → (n i e : ℕ) (out : List ℕ) → i + n ≡ e
      → e ≤ 8 * length bytes
      → length out ≡ length bytes
      → AtLevel i out
      → AtLevel e (or_bits n i msg out)
  unfolding or_bits
  or_bits-AtLevel small same zero i e out p q len at =
      λ k lt. at k lt ∙ ap (λ t. get_or bytes k 0 % 2 ^ level t k) (omega arith)
  or_bits-AtLevel small same (suc n) i e out p q len at =
      or_bits-AtLevel small same n (i + 1) e _ (omega arith) q (length-set out (i / 8) _ ∙ len) next
    where
      v : ℕ
      v = bit_or (get_or out (i / 8) 0) (bit_value (get_or msg i false) * 2 ^ (i % 8))

      value : v ≡ get_or bytes (i / 8) 0 % 2 ^ (i % 8 + 1)
      value =
          ap (λ t. bit_or t (bit_value (get_or msg i false) * 2 ^ (i % 8)))
            (at (i / 8) (omega arith)
              ∙ ap (λ t. get_or bytes (i / 8) 0 % 2 ^ t) (level_facts i 0).0)
          ∙ ap (λ b. bit_or (get_or bytes (i / 8) 0 % 2 ^ (i % 8)) (bit_value b * 2 ^ (i % 8)))
              (same i (omega arith))
          ∙ join_bit_lem (i % 8) (get_or bytes (i / 8) 0) (omega arith)
              (small (i / 8) (omega arith))

      next : AtLevel (i + 1) (set out (i / 8) v)
      next k lt = elim (ℕ_discrete k (i / 8)) [
        | yes here ↦
            ap (λ t. get_or (set out (i / 8) v) t 0) here
            ∙ get_or-set_self out (i / 8) v 0 (omega arith)
            ∙ value
            ∙ sym (ap (λ t. get_or bytes (i / 8) 0 % 2 ^ t) (level_facts i 0).1)
            ∙ ap (λ t. get_or bytes t 0 % 2 ^ level (i + 1) t) (sym here)
        | no there ↦
            get_or-set_ne out (i / 8) k v 0 (λ e. there (sym e))
            ∙ at k lt
            ∙ ap (λ t. get_or bytes k 0 % 2 ^ t) (sym ((level_facts i k).2 there))
      ]

-- Putting the bits of `m` bytes together gives the bytes.
pub bit_to_byte-bits :
    (bytes out : List ℕ) (msg : List Bool)
    → length out ≡ length bytes
    → ((k : ℕ) → k < length bytes → get_or bytes k 0 < 256)
    → ((j : ℕ)
        → j < 8 * length bytes
        → get_or msg j false ≡ bit_of (get_or bytes (j / 8) 0) (j % 8))
    → bit_to_byte out msg (8 * length bytes) ≡ bytes
unfolding bit_to_byte
bit_to_byte-bits bytes out msg len small same = get_or_ext 0 result bytes same_length λ k lt.
    all_in k (omega (arith, same_length))
    ∙ ap (λ t. get_or bytes k 0 % 2 ^ t)
        ((level_facts (8 * length bytes) k).4 (omega (arith, same_length)))
    ∙ mod-eq_of_lt (small k (omega (arith, same_length)))
  where
    cleared : List ℕ
    cleared = sweep (8 * length bytes / 8) 0 (λ _ _. 0) out

    length-cleared : length cleared ≡ length bytes
    length-cleared = length-sweep (8 * length bytes / 8) 0 (λ _ _. 0) out ∙ len

    start : AtLevel bytes msg 0 cleared
    start k lt =
        get_or-sweep 0 (λ _ _. 0) (λ i o o' h. refl) (8 * length bytes / 8) 0 out k (omega arith)
          (omega arith) (omega arith)
        ∙ zero_bits (get_or bytes k 0)
        ∙ sym (ap (λ t. get_or bytes k 0 % 2 ^ t) (level_facts 0 k).3)

    result : List ℕ
    result = or_bits (8 * length bytes) 0 msg cleared

    all_in : AtLevel bytes msg (8 * length bytes) result
    all_in =
        or_bits-AtLevel bytes msg small same (8 * length bytes) 0 (8 * length bytes) cleared
          (omega arith) (omega arith) length-cleared start

    same_length : length result ≡ length bytes
    same_length = length-or_bits (8 * length bytes) 0 msg cleared ∙ length-cleared
