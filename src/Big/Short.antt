-- ===== src/Big/Short.antt =====
-- Division by a number of one cell, with an `unsigned long` of 32 bits.
use native.Mathlib.Nat.{pow-suc, pow-zero, mod-lt, mod-eq_of_lt, mod-add-mod}
use com_richard_test.Base.{
  ℕ, zero, suc, ◌+◌, ◌*◌, ◌%◌, ◌^◌, ◌≤◌, ◌<◌, List, some, ltb, leb, ◌==◌, Bool-cases, true, false,
  inl, inr, ◌≡◌, ◌≢◌, sym, ap, ◌∙◌, arith, get_or, set, length-set, replicate, length-replicate,
  bit_or_disjoint,
}
use mathlib.Core.Option.{some-injective}
use com_richard_test.Base.{mod-mul_mod}
use com_richard_test.Big.Ops.{BigNum, cells, of_uint}
use com_richard_test.Big.Divide.{rem_loop, rem_short, rem}
use com_richard_test.Big.Value.{base, upto, IsSmall, IsNum, mag, upto-set_next, set-IsSmall}
use Prim.Native.Nat.{bit_or}
use com_richard_test.Big.Add.{set-IsZeroFrom, replicate-zero, Gives, given}

-- Reducing the part above makes no difference.
reduce_above : (p t c x : ℕ) → (p % x * t + c) % x ≡ (p * t + c) % x
reduce_above p t c x =
    sym (mod-add-mod (p % x * t) x c)
    ∙ ap (λ r. (r + c) % x) (mod-mul_mod p t x)
    ∙ mod-add-mod (p * t) x c

rem_loop_lem :
    (n f x : ℕ) (a : List ℕ)
    → IsSmall a
    → 0 < x
    → x ≤ base
    → f < x
    → rem_loop n f x a ≡ (f * base ^ n + upto a n) % x
unfolding rem_loop
rem_loop_lem zero f x a ha pos small lt =
    sym (mod-eq_of_lt lt) ∙ ap (λ t. t % x) (omega (arith, ap (λ t. f * t) (pow-zero base)))
rem_loop_lem (suc n) f x a ha pos small lt =
    let joined : bit_or (f * 2 ^ 32 % 2 ^ 64) (get_or a n 0) ≡ f * base + get_or a n 0 =
      ap (λ t. bit_or t (get_or a n 0)) (mod-eq_of_lt (omega arith))
      ∙ bit_or_disjoint 32 f (get_or a n 0) (ha n) in
    rw joined (
      rem_loop_lem n ((f * base + get_or a n 0) % x) x a ha pos small (mod-lt _ pos)
      ∙ reduce_above (f * base + get_or a n 0) (base ^ n) (upto a n) x
      ∙ ap (λ t. t % x) (omega (arith, ap (λ t. f * t) (pow-suc base n))))

-- A number of one cell.
one_cell :
    (v signal : ℕ)
    → v < base
    → Gives
        (some (record { length = 1; signal = signal; array = set (replicate cells 0) 0 v }))
        signal
        v
one_cell v signal lt =
    let start : List ℕ = replicate cells 0 in
    given
      (record {
        count = length-set start 0 v ∙ length-replicate cells zero;
        small = set-IsSmall start 0 v lt (λ i. omega (arith, replicate-zero cells i));
        zeros = set-IsZeroFrom start 0 v (λ i le. replicate-zero cells i);
        some_cell = omega arith;
        fits = omega arith;
        lead = λ gt. absurd (omega arith);
      })
      (upto-set_next start 0 v (omega arith) ∙ omega (arith, ap (λ t. v * t) (pow-zero base)))

pub of_uint-Gives : (v : ℕ) → v < base → Gives (some (of_uint 32 v)) 0 v
unfolding of_uint
of_uint-Gives v lt =
    let low : leb v 0xffffffff ≡ true = ground arith in
    let cell : v % 2 ^ 32 ≡ v = mod-eq_of_lt lt in rw (low, cell) (one_cell v 0 lt)

pub of_uint-IsNum :
    (v : ℕ)
    → v < base
    → IsNum (of_uint 32 v) × (mag (of_uint 32 v) ≡ v) × ((of_uint 32 v).signal ≡ 0)
of_uint-IsNum v lt =
    let g = of_uint-Gives v lt in
    rw (some-injective (of_uint 32 v) g.number g.returns) (g.valid, g.worth, g.sign)

-- The value of a number of one cell is that cell.
pub mag_one : (b : BigNum) → b.length ≡ 1 → mag b ≡ get_or b.array 0 0
mag_one b e = ap (upto b.array) e ∙ omega (arith, ap (λ t. get_or b.array 0 0 * t) (pow-zero base))

rem_short_lem : (a : BigNum) (x : ℕ) → IsNum a → 0 < x → x < base → rem_short a x ≡ mag a % x
unfolding rem_short
rem_short_lem a x va pos lt = elim (Bool-cases (a.length == 1)) [
  | inl one ↦ rw one (ap (λ t. t % x) (sym (mag_one a (ground arith))))
  | inr more ↦ rw more (
      rem_loop_lem a.length 0 x a.array va.small pos (omega arith) pos
      ∙ ap (λ t. t % x) (omega arith))
]

-- The remainder of a well-formed number by a well-formed one of one cell that is not 0 is a well-formed
-- number with the sign 0, whatever the fuel; its value is the remainder of the absolute values.
pub rem-Gives :
    (fuel : ℕ) (a b : BigNum)
    → IsNum a
    → IsNum b
    → b.length ≡ 1
    → mag b ≢ 0
    → Gives (rem 32 fuel a b) 0 (mag a % mag b)
unfolding rem
rem-Gives fuel a b va vb one ne =
    let x : ℕ = get_or b.array 0 0 in
    let is_x : mag b ≡ x = mag_one b one in
    let short : ltb 1 b.length ≡ false = ground arith in
    let divides : (x == 0) ≡ false = ground (arith, is_x) in
    let value : rem_short a x ≡ mag a % x =
      rem_short_lem a x va (omega (arith, is_x)) (vb.small 0) in
    rw (short, divides, value, is_x)
      (of_uint-Gives (mag a % x)
        (omega (arith, mod-lt (mag a) {m = x} (omega (arith, is_x)), vb.small 0)))
