-- ===== src/Big/Quotient.antt =====
-- `operator/` by a number of one cell, with an `unsigned long` of 32 bits.
use native.Mathlib.Nat.{
  pow-suc, pow-zero, mod-lt, mod-eq_of_lt, mul-le-mul, mul-le-mul_right, div-le_self,
  div-eq_of_lt-le, div-lt_iff_lt-mul, div-add-mod',
}
use com_richard_test.Base.{
  ℕ, zero, suc, ◌+◌, ◌-◌, ◌*◌, ◌/◌, ◌%◌, ◌^◌, ◌≤◌, ◌<◌, List, some, ltb, ◌==◌, if◌then◌else◌,
  Bool-cases, false, inl, inr, ◌≡◌, ◌≢◌, refl, sym, ap, ◌∙◌, arith, get_or, set, length, length-set,
  get_or-set_self, get_or-set_ne, ℕ_discrete,
}
use com_richard_test.Big.Ops.{BigNum}
use com_richard_test.Big.Divide.{short_loop, div_short, div}
use com_richard_test.Big.Value.{
  base, upto, IsSmall, IsZeroFrom, IsNum, mag, upto-set, upto-set_next, upto-lt-pow, set-IsSmall,
}
use com_richard_test.Big.Add.{Gives, given}
use com_richard_test.Big.Short.{mag_one}

-- The cells below `n` hold the quotient of what stood there, under the remainder `f`.
record ShortRun (n f x : ℕ) (a r : List ℕ) : Type 0 where
  count : length r ≡ length a
  small : IsSmall r
  behind : (k : ℕ) → n ≤ k → get_or r k 0 ≡ get_or a k 0
  rest : ℕ
  under : rest < x
  total : upto r n * x + rest ≡ f * base ^ n + upto a n

short_loop-ShortRun :
    (n f x : ℕ) (a : List ℕ)
    → IsSmall a
    → n ≤ length a
    → x < base
    → f < x
    → ShortRun n f x a (short_loop 32 n f x a)
unfolding short_loop
short_loop-ShortRun zero f x a small le lx lf = record {
  count = refl;
  small = small;
  behind = λ k h. refl;
  rest = f;
  under = lf;
  total = omega (arith, ap (λ t. f * t) (pow-zero base));
}
short_loop-ShortRun (suc n) f x a small le lx lf =
    let div : ℕ = (f * 2 ^ 32 % 2 ^ 64 + get_or a n 0) % 2 ^ 64 in
    let q : ℕ = div / x % 2 ^ 32 in
    let f1 : ℕ = (div - div / x * x) % 2 ^ 32 in
    let exact : div ≡ f * base + get_or a n 0 = omega (arith, small n) in
    let split : div / x * x + div % x ≡ div = div-add-mod' div x in
    let below : div % x < x = mod-lt div {m = x} (omega arith) in
    let q_lt : div / x < base =
      (div-lt_iff_lt-mul {k = x} {x = div} {y = base} (omega arith)).1
        (omega (arith, exact, small n, mul-le-mul_right {m = f + 1} {n = x} base (omega arith))) in
    let same_q : q ≡ div / x = mod-eq_of_lt q_lt in
    let same_f : f1 ≡ div % x = omega (arith, split, below) in
    let r =
      short_loop-ShortRun n f1 x (set a n q) (set-IsSmall a n q (omega arith) small)
        (omega (arith, length-set a n q)) lx (omega (arith, same_f, below)) in
    let cell : get_or (short_loop 32 n f1 x (set a n q)) n 0 ≡ div / x =
      r.behind n (omega arith) ∙ get_or-set_self a n q 0 le ∙ same_q in
    record {
      count = r.count ∙ length-set a n q;
      small = r.small;
      behind = λ k h. r.behind k (omega arith) ∙ get_or-set_ne a n k q 0 (omega arith);
      rest = r.rest;
      under = r.under;
      total = omega (
        arith,
        r.total,
        upto-set a n n q (omega arith),
        ap (λ t. t * base ^ n * x) cell,
        ap (λ t. t * base ^ n) same_f,
        ap (λ t. t * base ^ n) split,
        ap (λ t. t * base ^ n) exact,
        ap (λ t. f * t) (pow-suc base n),
      );
    }

-- The quotient is exact.
exact : (q x rest v : ℕ) → rest < x → q * x + rest ≡ v → q ≡ v / x
exact q x rest v lt e = sym (div-eq_of_lt-le {k = q} x {m = v} (omega arith) (omega arith))

-- A number of `n + 2` cells and its quotient: the two highest cells of the quotient are not both 0.
high_cells :
    (n x rest top : ℕ) (a r : List ℕ)
    → IsSmall r
    → rest < x
    → x < base
    → upto r (suc (suc n)) * x + rest ≡ upto a (suc n) + top * base ^ suc n
    → top ≢ 0
    → get_or r (suc n) 0 ≡ 0
    → get_or r n 0 ≢ 0
high_cells n x rest top a r small lt lx e ne z1 z0 =
    let low : upto r (suc (suc n)) ≡ upto r n =
      omega (arith, ap (λ t. t * base ^ n) z0, ap (λ t. t * base ^ suc n) z1) in
    absurd (
      omega (
        arith,
        e,
        ap (λ t. t * x) low,
        mul-le-mul {n₁ = suc (upto r n)} {m₁ = x} {n₂ = base ^ n} {m₂ = base}
            (upto-lt-pow r n small) (omega arith),
        pow-suc base n,
        mul-le-mul_right {m = 1} {n = top} (base ^ suc n) (omega arith),
      ))

-- The number that the loop leaves.
long_quotient :
    (a : BigNum) (x : ℕ)
    → IsNum a
    → x < base
    → 0 < x
    → 1 < a.length
    → (let r = short_loop 32 a.length 0 x a.array in
        Gives
          (some (record a {
            length = if get_or r (a.length - 1) 0 == 0 then a.length - 1 else a.length;
            array = r;
          }))
          a.signal
          (mag a / x))
long_quotient a x va lx pos two =
    let r : List ℕ = short_loop 32 a.length 0 x a.array in
    let run : ShortRun a.length 0 x a.array r =
      short_loop-ShortRun a.length 0 x a.array va.small (omega (arith, va.count, va.fits)) lx pos in
    let value : upto r a.length ≡ mag a / x =
      exact (upto r a.length) x run.rest (mag a) run.under (omega (arith, run.total)) in
    let behind : IsZeroFrom a.length r = λ k h. run.behind k h ∙ va.zeros k h in
    elim (Bool-cases (get_or r (a.length - 1) 0 == 0)) [
      | inl null ↦ rw null (shorter run value behind (ground arith))
      | inr lead ↦ rw lead (
          given
            (record {
              count = run.count ∙ va.count;
              small = run.small;
              zeros = behind;
              some_cell = va.some_cell;
              fits = va.fits;
              lead = λ gt. ground arith;
            })
            value)
    ]
  where
    shorter :
        {r : List ℕ}
        → ShortRun a.length 0 x a.array r
        → upto r a.length ≡ mag a / x
        → IsZeroFrom a.length r
        → get_or r (a.length - 1) 0 ≡ 0
        → Gives (some (record a { length = a.length - 1; array = r })) a.signal (mag a / x)
    shorter {r} run value behind null =
        let n : ℕ = a.length - 2 in
        let e : suc (suc n) ≡ a.length = omega (arith, two) in
        let e1 : a.length - 1 ≡ suc n = omega (arith, two) in
        let e0 : n ≡ a.length - 1 - 1 = omega (arith, two) in
        let null' : get_or r (suc n) 0 ≡ 0 = sym (ap (λ i. get_or r i 0) e1) ∙ null in
        given
          (record {
            count = run.count ∙ va.count;
            small = run.small;
            zeros = λ k h. elim (ℕ_discrete (a.length - 1) k) [
              | yes s ↦ ap (λ i. get_or r i 0) (sym s) ∙ null
              | no ns ↦ behind k (omega arith)
            ];
            some_cell = omega (arith, two);
            fits = omega (arith, va.fits);
            lead = λ gt z.
                high_cells n x run.rest (get_or a.array (suc n) 0) a.array r run.small run.under lx
                  (omega (arith, run.total, ap (λ t. upto r t * x) e, ap (upto a.array) e))
                  (λ top. va.lead two (ap (λ i. get_or a.array i 0) e1 ∙ top)) null'
                  (ap (λ i. get_or r i 0) e0 ∙ z);
          })
          (ap (upto r) e1 ∙ omega (arith, ap (upto r) e, ap (λ t. t * base ^ suc n) null', value))

-- A number of one cell.
short_quotient :
    (a : BigNum) (x : ℕ)
    → IsNum a
    → 0 < x
    → a.length ≡ 1
    → Gives
        (some (record a { array = set a.array 0 (get_or a.array 0 0 / x) }))
        a.signal
        (mag a / x)
short_quotient a x va pos one =
    let q : ℕ = get_or a.array 0 0 / x in
    let whole : mag a ≡ get_or a.array 0 0 = mag_one a one in
    given
      (record {
        count = length-set a.array 0 q ∙ va.count;
        small =
            set-IsSmall a.array 0 q (omega (arith, va.small 0, div-le_self (get_or a.array 0 0) x))
              va.small;
        zeros = λ k h. get_or-set_ne a.array 0 k q 0 (omega (arith, va.some_cell)) ∙ va.zeros k h;
        some_cell = va.some_cell;
        fits = va.fits;
        lead = λ gt. absurd (omega arith);
      })
      (ap (upto (set a.array 0 q)) one
        ∙ upto-set_next a.array 0 q (omega (arith, va.count))
        ∙ omega (arith, ap (λ t. q * t) (pow-zero base), ap (λ t. t / x) whole))

-- A well-formed number divided by a well-formed one of one cell that is not 0 is a well-formed number
-- with the sign of the dividend, whatever the fuel and the sign of the divisor; its value is the
-- quotient of the absolute values.
pub div-Gives :
    (fuel : ℕ) (a b : BigNum)
    → IsNum a
    → IsNum b
    → b.length ≡ 1
    → mag b ≢ 0
    → Gives (div 32 fuel a b) a.signal (mag a / mag b)
unfolding div div_short
div-Gives fuel a b va vb one ne =
    let x : ℕ = get_or b.array 0 0 in
    let is_x : mag b ≡ x = mag_one b one in
    let short : ltb 1 b.length ≡ false = ground arith in
    let divides : (x == 0) ≡ false = ground (arith, is_x) in
    rw (short, divides, is_x)
      (elim (Bool-cases (a.length == 1)) [
        | inl single ↦ rw single (short_quotient a x va (omega (arith, is_x)) (ground arith))
        | inr more ↦
            rw more (
              long_quotient a x va (vb.small 0) (omega (arith, is_x))
                (ground (arith, va.some_cell)))
      ])
