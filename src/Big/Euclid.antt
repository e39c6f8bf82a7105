-- ===== src/Big/Euclid.antt =====
-- `Gcd` of cpp/BigNum.cpp by a number of one cell, with an `unsigned long` of 32 bits.
use native.Mathlib.Nat.{mod-lt, dvd_of_mod-eq-zero, dvd_refl}
use com_richard_test.Base.{
  ℕ, zero, suc, ◌%◌, ◌≤◌, Option, some, ◌==◌, if◌then◌else◌, true, ◌⊎◌, inl, inr, ◌≡◌, ◌≢◌, refl,
  sym, ◌∙◌, arith,
}
use com_richard_test.Rsa.Divisor.{IsGcd, mod-IsGcd}
use com_richard_test.Big.Ops.{BigNum, of_uint, ne}
use com_richard_test.Big.Crypt.{gcd_loop, gcd}
use com_richard_test.Big.Value.{IsNum, mag}
use com_richard_test.Big.Compare.{Order, greater, less, equal, compare-Order}
use com_richard_test.Big.Short.{mag_one, rem-Gives, of_uint-IsNum}
use com_richard_test.Big.Power.{one_cell}

abbrev differs : ℕ → ℕ
differs v = if v == 2 then 0 else 1

-- `operator!=` against 0, of a number with the sign 0.
ne_zero :
    (a : BigNum)
    → IsNum a
    → a.signal ≡ 0
    → ((ne a (of_uint 32 0) ≡ 0) × (mag a ≡ 0)) ⊎ ((ne a (of_uint 32 0) ≡ 1) × (mag a ≢ 0))
unfolding ne
ne_zero a va sign =
    let (vz, worth, sz) = of_uint-IsNum 0 (omega arith) in
    let signs : (a.signal == (of_uint 32 0).signal) ≡ true = ground (arith, sign, sz) in
    rw signs (by_order worth (compare-Order a (of_uint 32 0) va vz))
  where
    by_order :
        {v z : ℕ}
        → z ≡ 0
        → Order (mag a) z v
        → ((differs v ≡ 0) × (mag a ≡ 0)) ⊎ ((differs v ≡ 1) × (mag a ≢ 0))
    by_order e (greater h) = inr (refl, omega arith)
    by_order e (less h) = absurd (omega arith)
    by_order e (equal h) = inl (refl, omega arith)

-- The greatest common divisor of the absolute values, as a well-formed number.
pub record FindsGcd (o : Option BigNum) (p q : ℕ) : Type 0 where
  pub number : BigNum
  pub returns : o ≡ some number
  pub valid : IsNum number
  pub divides : IsGcd (mag number) p q

gcd_loop-FindsGcd :
    (fuel k : ℕ) (a b : BigNum)
    → IsNum a
    → IsNum b
    → b.length ≡ 1
    → mag b ≢ 0
    → mag b ≤ k
    → FindsGcd (gcd_loop 32 fuel k a b) (mag a) (mag b)
unfolding gcd_loop
gcd_loop-FindsGcd fuel zero a b va vb one ne le = absurd (omega arith)
gcd_loop-FindsGcd fuel (suc k) a b va vb one nz le =
    let g = rem-Gives fuel a b va vb one nz in
    let below = mod-lt (mag a) {m = mag b} (omega arith) in
    rw g.returns (elim (ne_zero g.number g.valid g.sign) [
      | inl (test, null) ↦ rw test (record {
        number = b;
        returns = refl;
        valid = vb;
        divides = record {
          left = dvd_of_mod-eq-zero (mag b) {n = mag a} (sym g.worth ∙ null);
          right = dvd_refl (mag b);
          greatest = λ d l r. r;
        };
      })
      | inr (test, more) ↦
          let single : g.number.length ≡ 1 =
            one_cell g.number g.valid (omega (arith, g.worth, below, mag_one b one, vb.small 0)) in
          rw test (
            next g.worth (
              gcd_loop-FindsGcd fuel k b g.number vb g.valid single more
                (omega (arith, g.worth, below))))
    ])
  where
    next :
        {o : Option BigNum} {i : ℕ}
        → i ≡ mag a % mag b
        → FindsGcd o (mag b) i
        → FindsGcd o (mag a) (mag b)
    next e f = record {
      number = f.number;
      returns = f.returns;
      valid = f.valid;
      divides = mod-IsGcd (mag f.number) (mag a) (mag b) (rw (sym e) f.divides);
    }

-- For a second number of one cell that is not 0, with fuel for its value, `Gcd` returns a well-formed
-- number that is the greatest common divisor of the absolute values.
pub gcd-FindsGcd :
    (fuel : ℕ) (a b : BigNum)
    → IsNum a
    → IsNum b
    → b.length ≡ 1
    → mag b ≢ 0
    → mag b ≤ fuel
    → FindsGcd (gcd 32 fuel a b) (mag a) (mag b)
unfolding gcd
gcd-FindsGcd fuel a b va vb one nz le = gcd_loop-FindsGcd fuel fuel a b va vb one nz le
