-- ===== src/Rsa/Divisor.antt =====
-- `get_com_div`, the algorithm of Euclid.
use Prim.Native.Nat.{◌∣◌}
use native.Mathlib.Nat.{dvd-mod_iff, dvd_refl, dvd-zero, mod-lt}
use com_richard_test.Base.{
  ℕ, zero, suc, ◌+◌, ◌%◌, ◌≤◌, ◌<◌, Option, some, ltb, ◌==◌, Bool-cases, if◌then◌else◌, ◌⊎◌, inl,
  inr, ◌≡◌, ◌≢◌, refl, arith,
}
use com_richard_test.Rsa.{com_div_loop, get_com_div}

-- `g` is the greatest common divisor: the common divisors are the divisors of `g`.
pub record IsGcd (g p q : ℕ) : Type 0 where
  pub left : g ∣ p
  pub right : g ∣ q
  pub greatest : (d : ℕ) → d ∣ p → d ∣ q → d ∣ g

pub record Finds (o : Option ℕ) (p q : ℕ) : Type 0 where
  pub gcd : ℕ
  pub returns : o ≡ some gcd
  pub divides : IsGcd gcd p q

swap : {o : Option ℕ} {p q : ℕ} → Finds o p q → Finds o q p
swap f = record {
  gcd = f.gcd;
  returns = f.returns;
  divides = record {
    left = f.divides.right;
    right = f.divides.left;
    greatest = λ d l r. f.divides.greatest d r l;
  };
}

of_zero : (a : ℕ) → Finds (some a) a 0
of_zero a = record {
  gcd = a;
  returns = refl;
  divides = record { left = dvd_refl a; right = dvd-zero a; greatest = λ d l r. l };
}

pub mod-IsGcd : (g a b : ℕ) → IsGcd g b (a % b) → IsGcd g a b
mod-IsGcd g a b v = record {
  left = (dvd-mod_iff g {m = a} {n = b} v.left).0 v.right;
  right = v.left;
  greatest = λ d l r. v.greatest d r ((dvd-mod_iff d {m = a} {n = b} r).1 l);
}

of_rest : {o : Option ℕ} (a b : ℕ) → Finds o b (a % b) → Finds o a b
of_rest a b f = record { gcd = f.gcd; returns = f.returns; divides = mod-IsGcd f.gcd a b f.divides }

ordered :
    (fuel a b : ℕ)
    → (b ≢ 0 → Finds (com_div_loop fuel b (a % b)) b (a % b))
    → Finds (let rest = com_div_loop fuel b (a % b) in if b == 0 then some a else rest) a b
ordered fuel a b ih = elim (Bool-cases (b == 0)) [
  | inl zero_b ↦ let e : b ≡ 0 = ground arith in rw zero_b (rw e (of_zero a))
  | inr more ↦ rw more (of_rest a b (ih (ground arith)))
]

com_div_loop-Finds : (fuel p q : ℕ) → (q < fuel) ⊎ (p < fuel) → Finds (com_div_loop fuel p q) p q
unfolding com_div_loop
com_div_loop-Finds zero p q (inl h) = absurd (omega arith)
com_div_loop-Finds zero p q (inr h) = absurd (omega arith)
com_div_loop-Finds (suc fuel) p q h = elim (Bool-cases (ltb q p)) [
  | inl lt ↦
      let less : q < p = ground arith in
      rw lt (
        ordered fuel p q λ ne.
          com_div_loop-Finds fuel q (p % q) (inl (ground (arith, mod-lt p {m = q} (omega arith)))))
  | inr ge ↦
      let le : p ≤ q = ground arith in
      rw ge (
        swap (
          ordered fuel q p λ ne.
            com_div_loop-Finds fuel p (q % p)
              (inl (ground (arith, mod-lt q {m = p} (omega arith))))))
]

-- For all arguments, 0 included, `get_com_div` returns, and what it returns is the greatest common
-- divisor.
pub get_com_div-IsGcd : (p q : ℕ) → (g : ℕ) × (get_com_div p q ≡ some g) × IsGcd g p q
unfolding get_com_div
get_com_div-IsGcd p q =
    let f = com_div_loop-Finds (p + q + 1) p q (inl (omega arith)) in (f.gcd, f.returns, f.divides)
