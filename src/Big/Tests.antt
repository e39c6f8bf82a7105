-- ===== src/Big/Tests.antt =====
-- Runs of the class BigNum on concrete numbers, and the theorems at concrete inputs.
use com_richard_test.Base.{
  ℕ, zero, suc, ◌+◌, ◌-◌, ◌*◌, ◌%◌, ◌/◌, ◌^◌, ◌<◌, List, [], ◌∷◌, ◌++◌, Option, some, none, inl,
  ◌≡◌, ◌≢◌, ◌↔◌, ◌∙◌, refl, arith, set, length-set, length-replicate, replicate, take,
  if◌then◌else◌, ltb,
}
use com_richard_test.Big.Ops.{
  BigNum, cells, of_uint, compare, compare_loop, eq, ne, trim, add_loop, add_same, add, sub_loop,
  sub_cells, sub_same, sub, row_loop, mul_loop, mul,
}
use com_richard_test.Big.Divide.{
  rem, mod_loop, mod_trial, mod_round, shift, move_loop, clear_loop, div_short, div,
}
use com_richard_test.Big.Crypt.{power_mod, gcd}
use com_richard_test.Big.Primes.{primes}
use com_richard_test.Big.Value.{base, IsNum, mag, set-IsSmall}
use com_richard_test.Big.Add.{replicate-zero, set-IsZeroFrom, Gives}
use com_richard_test.Big.Sub.{KeepsBorrow, sub_same-Gives}
use com_richard_test.Big.Mul.{mul-Gives}
use com_richard_test.Big.Short.{of_uint-IsNum}
use com_richard_test.Big.Quotient.{div-Gives}
use com_richard_test.Big.Power.{power_mod-power}
use com_richard_test.Big.Euclid.{FindsGcd, gcd-FindsGcd}
use com_richard_test.Big.Sieve.{Occurs, IsPrime, primes_complete}

-- The number in the cells that are given.
abbrev num : ℕ → ℕ → List ℕ → BigNum
num signal length low = record {
  length = length;
  signal = signal;
  array = take cells (low ++ replicate cells 0);
}

abbrev low_cells : Option BigNum → List ℕ
low_cells none = []
low_cells (some a) = take a.length a.array

-- 2 ^ 64 - 1 comes out as 2 ^ 65 - 1: the borrow is lost at the second cell.
borrow_lost :
    low_cells (sub 32 (num 0 3 (0 ∷ 0 ∷ 1 ∷ [])) (of_uint 32 1)) ≡ 0xffffffff ∷ 0xffffffff ∷ 1 ∷ []
unfolding sub sub_same compare compare_loop sub_cells sub_loop trim of_uint
borrow_lost = refl

-- 2 ^ 64 modulo 2 ^ 32 + 1 is 1, and 2 comes out.
wrong_remainder : low_cells (rem 32 40 (num 0 3 (0 ∷ 0 ∷ 1 ∷ [])) (num 0 2 (1 ∷ 1 ∷ []))) ≡ 2 ∷ []
unfolding rem mod_loop mod_trial mod_round shift move_loop clear_loop sub sub_same compare
    compare_loop sub_cells sub_loop trim of_uint mul mul_loop row_loop
wrong_remainder = refl

abbrev sign : Option BigNum → ℕ
sign none = 2
sign (some a) = a.signal

-- 6 divided by -2 gives +3: the sign of a divisor of one cell is ignored.
sign_ignored : sign (div 32 0 (num 0 1 (6 ∷ [])) (num 1 1 (2 ∷ []))) ≡ 0
unfolding div div_short
sign_ignored = refl

-- With an `unsigned long` of 64 bits the low cell of a sum keeps its carry, which is added above as well.
carry_twice : low_cells (add 64 (of_uint 64 0xffffffff) (of_uint 64 1)) ≡ 2 ^ 32 ∷ 1 ∷ []
unfolding add add_same add_loop trim of_uint
carry_twice = refl

-- Two numbers of different signs are neither equal nor unequal.
neither :
    (eq (num 0 1 (5 ∷ [])) (num 1 1 (5 ∷ [])) ≡ 0) × (ne (num 0 1 (5 ∷ [])) (num 1 1 (5 ∷ [])) ≡ 0)
unfolding eq ne
neither = (refl, refl)

-- A number of two cells.
abbrev two_cells : ℕ → ℕ → BigNum
two_cells x y = record { length = 2; signal = 0; array = set (set (replicate cells 0) 0 x) 1 y }

two_cells-IsNum : (x y : ℕ) → x < base → y < base → y ≢ 0 → IsNum (two_cells x y)
two_cells-IsNum x y hx hy top =
    let start : List ℕ = replicate cells 0 in
    record {
      count = length-set (set start 0 x) 1 y ∙ length-set start 0 x ∙ length-replicate cells zero;
      small =
          set-IsSmall (set start 0 x) 1 y hy
            (set-IsSmall start 0 x hx (λ i. omega (arith, replicate-zero cells i)));
      zeros =
          set-IsZeroFrom (set start 0 x) 1 y
            (set-IsZeroFrom start 0 x (λ i h. replicate-zero cells i));
      some_cell = omega arith;
      fits = omega arith;
      lead = λ gt. top;
    }

abbrev big : BigNum
big = two_cells 5 2

big-IsNum : IsNum big
big-IsNum = two_cells-IsNum 5 2 (omega arith) (omega arith) (omega arith)

seven : BigNum
seven = of_uint 32 7

seven-IsNum : IsNum seven × (mag seven ≡ 7) × (seven.signal ≡ 0)
unfolding seven
seven-IsNum = of_uint-IsNum 7 (omega arith)

seven_length : seven.length ≡ 1
unfolding seven of_uint
seven_length = refl

mul-Gives_example : Gives (mul 32 big big) 0 (mag big * mag big)
mul-Gives_example = mul-Gives big big big-IsNum big-IsNum (omega arith)

big_keeps : KeepsBorrow big seven
big_keeps zero lt h = omega arith
big_keeps (suc zero) lt h = omega arith
big_keeps (suc (suc i)) lt h = absurd (omega arith)

sub_same-Gives_example :
    Gives
      (some (sub_same 32 big seven))
      (if ltb (mag big) (mag seven) then 1 - 0 else 0)
      ((mag big - mag seven) + (mag seven - mag big))
sub_same-Gives_example =
    sub_same-Gives big seven big-IsNum seven-IsNum.0 (omega arith)
      (inl (omega (arith, seven-IsNum.1), big_keeps))

div-Gives_example : Gives (div 32 0 big seven) 0 (mag big / mag seven)
div-Gives_example =
    div-Gives 0 big seven big-IsNum seven-IsNum.0 seven_length (omega (arith, seven-IsNum.1))

power_mod-power_example :
    (x : BigNum) × (power_mod 32 0 big big seven ≡ some x)
    × IsNum x
    × (mag x ≡ mag big ^ mag big % mag seven)
power_mod-power_example =
    power_mod-power 0 seven seven-IsNum.0 seven_length (omega (arith, seven-IsNum.1)) big big
      big-IsNum big-IsNum (omega (arith, seven-IsNum.1))

gcd-FindsGcd_example : FindsGcd (gcd 32 7 big seven) (mag big) (mag seven)
gcd-FindsGcd_example =
    gcd-FindsGcd 7 big seven big-IsNum seven-IsNum.0 seven_length (omega (arith, seven-IsNum.1))
      (omega (arith, seven-IsNum.1))

primes_complete_example : Occurs 97 primes ↔ IsPrime 97
primes_complete_example = primes_complete 97 (omega arith) (omega arith)
