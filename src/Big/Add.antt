-- ===== src/Big/Add.antt =====
-- `operator+` on numbers of one sign, with an `unsigned long` of 32 bits.
use native.Mathlib.Nat.{mul-le-mul_right}
use com_richard_test.Base.{
  ℕ, zero, suc, ◌+◌, ◌-◌, ◌*◌, ◌%◌, ◌^◌, ◌≤◌, ◌<◌, List, Option, some, ltb, leb, if◌then◌else◌,
  Bool-cases, false, inl, inr, ◌≡◌, refl, sym, ap, ◌∙◌, arith, get_or, set, length, length-set,
  get_or-set_ne, replicate, length-replicate,
}
use com_richard_test.Big.Ops.{BigNum, cells, trim, add_loop, add_same}
use com_richard_test.Big.Value.{
  base, upto, IsSmall, IsZeroFrom, IsNum, mag, upto_next, pow_next, upto-set_next, upto-lt-pow,
  upto_zeros, set-IsSmall, of_cells,
}

pub set-IsZeroFrom : (a : List ℕ) (i v : ℕ) → IsZeroFrom i a → IsZeroFrom (i + 1) (set a i v)
set-IsZeroFrom a i v h k le = get_or-set_ne a i k v 0 (omega arith) ∙ h k (omega arith)

pub replicate-zero : (n i : ℕ) → get_or (replicate {A = ℕ} n 0) i 0 ≡ 0
replicate-zero zero i = refl
replicate-zero (suc n) zero = refl
replicate-zero (suc n) (suc i) = replicate-zero n i

pub upto-replicate : (n k : ℕ) → upto (replicate n 0) k ≡ 0
upto-replicate n zero = refl
upto-replicate n (suc k) =
    omega (arith, upto-replicate n k, ap (λ t. t * base ^ k) (replicate-zero n k))

-- What the loop leaves in `r`: the sum of the cells from `i` up to `j`.
record AddRun (i j c : ℕ) (a b out r : List ℕ) : Type 0 where
  count : length r ≡ length out
  small : IsSmall r
  zeros : IsZeroFrom j r
  carry : ℕ
  total :
      upto r j + carry * base ^ j + upto a i + upto b i
      ≡ upto out i + upto a j + upto b j + c * base ^ i

module _ (a b : List ℕ) (ha : IsSmall a) (hb : IsSmall b) where
  add_loop-AddRun :
      (n i j c : ℕ) (out : List ℕ)
      → i + n ≡ j
      → j ≤ length out
      → c ≤ 1
      → IsSmall out
      → IsZeroFrom i out
      → AddRun i j c a b out (add_loop 32 n i c a b out)
  unfolding add_loop
  add_loop-AddRun zero i j c out e len le small zeros =
      let same : i ≡ j = omega arith in
      record {
        count = refl;
        small = small;
        zeros = λ k h. zeros k (omega arith);
        carry = c;
        total = omega (
          arith,
          ap (upto a) same,
          ap (upto b) same,
          ap (upto out) same,
          ap (λ t. c * base ^ t) same,
        );
      }
  add_loop-AddRun (suc n) i j c out e len le small zeros =
      let sum : ℕ = (get_or b i 0 + get_or a i 0 + c) % 2 ^ 64 in
      let c' : ℕ = if leb sum 0xffffffff then 0 else 1 in
      let cell : ℕ = sum % 2 ^ 32 in
      let digits : get_or b i 0 + get_or a i 0 + c ≡ cell + c' * base =
        ground (arith, ha i, hb i) in
      let r =
        add_loop-AddRun n (i + 1) j c' (set out i cell) (omega arith)
          (omega (arith, length-set out i cell)) (ground arith)
          (set-IsSmall out i cell (omega arith) small) (set-IsZeroFrom out i cell zeros) in
      record {
        count = r.count ∙ length-set out i cell;
        small = r.small;
        zeros = r.zeros;
        carry = r.carry;
        total = omega (
          arith,
          r.total,
          upto-set_next out i cell (omega arith),
          upto_next a i,
          upto_next b i,
          ap (λ t. c' * t) (pow_next i),
          ap (λ t. t * base ^ i) digits,
        );
      }

-- A number with the sign and the absolute value that are given.
pub record Gives (o : Option BigNum) (signal value : ℕ) : Type 0 where
  pub number : BigNum
  pub returns : o ≡ some number
  pub valid : IsNum number
  pub sign : number.signal ≡ signal
  pub worth : mag number ≡ value

pub given : {s : BigNum} {value : ℕ} → IsNum s → mag s ≡ value → Gives (some s) s.signal value
given {s} v e = record { number = s; returns = refl; valid = v; sign = refl; worth = e }

-- The first cells of a number, its own and more, hold its absolute value.
pub upto-mag : {a : BigNum} (n : ℕ) → IsNum a → a.length ≤ n → upto a.array n ≡ mag a
upto-mag {a} n v le =
    let e : a.length + (n - a.length) ≡ n = omega arith in
    sym (ap (upto a.array) e) ∙ upto_zeros a.array a.length (n - a.length) v.zeros

no_carry : (x y t m p : ℕ) → x < t → y < t → p ≡ t * base → m * p ≤ x + y → m ≡ 0
no_carry x y t zero p hx hy e le = refl
no_carry x y t (suc m) p hx hy e le =
    absurd (omega (arith, mul-le-mul_right {m = 1} {n = suc m} p (omega arith)))

sum_of_cells :
    (a b : BigNum) (m : ℕ)
    → IsNum a
    → IsNum b
    → a.length ≤ m
    → b.length ≤ m
    → m < cells
    → (let r = add_loop 32 (m + 1) 0 0 a.array b.array (replicate cells 0) in
        IsNum (record { length = trim (m + 1) r; signal = a.signal; array = r })
        × (mag (record { length = trim (m + 1) r; signal = a.signal; array = r }) ≡ mag a + mag b))
sum_of_cells a b m va vb la lb lt =
    let out : List ℕ = replicate cells 0 in
    let r : List ℕ = add_loop 32 (m + 1) 0 0 a.array b.array out in
    let run : AddRun 0 (m + 1) 0 a.array b.array out r =
      add_loop-AddRun a.array b.array va.small vb.small (m + 1) 0 (m + 1) 0 out (omega arith)
        (omega (arith, length-replicate cells zero)) (omega arith)
        (λ i. omega (arith, replicate-zero cells i)) (λ i le. replicate-zero cells i) in
    let up_a = upto-mag {a = a} (m + 1) va (omega arith) in
    let up_b = upto-mag {a = b} (m + 1) vb (omega arith) in
    let nil_c =
      no_carry (mag a) (mag b) (base ^ m) run.carry (base ^ (m + 1))
        (omega (arith, upto-mag {a = a} m va la, upto-lt-pow a.array m va.small))
        (omega (arith, upto-mag {a = b} m vb lb, upto-lt-pow b.array m vb.small)) (pow_next m)
        (omega (arith, run.total, up_a, up_b)) in
    let made =
      of_cells (m + 1) a.signal r (run.count ∙ length-replicate cells zero) run.small run.zeros
        (omega arith) (omega arith) in
    (made.0, made.1 ∙ omega (arith, run.total, up_a, up_b, ap (λ t. t * base ^ (m + 1)) nil_c))

-- Two well-formed numbers of one sign, each of at most 127 cells, have a well-formed sum of that sign
-- whose absolute value is the sum of theirs.
pub add_same-Gives :
    (a b : BigNum)
    → IsNum a
    → IsNum b
    → a.length < cells
    → b.length < cells
    → Gives (add_same 32 a b) a.signal (mag a + mag b)
unfolding add_same
add_same-Gives a b va vb la lb = elim (Bool-cases (leb b.length a.length)) [
  | inl le ↦
      let room : ltb cells (a.length + 1) ≡ false = ground arith in
      let s = sum_of_cells a b a.length va vb (omega arith) (ground arith) la in
      rw (le, room) (given s.0 s.1)
  | inr gt ↦
      let room : ltb cells (b.length + 1) ≡ false = ground arith in
      let s = sum_of_cells a b b.length va vb (ground arith) (omega arith) lb in
      rw (gt, room) (given s.0 s.1)
]
