-- ===== src/Big/Sub.antt =====
-- `operator-` on numbers of one sign, with an `unsigned long` of 32 bits. A cell that is 0 where a borrow
-- comes in loses the borrow.
use native.Mathlib.Nat.{mul-le-mul_right}
use com_richard_test.Base.{
  ℕ, zero, suc, ◌+◌, ◌-◌, ◌*◌, ◌%◌, ◌^◌, ◌≤◌, ◌<◌, List, Option, some, ltb, ◌==◌, if◌then◌else◌,
  Bool-cases, ◌⊎◌, inl, inr, ◌≡◌, ◌≢◌, refl, sym, ap, ◌∙◌, arith, get_or, set, length, length-set,
  replicate, length-replicate,
}
use com_richard_test.Big.Ops.{BigNum, cells, sub_loop, sub_cells, sub_same}
use com_richard_test.Big.Value.{
  base, upto, IsSmall, IsZeroFrom, IsNum, mag, upto_next, pow_next, upto-set_next, upto-lt-pow,
  set-IsSmall, of_cells,
}
use com_richard_test.Big.Add.{set-IsZeroFrom, replicate-zero, Gives, given, upto-mag}
use com_richard_test.Big.Compare.{Order, greater, less, equal, longer_greater, compare-Order}

-- No borrow comes into a cell that is 0: where the lower cells of `a` are less than those of `b`, the
-- next cell of `a` is not 0.
abbrev pub KeepsBorrow : BigNum → BigNum → Type 0
KeepsBorrow a b = (i : ℕ) → i < a.length → upto a.array i < upto b.array i → get_or a.array i 0 ≢ 0

record SubRun (j : ℕ) (a b out r : List ℕ) : Type 0 where
  count : length r ≡ length out
  small : IsSmall r
  zeros : IsZeroFrom j r
  borrow : ℕ
  total : upto r j + upto b j ≡ upto a j + borrow * base ^ j

module _ (a b : List ℕ) (ha : IsSmall a) (hb : IsSmall b) (j : ℕ)
    (keeps : (i : ℕ) → i < j → upto a i < upto b i → get_or a i 0 ≢ 0) where
  room :
      (i f : ℕ) (out : List ℕ)
      → i < j
      → f ≤ 1
      → IsSmall out
      → upto out i + upto b i ≡ upto a i + f * base ^ i
      → f ≤ get_or a i 0
  room i zero out lt le small inv = omega arith
  room i (suc zero) out lt le small inv =
      let ne = keeps i lt (omega (arith, inv, upto-lt-pow out i small)) in omega arith
  room i (suc (suc f)) out lt le small inv = absurd (omega arith)

  sub_loop-SubRun :
      (n i f : ℕ) (out : List ℕ)
      → i + n ≡ j
      → j ≤ length out
      → f ≤ 1
      → IsSmall out
      → IsZeroFrom i out
      → upto out i + upto b i ≡ upto a i + f * base ^ i
      → SubRun j a b out (sub_loop 32 n i f a b out)
  unfolding sub_loop
  sub_loop-SubRun zero i f out e len le small zeros inv =
      let same : i ≡ j = omega arith in
      record {
        count = refl;
        small = small;
        zeros = λ k h. zeros k (omega arith);
        borrow = f;
        total = rw (sym same) inv;
      }
  sub_loop-SubRun (suc n) i f out e len le small zeros inv =
      let sub : ℕ = (get_or a i 0 + 2 ^ 32 - f) % 2 ^ 32 % 2 ^ 32 in
      let f' : ℕ = if ltb sub (get_or b i 0) then 1 else 0 in
      let cell : ℕ = (0xffffffff * f' + 2 ^ 32 - get_or b i 0 + sub + f') % 2 ^ 32 in
      let digits : get_or a i 0 + f' * base ≡ get_or b i 0 + f + cell =
        ground (arith, ha i, hb i, room i f out (omega arith) le small inv) in
      let r =
        sub_loop-SubRun n (i + 1) f' (set out i cell) (omega arith)
          (omega (arith, length-set out i cell)) (ground arith)
          (set-IsSmall out i cell (omega arith) small) (set-IsZeroFrom out i cell zeros)
          (omega (
            arith,
            inv,
            upto-set_next out i cell (omega arith),
            upto_next a i,
            upto_next b i,
            ap (λ t. f' * t) (pow_next i),
            ap (λ t. t * base ^ i) digits,
          )) in
      record {
        count = r.count ∙ length-set out i cell;
        small = r.small;
        zeros = r.zeros;
        borrow = r.borrow;
        total = r.total;
      }

-- A number from the cells of a difference that does not fall below 0.
cells_differ :
    (a b : BigNum) (signal : ℕ)
    → IsNum a
    → IsNum b
    → b.length ≤ a.length
    → mag b ≤ mag a
    → KeepsBorrow a b
    → Gives (some (sub_cells 32 signal a b)) signal (mag a - mag b)
unfolding sub_cells
cells_differ a b signal va vb len le keeps =
    let out : List ℕ = replicate cells 0 in
    let r : List ℕ = sub_loop 32 a.length 0 0 a.array b.array out in
    let run : SubRun a.length a.array b.array out r =
      sub_loop-SubRun a.array b.array va.small vb.small a.length keeps a.length 0 0 out
        (omega arith) (omega (arith, length-replicate cells zero, va.fits)) (omega arith)
        (λ i. omega (arith, replicate-zero cells i)) (λ i le. replicate-zero cells i)
        (omega arith) in
    let up_b = upto-mag {a = b} a.length vb len in
    let nil_c =
      no_borrow (mag b) (mag a) (upto r a.length) (base ^ a.length) run.borrow le
        (upto-lt-pow r a.length run.small) (omega (arith, run.total, up_b)) in
    let made =
      of_cells a.length signal r (run.count ∙ length-replicate cells zero) run.small run.zeros
        va.some_cell va.fits in
    given made.0 (made.1 ∙ omega (arith, run.total, up_b, ap (λ t. t * base ^ a.length) nil_c))
  where
    no_borrow : (x y z t m : ℕ) → x ≤ y → z < t → z + x ≡ y + m * t → m ≡ 0
    no_borrow x y z t zero le lt e = refl
    no_borrow x y z t (suc m) le lt e =
        absurd (omega (arith, mul-le-mul_right {m = 1} {n = suc m} t (omega arith)))

recast : {o : Option BigNum} {s s' v v' : ℕ} → Gives o s v → s ≡ s' → v ≡ v' → Gives o s' v'
recast g es ev = record {
  number = g.number;
  returns = g.returns;
  valid = g.valid;
  sign = g.sign ∙ es;
  worth = g.worth ∙ ev;
}

not_longer : (a b : BigNum) → IsNum a → IsNum b → mag b ≤ mag a → b.length ≤ a.length
not_longer a b va vb le = elim (Bool-cases (ltb a.length b.length)) [
  | inl lt ↦ let more = longer_greater b a vb va (ground arith) in absurd (omega (arith, more))
  | inr ge ↦ ground arith
]

-- On two well-formed numbers of one sign, where no borrow comes into a cell of the greater one that is
-- 0, the difference of two numbers is well-formed, its absolute value is that of the difference, and its
-- sign is that of the first number, or the other one if the second is the greater.
pub sub_same-Gives :
    (a b : BigNum)
    → IsNum a
    → IsNum b
    → a.signal ≤ 1
    → ((mag b ≤ mag a) × KeepsBorrow a b) ⊎ ((mag a < mag b) × KeepsBorrow b a)
    → Gives
        (some (sub_same 32 a b))
        (if ltb (mag a) (mag b) then 1 - a.signal else a.signal)
        ((mag a - mag b) + (mag b - mag a))
unfolding sub_same
sub_same-Gives a b va vb sign (inl (le, keeps)) = not_less (compare-Order a b va vb)
  where
    differ :
        Gives
          (some (sub_cells 32 (if a.signal == 0 then 0 else 1) a b))
          (if ltb (mag a) (mag b) then 1 - a.signal else a.signal)
          ((mag a - mag b) + (mag b - mag a))
    differ =
        recast
          (cells_differ a b (if a.signal == 0 then 0 else 1) va vb (not_longer a b va vb le) le
            keeps)
          (ground arith) (omega arith)

    not_less :
        {v : ℕ}
        → Order (mag a) (mag b) v
        → Gives
            (some (
              if v == 1
              then sub_cells 32 (if a.signal == 0 then 1 else 0) b a
              else sub_cells 32 (if a.signal == 0 then 0 else 1) a b))
            (if ltb (mag a) (mag b) then 1 - a.signal else a.signal)
            ((mag a - mag b) + (mag b - mag a))
    not_less (greater h) = differ
    not_less (less h) = absurd (omega arith)
    not_less (equal h) = differ
sub_same-Gives a b va vb sign (inr (lt, keeps)) = is_less (compare-Order a b va vb)
  where
    is_less :
        {v : ℕ}
        → Order (mag a) (mag b) v
        → Gives
            (some (
              if v == 1
              then sub_cells 32 (if a.signal == 0 then 1 else 0) b a
              else sub_cells 32 (if a.signal == 0 then 0 else 1) a b))
            (if ltb (mag a) (mag b) then 1 - a.signal else a.signal)
            ((mag a - mag b) + (mag b - mag a))
    is_less (greater h) = absurd (omega arith)
    is_less (less h) =
        recast
          (cells_differ b a (if a.signal == 0 then 1 else 0) vb va
            (not_longer b a vb va (omega arith)) (omega arith) keeps)
          (ground arith) (omega arith)
    is_less (equal h) = absurd (omega arith)
