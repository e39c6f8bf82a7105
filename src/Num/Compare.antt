-- ===== src/Num/Compare.antt =====
-- `big_num_cmp` and the order of the values.
use mathlib.Core.Path.{subst₂}
use com_richard_test.Base.{
  ℕ, zero, suc, ◌+◌, ◌*◌, ◌^◌, ◌≤◌, ◌<◌, List, [], ◌∷◌, false, ltb, if◌then◌else◌, Bool-cases, ◌⊎◌,
  inl, inr, Option, some, ◌≡◌, refl, ap, ◌∙◌, arith, length, get_or, take,
}
use com_richard_test.Num.Memory.{Block}
use com_richard_test.Num.Ops.{BigNum, Cmp, less, equal, greater, cmp_loop, big_num_cmp}
use com_richard_test.Num.Digits.{val, IsDigits, val-lt-pow, val-take-suc, IsDigits-take}
use com_richard_test.Num.Cells.{cells, load-cells}
use com_richard_test.Num.State.{IsNum}

-- The order of two numbers.
abbrev pub Says : Cmp → ℕ → ℕ → Type 0
Says less m n = m < n
Says equal m n = m ≡ n
Says greater m n = n < m

-- A higher digit decides, whatever the digits below it are.
digit_decides : (p a b m n : ℕ) → m < p → a < b → m + p * a < n + p * b
digit_decides p a b m n h lt = grind arith

length-take_le : (n : ℕ) (xs : List ℕ) → n ≤ length xs → length (take n xs) ≡ n
length-take_le zero xs h = refl
length-take_le (suc n) [] h = absurd (omega arith)
length-take_le (suc n) (x ∷ xs) h = ap suc (length-take_le n xs (omega arith))

take-lt-pow : (n : ℕ) (xs : List ℕ) → n ≤ length xs → IsDigits xs → val (take n xs) < 10 ^ n
take-lt-pow n xs h v = omega (
  arith,
  val-lt-pow (take n xs) (IsDigits-take n xs v),
  ap (λ (k : ℕ). 10 ^ k) (length-take_le n xs h),
)

-- What the loop says of the `n` low digits.
record LoopSays (o : Option Cmp) (m n : ℕ) : Type 0 where
  verdict : Cmp
  returns : o ≡ some verdict
  says : Says verdict m n

module _ (xs ys : List ℕ) (rx ry : Block) (hx : IsDigits xs) (hy : IsDigits ys) where
  cmp_loop-Says :
      (n : ℕ)
      → n ≤ length xs
      → n ≤ length ys
      → LoopSays (cmp_loop n (cells xs rx) (cells ys ry)) (val (take n xs)) (val (take n ys))
  unfolding cmp_loop
  cmp_loop-Says zero lx ly = record { verdict = equal; returns = refl; says = refl }
  cmp_loop-Says (suc n) lx ly =
      rw (load-cells xs rx n (omega arith), load-cells ys ry n (omega arith))
        (decide (cmp_loop-Says n (omega arith) (omega arith)))
    where
      a : ℕ
      a = get_or xs n 0

      b : ℕ
      b = get_or ys n 0

      tx : val (take (suc n) xs) ≡ val (take n xs) + 10 ^ n * a
      tx = val-take-suc n xs (omega arith)

      ty : val (take (suc n) ys) ≡ val (take n ys) + 10 ^ n * b
      ty = val-take-suc n ys (omega arith)

      bx : val (take n xs) < 10 ^ n
      bx = take-lt-pow n xs (omega arith) hx

      by : val (take n ys) < 10 ^ n
      by = take-lt-pow n ys (omega arith) hy

      same_top :
          (c : Cmp)
          → a ≡ b
          → Says c (val (take n xs)) (val (take n ys))
          → Says c (val (take (suc n) xs)) (val (take (suc n) ys))
      same_top less e s = omega (arith, tx, ty, ap (λ (k : ℕ). 10 ^ n * k) e)
      same_top equal e s = omega (arith, tx, ty, ap (λ (k : ℕ). 10 ^ n * k) e)
      same_top greater e s = omega (arith, tx, ty, ap (λ (k : ℕ). 10 ^ n * k) e)

      decide :
          LoopSays (cmp_loop n (cells xs rx) (cells ys ry)) (val (take n xs)) (val (take n ys))
          → LoopSays
              (if ltb b a
                then some greater
                else if ltb a b
                then some less
                else cmp_loop n (cells xs rx) (cells ys ry))
              (val (take (suc n) xs))
              (val (take (suc n) ys))
      decide rest = elim (Bool-cases (ltb b a)) [
        | inl gt ↦ rw gt (record {
          verdict = greater;
          returns = refl;
          says = omega (
            arith,
            tx,
            ty,
            digit_decides (10 ^ n) b a (val (take n ys)) (val (take n xs)) by (ground arith),
          );
        })
        | inr not_gt ↦ rw not_gt (elim (Bool-cases (ltb a b)) [
          | inl lt ↦ rw lt (record {
            verdict = less;
            returns = refl;
            says = omega (
              arith,
              tx,
              ty,
              digit_decides (10 ^ n) a b (val (take n xs)) (val (take n ys)) bx (ground arith),
            );
          })
          | inr not_lt ↦ rw not_lt (record {
            verdict = rest.verdict;
            returns = rest.returns;
            says = same_top rest.verdict (ground arith) rest.says;
          })
        ])
      ]

take_all : (xs : List ℕ) (n : ℕ) → n ≡ length xs → take n xs ≡ xs
take_all [] zero e = refl
take_all [] (suc n) e = refl
take_all (x ∷ xs) zero e = absurd (omega arith)
take_all (x ∷ xs) (suc n) e = ap (λ t. x ∷ t) (take_all xs n (omega arith))

-- What the comparison says of the digits: the longer number is the greater one, and of two numbers
-- of one length the one with the greater value.
abbrev pub Compared : Cmp → List ℕ → List ℕ → Type 0
Compared less xs ys = (length xs < length ys) ⊎ ((length xs ≡ length ys) × (val xs < val ys))
Compared equal xs ys = (length xs ≡ length ys) × (val xs ≡ val ys)
Compared greater xs ys = (length ys < length xs) ⊎ ((length xs ≡ length ys) × (val ys < val xs))

Says-Compared :
    (c : Cmp) (xs ys : List ℕ) → length xs ≡ length ys → Says c (val xs) (val ys) → Compared c xs ys
Says-Compared less xs ys e s = inr (e, s)
Says-Compared equal xs ys e s = (e, s)
Says-Compared greater xs ys e s = inr (e, s)

-- The comparison of two well-formed numbers returns a verdict that holds of their digits.
pub big_num_cmp-Compared :
    {x y : BigNum} {xs ys : List ℕ}
    → IsNum x xs
    → IsNum y ys
    → (c : Cmp) × (big_num_cmp x y ≡ some c) × Compared c xs ys
unfolding big_num_cmp
big_num_cmp-Compared {x} {y} {xs} {ys} vx vy = elim (Bool-cases (ltb y.wei x.wei)) [
  | inl gt ↦ (greater, rw gt, inl (ground (arith, vx.count, vy.count)))
  | inr not_gt ↦ elim (Bool-cases (ltb x.wei y.wei)) [
    | inl lt ↦ (less, rw (not_gt, lt), inl (ground (arith, vx.count, vy.count)))
    | inr not_lt ↦ same (ground (arith, vx.count, vy.count)) not_gt not_lt
  ]
]
  where
    same :
        length xs ≡ length ys
        → ltb y.wei x.wei ≡ false
        → ltb x.wei y.wei ≡ false
        → (c : Cmp) × (big_num_cmp x y ≡ some c) × Compared c xs ys
    same e not_gt not_lt =
        let s =
          cmp_loop-Says xs ys vx.rest vy.rest vx.digits vy.digits x.wei (omega (arith, vx.count))
            (omega (arith, vx.count)) in
        let says : Says s.verdict (val xs) (val ys) =
          subst₂ (λ m n. Says s.verdict m n) (ap val (take_all xs x.wei vx.count))
            (ap val (take_all ys x.wei (vx.count ∙ e))) s.says in
        (
          s.verdict,
          rw (not_gt, not_lt, vx.held, vy.held) s.returns,
          Says-Compared s.verdict xs ys e says,
        )
