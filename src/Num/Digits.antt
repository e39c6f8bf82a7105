-- ===== src/Num/Digits.antt =====
-- Lists of decimal digits, lowest first, and their value: what the arrays of the source stand for.
use native.Mathlib.Nat.{pow-suc}
use com_richard_test.Base.{
  ℕ, zero, suc, ◌+◌, ◌-◌, ◌*◌, ◌/◌, ◌%◌, ◌^◌, ◌≤◌, ◌<◌, List, [], ◌∷◌, ◌++◌, ltb, if◌then◌else◌,
  ◌≡◌, refl, ap, arith, length, get_or, take, replicate,
}

abbrev pub val : List ℕ → ℕ
val [] = 0
val (d ∷ ds) = d + 10 * val ds

abbrev pub IsDigits : List ℕ → Type 0
IsDigits [] = Unit
IsDigits (d ∷ ds) = (d < 10) × IsDigits ds

pub pow_step : (n c : ℕ) → 10 ^ suc n * c ≡ 10 * (10 ^ n * c)
pow_step n c = omega (arith, ap (λ (t : ℕ). t * c) (pow-suc 10 n))

pub val-append : (xs ys : List ℕ) → val (xs ++ ys) ≡ val xs + 10 ^ length xs * val ys
val-append [] ys = omega arith
val-append (x ∷ xs) ys = omega (arith, val-append xs ys, pow_step (length xs) (val ys))

pub IsDigits-append : (xs ys : List ℕ) → IsDigits xs → IsDigits ys → IsDigits (xs ++ ys)
IsDigits-append [] ys hx hy = hy
IsDigits-append (x ∷ xs) ys hx hy = (hx.0, IsDigits-append xs ys hx.1 hy)

pub val-lt-pow : (xs : List ℕ) → IsDigits xs → val xs < 10 ^ length xs
val-lt-pow [] h = omega arith
val-lt-pow (x ∷ xs) h = omega (arith, val-lt-pow xs h.1, h.0, pow-suc 10 (length xs))

abbrev pub zeros : ℕ → List ℕ
zeros n = replicate n 0

pub val-zeros : (n : ℕ) → val (zeros n) ≡ 0
val-zeros zero = refl
val-zeros (suc n) = omega (arith, val-zeros n)

pub IsDigits-zeros : (n : ℕ) → IsDigits (zeros n)
IsDigits-zeros zero = tt
IsDigits-zeros (suc n) = (omega arith, IsDigits-zeros n)

pub get_or-lt : (xs : List ℕ) (n : ℕ) → IsDigits xs → get_or xs n 0 < 10
get_or-lt [] n h = omega arith
get_or-lt (x ∷ xs) zero h = h.0
get_or-lt (x ∷ xs) (suc n) h = get_or-lt xs n h.1

pub IsDigits-take : (n : ℕ) (xs : List ℕ) → IsDigits xs → IsDigits (take n xs)
IsDigits-take zero xs h = tt
IsDigits-take (suc n) [] h = tt
IsDigits-take (suc n) (x ∷ xs) h = (h.0, IsDigits-take n xs h.1)

-- The digit at position `n` counts `10 ^ n`.
pub val-take-suc :
    (n : ℕ) (xs : List ℕ)
    → n < length xs
    → val (take (suc n) xs) ≡ val (take n xs) + 10 ^ n * get_or xs n 0
val-take-suc n [] h = absurd (omega arith)
val-take-suc zero (x ∷ xs) h = omega arith
val-take-suc (suc n) (x ∷ xs) h =
    omega (arith, val-take-suc n xs (omega arith), pow_step n (get_or xs n 0))

-- What a loop of the source writes for the sum `s` of a cell, and what it carries on.
abbrev pub low : ℕ → ℕ
low s = if ltb s 10 then s else s - 10

abbrev pub high : ℕ → ℕ
high s = if ltb s 10 then 0 else 1

abbrev pub add_out : ℕ → List ℕ → List ℕ → List ℕ
add_out next [] ys = []
add_out next (x ∷ xs) [] = []
add_out next (x ∷ xs) (y ∷ ys) = low (x + y + next) ∷ add_out (high (x + y + next)) xs ys

abbrev pub add_carry : ℕ → List ℕ → List ℕ → ℕ
add_carry next [] ys = next
add_carry next (x ∷ xs) [] = next
add_carry next (x ∷ xs) (y ∷ ys) = add_carry (high (x + y + next)) xs ys

low-high : (s : ℕ) → s < 20 → (low s + 10 * high s ≡ s) × (low s < 10) × (high s ≤ 1)
low-high s h = ground arith

pub length-add_out :
    (next : ℕ) (xs ys : List ℕ) → length xs ≡ length ys → length (add_out next xs ys) ≡ length ys
length-add_out next [] ys e = e
length-add_out next (x ∷ xs) [] e = absurd (omega arith)
length-add_out next (x ∷ xs) (y ∷ ys) e =
    omega (arith, length-add_out (high (x + y + next)) xs ys (omega arith))

pub add_out_lem :
    (next : ℕ) (xs ys : List ℕ)
    → length xs ≡ length ys
    → IsDigits xs
    → IsDigits ys
    → next ≤ 1
    → (val (add_out next xs ys) + 10 ^ length ys * add_carry next xs ys ≡ val xs + val ys + next)
      × IsDigits (add_out next xs ys)
      × (add_carry next xs ys ≤ 1)
add_out_lem next [] [] e hx hy hn = (omega arith, tt, hn)
add_out_lem next [] (y ∷ ys) e hx hy hn = absurd (omega arith)
add_out_lem next (x ∷ xs) [] e hx hy hn = absurd (omega arith)
add_out_lem next (x ∷ xs) (y ∷ ys) e hx hy hn =
    let s = x + y + next in
    let (split, small, one) = low-high s (omega arith) in
    let (sum, digits, carry) = add_out_lem (high s) xs ys (omega arith) hx.1 hy.1 one in
    (
      omega (arith, sum, split, pow_step (length ys) (add_carry (high s) xs ys)),
      (small, digits),
      carry,
    )

abbrev pub dig_out : ℕ → ℕ → List ℕ → List ℕ
dig_out a next [] = []
dig_out a next (x ∷ xs) =
    (if ltb (x * a + next) 10 then x * a + next else (x * a + next) % 10)
    ∷ dig_out a (if ltb (x * a + next) 10 then 0 else (x * a + next) / 10) xs

abbrev pub dig_carry : ℕ → ℕ → List ℕ → ℕ
dig_carry a next [] = next
dig_carry a next (x ∷ xs) =
    dig_carry a (if ltb (x * a + next) 10 then 0 else (x * a + next) / 10) xs

pub length-dig_out : (a next : ℕ) (xs : List ℕ) → length (dig_out a next xs) ≡ length xs
length-dig_out a next [] = refl
length-dig_out a next (x ∷ xs) =
    ap suc (length-dig_out a (if ltb (x * a + next) 10 then 0 else (x * a + next) / 10) xs)

dig_split :
    (s : ℕ)
    → s < 100
    → ((if ltb s 10 then s else s % 10) + 10 * (if ltb s 10 then 0 else s / 10) ≡ s)
      × ((if ltb s 10 then s else s % 10) < 10)
      × ((if ltb s 10 then 0 else s / 10) < 10)
dig_split s h = ground arith

product_bound : (x a next : ℕ) → x < 10 → a < 10 → next < 10 → x * a + next < 100
product_bound x a next hx ha hn = grind arith

pub dig_out_lem :
    (a next : ℕ) (xs : List ℕ)
    → a < 10
    → next < 10
    → IsDigits xs
    → (val (dig_out a next xs) + 10 ^ length xs * dig_carry a next xs ≡ val xs * a + next)
      × IsDigits (dig_out a next xs)
      × (dig_carry a next xs < 10)
dig_out_lem a next [] ha hn hx = (omega arith, tt, hn)
dig_out_lem a next (x ∷ xs) ha hn hx =
    let s = x * a + next in
    let (split, small, carry) = dig_split s (product_bound x a next hx.0 ha hn) in
    let next' : ℕ = if ltb s 10 then 0 else s / 10 in
    let (sum, digits, carry') = dig_out_lem a next' xs ha carry hx.1 in
    (
      omega (arith, sum, split, pow_step (length xs) (dig_carry a next' xs)),
      (small, digits),
      carry',
    )
