-- ===== src/Big/Crypt.antt =====
-- The powers, the algorithms of Euclid, the random numbers and the test for primes of cpp/BigNum.cpp.
-- `rand` is a parameter: `pair i` is what the two calls of the i-th `rand() << 16 | rand()` return. The
-- loops that end on a value have fuel, as have the divisions.
use Prim.Native.Nat.{bit_and, bit_or}
use com_richard_test.Base.{
  ◌>>=◌, ℕ, zero, suc, ◌+◌, ◌-◌, ◌*◌, ◌/◌, ◌%◌, ◌^◌, List, [], ◌∷◌, ◌++◌, Option, none, some, ltb,
  ◌==◌, if◌then◌else◌, get_or, set,
}
use com_richard_test.Big.Ops.{BigNum, cells, zero_num, of_uint, compare, eq, ne, add, sub, mul}
use com_richard_test.Big.Divide.{div, rem}
use com_richard_test.Big.Primes.{primes}

-- `1 << j` of an `int`, as an `unsigned long`
abbrev pub mask : ℕ → ℕ → ℕ
mask w j = if j == 31 then 2 ^ w - 2 ^ 31 else 2 ^ j

-- X and N of `power_mod`
pub record Power : Type 0 where
  pub x : BigNum
  pub n : BigNum

unfoldable pub times_mod : ℕ → ℕ → BigNum → BigNum → BigNum → Option BigNum
times_mod w fuel a b m = do p ← mul w a b; rem w fuel p m

unfoldable pub power_round : ℕ → ℕ → BigNum → ℕ → ℕ → Power → Option Power
power_round w fuel b cell j p = do
  x ← if bit_and cell (mask w j) == 0 then some p.x else times_mod w fuel p.x p.n b
  n ← times_mod w fuel p.n p.n b
  some (record { x = x; n = n })

-- `for (j = ...; j < 32; j++)`, with `k` bits left
unfoldable pub bits_loop : ℕ → ℕ → BigNum → ℕ → ℕ → ℕ → Power → Option Power
bits_loop w fuel b cell zero j p = some p
bits_loop w fuel b cell (suc k) j p = do
  p' ← power_round w fuel b cell j p
  bits_loop w fuel b cell k (j + 1) p'

-- `for (i = ...; i < A.length; i++)`, with `k` cells left
unfoldable pub power_loop : ℕ → ℕ → BigNum → List ℕ → ℕ → ℕ → Power → Option Power
power_loop w fuel b array zero i p = some p
power_loop w fuel b array (suc k) i p = do
  p' ← bits_loop w fuel b (get_or array i 0) 32 0 p
  power_loop w fuel b array k (i + 1) p'

unfoldable pub power_mod : ℕ → ℕ → BigNum → BigNum → BigNum → Option BigNum
power_mod w fuel this a b = do
  n ← rem w fuel this b
  p ← power_loop w fuel b a.array a.length 0 (record { x = of_uint w 1; n = n })
  some p.x

-- The variables of `ex_euclid`.
pub record Euclid : Type 0 where
  pub x : BigNum
  pub u : BigNum
  pub a : BigNum
  pub b : BigNum

unfoldable pub euclid_round : ℕ → ℕ → Euclid → Option Euclid
euclid_round w fuel e = do
  q ← div w fuel e.a e.b
  r ← rem w fuel e.a e.b
  t ← mul w q e.u
  u ← sub w e.x t
  some (record { x = e.u; u = u; a = e.b; b = r })

unfoldable pub euclid_loop : ℕ → ℕ → ℕ → Euclid → Option Euclid
euclid_loop w fuel zero e = none
euclid_loop w fuel (suc k) e =
    if ne e.b (of_uint w 0) == 0
    then some e
    else (do e' ← euclid_round w fuel e; euclid_loop w fuel k e')

unfoldable pub ex_euclid : ℕ → ℕ → BigNum → BigNum → Option BigNum
ex_euclid w fuel a b = do
  e ← euclid_loop w fuel fuel (record { x = of_uint w 1; u = of_uint w 0; a = a; b = b })
  if e.x.signal == 1 then add w e.x b else some e.x

-- `do { i = a % b; a = b; b = i; } while (b != o)`
unfoldable pub gcd_loop : ℕ → ℕ → ℕ → BigNum → BigNum → Option BigNum
gcd_loop w fuel zero a b = none
gcd_loop w fuel (suc k) a b = do
  i ← rem w fuel a b
  if ne i (of_uint w 0) == 0 then some b else gcd_loop w fuel k b i

unfoldable pub gcd : ℕ → ℕ → BigNum → BigNum → Option BigNum
gcd w fuel a b = gcd_loop w fuel fuel a b

unfoldable pub lcm : ℕ → ℕ → BigNum → BigNum → Option BigNum
lcm w fuel a b = do i ← gcd w fuel a b; p ← mul w a b; div w fuel p i

-- `Lfunction`, whose `n` is a global variable
unfoldable pub l_function : ℕ → ℕ → BigNum → BigNum → Option BigNum
l_function w fuel n a = do d ← sub w a (of_uint w 1); div w fuel d n

-- Two results of `rand`.
pub record Rands : Type 0 where
  pub left : ℕ
  pub right : ℕ

-- The shift of a number from 2 ^ 15 on leaves the `int`.
unfoldable pub rand_word : Rands → Option ℕ
rand_word r = if ltb r.left (2 ^ 15) then some (bit_or (r.left * 2 ^ 16) r.right) else none

-- `for (i = ...; i < n; ++i) array[i] = rand() << 16 | rand()`, with `k` rounds left and `r` words drawn
unfoldable pub random_loop : (ℕ → Rands) → ℕ → ℕ → ℕ → List ℕ → Option (List ℕ)
random_loop pair zero i r array = some array
random_loop pair (suc k) i r array = do
  v ← rand_word (pair r)
  random_loop pair k (i + 1) (r + 1) (set array i v)

-- A number and how many words are drawn behind the call.
pub record Drawn : Type 0 where
  pub number : BigNum
  pub draws : ℕ

-- `Random(a)`, with len2 = 2. The cells of the object behind the second stay.
unfoldable pub random : ℕ → (ℕ → Rands) → ℕ → BigNum → ℕ → Option Drawn
random w pair r this signal = do
  array ← random_loop pair 2 0 r this.array
  some (record {
    number = record {
      length = 2;
      signal = signal;
      array = set array 1 (bit_or (get_or array 1 0) (mask w 31));
    };
    draws = r + 2;
  })

-- `while (array[0] > A.array[0])`
unfoldable pub below_loop : (ℕ → Rands) → ℕ → ℕ → ℕ → List ℕ → Option Drawn
below_loop pair zero r x array = none
below_loop pair (suc fuel) r x array =
    if ltb x (get_or array 0 0)
    then (do v ← rand_word (pair r); below_loop pair fuel (r + 1) x (set array 0 v))
    else some (record { number = record { length = 1; signal = 0; array = array }; draws = r })

-- `Random(A)`
unfoldable pub random_below : (ℕ → Rands) → ℕ → ℕ → BigNum → BigNum → Option Drawn
random_below pair fuel r this a =
    if ltb 1 a.length
    then (do
      array ← random_loop pair (a.length - 1) 0 r this.array
      some (record {
        number = record { length = a.length - 1; signal = 0; array = array };
        draws = r + (a.length - 1);
      }))
    else (do
      v ← rand_word (pair r)
      below_loop pair fuel (r + 1) (get_or a.array 0 0) (set this.array 0 v))

-- The verdict of the small primes: `none` where the test goes on.
unfoldable pub small_primes : ℕ → ℕ → List ℕ → BigNum → Option (Option ℕ)
small_primes w fuel [] x = some none
small_primes w fuel (p ∷ ps) x = if eq x (of_uint w p) == 1 then some (some 1) else (do
  r ← rem w fuel x (of_uint w p)
  if eq r (of_uint w 0) == 1 then some (some 0) else small_primes w fuel ps x)

-- `while (!(m.array[0] & 1))`: how often m is halved, and what is left.
pub record Halved : Type 0 where
  pub r : ℕ
  pub m : BigNum

unfoldable pub halve_loop : ℕ → ℕ → ℕ → Halved → Option Halved
halve_loop w fuel zero h = none
halve_loop w fuel (suc k) h =
    if bit_and (get_or h.m.array 0 0) 1 == 0
    then (do m ← div w fuel h.m (of_uint w 2); halve_loop w fuel k (record { r = h.r + 1; m = m }))
    else some h

-- `O.Compare(v % X) == 2`
unfoldable pub vanishes : ℕ → ℕ → Option BigNum → BigNum → Option ℕ
vanishes w fuel v x = do
  a ← v
  r ← rem w fuel a x
  some (if compare (of_uint w 0) r == 2 then 1 else 0)

-- The squares of Y, with `n` of them left: 1 when one of them is -1.
unfoldable pub square_loop : ℕ → ℕ → ℕ → BigNum → BigNum → Option ℕ
square_loop w fuel zero y x = some 0
square_loop w fuel (suc n) y x = do
  y' ← times_mod w fuel y y x
  flag ← vanishes w fuel (add w y' (of_uint w 1)) x
  if flag == 1 then some 1 else square_loop w fuel n y' x

-- `while (A.Compare(T) == 2) A.Random(X)`
unfoldable pub redraw_loop : (ℕ → Rands) → ℕ → ℕ → Drawn → BigNum → BigNum → Option Drawn
redraw_loop pair fuel zero d t x = none
redraw_loop pair fuel (suc k) d t x =
    if compare d.number t == 2
    then (do d' ← random_below pair fuel d.draws d.number x; redraw_loop pair fuel k d' t x)
    else some d

-- One base: 1 when X passes.
unfoldable pub witness_passes : ℕ → ℕ → BigNum → Halved → BigNum → Option ℕ
witness_passes w fuel a h x = do
  y ← power_mod w fuel a h.m x
  one ← vanishes w fuel (sub w y (of_uint w 1)) x
  if one == 1 then some 1 else (do
    minus ← vanishes w fuel (add w y (of_uint w 1)) x
    if minus == 1 then some 1 else square_loop w fuel h.r y x)

-- The verdict, and how many words are drawn behind the call.
pub record Verdict : Type 0 where
  pub passes : ℕ
  pub draws : ℕ

-- The loop over the bases, with `n` of them left; `t` is the base before.
unfoldable pub base_loop :
    ℕ → ℕ → (ℕ → Rands) → ℕ → Drawn → BigNum → Halved → BigNum → Option Verdict
base_loop w fuel pair zero d t h x = some (record { passes = 1; draws = d.draws })
base_loop w fuel pair (suc n) d t h x = do
  d' ← random_below pair fuel d.draws d.number x
  a ← redraw_loop pair fuel fuel d' t x
  flag ← witness_passes w fuel a.number h x
  if flag == 1
      then base_loop w fuel pair n a a.number h x
      else some (record { passes = 0; draws = a.draws })

unfoldable pub rabin_miller : ℕ → ℕ → (ℕ → Rands) → ℕ → BigNum → Option Verdict
rabin_miller w fuel pair r x = do
  small ← small_primes w fuel primes x
  elim small [
    | some v ↦ some (record { passes = v; draws = r })
    | none ↦ do
      m ← sub w x (of_uint w 1)
      h ← halve_loop w fuel fuel (record { r = 0; m = m })
      base_loop w fuel pair 5 (record { number = zero_num; draws = r }) zero_num h x
  ]

unfoldable pub draw_odd : ℕ → (ℕ → Rands) → ℕ → BigNum → Option Drawn
draw_odd w pair r this = do
  d ← random w pair r this 0
  let odd = bit_or (get_or d.number.array 0 0) 1
  some (record d { number = record d.number { array = set d.number.array 0 odd } })

unfoldable pub prime_loop : ℕ → ℕ → (ℕ → Rands) → ℕ → Drawn → Option Drawn
prime_loop w fuel pair zero d = none
prime_loop w fuel pair (suc k) d = do
  v ← rabin_miller w fuel pair d.draws d.number
  if v.passes == 0
      then (do d' ← draw_odd w pair v.draws d.number; prime_loop w fuel pair k d')
      else some (record d { draws = v.draws })

unfoldable pub generate_prime : ℕ → ℕ → (ℕ → Rands) → ℕ → BigNum → Option Drawn
generate_prime w fuel pair r this = do d ← draw_odd w pair r this; prime_loop w fuel pair fuel d

-- The characters of a cell that `printS` prints, from the highest byte down, with `j` bytes left.
unfoldable pub print_cell : ℕ → ℕ → List ℕ
print_cell zero cell = []
print_cell (suc j) cell =
    let rest = print_cell j cell in
    let chr = cell / 2 ^ (8 * j) % 256 in if chr == 0 then rest else chr ∷ rest

-- `for (i = ...; i <= length; ++i)`, with `n` cells left
unfoldable pub print_loop : ℕ → ℕ → List ℕ → List ℕ
print_loop zero i array = []
print_loop (suc n) i array = print_cell 4 (get_or array i 0) ++ print_loop n (i + 1) array

-- What `printS` prints before the end of the line. The cell behind the number is read as well.
unfoldable pub print_s : BigNum → Option (List ℕ)
print_s a = if ltb a.length cells then some (print_loop (a.length + 1) 0 a.array) else none
