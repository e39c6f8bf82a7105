-- ===== src/Big/Divide.antt =====
-- `operator/` and `operator%` of cpp/BigNum.cpp. The loops that run while the dividend is not less than the
-- divisor have fuel: a result is `none` when the fuel ends, when a number leaves its array, and when
-- the divisor is 0.
use Prim.Native.Nat.{bit_or}
use com_richard_test.Base.{
  ◌>>=◌, ℕ, zero, suc, ◌+◌, ◌-◌, ◌*◌, ◌/◌, ◌%◌, ◌^◌, ◌&&◌, List, Option, none, some, ltb, leb, ◌==◌,
  if◌then◌else◌, get_or, set,
}
use com_richard_test.Big.Ops.{BigNum, cells, zero_num, of_uint, compare, add, sub, mul}

-- `x / y` of unsigned numbers
abbrev pub quot : ℕ → ℕ → Option ℕ
quot x y = if y == 0 then none else some (x / y)

-- `for (i = length - 1; i >= len; i--) array[i] = array[i - len]`, with `n` cells left
unfoldable pub move_loop : ℕ → ℕ → List ℕ → List ℕ
move_loop zero len array = array
move_loop (suc n) len array = move_loop n len (set array (len + n) (get_or array n 0))

-- `for (i = ...; i < len; i++) array[i] = 0`, with `n` cells left
unfoldable pub clear_loop : ℕ → ℕ → List ℕ → List ℕ
clear_loop zero i array = array
clear_loop (suc n) i array = clear_loop n (i + 1) (set array i 0)

-- The number moved up by `len` cells.
unfoldable pub shift : ℕ → BigNum → Option BigNum
shift len z =
    if ltb cells (z.length + len)
    then none
    else some (record z {
      length = z.length + len;
      array = clear_loop len 0 (move_loop z.length len z.array);
    })

abbrev pub top : BigNum → ℕ
top a = get_or a.array (a.length - 1) 0

-- The two highest cells as one number.
abbrev pub top_two : BigNum → ℕ
top_two a = (top a * 2 ^ 32 % 2 ^ 64 + get_or a.array (a.length - 2) 0) % 2 ^ 64

-- The quotient that is tried next, and by how many cells it is moved.
pub record Trial : Type 0 where
  pub len : ℕ
  pub digit : ℕ

-- `none` in the second place: the numbers differ in the lower cells only.
unfoldable pub trial : ℕ → BigNum → BigNum → Option (Option Trial)
trial w x a =
    if ltb (top a) (top x)
    then (do
      q ← quot (top x) ((top a + 1) % 2 ^ w)
      some (some (record { len = x.length - a.length; digit = q })))
    else (if ltb a.length x.length
        then (do
          q ←
              if top a == 0xffffffff
              then some (top_two x / 2 ^ 32)
              else quot (top_two x) ((top a + 1) % 2 ^ w)
          some (some (record { len = x.length - a.length - 1; digit = q })))
        else some none)

-- The dividend that is left and the quotient so far.
pub record Division : Type 0 where
  pub rest : BigNum
  pub quotient : BigNum

unfoldable pub div_round : ℕ → BigNum → Trial → Division → Option Division
div_round w a t d = do
  z ← shift t.len (of_uint w t.digit)
  y ← add w d.quotient z
  p ← mul w a z
  x ← sub w d.rest p
  some (record { rest = x; quotient = y })

unfoldable pub div_loop : ℕ → ℕ → BigNum → Division → Option Division
div_loop w zero a d = none
div_loop w (suc fuel) a d =
    if compare d.rest a == 0
    then (do
      t ← trial w d.rest a
      elim t [
        | none ↦ do y ← add w d.quotient (of_uint w 1); some (record d { quotient = y })
        | some t ↦ do d' ← div_round w a t d; div_loop w fuel a d'
      ])
    else some d

-- The division by one cell from the cell `n - 1` down, with the remainder `f` of the cells above.
unfoldable pub short_loop : ℕ → ℕ → ℕ → ℕ → List ℕ → List ℕ
short_loop w zero f x array = array
short_loop w (suc n) f x array =
    let div = (f * 2 ^ 32 % 2 ^ 64 + get_or array n 0) % 2 ^ 64 in
    short_loop w n ((div - div / x * x) % 2 ^ w) x (set array n (div / x % 2 ^ w))

unfoldable pub div_short : ℕ → BigNum → ℕ → BigNum
div_short w a x =
    if a.length == 1
    then record a { array = set a.array 0 (get_or a.array 0 0 / x) }
    else let array = short_loop w a.length 0 x a.array in
      record a {
        length = if get_or array (a.length - 1) 0 == 0 then a.length - 1 else a.length;
        array = array;
      }

-- The end of the division by a number of several cells.
unfoldable pub div_end : ℕ → BigNum → BigNum → Division → Option BigNum
div_end w a b d = do
  y ← if compare d.rest b == 2 then add w d.quotient (of_uint w 1) else some d.quotient
  some (if a.signal == b.signal then y else record y { signal = 1 })

unfoldable pub div : ℕ → ℕ → BigNum → BigNum → Option BigNum
div w fuel a b =
    if ltb 1 b.length
    then (do d ← div_loop w fuel b (record { rest = a; quotient = zero_num }); div_end w a b d)
    else (if get_or b.array 0 0 == 0 then none else some (div_short w a (get_or b.array 0 0)))

-- A move by -1 cells, which the source makes when a dividend of equal length has the lower top cell,
-- writes in front of the array.
unfoldable pub mod_trial : BigNum → BigNum → Option Trial
mod_trial y a =
    let len = y.length - a.length in
    if leb (top y) (top a)
    then (if len == 0 then none else (do
      q ← quot (top_two y) ((top a + 1) % 2 ^ 64)
      some (record { len = len - 1; digit = q })))
    else (do q ← quot (top y) ((top a + 1) % 2 ^ 64); some (record { len = len; digit = q }))

unfoldable pub mod_round : ℕ → BigNum → Trial → BigNum → Option BigNum
mod_round w a t y = do z ← shift t.len (of_uint w t.digit); p ← mul w a z; sub w y p

unfoldable pub mod_loop : ℕ → ℕ → BigNum → BigNum → Option BigNum
mod_loop w zero a y = none
mod_loop w (suc fuel) a y =
    if compare y a == 1
    then some y
    else (if (top y == top a) && (y.length == a.length)
        then sub w y a
        else (do t ← mod_trial y a; y' ← mod_round w a t y; mod_loop w fuel a y'))

-- The remainder of the division by one cell, from the cell `n - 1` down.
unfoldable pub rem_loop : ℕ → ℕ → ℕ → List ℕ → ℕ
rem_loop zero f x array = f
rem_loop (suc n) f x array =
    rem_loop n (bit_or (f * 2 ^ 32 % 2 ^ 64) (get_or array n 0) % x) x array

unfoldable pub rem_short : BigNum → ℕ → ℕ
rem_short a x = if a.length == 1 then get_or a.array 0 0 % x else rem_loop a.length 0 x a.array

unfoldable pub rem : ℕ → ℕ → BigNum → BigNum → Option BigNum
rem w fuel a b =
    if ltb 1 b.length
    then mod_loop w fuel b a
    else (if get_or b.array 0 0 == 0
        then none
        else some (of_uint w (rem_short a (get_or b.array 0 0))))
