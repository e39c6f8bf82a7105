-- ===== src/Num/Ops.antt =====
-- The operations of cpp/algorithm/big_num.c. A function that changes an object through its address
-- returns the new object; `none` is undefined behaviour. Two operands are never one object.
use com_richard_test.Base.{
  ◌>>=◌, ℕ, zero, suc, ◌+◌, ◌-◌, ◌*◌, ◌/◌, ◌%◌, ◌^◌, List, [], ◌∷◌, ◌&&◌, ◌==◌, ltb, leb,
  if◌then◌else◌, Option, none, some, length,
}
use com_richard_test.Num.Memory.{Block, load, store, realloc, clear}

pub record BigNum : Type 0 where
  pub arr : Block
  pub arr_len : ℕ
  pub wei : ℕ

-- The results -1, 0 and 1 of `big_num_cmp`.
pub data Cmp : Type 0 where
  less equal greater : Cmp

unfoldable pub get_zero : BigNum
get_zero = record { arr = some 0 ∷ none ∷ []; arr_len = 2; wei = 1 }

unfoldable pub extend_big_num : BigNum → BigNum
extend_big_num b = record b { arr = realloc b.arr (b.arr_len * 2); arr_len = b.arr_len * 2 }

-- `while (arr_len < n) extend_big_num(b)`, on fuel `n`: a length of at least 1 grows in each round.
unfoldable pub extend_below : ℕ → ℕ → BigNum → BigNum
extend_below zero n b = b
extend_below (suc fuel) n b =
    let rest = extend_below fuel n (extend_big_num b) in if ltb b.arr_len n then rest else b

-- The largest `int`; a result beyond it is undefined.
abbrev pub int_max : ℕ
int_max = 2 ^ 31 - 1

unfoldable pub int_mul : ℕ → ℕ → Option ℕ
int_mul a b = if leb (a * b) int_max then some (a * b) else none

-- `for (i = 1; i < m; i++) res *= n`, with `k` rounds left
unfoldable pub pow_loop : ℕ → ℕ → ℕ → Option ℕ
pow_loop zero n res = some res
pow_loop (suc k) n res = do res' ← int_mul res n; pow_loop k n res'

unfoldable pub my_pow : ℕ → ℕ → Option ℕ
my_pow n m = if m == 0 then some 1 else pow_loop (m - 1) n n

-- The do-while loop, on fuel: the number falls to a tenth in each round.
unfoldable pub count_loop : ℕ → ℕ → ℕ → ℕ
count_loop zero m n = n
count_loop (suc fuel) m n =
    let rest = count_loop fuel (m / 10) (n + 1) in if ltb 0 (m / 10) then rest else n + 1

unfoldable pub count_int_bit : ℕ → ℕ
count_int_bit m = count_loop (m + 1) m 0

-- `for (i = 1; i <= n; i++) arr[i - 1] = (m % my_pow(10, i)) / my_pow(10, i - 1)`, `k` rounds left
unfoldable pub digits_loop : ℕ → ℕ → ℕ → Block → Option Block
digits_loop zero i m arr = some arr
digits_loop (suc k) i m arr = do
  p ← my_pow 10 i
  q ← my_pow 10 (i - 1)
  arr' ← store arr (i - 1) (m % p / q)
  digits_loop k (i + 1) m arr'

unfoldable pub int_to_big_num : ℕ → Option BigNum
int_to_big_num m = do
  let n = count_int_bit m
  let res = extend_below n n get_zero
  arr ← digits_loop n 1 m res.arr
  some (record res { arr = arr; wei = n })

-- `for (i = 0; i < strlen(string); i++) arr[strlen(string) - i - 1] = string[i] - 48`: at the rest of
-- the string. A character below '0' would store a negative number, which the model does not have.
unfoldable pub string_loop : List ℕ → Block → Option Block
string_loop [] arr = some arr
string_loop (c ∷ s) arr = do arr' ← store arr (length s) (c - 48); string_loop s arr'

unfoldable pub str_to_big_num : List ℕ → Option BigNum
str_to_big_num string = do
  let n = length string
  let res = extend_below n n get_zero
  arr ← string_loop string res.arr
  some (record res { arr = arr; wei = n })

-- What `print_bit_num_ln` prints before the end of the line, from cell `n - 1` down; `%d` at a cell
-- that holds a digit.
unfoldable pub print_bit_num : ℕ → Block → Option (List ℕ)
print_bit_num zero arr = some []
print_bit_num (suc n) arr = do d ← load arr n; rest ← print_bit_num n arr; some ((d + 48) ∷ rest)

-- One pass of `big_num_add_0_self`, with `n` cells left.
unfoldable pub double_loop : ℕ → ℕ → ℕ → Block → Option (Block × ℕ)
double_loop zero i next arr = some (arr, next)
double_loop (suc n) i next arr = do
  d ← load arr i
  let res = d * 2 + next
  arr' ← store arr i (if ltb res 10 then res else res - 10)
  double_loop n (i + 1) (if ltb res 10 then 0 else 1) arr'

-- `if (next == 1) { arr[wei] = 1; wei++; }`
unfoldable pub put_one : Block → ℕ → ℕ → BigNum → Option BigNum
put_one arr next wei b =
    if next == 1
    then (do arr' ← store arr wei 1; some (record b { arr = arr'; wei = wei + 1 }))
    else some (record b { arr = arr; wei = wei })

unfoldable pub big_num_add_0_self : BigNum → Option BigNum
big_num_add_0_self b = do
  top ← load b.arr (b.wei - 1)
  let b' = if leb 5 top && (b.wei == b.arr_len) then extend_big_num b else b
  (arr, next) ← double_loop b'.wei 0 0 b'.arr
  put_one arr next b'.wei b'

-- `for (k = i; k < i + n; k++) b1[k] = b2[k]`
unfoldable pub copy_loop : ℕ → ℕ → Block → Block → Option Block
copy_loop zero i b1 b2 = some b1
copy_loop (suc n) i b1 b2 = do d ← load b2 i; b1' ← store b1 i d; copy_loop n (i + 1) b1' b2

unfoldable pub big_num_cpy : BigNum → BigNum → Option BigNum
big_num_cpy b1 b2 = do
  let b1' =
      if ltb b1.arr_len b2.arr_len
      then record b1 { arr = realloc b1.arr b2.arr_len; arr_len = b2.arr_len }
      else b1
  cleared ← clear b1'.arr_len 0 b1'.arr
  arr ← copy_loop b2.wei 0 cleared b2.arr
  some (record b1' { arr = arr; wei = b2.wei })

-- The comparison from the top digit down, with `n` digits left.
unfoldable pub cmp_loop : ℕ → Block → Block → Option Cmp
cmp_loop zero x y = some equal
cmp_loop (suc n) x y = do
  a ← load x n
  b ← load y n
  let rest = cmp_loop n x y
  if ltb b a then some greater else if ltb a b then some less else rest

unfoldable pub big_num_cmp : BigNum → BigNum → Option Cmp
big_num_cmp b1 b2 =
    if ltb b2.wei b1.wei
    then some greater
    else if ltb b1.wei b2.wei
    then some less
    else cmp_loop b1.wei b1.arr b2.arr

-- The loop of both additions: the digits of `y` are added to those of `x`, with `n` cells left.
unfoldable pub add_loop : ℕ → ℕ → ℕ → Block → Block → Option (Block × ℕ)
add_loop zero i next x y = some (x, next)
add_loop (suc n) i next x y = do
  a ← load x i
  b ← load y i
  let sum = a + b + next
  x' ← store x i (if ltb sum 10 then sum else sum - 10)
  add_loop n (i + 1) (if ltb sum 10 then 0 else 1) x' y

-- `if (b1->wei == b1->_arrLen) extend_big_num(b1)`
unfoldable pub extend_full : BigNum → BigNum
extend_full b = if b.wei == b.arr_len then extend_big_num b else b

-- What `big_num_add_0` does to `b1` when the comparison said -1.
unfoldable pub make_room : Cmp → BigNum → BigNum → Option BigNum
make_room less b1 b2 = do
  let b1' = extend_below b2.arr_len b2.arr_len b1
  arr ← clear (b1'.arr_len - b1'.wei) b1'.wei b1'.arr
  some (record b1' { arr = arr })
make_room equal b1 b2 = some b1
make_room greater b1 b2 = some b1

-- `if (next == 1) { arr[wei]++; wei++; }`
unfoldable pub bump_top : Block → ℕ → ℕ → BigNum → Option BigNum
bump_top arr next wei b =
    if next == 1
    then (do
      d ← load arr wei
      arr' ← store arr wei (d + 1)
      some (record b { arr = arr'; wei = wei + 1 }))
    else some (record b { arr = arr; wei = wei })

unfoldable pub big_num_add_0 : BigNum → BigNum → Option BigNum
big_num_add_0 b1 b2 = do
  let b1' = extend_full b1
  flag ← big_num_cmp b1' b2
  b1'' ← make_room flag b1' b2
  (arr, next) ← add_loop b2.wei 0 0 b1''.arr b2.arr
  bump_top arr next (if ltb b1''.wei b2.wei then b2.wei else b1''.wei) b1''

-- One pass of `big_num_multi_dig`, with `n` cells left.
unfoldable pub dig_loop : ℕ → ℕ → ℕ → ℕ → Block → Option (Block × ℕ)
dig_loop zero i a next arr = some (arr, next)
dig_loop (suc n) i a next arr = do
  d ← load arr i
  let res = d * a + next
  arr' ← store arr i (if ltb res 10 then res else res % 10)
  dig_loop n (i + 1) a (if ltb res 10 then 0 else res / 10) arr'

-- `if (next) { arr[wei] = next; wei++; }`
unfoldable pub put_carry : Block → ℕ → BigNum → Option BigNum
put_carry arr next b =
    if next == 0
    then some (record b { arr = arr })
    else (do arr' ← store arr b.wei next; some (record b { arr = arr'; wei = b.wei + 1 }))

unfoldable pub big_num_multi_dig : BigNum → ℕ → Option BigNum
big_num_multi_dig b a =
    if a == 0 then (do arr ← store b.arr 0 0; some (record b { arr = arr; wei = 1 })) else (do
      let b' = extend_full b
      (arr, next) ← dig_loop b'.wei 0 a 0 b'.arr
      put_carry arr next b')

-- `for (i = wei - 1; i >= 0; i--) arr[i + a] = arr[i]`, with `n` cells left
unfoldable pub shift_loop : ℕ → ℕ → Block → Option Block
shift_loop zero a arr = some arr
shift_loop (suc n) a arr = do d ← load arr n; arr' ← store arr (n + a) d; shift_loop n a arr'

unfoldable pub big_num_append0 : BigNum → ℕ → Option BigNum
big_num_append0 b a = if a == 0 then some b else (do
  let b' = extend_below (b.wei + a) (b.wei + a) b
  moved ← shift_loop b'.wei a b'.arr
  arr ← clear a 0 moved
  some (record b' { arr = arr; wei = b'.wei + a }))

-- The body of the loop of `big_num_multi`: a copy of `b1`, times the digit `w`, moved up by `i` digits,
-- is added to `res`.
unfoldable pub multi_round : ℕ → ℕ → BigNum → BigNum → Option BigNum
multi_round w i res b1 = do
  copy ← big_num_cpy get_zero b1
  scaled ← big_num_multi_dig copy w
  shifted ← big_num_append0 scaled i
  big_num_add_0 res shifted

-- The loop of `big_num_multi` at digit `i` of `b2`, with `n` digits left.
unfoldable pub multi_loop : ℕ → ℕ → BigNum → BigNum → BigNum → Option BigNum
multi_loop zero i res b1 b2 = some res
multi_loop (suc n) i res b1 b2 = do
  w ← load b2.arr i
  res' ← multi_round w i res b1
  multi_loop n (i + 1) res' b1 b2

-- The operand whose digits are copied, and the one whose digits are walked.
unfoldable pub multi_by : Cmp → BigNum → BigNum → Option BigNum
multi_by less b1 b2 = multi_loop b1.wei 0 get_zero b2 b1
multi_by equal b1 b2 = multi_loop b2.wei 0 get_zero b1 b2
multi_by greater b1 b2 = multi_loop b2.wei 0 get_zero b1 b2

unfoldable pub big_num_multi : BigNum → BigNum → Option BigNum
big_num_multi b1 b2 = do flag ← big_num_cmp b1 b2; multi_by flag b1 b2

-- `for (i = ...; i <= n; i++)` of `factorial`, with `k` rounds left
unfoldable pub factorial_loop : ℕ → ℕ → BigNum → Option BigNum
factorial_loop zero i res = some res
factorial_loop (suc k) i res = do
  big_i ← int_to_big_num i
  res' ← big_num_multi res big_i
  factorial_loop k (i + 1) res'

unfoldable pub factorial : ℕ → Option BigNum
factorial n = do arr ← store (get_zero).arr 0 1; factorial_loop n 1 (record get_zero { arr = arr })
