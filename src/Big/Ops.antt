-- ===== src/Big/Ops.antt =====
-- The class BigNum of cpp/BigNum.cpp: constructors, comparison, sum, difference and product. `w` is the
-- number of bits of `unsigned long`, 32 or 64. `signal` is 0 or 1. A length is at least 1, and never
-- more than the 128 cells: where the source makes a longer number it leaves the array, and the result is
-- `none`.
use Prim.Native.Nat.{bit_or}
use com_richard_test.Base.{
  ℕ, zero, suc, ◌+◌, ◌-◌, ◌*◌, ◌/◌, ◌%◌, ◌^◌, List, [], ◌∷◌, Option, none, some, ltb, leb, ◌==◌,
  if◌then◌else◌, get_or, set, replicate,
}

-- len1
abbrev pub cells : ℕ
cells = 128

pub record BigNum : Type 0 where
  pub length : ℕ
  pub signal : ℕ
  pub array : List ℕ

unfoldable pub zero_num : BigNum
zero_num = record { length = 1; signal = 0; array = replicate cells 0 }

-- The constructor from an `uint64_t`.
unfoldable pub of_uint : ℕ → ℕ → BigNum
of_uint w a =
    if leb a 0xffffffff
    then record { length = 1; signal = 0; array = set (replicate cells 0) 0 (a % 2 ^ w) }
    else record {
      length = 2;
      signal = 0;
      array = set (set (replicate cells 0) 1 (a / 2 ^ 32 % 2 ^ w)) 0 (a % 2 ^ w);
    }

-- A `char` as an `unsigned long`: it is signed.
abbrev pub of_char : ℕ → ℕ → ℕ
of_char w c = if ltb c 128 then c else c + 2 ^ w - 256

-- The loop of the constructor from a string, at the rest of the text and position `i`.
unfoldable pub string_loop : ℕ → List ℕ → ℕ → List ℕ → List ℕ
string_loop w [] i array = array
string_loop w (c ∷ s) i array =
    string_loop w s (i + 1)
      (set array (i / 4) (bit_or (get_or array (i / 4) 0 * 2 ^ 8 % 2 ^ w) (of_char w c)))

abbrev pub size : List ℕ → ℕ
size [] = 0
size (c ∷ s) = suc (size s)

-- The constructor from a string, which sets neither the sign nor the cells before it reads them:
-- `signal` and `array` are what the memory held. A text of more cells than the array leaves it. That
-- of an empty text has the length 0, as `(s.size() - 1) / 4 + 1` wraps to 2 ^ 62 and is cut to an `int`.
unfoldable pub of_string : ℕ → ℕ → List ℕ → List ℕ → Option BigNum
of_string w signal array s =
    if ltb (4 * cells) (size s)
    then none
    else some (record {
      length = if size s == 0 then 0 else (size s - 1) / 4 + 1;
      signal = signal;
      array = string_loop w s 0 array;
    })

-- `for (i = ...; i >= 0; i--)`, at `i = n - 1`
unfoldable pub compare_loop : ℕ → List ℕ → List ℕ → ℕ
compare_loop zero a b = 2
compare_loop (suc n) a b =
    let rest = compare_loop n a b in
    if ltb (get_or b n 0) (get_or a n 0)
    then 0
    else (if ltb (get_or a n 0) (get_or b n 0) then 1 else rest)

-- 0 for greater, 1 for less, 2 for equal, of the absolute values
unfoldable pub compare : BigNum → BigNum → ℕ
compare a b =
    if ltb b.length a.length
    then 0
    else (if ltb a.length b.length then 1 else compare_loop a.length a.array b.array)

unfoldable pub neg : BigNum → BigNum
neg a = record a { signal = 1 - a.signal }

unfoldable pub eq : BigNum → BigNum → ℕ
eq a b = if a.signal == b.signal then (if compare a b == 2 then 1 else 0) else 0

unfoldable pub ne : BigNum → BigNum → ℕ
ne a b = if a.signal == b.signal then (if compare a b == 2 then 0 else 1) else 0

-- `while (length > 1) if (array[length - 1] == 0) length--; else break;`
unfoldable pub trim : ℕ → List ℕ → ℕ
trim zero array = 0
trim (suc n) array =
    let rest = trim n array in
    if ltb 1 (suc n) then (if get_or array n 0 == 0 then rest else suc n) else suc n

-- The loop of `operator+` at cell `i`, with `n` cells left and the carry `c`.
unfoldable pub add_loop : ℕ → ℕ → ℕ → ℕ → List ℕ → List ℕ → List ℕ → List ℕ
add_loop w zero i c a b out = out
add_loop w (suc n) i c a b out =
    let sum = (get_or b i 0 + get_or a i 0 + c) % 2 ^ 64 in
    add_loop w n (i + 1) (if leb sum 0xffffffff then 0 else 1) a b (set out i (sum % 2 ^ w))

-- `operator+` on numbers of one sign
unfoldable pub add_same : ℕ → BigNum → BigNum → Option BigNum
add_same w a b =
    let n = (if leb b.length a.length then a.length else b.length) + 1 in
    let array = add_loop w n 0 0 a.array b.array (replicate cells 0) in
    if ltb cells n
    then none
    else some (record { length = trim n array; signal = a.signal; array = array })

-- The loop of `operator-` at cell `i`, with `n` cells left and the borrow `f`: `sub` is an `unsigned int`.
unfoldable pub sub_loop : ℕ → ℕ → ℕ → ℕ → List ℕ → List ℕ → List ℕ → List ℕ
sub_loop w zero i f a b out = out
sub_loop w (suc n) i f a b out =
    let sub = (get_or a i 0 + 2 ^ w - f) % 2 ^ w % 2 ^ 32 in
    let f' = if ltb sub (get_or b i 0) then 1 else 0 in
    sub_loop w n (i + 1) f' a b
      (set out i ((0xffffffff * f' + 2 ^ w - get_or b i 0 + sub + f') % 2 ^ w))

-- The difference of the absolute values, the greater one first, with the sign that is given.
unfoldable pub sub_cells : ℕ → ℕ → BigNum → BigNum → BigNum
sub_cells w signal a b =
    let array = sub_loop w a.length 0 0 a.array b.array (replicate cells 0) in
    record { length = trim a.length array; signal = signal; array = array }

-- `operator-` on numbers of one sign
unfoldable pub sub_same : ℕ → BigNum → BigNum → BigNum
sub_same w a b =
    if compare a b == 1
    then sub_cells w (if a.signal == 0 then 1 else 0) b a
    else sub_cells w (if a.signal == 0 then 0 else 1) a b

-- Where the signs differ, `operator+` calls `operator-` with operands of one sign, and the other way.
unfoldable pub add : ℕ → BigNum → BigNum → Option BigNum
add w a b =
    if a.signal == b.signal
    then add_same w a b
    else some (if a.signal == 0 then sub_same w a (neg b) else sub_same w b (neg a))

unfoldable pub sub : ℕ → BigNum → BigNum → Option BigNum
sub w a b = if a.signal == b.signal then some (sub_same w a b) else add_same w a (neg b)

-- A row of the product: the cell `x` against the cells of `a` from `j` on, with `n` cells left.
pub record Row : Type 0 where
  pub carry : ℕ
  pub out : List ℕ

unfoldable pub row_loop : ℕ → ℕ → ℕ → ℕ → List ℕ → ℕ → Row → Row
row_loop w zero i j a x r = r
row_loop w (suc n) i j a x r =
    let pro = (x * get_or a j 0 + r.carry) % 2 ^ 64 in
    let sum = (get_or r.out (i + j) 0 + pro) % 2 ^ 64 in
    row_loop w n i (j + 1) a x (record {
      carry = if ltb 0xffffffff sum then sum / 2 ^ 32 else 0;
      out = set r.out (i + j) ((get_or r.out (i + j) 0 + pro % 2 ^ w) % 2 ^ w);
    })

-- The rows from the cell `i` of `b` on, with `n` of them left; the carry goes from row to row.
unfoldable pub mul_loop : ℕ → ℕ → ℕ → BigNum → List ℕ → Row → Row
mul_loop w zero i a b r = r
mul_loop w (suc n) i a b r =
    mul_loop w n (i + 1) a b (row_loop w (a.length + 1) i 0 a.array (get_or b i 0) r)

unfoldable pub mul : ℕ → BigNum → BigNum → Option BigNum
mul w a b =
    let r = mul_loop w b.length 0 a b.array (record { carry = 0; out = replicate cells 0 }) in
    if ltb cells (a.length + b.length)
    then none
    else some (record {
      length = trim (a.length + b.length) r.out;
      signal = if a.signal == b.signal then 0 else 1;
      array = r.out;
    })
