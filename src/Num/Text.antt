-- ===== src/Num/Text.antt =====
-- `str_to_big_num` and `print_bit_num_ln` of cpp/algorithm/big_num.c: what is read is printed.
use com_richard_test.Base.{
  ℕ, zero, suc, ◌+◌, ◌-◌, ◌≤◌, ◌<◌, List, [], ◌∷◌, ◌++◌, some, ◌≡◌, refl, sym, ap, ◌∙◌, arith,
  length, take, drop, length-append, length-take, length-drop, take-append-drop,
}
use com_richard_test.Num.Memory.{Block, store}
use com_richard_test.Num.Ops.{
  BigNum, get_zero, extend_below, string_loop, str_to_big_num, print_bit_num,
}
use com_richard_test.Num.Digits.{IsDigits, IsDigits-append}
use com_richard_test.Num.Cells.{cells, length-cells, cells-append, load_behind}
use com_richard_test.Num.State.{IsNum, get_zero-IsNum, extend_below-Grows}

-- The digits of a text, lowest first.
abbrev pub digits_of : List ℕ → List ℕ
digits_of [] = []
digits_of (c ∷ s) = digits_of s ++ (c - 48) ∷ []

-- Characters from 0 to 9.
abbrev pub IsNumeral : List ℕ → Type 0
IsNumeral [] = Unit
IsNumeral (c ∷ s) = (48 ≤ c) × (c ≤ 57) × IsNumeral s

length-digits_of : (s : List ℕ) → length (digits_of s) ≡ length s
length-digits_of [] = refl
length-digits_of (c ∷ s) =
    omega (arith, length-append (digits_of s) ((c - 48) ∷ []), length-digits_of s)

digits_of-IsDigits : (s : List ℕ) → IsNumeral s → IsDigits (digits_of s)
digits_of-IsDigits [] h = tt
digits_of-IsDigits (c ∷ s) (low, high, h) =
    IsDigits-append (digits_of s) ((c - 48) ∷ []) (digits_of-IsDigits s h) (omega arith)

-- A store into the last of some cells.
record Stored (n : ℕ) (junk : Block) : Type 0 where
  front : Block
  size : length front ≡ n
  stores : (v : ℕ) (rest : Block) → store (junk ++ rest) n v ≡ some (front ++ some v ∷ rest)

store_last : (n : ℕ) (junk : Block) → suc n ≡ length junk → Stored n junk
unfolding store
store_last n [] e = absurd (omega arith)
store_last zero (x ∷ []) e = record { front = []; size = refl; stores = λ v rest. refl }
store_last zero (x ∷ y ∷ junk) e = absurd (omega arith)
store_last (suc n) (x ∷ junk) e =
    let s = store_last n junk (omega arith) in
    record {
      front = x ∷ s.front;
      size = ap suc s.size;
      stores = λ v rest. rw (s.stores v rest) refl;
    }

string_loop-cells :
    (s : List ℕ) (junk rest : Block)
    → length junk ≡ length s
    → string_loop s (junk ++ rest) ≡ some (cells (digits_of s) rest)
unfolding string_loop
string_loop-cells [] [] rest e = refl
string_loop-cells [] (x ∷ junk) rest e = absurd (omega arith)
string_loop-cells (c ∷ s) junk rest e =
    let t = store_last (length s) junk (omega arith) in
    rw (t.stores (c - 48) rest) (
      string_loop-cells s t.front (some (c - 48) ∷ rest) t.size
      ∙ ap some (sym (cells-append (digits_of s) ((c - 48) ∷ []) rest)))

print_bit_num-cells :
    (s : List ℕ) (rest : Block)
    → IsNumeral s
    → print_bit_num (length s) (cells (digits_of s) rest) ≡ some s
unfolding print_bit_num
print_bit_num-cells [] rest h = refl
print_bit_num-cells (c ∷ s) rest (low, high, h) =
    let split = cells-append (digits_of s) ((c - 48) ∷ []) rest in
    let digit = load_behind (digits_of s) (c - 48) rest (length s) (sym (length-digits_of s)) in
    let back : c - 48 + 48 ≡ c = omega arith in
    rw (split, digit, print_bit_num-cells s (some (c - 48) ∷ rest) h, back) refl

-- For a text of decimal digits, not empty, `str_to_big_num` returns the well-formed number with these
-- digits, and `print_bit_num_ln` prints the text.
pub str_to_big_num-print :
    (s : List ℕ)
    → IsNumeral s
    → 0 < length s
    → (b : BigNum) × (str_to_big_num s ≡ some b)
      × IsNum b (digits_of s)
      × (print_bit_num b.wei b.arr ≡ some s)
unfolding str_to_big_num
str_to_big_num-print s h pos =
    let n = length s in
    let z = extend_below n n get_zero in
    let g = extend_below-Grows n get_zero-IsNum in
    let rest = drop n z.arr in
    let filled : string_loop s z.arr ≡ some (cells (digits_of s) rest) =
      ap (string_loop s) (sym (take-append-drop n z.arr))
      ∙ string_loop-cells s (take n z.arr) rest
          (omega (arith, length-take n z.arr, g.num.room, g.enough)) in
    (
      record z { arr = cells (digits_of s) rest; wei = n },
      rw filled refl,
      record {
        rest = rest;
        held = refl;
        count = sym (length-digits_of s);
        room = omega (
          arith,
          g.num.room,
          g.enough,
          length-cells (digits_of s) rest,
          length-digits_of s,
          length-drop n z.arr,
        );
        digits = digits_of-IsDigits s h;
        positive = omega (arith, length-digits_of s);
      },
      print_bit_num-cells s rest h,
    )
