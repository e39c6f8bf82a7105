-- ===== src/Num/Tests.antt =====
-- Runs of the big numbers on concrete inputs, and the theorems at concrete inputs.
use com_richard_test.Base.{
  ◌>>=◌, ℕ, ◌+◌, ◌*◌, List, [], ◌∷◌, Option, none, some, inl, ◌≡◌, refl, codes, arith, replicate,
}
use com_richard_test.Num.Memory.{load, store, realloc, clear}
use com_richard_test.Num.Ops.{
  BigNum, get_zero, extend_big_num, extend_below, int_mul, pow_loop, my_pow, count_loop,
  count_int_bit, digits_loop, int_to_big_num, print_bit_num, copy_loop, big_num_cpy, cmp_loop,
  big_num_cmp, add_loop, extend_full, put_one, make_room, bump_top, big_num_add_0, dig_loop,
  put_carry, big_num_multi_dig, shift_loop, big_num_append0, multi_round, multi_loop, multi_by,
  big_num_multi, str_to_big_num,
}
use com_richard_test.Num.Cells.{cells}
use com_richard_test.Num.State.{IsNum}
use com_richard_test.Num.NewSum.{
  Added, equal_room, add_ordered, exchanged, add_by, big_num_add, NewSum, big_num_add-NewSum,
}
use com_richard_test.Num.Text.{str_to_big_num-print}
use com_richard_test.Num.Product.{Product}
use com_richard_test.Num.Multiply.{big_num_multi-Product}

abbrev print : Option BigNum → Option (List ℕ)
print o = o >>= λ b. print_bit_num b.wei b.arr

abbrev times : ℕ → ℕ → Option (List ℕ)
times m n = print (int_to_big_num m >>= λ a. int_to_big_num n >>= λ b. big_num_multi a b)

product_of_source : times 166655466 443335544 ≡ some (codes "73884291679683504")
unfolding load store realloc clear get_zero extend_big_num extend_below int_mul pow_loop my_pow
    count_loop count_int_bit digits_loop int_to_big_num print_bit_num copy_loop big_num_cpy cmp_loop
    big_num_cmp add_loop extend_full make_room bump_top big_num_add_0 dig_loop put_carry
    big_num_multi_dig shift_loop big_num_append0 multi_round multi_loop multi_by big_num_multi
product_of_source = refl

-- 111 * 91: the last carry goes to cell 4 of a block of 4 cells.
product_out_of_block : times 111 91 ≡ none
unfolding load store realloc clear get_zero extend_big_num extend_below int_mul pow_loop my_pow
    count_loop count_int_bit digits_loop int_to_big_num print_bit_num copy_loop big_num_cpy cmp_loop
    big_num_cmp add_loop extend_full make_room bump_top big_num_add_0 dig_loop put_carry
    big_num_multi_dig shift_loop big_num_append0 multi_round multi_loop multi_by big_num_multi
product_out_of_block = refl

abbrev add : ℕ → ℕ → Option Added
add m n = int_to_big_num m >>= λ a. int_to_big_num n >>= λ b. big_num_add a b

abbrev print_sum : Option Added → Option (List ℕ)
print_sum o = o >>= λ a. print (some a.sum)

sum_of_source : print_sum (add 1 95599) ≡ some (codes "95600")
unfolding load store realloc clear get_zero extend_big_num extend_below int_mul pow_loop my_pow
    count_loop count_int_bit digits_loop int_to_big_num print_bit_num copy_loop big_num_cpy cmp_loop
    big_num_cmp add_loop extend_full put_one equal_room add_ordered exchanged add_by big_num_add
sum_of_source = refl

-- 5 is added to 123 and then to 123456: it has cells enough by then, and two that it reads are
-- indeterminate.
second_sum : (add 5 123 >>= λ a. int_to_big_num 123456 >>= λ c. big_num_add a.b1 c) ≡ none
unfolding load store realloc clear get_zero extend_big_num extend_below int_mul pow_loop my_pow
    count_loop count_int_bit digits_loop int_to_big_num print_bit_num copy_loop big_num_cpy cmp_loop
    big_num_cmp add_loop extend_full put_one equal_room add_ordered exchanged add_by big_num_add
second_sum = refl

-- 12345 has fewer digits than 123456 and a block of as many cells, 8: a cell behind its digits is read.
equal_blocks : add 12345 123456 ≡ none
unfolding load store realloc clear get_zero extend_big_num extend_below int_mul pow_loop my_pow
    count_loop count_int_bit digits_loop int_to_big_num print_bit_num copy_loop big_num_cpy cmp_loop
    big_num_cmp add_loop extend_full put_one equal_room add_ordered exchanged add_by big_num_add
equal_blocks = refl

-- The number that `ds` spell, in a block of as many cells and `spare` more.
abbrev number : List ℕ → ℕ → ℕ → BigNum
number ds n spare = record { arr = cells ds (replicate spare none); arr_len = n + spare; wei = n }

abbrev n12 : BigNum
n12 = number (2 ∷ 1 ∷ []) 2 6

abbrev n34 : BigNum
n34 = number (4 ∷ 3 ∷ []) 2 6

n12-IsNum : IsNum n12 (2 ∷ 1 ∷ [])
n12-IsNum = record {
  rest = replicate 6 none;
  held = refl;
  count = refl;
  room = refl;
  digits = omega arith;
  positive = omega arith;
}

n34-IsNum : IsNum n34 (4 ∷ 3 ∷ [])
n34-IsNum = record {
  rest = replicate 6 none;
  held = refl;
  count = refl;
  room = refl;
  digits = omega arith;
  positive = omega arith;
}

big_num_multi-Product_example : Product (big_num_multi n12 n34) (12 * 34) 4
big_num_multi-Product_example =
    big_num_multi-Product n12-IsNum n34-IsNum (omega arith) (omega arith)

big_num_add-NewSum_example : NewSum (big_num_add n12 n34) (2 ∷ 1 ∷ []) (4 ∷ 3 ∷ [])
big_num_add-NewSum_example = big_num_add-NewSum n12-IsNum n34-IsNum (inl refl)

str_to_big_num-print_example :
    (b : BigNum) × (str_to_big_num (codes "1205") ≡ some b)
    × IsNum b (5 ∷ 0 ∷ 2 ∷ 1 ∷ [])
    × (print_bit_num b.wei b.arr ≡ some (codes "1205"))
str_to_big_num-print_example = str_to_big_num-print (codes "1205") (omega arith) (omega arith)
