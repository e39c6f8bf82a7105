-- ===== src/Num/InPlace.antt =====
-- `big_num_add_0` as a whole: the inputs on which it adds, and those on which it cannot.
use com_richard_test.Base.{
  ◌>>=◌, ℕ, zero, suc, ◌+◌, ◌*◌, ◌^◌, ◌≤◌, ◌<◌, List, [], ◌∷◌, ◌++◌, ltb, if◌then◌else◌, ◌⊎◌, inl,
  inr, Option, some, ◌≡◌, refl, sym, ap, ◌∙◌, arith, length, take, drop, take-append-drop,
  length-take, length-drop, length-append,
}
use com_richard_test.Num.Ops.{
  BigNum, Cmp, less, equal, greater, big_num_cmp, add_loop, extend_full, make_room, bump_top,
  big_num_add_0,
}
use com_richard_test.Num.Digits.{
  val, IsDigits, IsDigits-append, IsDigits-take, val-append, val-lt-pow, add_out, add_carry,
  length-add_out, add_out_lem,
}
use com_richard_test.Num.Cells.{cells, length-cells, cells-append, add_loop-cells}
use com_richard_test.Num.State.{IsNum, arr_len-eq, Grows, extend_full-Grows}
use com_richard_test.Num.Compare.{Compared, big_num_cmp-Compared}
use com_richard_test.Num.Sum.{Sums, less_room}

IsDigits-drop : (n : ℕ) (xs : List ℕ) → IsDigits xs → IsDigits (drop n xs)
IsDigits-drop zero xs h = h
IsDigits-drop (suc n) [] h = tt
IsDigits-drop (suc n) (x ∷ xs) h = IsDigits-drop n xs h.1

-- The carry out of the lowest `length ys` digits of `xs`.
abbrev pub carry_out : List ℕ → List ℕ → ℕ
carry_out xs ys = add_carry 0 (take (length ys) xs) ys

small_carry : (p c a s : ℕ) → s + p * c ≡ a + 0 + 0 → a < p → c ≡ 0
small_carry p zero a s e h = refl
small_carry p (suc c) a s e h = absurd (grind arith)

-- Adding zeros carries nothing.
pub carry_out-zero :
    (xs ys : List ℕ)
    → IsDigits xs
    → IsDigits ys
    → length ys ≤ length xs
    → val ys ≡ 0
    → carry_out xs ys ≡ 0
carry_out-zero xs ys hx hy le z =
    small_carry (10 ^ n) (add_carry 0 xa ys) (val xa) (val (add_out 0 xa ys))
      (omega (arith, (add_out_lem 0 xa ys size digits hy (omega arith)).0, z))
      (omega (arith, val-lt-pow xa digits, ap (λ (k : ℕ). 10 ^ k) size))
  where
    n : ℕ
    n = length ys

    xa : List ℕ
    xa = take n xs

    size : length xa ≡ n
    size = omega (arith, length-take n xs)

    digits : IsDigits xa
    digits = IsDigits-take n xs hx

module _ {x y : BigNum} {xs ys : List ℕ} (vx : IsNum x xs) (vy : IsNum y ys) where
  -- Without a carry out of the digits of `y`, the digits above them stay as they are.
  no_carry :
      length ys ≤ length xs
      → carry_out xs ys ≡ 0
      → Sums
          (add_loop y.wei 0 0 x.arr y.arr >>= λ (arr, next).
            bump_top arr next (if ltb x.wei y.wei then y.wei else x.wei) x)
          xs
          ys
          x.arr_len
  unfolding bump_top
  no_carry le none_out =
      rw (added, none_out)
        (record {
          out = out ++ xb;
          gives = record {
            r = record x {
              arr = cells out (cells xb vx.rest);
              wei = if ltb x.wei y.wei then y.wei else x.wei;
            };
            returns = refl;
            num = record {
              rest = vx.rest;
              held = sym (cells-append out xb vx.rest);
              count = ground (arith, vx.count, vy.count, size);
              room =
                  arr_len-eq vx
                  ∙ omega (
                    arith,
                    length-cells out (cells xb vx.rest),
                    length-cells xb vx.rest,
                    length-append out xb,
                    size,
                  );
              digits = IsDigits-append out xb facts.1 (IsDigits-drop n xs vx.digits);
              positive = omega (arith, vx.positive, size);
            };
            enough = omega arith;
          };
          value = omega (
            arith,
            val-append out xb,
            val-append xa xb,
            ap val (take-append-drop n xs),
            facts.0,
            ap (λ (k : ℕ). 10 ^ n * k) none_out,
            ap (λ (k : ℕ). 10 ^ k * val xb) size_out,
            ap (λ (k : ℕ). 10 ^ k * val xb) size_in,
          );
          size = inl (omega (arith, size));
        })
    where
      n : ℕ
      n = length ys

      xa : List ℕ
      xa = take n xs

      xb : List ℕ
      xb = drop n xs

      out : List ℕ
      out = add_out 0 xa ys

      size_in : length xa ≡ n
      size_in = omega (arith, length-take n xs)

      size_out : length out ≡ n
      size_out = length-add_out 0 xa ys size_in

      size : length (out ++ xb) ≡ length xs
      size = omega (arith, length-append out xb, size_out, length-drop n xs)

      facts :
          (val out + 10 ^ n * add_carry 0 xa ys ≡ val xa + val ys + 0)
          × IsDigits out
          × (add_carry 0 xa ys ≤ 1)
      facts = add_out_lem 0 xa ys size_in (IsDigits-take n xs vx.digits) vy.digits (omega arith)

      whole : x.arr ≡ cells xa (cells xb vx.rest)
      whole =
          vx.held
          ∙ ap (λ t. cells t vx.rest) (sym (take-append-drop n xs))
          ∙ cells-append xa xb vx.rest

      added :
          add_loop y.wei 0 0 x.arr y.arr ≡ some (cells out (cells xb vx.rest), add_carry 0 xa ys)
      added =
          (λ i. add_loop y.wei 0 0 (whole i) (vy.held i))
          ∙ add_loop-cells xa ys [] [] (cells xb vx.rest) vy.rest 0 y.wei 0 vy.count size_in refl
              refl

-- When `x` is less than `y`, and one of the two blocks has a cell more than `y` has digits, or when
-- `y` has no more digits than `x` and nothing is carried out of its digits, `big_num_add_0` returns,
-- touches no cell outside the blocks and reads no indeterminate one, and leaves in `x` the sum.
pub add_0-Sums :
    {x y : BigNum} {xs ys : List ℕ}
    → IsNum x xs
    → IsNum y ys
    → (Compared less xs ys × ((length ys < y.arr_len) ⊎ (length ys < x.arr_len)))
      ⊎ ((length ys ≤ length xs) × (carry_out xs ys ≡ 0) × (¬ Compared less xs ys))
    → Sums (big_num_add_0 x y) xs ys x.arr_len
unfolding big_num_add_0 make_room
add_0-Sums {x} {y} {xs} {ys} vx vy cases = by_verdict verdict.0 verdict.2 verdict.1
  where
    g : Grows x (extend_full x) xs (suc (length xs))
    g = extend_full-Grows vx

    verdict : (c : Cmp) × (big_num_cmp (extend_full x) y ≡ some c) × Compared c xs ys
    verdict = big_num_cmp-Compared g.num vy

    wider : {o : Option BigNum} → Sums o xs ys (extend_full x).arr_len → Sums o xs ys x.arr_len
    wider s = record {
      out = s.out;
      gives = record {
        r = s.gives.r;
        returns = s.gives.returns;
        num = s.gives.num;
        enough = omega (arith, s.gives.enough, g.no_less);
      };
      value = s.value;
      size = s.size;
    }

    by_verdict :
        (c : Cmp)
        → Compared c xs ys
        → big_num_cmp (extend_full x) y ≡ some c
        → Sums (big_num_add_0 x y) xs ys x.arr_len
    by_verdict less said e = rw e (elim cases [
      | inl (lt, spare) ↦ wider (less_room g.num vy (ground arith) (ground (arith, g.no_less)))
      | inr (le, carry, not_less) ↦ absurd (not_less said)
    ])
    by_verdict equal said e = rw e (elim cases [
      | inl (lt, spare) ↦ absurd (ground arith)
      | inr (le, carry, not_less) ↦ wider (no_carry g.num vy le carry)
    ])
    by_verdict greater said e = rw e (elim cases [
      | inl (lt, spare) ↦ absurd (ground arith)
      | inr (le, carry, not_less) ↦ wider (no_carry g.num vy le carry)
    ])
