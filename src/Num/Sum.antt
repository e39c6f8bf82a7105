-- ===== src/Num/Sum.antt =====
-- `big_num_add_0`, the addition in place.
use mathlib.Core.List.{append-nil}
use com_richard_test.Base.{
  ◌>>=◌, ℕ, zero, suc, ◌+◌, ◌-◌, ◌*◌, ◌^◌, ◌≤◌, ◌<◌, List, [], ◌∷◌, ◌++◌, ltb, if◌then◌else◌, ◌⊎◌,
  inl, inr, Option, some, ◌≡◌, refl, sym, ap, ◌∙◌, arith, length, length-append, length-replicate,
}
use com_richard_test.Num.Memory.{clear}
use com_richard_test.Num.Ops.{BigNum, less, add_loop, extend_below, make_room, bump_top}
use com_richard_test.Num.Digits.{
  val, IsDigits, IsDigits-append, IsDigits-zeros, zeros, val-append, val-zeros, add_out, add_carry,
  length-add_out, add_out_lem,
}
use com_richard_test.Num.Cells.{
  cells, length-cells, cells-append, load_behind, store_behind, clear-cells, add_loop-cells,
}
use com_richard_test.Num.State.{IsNum, arr_len-eq, Grows, extend_below-Grows}
use com_richard_test.Num.Scale.{Gives, top, val-top}

-- `xs` with zeros on top, up to `n` digits.
abbrev pub padded : ℕ → List ℕ → List ℕ
padded n xs = xs ++ zeros (n - length xs)

pub length-padded : (n : ℕ) (xs : List ℕ) → length xs ≤ n → length (padded n xs) ≡ n
length-padded n xs h =
    omega
      (arith, length-append xs (zeros (n - length xs)), length-replicate {A = ℕ} (n - length xs) 0)

pub val-padded : (n : ℕ) (xs : List ℕ) → val (padded n xs) ≡ val xs
val-padded n xs = omega (
  arith,
  val-append xs (zeros (n - length xs)),
  ap (λ (k : ℕ). 10 ^ length xs * k) (val-zeros (n - length xs)),
)

pub zeros-add : (m n : ℕ) → zeros (m + n) ≡ zeros m ++ zeros n
zeros-add zero n = ap zeros (omega arith)
zeros-add (suc m) n =
    let e : suc m + n ≡ suc (m + n) = omega arith in ap zeros e ∙ ap (λ t. 0 ∷ t) (zeros-add m n)

-- The end of the addition, over cells that are zero behind the sum.
bump_top-Gives :
    (b : BigNum) (out : List ℕ) (c m wei : ℕ)
    → wei ≡ length out
    → b.arr_len ≡ length out + m
    → 0 < m
    → IsDigits out
    → 0 < length out
    → c ≤ 1
    → Gives (bump_top (cells out (cells (zeros m) [])) c wei b) (out ++ top c) b.arr_len
unfolding bump_top
bump_top-Gives b out c zero wei ew el pos digits full small = absurd (omega arith)
bump_top-Gives b out zero (suc m) wei ew el pos digits full small = record {
  r = record b { arr = cells out (cells (zeros (suc m)) []); wei = wei };
  returns = refl;
  num = record {
    rest = cells (zeros (suc m)) [];
    held = ap (λ t. cells t (cells (zeros (suc m)) [])) (sym (append-nil out));
    count = ew ∙ ap length (sym (append-nil out));
    room =
        el
        ∙ omega (
          arith,
          length-cells out (cells (zeros (suc m)) []),
          length-cells (zeros (suc m)) [],
          length-replicate {A = ℕ} (suc m) 0,
        );
    digits = IsDigits-append out [] digits tt;
    positive = omega (arith, full, ap length (append-nil out));
  };
  enough = omega arith;
}
bump_top-Gives b out (suc (suc c)) (suc m) wei ew el pos digits full small = absurd (omega arith)
bump_top-Gives b out (suc zero) (suc m) wei ew el pos digits full small =
    rw
      (
        load_behind out 0 (cells (zeros m) []) wei ew,
        store_behind out (some 0) (cells (zeros m) []) wei (0 + 1) ew,
      )
      (record {
        r = record b { arr = cells out (some 1 ∷ cells (zeros m) []); wei = wei + 1 };
        returns = refl;
        num = record {
          rest = cells (zeros m) [];
          held = sym (cells-append out (1 ∷ []) (cells (zeros m) []));
          count = omega (arith, ew, length-append out (1 ∷ []));
          room =
              el
              ∙ omega (
                arith,
                length-cells out (some 1 ∷ cells (zeros m) []),
                length-cells (zeros m) [],
                length-replicate {A = ℕ} m 0,
              );
          digits = IsDigits-append out (1 ∷ []) digits (omega arith);
          positive = omega (arith, length-append out (1 ∷ []));
        };
        enough = omega arith;
      })

-- The addition returns a number whose value is the sum. It has no more digits than the longer operand,
-- or one more than `ys`, and then that digit is not zero.
pub record Sums (o : Option BigNum) (xs ys : List ℕ) (n : ℕ) : Type 0 where
  pub out : List ℕ
  pub gives : Gives o out n
  pub value : val out ≡ val xs + val ys
  pub size :
      (length out ≤ length xs)
      ⊎ (length out ≤ length ys)
      ⊎ ((length out ≡ length ys + 1) × (10 ^ length ys ≤ val out))

module _ {x y : BigNum} {xs ys : List ℕ} (vx : IsNum x xs) (vy : IsNum y ys) where
  -- When `x` has no more digits than `y` and the comparison makes room.
  pub less_room :
      length xs ≤ length ys
      → length ys < y.arr_len ⊎ length ys < x.arr_len
      → Sums
          (make_room less x y >>= λ b. add_loop y.wei 0 0 b.arr y.arr >>= λ (arr, next).
            bump_top arr next (if ltb b.wei y.wei then y.wei else b.wei) b)
          xs
          ys
          x.arr_len
  unfolding make_room
  less_room le spare =
      rw (cleared, added)
        (record {
          out = out ++ top c;
          gives = record {
            r = g'.r;
            returns = g'.returns;
            num = g'.num;
            enough = omega (arith, g'.enough, g.no_less);
          };
          value =
              omega (
                arith,
                val-top out c (length ys) (sym size_out),
                facts.0,
                val-padded (length ys) xs,
              );
          size = sized c refl;
        })
    where
      n : ℕ
      n = length ys

      b : BigNum
      b = extend_below y.arr_len y.arr_len x

      g : Grows x b xs y.arr_len
      g = extend_below-Grows y.arr_len vx

      xs' : List ℕ
      xs' = padded n xs

      k : ℕ
      k = length g.num.rest

      m : ℕ
      m = k - (n - length xs)

      total : length xs + k ≡ b.arr_len
      total = sym (arr_len-eq g.num)

      free : n < b.arr_len
      free = elim spare [ inl a ↦ omega (arith, a, g.enough) | inr a ↦ omega (arith, a, g.no_less) ]

      spread : cells xs (cells (zeros k) []) ≡ cells xs' (cells (zeros m) [])
      spread =
          ap (λ t. cells xs (cells t []))
            (ap zeros (omega (arith, total, free, le)) ∙ zeros-add (n - length xs) m)
          ∙ ap (cells xs) (cells-append (zeros (n - length xs)) (zeros m) [])
          ∙ sym (cells-append xs (zeros (n - length xs)) (cells (zeros m) []))

      cleared : clear (b.arr_len - b.wei) b.wei b.arr ≡ some (cells xs' (cells (zeros m) []))
      cleared =
          ap (clear (b.arr_len - b.wei) b.wei)
            (g.num.held ∙ ap (cells xs) (sym (append-nil g.num.rest)))
          ∙ clear-cells g.num.rest xs [] (b.arr_len - b.wei) b.wei
              (omega (arith, total, g.num.count)) g.num.count
          ∙ ap (λ t. some (cells xs (cells (zeros t) []))) (omega (arith, total, g.num.count))
          ∙ ap some spread

      out : List ℕ
      out = add_out 0 xs' ys

      c : ℕ
      c = add_carry 0 xs' ys

      size_in : length xs' ≡ n
      size_in = length-padded n xs le

      size_out : length out ≡ n
      size_out = length-add_out 0 xs' ys size_in

      digits_in : IsDigits xs'
      digits_in =
          IsDigits-append xs (zeros (n - length xs)) vx.digits (IsDigits-zeros (n - length xs))

      facts : (val out + 10 ^ n * c ≡ val xs' + val ys + 0) × IsDigits out × (c ≤ 1)
      facts = add_out_lem 0 xs' ys size_in digits_in vy.digits (omega arith)

      added :
          add_loop y.wei 0 0 (cells xs' (cells (zeros m) [])) y.arr
          ≡ some (cells out (cells (zeros m) []), c)
      added =
          ap (add_loop y.wei 0 0 (cells xs' (cells (zeros m) []))) vy.held
          ∙ add_loop-cells xs' ys [] [] (cells (zeros m) []) vy.rest 0 y.wei 0 vy.count size_in refl
              refl

      wei_eq : (if ltb b.wei y.wei then y.wei else b.wei) ≡ length out
      wei_eq = ground (arith, size_out, vy.count, g.num.count)

      b' : BigNum
      b' = record b { arr = cells xs' (cells (zeros m) []) }

      g' :
          Gives
            (bump_top
              (cells out (cells (zeros m) []))
              c
              (if ltb b.wei y.wei then y.wei else b.wei)
              b')
            (out ++ top c)
            b.arr_len
      g' =
          bump_top-Gives b' out c m _ wei_eq (omega (arith, size_out, total, free, le))
            (omega (arith, total, free, le)) facts.1 (omega (arith, size_out, vy.positive)) facts.2

      sized :
          (c' : ℕ)
          → c ≡ c'
          → (length (out ++ top c) ≤ length xs)
            ⊎ (length (out ++ top c) ≤ length ys)
            ⊎ ((length (out ++ top c) ≡ length ys + 1) × (10 ^ length ys ≤ val (out ++ top c)))
      sized zero e = inr (inl (rw e (omega (arith, ap length (append-nil out), size_out))))
      sized (suc c') e = inr (
          inr (
            rw e (
              omega (arith, length-append out (suc c' ∷ []), size_out),
              more (10 ^ n) c' _ _ (val-top out (suc c') n (sym size_out)),
            )))
        where
          more : (p d v w : ℕ) → v ≡ w + p * suc d → p ≤ v
          more p d v w e = grind arith
