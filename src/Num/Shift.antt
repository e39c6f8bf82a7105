-- ===== src/Num/Shift.antt =====
-- `big_num_append0`: the digits move up by `a` cells, from the top one down, and zeros come below.
use mathlib.Core.List.{append_assoc}
use com_richard_test.Base.{
  ◌>>=◌, ℕ, zero, suc, ◌+◌, ◌*◌, ◌^◌, ◌≤◌, ◌<◌, List, [], ◌∷◌, ◌++◌, suc-test, Option, some, ◌≡◌,
  refl, sym, ap, ◌∙◌, arith, length, take, drop, take-append-drop, length-take, length-drop,
  length-append, length-replicate,
}
use com_richard_test.Num.Memory.{Block, store, clear}
use com_richard_test.Num.Ops.{BigNum, extend_below, shift_loop, big_num_append0}
use com_richard_test.Num.Digits.{val, IsDigits-append, IsDigits-zeros, zeros, val-append, val-zeros}
use com_richard_test.Num.Cells.{cells, length-cells, cells-append, load_behind, clear-cells}
use com_richard_test.Num.State.{IsNum, arr_len-eq, Grows, extend_below-Grows}
use com_richard_test.Num.Scale.{Gives}

-- The last element of a list and what is in front of it.
record LastOf {ℓ} {A : Type ℓ} (xs : List A) : Type ℓ where
  front : List A
  last : A
  whole : xs ≡ front ++ last ∷ []
  size : length xs ≡ length front + 1

last_of {ℓ} : {A : Type ℓ} (xs : List A) → 0 < length xs → LastOf xs
last_of [] h = absurd (omega arith)
last_of (x ∷ []) h = record { front = []; last = x; whole = refl; size = omega arith }
last_of (x ∷ y ∷ xs) h =
    let r = last_of (y ∷ xs) (omega arith) in
    record {
      front = x ∷ r.front;
      last = r.last;
      whole = ap (λ t. x ∷ t) r.whole;
      size = omega (arith, r.size);
    }

-- A write behind digits and other cells.
store_deep :
    (ds : List ℕ) (skip : Block) (c : Option ℕ) (rest : Block) (i v : ℕ)
    → i ≡ length ds + length skip
    → store (cells ds (skip ++ c ∷ rest)) i v ≡ some (cells ds (skip ++ some v ∷ rest))
unfolding store
store_deep [] [] c rest zero v e = refl
store_deep [] [] c rest (suc i) v e = absurd (omega arith)
store_deep [] (s ∷ skip) c rest zero v e = absurd (omega arith)
store_deep [] (s ∷ skip) c rest (suc i) v e = rw (store_deep [] skip c rest i v (omega arith))
store_deep (d ∷ ds) skip c rest zero v e = absurd (omega arith)
store_deep (d ∷ ds) skip c rest (suc i) v e = rw (store_deep ds skip c rest i v (omega arith))

-- What the loop leaves: `a` cells of any contents, and then the digits and what was behind.
record Shifted (o : Option Block) (a : ℕ) (ds : List ℕ) (tail : Block) : Type 0 where
  low_cells : Block
  width : length low_cells ≡ a
  result : o ≡ some (low_cells ++ cells ds tail)

shift_loop-Shifted :
    (n a : ℕ) (ds : List ℕ) (gap tail : Block)
    → n ≡ length ds
    → length gap ≡ a
    → 0 < a
    → Shifted (shift_loop n a (cells ds (gap ++ tail))) a ds tail
unfolding shift_loop
shift_loop-Shifted zero a [] gap tail e w pos = record { low_cells = gap; width = w; result = refl }
shift_loop-Shifted zero a (d ∷ ds) gap tail e w pos = absurd (omega arith)
shift_loop-Shifted (suc n) a ds gap tail e w pos =
    let ld = last_of ds (omega arith) in
    let lg = last_of gap (omega arith) in
    let skip : Block = some ld.last ∷ lg.front in
    let whole : cells ds (gap ++ tail) ≡ cells ld.front (skip ++ lg.last ∷ tail) =
      (λ i. cells (ld.whole i) (lg.whole i ++ tail))
      ∙ cells-append ld.front (ld.last ∷ []) ((lg.front ++ lg.last ∷ []) ++ tail)
      ∙ ap (λ t. cells ld.front (some ld.last ∷ t)) (append_assoc lg.front (lg.last ∷ []) tail) in
    let front_size : n ≡ length ld.front = omega (arith, ld.size) in
    let s =
      shift_loop-Shifted n a ld.front skip (some ld.last ∷ tail) front_size (omega (arith, lg.size))
        pos in
    rw
      (
        whole,
        load_behind ld.front ld.last (lg.front ++ lg.last ∷ tail) n front_size,
        store_deep ld.front skip lg.last tail (n + a) ld.last (omega (arith, lg.size)),
      )
      (record {
        low_cells = s.low_cells;
        width = s.width;
        result =
            s.result
            ∙ ap (λ t. some (s.low_cells ++ t))
                (sym (cells-append ld.front (ld.last ∷ []) tail)
                  ∙ ap (λ t. cells t tail) (sym ld.whole));
      })

-- What `big_num_append0` makes of the digits.
abbrev pub shifted : ℕ → List ℕ → List ℕ
shifted a ds = zeros a ++ ds

pub val-shifted : (a : ℕ) (ds : List ℕ) → val (shifted a ds) ≡ 10 ^ a * val ds
val-shifted a ds = omega (
  arith,
  val-append (zeros a) ds,
  val-zeros a,
  ap (λ (k : ℕ). 10 ^ k * val ds) (length-replicate {A = ℕ} a 0),
)

pub length-shifted : (a : ℕ) (ds : List ℕ) → length (shifted a ds) ≡ a + length ds
length-shifted a ds = omega (arith, length-append (zeros a) ds, length-replicate {A = ℕ} a 0)

shift_positive :
    (b : BigNum) (ds : List ℕ) (a : ℕ)
    → IsNum b ds
    → 0 < a
    → (g : Grows b (extend_below (b.wei + a) (b.wei + a) b) ds (b.wei + a))
    → Gives
        (shift_loop
            (extend_below (b.wei + a) (b.wei + a) b).wei
            a
            (extend_below (b.wei + a) (b.wei + a) b).arr
          >>= λ moved. clear a 0 moved >>= λ arr.
              some (record (extend_below (b.wei + a) (b.wei + a) b) {
                arr = arr;
                wei = (extend_below (b.wei + a) (b.wei + a) b).wei + a;
              }))
        (shifted a ds)
        b.arr_len
shift_positive b ds a v pos g =
    rw (whole, s.result, cleared)
      (record {
        r = record b' { arr = cells (shifted a ds) tail; wei = b'.wei + a };
        returns = rw (← cells-append (zeros a) ds tail);
        num = record {
          rest = tail;
          held = refl;
          count = omega (arith, g.num.count, length-shifted a ds);
          room = omega (
            arith,
            arr_len-eq g.num,
            length-cells (shifted a ds) tail,
            length-shifted a ds,
            length-drop a g.num.rest,
            room_for_a,
          );
          digits = IsDigits-append (zeros a) ds (IsDigits-zeros a) v.digits;
          positive = omega (arith, length-shifted a ds);
        };
        enough = g.no_less;
      })
  where
    b' : BigNum
    b' = extend_below (b.wei + a) (b.wei + a) b

    gap : Block
    gap = take a g.num.rest

    tail : Block
    tail = drop a g.num.rest

    room_for_a : a ≤ length g.num.rest
    room_for_a = omega (arith, g.enough, arr_len-eq g.num, v.count)

    whole : b'.arr ≡ cells ds (gap ++ tail)
    whole = g.num.held ∙ ap (cells ds) (sym (take-append-drop a g.num.rest))

    s : Shifted (shift_loop b'.wei a (cells ds (gap ++ tail))) a ds tail
    s =
        shift_loop-Shifted b'.wei a ds gap tail g.num.count
          (omega (arith, length-take a g.num.rest, room_for_a)) pos

    cleared : clear a 0 (s.low_cells ++ cells ds tail) ≡ some (cells (zeros a) (cells ds tail))
    cleared = clear-cells s.low_cells [] (cells ds tail) a 0 (sym s.width) refl

pub append0-Gives :
    (b : BigNum) (ds : List ℕ) (a : ℕ)
    → IsNum b ds
    → Gives (big_num_append0 b a) (shifted a ds) b.arr_len
unfolding big_num_append0
append0-Gives b ds zero v = record { r = b; returns = refl; num = v; enough = omega arith }
append0-Gives b ds (suc a) v =
    rw (suc-test a)
      (shift_positive b ds (suc a) v (omega arith) (extend_below-Grows (b.wei + suc a) v))
