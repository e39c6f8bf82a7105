-- ===== src/Num/Scale.antt =====
-- Copies, multiples by one digit and shifts by whole digits.
use mathlib.Core.List.{append-nil}
use com_richard_test.Base.{
  ◌>>=◌, ℕ, zero, suc, ◌+◌, ◌*◌, ◌^◌, ◌≤◌, ◌<◌, List, [], ◌∷◌, ◌++◌, ◌==◌, suc-test, ltb,
  Bool-cases, inl, inr, Option, some, ◌≡◌, ◌≢◌, refl, sym, ap, ◌∙◌, arith, length, take, drop,
  take-append-drop, length-take, length-drop, length-append, length-replicate,
}
use com_richard_test.Num.Memory.{Block, store, realloc, clear}
use com_richard_test.Num.Ops.{
  BigNum, get_zero, extend_full, copy_loop, big_num_cpy, dig_loop, put_carry, big_num_multi_dig,
}
use com_richard_test.Num.Digits.{
  val, IsDigits, IsDigits-append, zeros, val-append, dig_out, dig_carry, length-dig_out,
  dig_out_lem,
}
use com_richard_test.Num.Cells.{
  cells, length-cells, cells-append, store_behind, clear-cells, dig_loop-cells, copy_loop-cells,
}
use com_richard_test.Num.State.{
  IsNum, arr_len-eq, grown-IsNum, Grows, extend_full-Grows, free_cell, get_zero-IsNum,
}

-- `o` is a number with the digits `out`, in no fewer cells than `b` has.
pub record Gives (o : Option BigNum) (out : List ℕ) (n : ℕ) : Type 0 where
  pub r : BigNum
  pub returns : o ≡ some r
  pub num : IsNum r out
  pub enough : n ≤ r.arr_len

-- The carry as a digit at the top, if it is not zero.
abbrev pub top : ℕ → List ℕ
top zero = []
top (suc c) = suc c ∷ []

pub put_carry-Gives :
    (b : BigNum) (ds out : List ℕ) (c : ℕ)
    → length ds < b.arr_len
    → length out ≡ length ds
    → IsDigits out
    → c < 10
    → (v : IsNum b ds) → Gives (put_carry (cells out v.rest) c b) (out ++ top c) b.arr_len
unfolding put_carry
put_carry-Gives b ds out zero free e digits small v = record {
  r = record b { arr = cells out v.rest };
  returns = refl;
  num = record {
    rest = v.rest;
    held = ap (λ t. cells t v.rest) (sym (append-nil out));
    count = v.count ∙ sym e ∙ ap length (sym (append-nil out));
    room = arr_len-eq v ∙ omega (arith, length-cells out v.rest);
    digits = IsDigits-append out [] digits tt;
    positive = omega (arith, v.positive, e, ap length (append-nil out));
  };
  enough = omega arith;
}
put_carry-Gives b ds out (suc c) free e digits small v = rw (suc-test c) (more (free_cell v free))
  where
    more :
        (c' : Option ℕ) × (rest : Block) × (v.rest ≡ c' ∷ rest)
        → Gives
            (store (cells out v.rest) b.wei (suc c) >>= λ arr'.
              some (record b { arr = arr'; wei = b.wei + 1 }))
            (out ++ suc c ∷ [])
            b.arr_len
    more (c', rest, er) = record {
      r = record b { arr = cells out (some (suc c) ∷ rest); wei = b.wei + 1 };
      returns = rw (er, store_behind out c' rest b.wei (suc c) (v.count ∙ sym e));
      num = record {
        rest = rest;
        held = sym (cells-append out (suc c ∷ []) rest);
        count = omega (arith, v.count, length-append out (suc c ∷ []));
        room = arr_len-eq v ∙ omega (arith, length-cells out (some (suc c) ∷ rest), ap length er);
        digits = IsDigits-append out (suc c ∷ []) digits (small, tt);
        positive = omega (arith, length-append out (suc c ∷ []));
      };
      enough = omega arith;
    }

-- The value and the length of a number with its carry on top.
pub val-top : (out : List ℕ) (c n : ℕ) → n ≡ length out → val (out ++ top c) ≡ val out + 10 ^ n * c
val-top out zero n e = omega (arith, ap val (append-nil out))
val-top out (suc c) n e =
    omega (arith, val-append out (suc c ∷ []), ap (λ (k : ℕ). 10 ^ k * suc c) e)

pub length-top :
    (out : List ℕ) (c : ℕ)
    → (length (out ++ top c) ≤ length out + 1) × (length out ≤ length (out ++ top c))
length-top out zero =
    (omega (arith, ap length (append-nil out)), omega (arith, ap length (append-nil out)))
length-top out (suc c) =
    (omega (arith, length-append out (suc c ∷ [])), omega (arith, length-append out (suc c ∷ [])))

IsDigits-top : (out : List ℕ) (c : ℕ) → IsDigits out → c < 10 → IsDigits (out ++ top c)
IsDigits-top out zero h small = IsDigits-append out [] h tt
IsDigits-top out (suc c) h small = IsDigits-append out (suc c ∷ []) h (small, tt)

-- A multiple by a digit other than 0: the digits of the loop, and its carry on top.
multi_nonzero :
    (b : BigNum) (ds : List ℕ) (a : ℕ)
    → IsNum b ds
    → a < 10
    → a ≢ 0
    → Gives (big_num_multi_dig b a) (dig_out a 0 ds ++ top (dig_carry a 0 ds)) b.arr_len
unfolding big_num_multi_dig
multi_nonzero b ds a v small nz = elim (Bool-cases (a == 0)) [
  | inl is_zero ↦ absurd (nz (ground arith))
  | inr other ↦ rw other (grown (extend_full-Grows v))
]
  where
    out : List ℕ
    out = dig_out a 0 ds

    facts :
        (val out + 10 ^ length ds * dig_carry a 0 ds ≡ val ds * a + 0)
        × IsDigits out
        × (dig_carry a 0 ds < 10)
    facts = dig_out_lem a 0 ds small (omega arith) v.digits

    grown :
        Grows b (extend_full b) ds (suc (length ds))
        → Gives
            (dig_loop (extend_full b).wei 0 a 0 (extend_full b).arr >>= λ (arr, next).
              put_carry arr next (extend_full b))
            (out ++ top (dig_carry a 0 ds))
            b.arr_len
    grown g =
        let loop =
          ap (λ t. dig_loop (extend_full b).wei 0 a 0 t) g.num.held
          ∙ dig_loop-cells ds [] g.num.rest a 0 (extend_full b).wei 0 g.num.count refl in
        let p =
          put_carry-Gives (extend_full b) ds out (dig_carry a 0 ds) g.enough (length-dig_out a 0 ds)
            facts.1 facts.2 g.num in
        rw loop (record {
          r = p.r;
          returns = p.returns;
          num = p.num;
          enough = omega (arith, p.enough, g.no_less);
        })

-- What `big_num_multi_dig` makes of the digits.
abbrev pub scaled : ℕ → List ℕ → List ℕ
scaled zero ds = 0 ∷ []
scaled (suc a) ds = dig_out (suc a) 0 ds ++ top (dig_carry (suc a) 0 ds)

multi_zero :
    (b : BigNum) (ds : List ℕ) → IsNum b ds → Gives (big_num_multi_dig b 0) (0 ∷ []) b.arr_len
unfolding big_num_multi_dig
multi_zero b [] v = absurd (omega (arith, v.positive))
multi_zero b (d ∷ ds) v =
    rw (v.held, store_behind [] (some d) (cells ds v.rest) 0 0 refl)
      (record {
        r = record b { arr = some 0 ∷ cells ds v.rest; wei = 1 };
        returns = refl;
        num = record {
          rest = cells ds v.rest;
          held = refl;
          count = refl;
          room = v.room ∙ ap length v.held;
          digits = omega arith;
          positive = omega arith;
        };
        enough = omega arith;
      })

pub multi_dig-Gives :
    (b : BigNum) (ds : List ℕ) (a : ℕ)
    → IsNum b ds
    → a < 10
    → Gives (big_num_multi_dig b a) (scaled a ds) b.arr_len
multi_dig-Gives b ds zero v small = multi_zero b ds v
multi_dig-Gives b ds (suc a) v small = multi_nonzero b ds (suc a) v small (omega arith)

-- The value and the length of the multiple.
pub scaled_lem :
    (a : ℕ) (ds : List ℕ)
    → a < 10
    → IsDigits ds
    → 0 < length ds
    → (val (scaled a ds) ≡ val ds * a)
      × (length (scaled a ds) ≤ length ds + 1)
      × (0 < a → length ds ≤ length (scaled a ds))
      × IsDigits (scaled a ds)
scaled_lem zero ds small v pos = (omega arith, omega arith, λ h. absurd (omega arith), omega arith)
scaled_lem (suc a) ds small v pos = (
  omega (arith, facts.0, val-top out c (length ds) (sym size)),
  omega (arith, size, length-top out c),
  λ _. omega (arith, size, length-top out c),
  IsDigits-top out c facts.1 facts.2,
)
  where
    out : List ℕ
    out = dig_out (suc a) 0 ds

    c : ℕ
    c = dig_carry (suc a) 0 ds

    size : length out ≡ length ds
    size = length-dig_out (suc a) 0 ds

    facts : (val out + 10 ^ length ds * c ≡ val ds * suc a + 0) × IsDigits out × (c < 10)
    facts = dig_out_lem (suc a) 0 ds small (omega arith) v

-- A copy into a fresh object has the digits of the original, and no fewer cells.
pub cpy-Gives :
    (b : BigNum) (ds : List ℕ) → IsNum b ds → Gives (big_num_cpy get_zero b) ds b.arr_len
unfolding big_num_cpy
cpy-Gives b ds v = elim (Bool-cases (ltb (get_zero).arr_len b.arr_len)) [
  | inl bigger ↦ rw bigger (
      fill (record get_zero { arr = realloc (get_zero).arr b.arr_len; arr_len = b.arr_len })
        (grown-IsNum b.arr_len get_zero-IsNum (ground arith)).room (omega arith))
  | inr fits ↦ rw fits (fill get_zero (get_zero-IsNum).room (ground arith))
]
  where
    fill :
        (z : BigNum)
        → z.arr_len ≡ length z.arr
        → b.arr_len ≤ z.arr_len
        → Gives
            (clear z.arr_len 0 z.arr >>= λ cleared.
              copy_loop b.wei 0 cleared b.arr >>= λ arr. some (record z { arr = arr; wei = b.wei }))
            ds
            b.arr_len
    fill z room le =
        let n = length ds in
        let spare : Block = drop n (cells (zeros z.arr_len) []) in
        let long : length (cells (zeros z.arr_len) []) ≡ z.arr_len =
          length-cells (zeros z.arr_len) [] ∙ omega (arith, length-replicate {A = ℕ} z.arr_len 0) in
        let front : Block = take n (cells (zeros z.arr_len) []) in
        let wide : n ≤ z.arr_len = omega (arith, arr_len-eq v) in
        let front_len : length front ≡ n =
          omega (arith, length-take n (cells (zeros z.arr_len) []), long) in
        let e1 : clear z.arr_len 0 z.arr ≡ some (front ++ spare) =
          ap (clear z.arr_len 0) (sym (append-nil z.arr))
          ∙ clear-cells z.arr [] [] z.arr_len 0 room refl
          ∙ ap some (sym (take-append-drop n (cells (zeros z.arr_len) []))) in
        let e2 : copy_loop b.wei 0 (front ++ spare) b.arr ≡ some (cells ds spare) =
          ap (λ t. copy_loop b.wei 0 (front ++ spare) t) v.held
          ∙ copy_loop-cells ds [] [] front spare v.rest b.wei 0 v.count front_len refl refl in
        rw (e1, e2)
          (record {
            r = record z { arr = cells ds spare; wei = b.wei };
            returns = refl;
            num = record {
              rest = spare;
              held = refl;
              count = v.count;
              room =
                  omega (
                    arith,
                    length-cells ds spare,
                    length-drop n (cells (zeros z.arr_len) []),
                    long,
                  );
              digits = v.digits;
              positive = v.positive;
            };
            enough = le;
          })
