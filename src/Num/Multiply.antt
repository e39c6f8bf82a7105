-- ===== src/Num/Multiply.antt =====
-- The loop of `big_num_multi`, and the product that it returns.
use mathlib.Core.List.{append-nil, append_assoc}
use mathlib.Core.Path.{subst}
use com_richard_test.Base.{
  ◌>>=◌, ℕ, zero, suc, ◌+◌, ◌*◌, ◌^◌, ◌≤◌, ◌<◌, List, [], ◌∷◌, ◌++◌, ◌⊎◌, inl, inr, Option, some,
  ◌≡◌, refl, sym, ap, ◌∙◌, arith, length, length-append,
}
use com_richard_test.Num.Memory.{Block, load}
use com_richard_test.Num.Ops.{
  BigNum, Cmp, less, equal, greater, get_zero, multi_round, multi_loop, multi_by, big_num_multi,
}
use com_richard_test.Num.Digits.{val, IsDigits, IsDigits-append, val-append, val-lt-pow}
use com_richard_test.Num.Cells.{cells, cells-append, load_behind}
use com_richard_test.Num.State.{IsNum, get_zero-IsNum}
use com_richard_test.Num.Scale.{cpy-Gives, scaled, multi_dig-Gives}
use com_richard_test.Num.Shift.{append0-Gives}
use com_richard_test.Num.Compare.{big_num_cmp-Compared}
use com_richard_test.Num.Sum.{Sums}
use com_richard_test.Num.InPlace.{add_0-Sums}
use com_richard_test.Num.Product.{
  Product, term_of, val-term, length-term, addable, lt_of_pow-lt, pow-add, product_bound,
}

module _ {b1 : BigNum} {xs : List ℕ} (v1 : IsNum b1 xs) where
  round-Sums :
      {res : BigNum} {rs : List ℕ} (done : List ℕ) (w : ℕ)
      → IsNum res rs
      → IsDigits done
      → w < 10
      → val rs ≡ val xs * val done
      → length rs ≤ length xs + length done
      → length xs + length done + 1 < b1.arr_len
      → Sums (multi_round w (length done) res b1) rs (term_of xs w (length done)) res.arr_len
  unfolding multi_round
  round-Sums {res} {rs} done w vr hd small ev el room =
      let c = cpy-Gives b1 xs v1 in
      let m = multi_dig-Gives c.r xs w c.num small in
      let s = append0-Gives m.r (scaled w xs) (length done) m.num in
      let ready =
        addable xs v1.digits v1.positive rs done w s.r small vr.digits hd s.num.digits ev el
          (omega (
            arith,
            length-term xs v1.digits v1.positive w (length done) small,
            c.enough,
            m.enough,
            s.enough,
          ))
          res.arr_len in
      rw (c.returns, m.returns, s.returns) (add_0-Sums vr s.num ready)

  -- The digits of the new partial product are not more than the factors together have.
  round_size :
      (rs done out : List ℕ) (w : ℕ)
      → IsDigits done
      → w < 10
      → length rs ≤ length xs + length done
      → val out ≡ val xs * val (done ++ w ∷ [])
      → (length out ≤ length rs)
        ⊎ (length out ≤ length (term_of xs w (length done)))
        ⊎ ((length out ≡ length (term_of xs w (length done)) + 1)
            × (10 ^ length (term_of xs w (length done)) ≤ val out))
      → length out ≤ length xs + length done + 1
  round_size rs done out w hd small el ev (inl short) = omega arith
  round_size rs done out w hd small el ev (inr (inl short)) =
      omega (arith, length-term xs v1.digits v1.positive w (length done) small)
  round_size rs done out w hd small el ev (inr (inr (longer, high))) =
      let more = done ++ w ∷ [] in
      let below : val xs * val more < 10 ^ length xs * 10 ^ length more =
        product_bound (val xs) (10 ^ length xs) (val more) (10 ^ length more)
          (val-lt-pow xs v1.digits)
          (val-lt-pow more (IsDigits-append done (w ∷ []) hd (small, tt))) in
      let fits =
        lt_of_pow-lt (length (term_of xs w (length done))) (length xs + length more)
          (omega (arith, high, ev, below, pow-add (length xs) (length more))) in
      omega (arith, fits, longer, length-append done (w ∷ []))

  round_value :
      (done out rs : List ℕ) (w : ℕ)
      → w < 10
      → val rs ≡ val xs * val done
      → val out ≡ val rs + val (term_of xs w (length done))
      → val out ≡ val xs * val (done ++ w ∷ [])
  round_value done out rs w small ev eo =
      eo
      ∙ omega (
        arith,
        ev,
        val-term xs v1.digits v1.positive w (length done) small,
        ap (λ (k : ℕ). val xs * k) (val-append done (w ∷ [])),
      )

  multi_loop-Product :
      (b2 : BigNum) (todo done : List ℕ) (rest : Block) (n i : ℕ) {res : BigNum} {rs : List ℕ}
      → n ≡ length todo
      → i ≡ length done
      → b2.arr ≡ cells done (cells todo rest)
      → IsDigits done
      → IsDigits todo
      → IsNum res rs
      → val rs ≡ val xs * val done
      → length rs ≤ length xs + length done
      → length xs + length done + length todo < b1.arr_len
      → Product
          (multi_loop n i res b1 b2)
          (val xs * val (done ++ todo))
          (length xs + length done + length todo)
  unfolding multi_loop
  multi_loop-Product b2 [] done rest zero i {res} {rs} en ei held hd ht vr ev el room = record {
    out = rs;
    gives = record { r = res; returns = refl; num = vr; enough = omega arith };
    value = ev ∙ ap (λ t. val xs * val t) (sym (append-nil done));
    fits = omega arith;
  }
  multi_loop-Product b2 [] done rest (suc n) i en ei held hd ht vr ev el room = absurd (omega arith)
  multi_loop-Product b2 (w ∷ todo) done rest zero i en ei held hd ht vr ev el room =
      absurd (omega arith)
  multi_loop-Product b2 (w ∷ todo) done rest (suc n) i {res} {rs} en ei held hd ht vr ev el room =
      let s = round-Sums done w vr hd ht.0 ev el (omega arith) in
      let value = round_value done s.out rs w ht.0 ev s.value in
      let size = round_size rs done s.out w hd ht.0 el value s.size in
      let longer = length-append done (w ∷ []) in
      let p =
        multi_loop-Product b2 todo (done ++ w ∷ []) rest n (i + 1) (omega arith)
          (omega (arith, longer)) (held ∙ sym (cells-append done (w ∷ []) (cells todo rest)))
          (IsDigits-append done (w ∷ []) hd (ht.0, tt)) ht.1 s.gives.num value
          (omega (arith, longer)) (omega (arith, longer)) in
      finish s.gives.r s.gives.returns p
    where
      loaded : load b2.arr i ≡ some w
      loaded = ap (λ t. load t i) held ∙ load_behind done w (cells todo rest) i ei

      finish :
          (r : BigNum)
          → multi_round w (length done) res b1 ≡ some r
          → Product
              (multi_loop n (i + 1) r b1 b2)
              (val xs * val ((done ++ w ∷ []) ++ todo))
              (length xs + length (done ++ w ∷ []) + length todo)
          → Product
              (multi_loop (suc n) i res b1 b2)
              (val xs * val (done ++ w ∷ todo))
              (length xs + length done + suc (length todo))
      finish r e p =
          subst
            (λ t.
              Product t (val xs * val (done ++ w ∷ todo))
                (length xs + length done + suc (length todo)))
            (sym stepped)
            (record {
              out = p.out;
              gives = p.gives;
              value = p.value ∙ ap (λ t. val xs * val t) (append_assoc done (w ∷ []) todo);
              fits = omega (arith, p.fits, length-append done (w ∷ []));
            })
        where
          stepped : multi_loop (suc n) i res b1 b2 ≡ multi_loop n (i + 1) r b1 b2
          stepped =
              ap
                (λ (o : Option ℕ).
                  o >>= λ w'. multi_round w' i res b1 >>= λ t. multi_loop n (i + 1) t b1 b2)
                loaded
              ∙ ap (λ k. multi_round w k res b1 >>= λ t. multi_loop n (i + 1) t b1 b2) ei
              ∙ ap (λ (o : Option BigNum). o >>= λ t. multi_loop n (i + 1) t b1 b2) e

by_zero : (xs : List ℕ) → 0 ≡ val xs * 0
by_zero xs = omega arith

-- Of two well-formed numbers whose blocks both have more cells than the numbers have digits together,
-- the multiplication returns, touches no cell outside its blocks and reads no indeterminate one, and
-- its result is the product, in no more digits than the factors have together.
pub big_num_multi-Product :
    {b1 b2 : BigNum} {xs ys : List ℕ}
    → IsNum b1 xs
    → IsNum b2 ys
    → length xs + length ys < b1.arr_len
    → length xs + length ys < b2.arr_len
    → Product (big_num_multi b1 b2) (val xs * val ys) (length xs + length ys)
unfolding big_num_multi multi_by
big_num_multi-Product {b1} {b2} {xs} {ys} v1 v2 room1 room2 =
    let (c, e, said) = big_num_cmp-Compared v1 v2 in rw e (by_verdict c)
  where
    straight :
        Product (multi_loop b2.wei 0 get_zero b1 b2) (val xs * val ys) (length xs + length ys)
    straight =
        let p =
          multi_loop-Product v1 b2 ys [] v2.rest b2.wei 0 v2.count refl v2.held tt v2.digits
            get_zero-IsNum (by_zero xs) (omega (arith, v1.positive)) (omega arith) in
        record { out = p.out; gives = p.gives; value = p.value; fits = omega (arith, p.fits) }

    swapped : Product (multi_loop b1.wei 0 get_zero b2 b1) (val xs * val ys) (length xs + length ys)
    swapped =
        let p =
          multi_loop-Product v2 b1 xs [] v1.rest b1.wei 0 v1.count refl v1.held tt v1.digits
            get_zero-IsNum (by_zero ys) (omega (arith, v2.positive)) (omega arith) in
        record {
          out = p.out;
          gives = p.gives;
          value = omega (arith, p.value);
          fits = omega (arith, p.fits);
        }

    by_verdict : (c : Cmp) → Product (multi_by c b1 b2) (val xs * val ys) (length xs + length ys)
    by_verdict less = swapped
    by_verdict equal = straight
    by_verdict greater = straight
