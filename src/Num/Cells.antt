-- ===== src/Num/Cells.antt =====
-- Blocks whose first cells hold known digits, and what the accesses and the loops do to them.
use com_richard_test.Base.{
  ℕ, zero, suc, ◌+◌, ◌*◌, ◌/◌, ◌%◌, ◌<◌, List, [], ◌∷◌, ◌++◌, ltb, if◌then◌else◌, Option, some, ◌≡◌,
  refl, sym, ap, ◌∙◌, arith, length, get_or, length-append,
}
use com_richard_test.Num.Memory.{Block, load, store, clear}
use com_richard_test.Num.Ops.{dig_loop, add_loop, copy_loop}
use com_richard_test.Num.Digits.{low, high, zeros, add_out, add_carry, dig_out, dig_carry}

-- The digits `ds` in front of the cells `rest`.
abbrev pub cells : List ℕ → Block → Block
cells [] rest = rest
cells (d ∷ ds) rest = some d ∷ cells ds rest

pub length-cells : (ds : List ℕ) (rest : Block) → length (cells ds rest) ≡ length ds + length rest
length-cells [] rest = omega arith
length-cells (d ∷ ds) rest = omega (arith, length-cells ds rest)

pub cells-append :
    (xs ys : List ℕ) (rest : Block) → cells (xs ++ ys) rest ≡ cells xs (cells ys rest)
cells-append [] ys rest = refl
cells-append (x ∷ xs) ys rest = ap (λ t. some x ∷ t) (cells-append xs ys rest)

pub cells-back : (xs : List ℕ) (rest more : Block) → cells xs rest ++ more ≡ cells xs (rest ++ more)
cells-back [] rest more = refl
cells-back (x ∷ xs) rest more = ap (λ t. some x ∷ t) (cells-back xs rest more)

pub load-cells :
    (ds : List ℕ) (rest : Block) (n : ℕ)
    → n < length ds
    → load (cells ds rest) n ≡ some (get_or ds n 0)
unfolding load
load-cells [] rest n h = absurd (omega arith)
load-cells (d ∷ ds) rest zero h = refl
load-cells (d ∷ ds) rest (suc n) h = load-cells ds rest n (omega arith)

pub load_behind :
    (done : List ℕ) (d : ℕ) (rest : Block) (i : ℕ)
    → i ≡ length done
    → load (cells done (some d ∷ rest)) i ≡ some d
unfolding load
load_behind [] d rest zero e = refl
load_behind [] d rest (suc i) e = absurd (omega arith)
load_behind (x ∷ done) d rest zero e = absurd (omega arith)
load_behind (x ∷ done) d rest (suc i) e = load_behind done d rest i (omega arith)

pub store_behind :
    (done : List ℕ) (c : Option ℕ) (rest : Block) (i v : ℕ)
    → i ≡ length done
    → store (cells done (c ∷ rest)) i v ≡ some (cells done (some v ∷ rest))
unfolding store
store_behind [] c rest zero v e = refl
store_behind [] c rest (suc i) v e = absurd (omega arith)
store_behind (x ∷ done) c rest zero v e = absurd (omega arith)
store_behind (x ∷ done) c rest (suc i) v e = rw (store_behind done c rest i v (omega arith))

snoc :
    (done : List ℕ) (d : ℕ) (rest : Block)
    → cells (done ++ d ∷ []) rest ≡ cells done (some d ∷ rest)
snoc done d rest = cells-append done (d ∷ []) rest

length-snoc : (done : List ℕ) (d i : ℕ) → i ≡ length done → i + 1 ≡ length (done ++ d ∷ [])
length-snoc done d i e = omega (arith, length-append done (d ∷ []))

-- `clear` writes zeros over as many cells as it counts.
pub clear-cells :
    (junk : Block) (done : List ℕ) (rest : Block) (n i : ℕ)
    → n ≡ length junk
    → i ≡ length done
    → clear n i (cells done (junk ++ rest)) ≡ some (cells done (cells (zeros n) rest))
unfolding clear
clear-cells [] done rest zero i en ei = refl
clear-cells [] done rest (suc n) i en ei = absurd (omega arith)
clear-cells (c ∷ junk) done rest zero i en ei = absurd (omega arith)
clear-cells (c ∷ junk) done rest (suc n) i en ei = rw (store_behind done c (junk ++ rest) i 0 ei) (
    ap (λ t. clear n (i + 1) t) (sym (snoc done 0 (junk ++ rest)))
    ∙ clear-cells junk (done ++ 0 ∷ []) rest n (i + 1) (omega arith) (length-snoc done 0 i ei)
    ∙ ap some (snoc done 0 (cells (zeros n) rest)))

pub dig_loop-cells :
    (todo done : List ℕ) (rest : Block) (a next n i : ℕ)
    → n ≡ length todo
    → i ≡ length done
    → dig_loop n i a next (cells done (cells todo rest))
      ≡ some (cells done (cells (dig_out a next todo) rest), dig_carry a next todo)
unfolding dig_loop
dig_loop-cells [] done rest a next zero i en ei = refl
dig_loop-cells [] done rest a next (suc n) i en ei = absurd (omega arith)
dig_loop-cells (d ∷ todo) done rest a next zero i en ei = absurd (omega arith)
dig_loop-cells (d ∷ todo) done rest a next (suc n) i en ei =
    let s = d * a + next in
    let o : ℕ = if ltb s 10 then s else s % 10 in
    let next' : ℕ = if ltb s 10 then 0 else s / 10 in
    rw
      (
        load_behind done d (cells todo rest) i ei,
        store_behind done (some d) (cells todo rest) i o ei,
      )
      (ap (λ t. dig_loop n (i + 1) a next' t) (sym (snoc done o (cells todo rest)))
        ∙ dig_loop-cells todo (done ++ o ∷ []) rest a next' n (i + 1) (omega arith)
            (length-snoc done o i ei)
        ∙ ap (λ t. some (t, dig_carry a next' todo))
            (snoc done o (cells (dig_out a next' todo) rest)))

pub add_loop-cells :
    (xs ys done done' : List ℕ) (rest rest' : Block) (next n i : ℕ)
    → n ≡ length ys
    → length xs ≡ length ys
    → i ≡ length done
    → i ≡ length done'
    → add_loop n i next (cells done (cells xs rest)) (cells done' (cells ys rest'))
      ≡ some (cells done (cells (add_out next xs ys) rest), add_carry next xs ys)
unfolding add_loop
add_loop-cells [] [] done done' rest rest' next zero i en e ei ei' = refl
add_loop-cells [] [] done done' rest rest' next (suc n) i en e ei ei' = absurd (omega arith)
add_loop-cells [] (y ∷ ys) done done' rest rest' next n i en e ei ei' = absurd (omega arith)
add_loop-cells (x ∷ xs) [] done done' rest rest' next n i en e ei ei' = absurd (omega arith)
add_loop-cells (x ∷ xs) (y ∷ ys) done done' rest rest' next zero i en e ei ei' =
    absurd (omega arith)
add_loop-cells (x ∷ xs) (y ∷ ys) done done' rest rest' next (suc n) i en e ei ei' =
    let s = x + y + next in
    rw
      (
        load_behind done x (cells xs rest) i ei,
        load_behind done' y (cells ys rest') i ei',
        store_behind done (some x) (cells xs rest) i (low s) ei,
      )
      (ap (λ t. add_loop n (i + 1) (high s) t (cells done' (some y ∷ cells ys rest')))
          (sym (snoc done (low s) (cells xs rest)))
        ∙ ap (λ t. add_loop n (i + 1) (high s) (cells (done ++ low s ∷ []) (cells xs rest)) t)
            (sym (snoc done' y (cells ys rest')))
        ∙ add_loop-cells xs ys (done ++ low s ∷ []) (done' ++ y ∷ []) rest rest' (high s) n (i + 1)
            (omega arith) (omega arith) (length-snoc done (low s) i ei) (length-snoc done' y i ei')
        ∙ ap (λ t. some (t, add_carry (high s) xs ys))
            (snoc done (low s) (cells (add_out (high s) xs ys) rest)))

pub copy_loop-cells :
    (ds done done' : List ℕ) (junk rest rest' : Block) (n i : ℕ)
    → n ≡ length ds
    → length junk ≡ length ds
    → i ≡ length done
    → i ≡ length done'
    → copy_loop n i (cells done (junk ++ rest)) (cells done' (cells ds rest'))
      ≡ some (cells done (cells ds rest))
unfolding copy_loop
copy_loop-cells [] done done' [] rest rest' zero i en e ei ei' = refl
copy_loop-cells [] done done' [] rest rest' (suc n) i en e ei ei' = absurd (omega arith)
copy_loop-cells [] done done' (c ∷ junk) rest rest' n i en e ei ei' = absurd (omega arith)
copy_loop-cells (d ∷ ds) done done' [] rest rest' n i en e ei ei' = absurd (omega arith)
copy_loop-cells (d ∷ ds) done done' (c ∷ junk) rest rest' zero i en e ei ei' = absurd (omega arith)
copy_loop-cells (d ∷ ds) done done' (c ∷ junk) rest rest' (suc n) i en e ei ei' =
    rw (load_behind done' d (cells ds rest') i ei', store_behind done c (junk ++ rest) i d ei)
      (ap (λ t. copy_loop n (i + 1) t (cells done' (some d ∷ cells ds rest')))
          (sym (snoc done d (junk ++ rest)))
        ∙ ap (λ t. copy_loop n (i + 1) (cells (done ++ d ∷ []) (junk ++ rest)) t)
            (sym (snoc done' d (cells ds rest')))
        ∙ copy_loop-cells ds (done ++ d ∷ []) (done' ++ d ∷ []) junk rest rest' n (i + 1)
            (omega arith) (omega arith) (length-snoc done d i ei) (length-snoc done' d i ei')
        ∙ ap some (snoc done d (cells ds rest)))
