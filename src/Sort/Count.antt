-- ===== src/Sort/Count.antt =====
-- How often a value stands in the array, through the exchanges of `popup`.
use com_richard_test.Base.{
  ℕ, zero, suc, ◌+◌, ◌≤◌, ◌<◌, List, [], ◌∷◌, ltb, ◌==◌, Bool-cases, if◌then◌else◌, inl, inr, ◌≡◌,
  ◌≢◌, refl, ap, ◌∙◌, arith, get_or, get_or-set_ne, set, length, length-set,
}
use com_richard_test.Sort.{exchange, inner_loop, outer_loop, popup}

abbrev pub once : ℕ → ℕ → ℕ
once v x = if x == v then 1 else 0

abbrev pub count : ℕ → List ℕ → ℕ
count v [] = 0
count v (x ∷ xs) = once v x + count v xs

pub count-set :
    (v : ℕ) (xs : List ℕ) (i x : ℕ)
    → i < length xs
    → count v (set xs i x) + once v (get_or xs i 0) ≡ count v xs + once v x
count-set v [] i x lt = absurd (omega arith)
count-set v (y ∷ ys) zero x lt = omega arith
count-set v (y ∷ ys) (suc i) x lt = omega (arith, count-set v ys i x (omega arith))

pub length-exchange : (i j : ℕ) (a : List ℕ) → length (exchange i j a) ≡ length a
unfolding exchange
length-exchange i j a = elim (Bool-cases (ltb (get_or a i 0) (get_or a j 0))) [
  | inl lt ↦
      rw lt (length-set (set a i (get_or a j 0)) j (get_or a i 0) ∙ length-set a i (get_or a j 0))
  | inr ge ↦ rw ge (refl)
]

count-exchange :
    (v i j : ℕ) (a : List ℕ) → i < length a → j < length a → count v (exchange i j a) ≡ count v a
unfolding exchange
count-exchange v i j a hi hj = elim (Bool-cases (ltb (get_or a i 0) (get_or a j 0))) [
  | inl lt ↦ rw lt (moved (ground arith))
  | inr ge ↦ rw ge (refl)
]
  where
    moved :
        get_or a i 0 < get_or a j 0
        → count v (set (set a i (get_or a j 0)) j (get_or a i 0)) ≡ count v a
    moved lt =
        let b = set a i (get_or a j 0) in
        let ne : i ≢ j = λ e. absurd (omega (arith, lt, ap (λ k. get_or a k 0) e)) in
        let same : get_or b j 0 ≡ get_or a j 0 = get_or-set_ne a i j (get_or a j 0) 0 ne in
        omega (
          arith,
          count-set v b j (get_or a i 0) (omega (arith, length-set a i (get_or a j 0))),
          count-set v a i (get_or a j 0) hi,
          ap (once v) same,
        )

pub length-inner_loop : (n i j : ℕ) (a : List ℕ) → length (inner_loop n i j a) ≡ length a
unfolding inner_loop
length-inner_loop zero i j a = refl
length-inner_loop (suc n) i j a =
    length-inner_loop n i (j + 1) (exchange i j a) ∙ length-exchange i j a

count-inner_loop :
    (v n i j : ℕ) (a : List ℕ)
    → i < length a
    → j + n ≤ length a
    → count v (inner_loop n i j a) ≡ count v a
unfolding inner_loop
count-inner_loop v zero i j a hi hj = refl
count-inner_loop v (suc n) i j a hi hj =
    let same = length-exchange i j a in
    count-inner_loop v n i (j + 1) (exchange i j a) (omega (arith, same)) (omega (arith, same))
    ∙ count-exchange v i j a hi (omega arith)

count-outer_loop :
    (v n i : ℕ) (a : List ℕ) → i + n ≤ length a → count v (outer_loop n i a) ≡ count v a
unfolding outer_loop
count-outer_loop v zero i a h = refl
count-outer_loop v (suc n) i a h =
    let same = length-inner_loop (suc n) i i a in
    count-outer_loop v n (i + 1) (inner_loop (suc n) i i a) (omega (arith, same))
    ∙ count-inner_loop v (suc n) i i a (omega arith) h

-- Every value stands in the sorted array as often as in the array that was given.
pub count-popup : (v : ℕ) (a : List ℕ) → count v (popup a) ≡ count v a
unfolding popup
count-popup v a = count-outer_loop v (length a) 0 a (omega arith)
