-- ===== src/Sort/Shuffle.antt =====
-- Arrays that differ by exchanges in a range of their cells, and what such exchanges keep.
use com_richard_test.Base.{
  ℕ, zero, suc, ◌≤◌, ◌<◌, List, [], ◌∷◌, ◌⊎◌, ◌≡◌, refl, sym, ap, ◌∙◌, arith, get_or,
  get_or-set_self, get_or-set_ne, set, length, length-set, ℕ_discrete,
}
use mathlib.Core.Path.{subst}
use com_richard_test.Sort.Count.{once, count, count-set}

set-set : (a : List ℕ) (i x y : ℕ) → set (set a i x) i y ≡ set a i y
set-set [] i x y = refl
set-set (c ∷ a) zero x y = refl
set-set (c ∷ a) (suc i) x y = ap (λ t. c ∷ t) (set-set a i x y)

pub set_same : (a : List ℕ) (i : ℕ) → set a i (get_or a i 0) ≡ a
set_same [] i = refl
set_same (c ∷ a) zero = refl
set_same (c ∷ a) (suc i) = ap (λ t. c ∷ t) (set_same a i)

abbrev pub swapped : ℕ → ℕ → List ℕ → List ℕ
swapped i j a = set (set a i (get_or a j 0)) j (get_or a i 0)

written : (b : List ℕ) (i j : ℕ) → i < length b → get_or (set b i (get_or b j 0)) j 0 ≡ get_or b j 0
written b i j lt = elim (ℕ_discrete i j) [
  | yes e ↦
      ap (λ m. get_or (set b i (get_or b j 0)) m 0) (sym e)
      ∙ get_or-set_self b i (get_or b j 0) 0 lt
  | no ne ↦ get_or-set_ne b i j (get_or b j 0) 0 ne
]

-- Exchanges of cells from `lo` up to `hi`.
pub data Shuffle (lo hi : ℕ) (a : List ℕ) : List ℕ → Type 0 where
  same : Shuffle lo hi a a
  swap :
      {b : List ℕ} (i j : ℕ)
      → lo ≤ i
      → i < hi
      → lo ≤ j
      → j < hi
      → Shuffle lo hi a b
      → Shuffle lo hi a (swapped i j b)

pub trans : {lo hi : ℕ} {a b c : List ℕ} → Shuffle lo hi a b → Shuffle lo hi b c → Shuffle lo hi a c
trans p same = p
trans p (swap i j li hi lj hj q) = swap i j li hi lj hj (trans p q)

pub widen :
    {lo hi : ℕ} {a b : List ℕ} (lo' hi' : ℕ)
    → lo' ≤ lo
    → hi ≤ hi'
    → Shuffle lo hi a b
    → Shuffle lo' hi' a b
widen lo' hi' l h same = same
widen lo' hi' l h (swap i j li hi lj hj p) =
    swap i j (omega arith) (omega arith) (omega arith) (omega arith) (widen lo' hi' l h p)

module _ {lo hi : ℕ} {a : List ℕ} where
  pub length-Shuffle : {b : List ℕ} → Shuffle lo hi a b → length b ≡ length a
  length-Shuffle same = refl
  length-Shuffle (swap {b = b} i j li hi lj hj p) =
      length-set (set b i (get_or b j 0)) j (get_or b i 0)
      ∙ length-set b i (get_or b j 0)
      ∙ length-Shuffle p

  -- The cells outside the range stay.
  pub outside :
      {b : List ℕ} → Shuffle lo hi a b → (k : ℕ) → (k < lo) ⊎ (hi ≤ k) → get_or b k 0 ≡ get_or a k 0
  outside same k out = refl
  outside (swap {b = b} i j li hi lj hj p) k out =
      get_or-set_ne (set b i (get_or b j 0)) j k (get_or b i 0) 0 (λ e. absurd (ground arith))
      ∙ get_or-set_ne b i k (get_or b j 0) 0 (λ e. absurd (ground arith))
      ∙ outside p k out

  module _ (fits : hi ≤ length a) where
    -- Each value stands in the array as often as before.
    pub count-Shuffle : {b : List ℕ} (v : ℕ) → Shuffle lo hi a b → count v b ≡ count v a
    count-Shuffle v same = refl
    count-Shuffle v (swap {b = b} i j li hi lj hj p) =
        let long = length-Shuffle p in
        let x = get_or b i 0 in
        let y = get_or b j 0 in
        let at_j : get_or (set b i y) j 0 ≡ y = written b i j (omega arith) in
        omega (
          arith,
          count-Shuffle v p,
          count-set v b i y (omega arith),
          count-set v (set b i y) j x (omega (arith, length-set b i y)),
          ap (once v) at_j,
        )

    -- What holds of all cells of the range goes on to hold of them.
    pub inside :
        {b : List ℕ} (P : ℕ → Type 0)
        → Shuffle lo hi a b
        → ((k : ℕ) → lo ≤ k → k < hi → P (get_or a k 0))
        → (k : ℕ) → lo ≤ k
        → k < hi
        → P (get_or b k 0)
    inside P same h k lk ltk = h k lk ltk
    inside P (swap {b = b} i j li lti lj ltj p) h k lk ltk =
        let long = length-Shuffle p in
        let old = inside P p h in
        elim (ℕ_discrete j k) [
          | yes e ↦
              subst P
                (sym (
                  ap (λ m. get_or (swapped i j b) m 0) (sym e)
                  ∙ get_or-set_self (set b i (get_or b j 0)) j (get_or b i 0) 0
                      (omega (arith, length-set b i (get_or b j 0)))))
                (old i li lti)
          | no nj ↦ elim (ℕ_discrete i k) [
            | yes e ↦
                subst P
                  (sym (
                    get_or-set_ne (set b i (get_or b j 0)) j k (get_or b i 0) 0 nj
                    ∙ ap (λ m. get_or (set b i (get_or b j 0)) m 0) (sym e)
                    ∙ get_or-set_self b i (get_or b j 0) 0 (omega arith)))
                  (old j lj ltj)
            | no ni ↦
                subst P
                  (sym (
                    get_or-set_ne (set b i (get_or b j 0)) j k (get_or b i 0) 0 nj
                    ∙ get_or-set_ne b i k (get_or b j 0) 0 ni))
                  (old k lk ltk)
          ]
        ]

-- The key leaves the cell `x` for the cell `y`, whose value comes to `x`.
pub key_moves :
    (lo hi : ℕ) (a : List ℕ) (x y key : ℕ)
    → lo ≤ x
    → x < hi
    → lo ≤ y
    → y < hi
    → hi ≤ length a
    → Shuffle lo hi (set a x key) (set (set a x (get_or a y 0)) y key)
key_moves lo hi a x y key lx hx ly hy fits =
    subst (Shuffle lo hi (set a x key)) moved (swap x y lx hx ly hy same)
  where
    at_x : get_or (set a x key) x 0 ≡ key
    at_x = get_or-set_self a x key 0 (omega arith)

    moved : swapped x y (set a x key) ≡ set (set a x (get_or a y 0)) y key
    moved = elim (ℕ_discrete x y) [
      | yes e ↦
          subst (λ z. swapped x z (set a x key) ≡ set (set a x (get_or a z 0)) z key) e
            (set-set (set a x key) x (get_or (set a x key) x 0) (get_or (set a x key) x 0)
              ∙ ap (set (set a x key) x) at_x
              ∙ set-set a x key key
              ∙ sym (set-set a x (get_or a x 0) key))
      | no ne ↦ rw (at_x, get_or-set_ne a x y key 0 ne, set-set a x key (get_or a y 0)) refl
    ]
