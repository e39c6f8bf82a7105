-- ===== src/Base/Arrays.antt =====
-- C arrays as lists indexed by native numbers, and the loops that sweep over them.
use Prim.Native.Nat.{ℕ, zero, suc, ◌+◌, ◌-◌, ◌≤◌, ◌<◌, min}
use mathlib.Core.Path.{◌≡◌, refl, sym, ap, ap₂, ◌∙◌}
use mathlib.Core.Logic.{◌≢◌, ◌⊎◌}
use mathlib.Core.List.{List, [], ◌∷◌, ◌++◌}
use mathlib.Core.Option.{Option, none, some}
use native.Mathlib.Decide.{ℕ_discrete}
use native.Mathlib.Omega.{arith}

module _ {ℓ} {A : Type ℓ} where
  abbrev pub length : List A → ℕ
  length [] = 0
  length (x ∷ xs) = suc (length xs)

  abbrev pub get_elem? : List A → ℕ → Option A
  get_elem? [] i = none
  get_elem? (x ∷ xs) zero = some x
  get_elem? (x ∷ xs) (suc i) = get_elem? xs i

  abbrev pub get_or : List A → ℕ → A → A
  get_or [] i d = d
  get_or (x ∷ xs) zero d = x
  get_or (x ∷ xs) (suc i) d = get_or xs i d

  abbrev pub set : List A → ℕ → A → List A
  set [] i v = []
  set (x ∷ xs) zero v = v ∷ xs
  set (x ∷ xs) (suc i) v = x ∷ set xs i v

  abbrev pub take : ℕ → List A → List A
  take zero xs = []
  take (suc n) [] = []
  take (suc n) (x ∷ xs) = x ∷ take n xs

  abbrev pub drop : ℕ → List A → List A
  drop zero xs = xs
  drop (suc n) [] = []
  drop (suc n) (x ∷ xs) = drop n xs

  abbrev pub replicate : ℕ → A → List A
  replicate zero a = []
  replicate (suc n) a = a ∷ replicate n a

module _ {ℓ} {A : Type ℓ} where
  pub length-set : (xs : List A) (i : ℕ) (v : A) → length (set xs i v) ≡ length xs
  length-set [] i v = refl
  length-set (x ∷ xs) zero v = refl
  length-set (x ∷ xs) (suc i) v = ap suc (length-set xs i v)

  pub get_or-set_self :
      (xs : List A) (i : ℕ) (v d : A) → i < length xs → get_or (set xs i v) i d ≡ v
  get_or-set_self [] i v d h = absurd (omega arith)
  get_or-set_self (x ∷ xs) zero v d h = refl
  get_or-set_self (x ∷ xs) (suc i) v d h = get_or-set_self xs i v d (omega arith)

  pub get_or-set_ne :
      (xs : List A) (i j : ℕ) (v d : A) → i ≢ j → get_or (set xs i v) j d ≡ get_or xs j d
  get_or-set_ne [] i j v d ne = refl
  get_or-set_ne (x ∷ xs) zero zero v d ne = absurd (ne refl)
  get_or-set_ne (x ∷ xs) zero (suc j) v d ne = refl
  get_or-set_ne (x ∷ xs) (suc i) zero v d ne = refl
  get_or-set_ne (x ∷ xs) (suc i) (suc j) v d ne = get_or-set_ne xs i j v d (λ e. ne (ap suc e))

  pub get_or_ext :
      (d : A) (xs ys : List A)
      → length xs ≡ length ys
      → ((i : ℕ) → i < length xs → get_or xs i d ≡ get_or ys i d)
      → xs ≡ ys
  get_or_ext d [] [] e h = refl
  get_or_ext d [] (y ∷ ys) e h = absurd (omega arith)
  get_or_ext d (x ∷ xs) [] e h = absurd (omega arith)
  get_or_ext d (x ∷ xs) (y ∷ ys) e h =
      ap₂ ◌∷◌ (h 0 (omega arith))
        (get_or_ext d xs ys (omega arith) (λ i lt. h (suc i) (omega arith)))

  pub length-append : (xs ys : List A) → length (xs ++ ys) ≡ length xs + length ys
  length-append [] ys = omega arith
  length-append (x ∷ xs) ys = omega (arith, length-append xs ys)

  pub length-take : (n : ℕ) (xs : List A) → length (take n xs) ≡ min n (length xs)
  length-take zero xs = omega arith
  length-take (suc n) [] = omega arith
  length-take (suc n) (x ∷ xs) = omega (arith, length-take n xs)

  pub length-drop : (n : ℕ) (xs : List A) → length (drop n xs) ≡ length xs - n
  length-drop zero xs = omega arith
  length-drop (suc n) [] = omega arith
  length-drop (suc n) (x ∷ xs) = omega (arith, length-drop n xs)

  pub length-replicate : (n : ℕ) (a : A) → length (replicate n a) ≡ n
  length-replicate zero a = refl
  length-replicate (suc n) a = ap suc (length-replicate n a)

  pub take-append-drop : (n : ℕ) (xs : List A) → take n xs ++ drop n xs ≡ xs
  take-append-drop zero xs = refl
  take-append-drop (suc n) [] = refl
  take-append-drop (suc n) (x ∷ xs) = ap (λ t. x ∷ t) (take-append-drop n xs)

  pub take-nil : (n : ℕ) → take {A = A} n [] ≡ []
  take-nil zero = refl
  take-nil (suc n) = refl

  pub drop-nil : (n : ℕ) → drop {A = A} n [] ≡ []
  drop-nil zero = refl
  drop-nil (suc n) = refl

  pub take_all : (n : ℕ) (xs : List A) → length xs ≤ n → take n xs ≡ xs
  take_all zero [] le = refl
  take_all (suc n) [] le = refl
  take_all zero (x ∷ xs) le = absurd (omega arith)
  take_all (suc n) (x ∷ xs) le = ap (λ t. x ∷ t) (take_all n xs (omega arith))

  pub drop_all : (n : ℕ) (xs : List A) → length xs ≤ n → drop n xs ≡ []
  drop_all zero [] le = refl
  drop_all (suc n) [] le = refl
  drop_all zero (x ∷ xs) le = absurd (omega arith)
  drop_all (suc n) (x ∷ xs) le = drop_all n xs (omega arith)

  pub take_add : (i n : ℕ) (xs : List A) → take (i + n) xs ≡ take i xs ++ take n (drop i xs)
  take_add zero n xs = ap (λ k. take k xs) (omega arith)
  take_add (suc i) n [] = take-nil (suc i + n) ∙ sym (take-nil n)
  take_add (suc i) n (x ∷ xs) =
      let next : suc i + n ≡ suc (i + n) = omega arith in
      rw next (ap (λ t. x ∷ t) (take_add i n xs))

  pub drop_add : (i n : ℕ) (xs : List A) → drop (i + n) xs ≡ drop n (drop i xs)
  drop_add zero n xs = ap (λ k. drop k xs) (omega arith)
  drop_add (suc i) n [] = drop-nil (suc i + n) ∙ sym (drop-nil n)
  drop_add (suc i) n (x ∷ xs) =
      let next : suc i + n ≡ suc (i + n) = omega arith in rw next (drop_add i n xs)

  pub drop_within : (n : ℕ) (xs ys : List A) → n ≤ length xs → drop n (xs ++ ys) ≡ drop n xs ++ ys
  drop_within zero xs ys le = refl
  drop_within (suc n) [] ys le = absurd (omega arith)
  drop_within (suc n) (x ∷ xs) ys le = drop_within n xs ys (omega arith)

  pub take-append : (n : ℕ) (xs ys : List A) → length xs ≡ n → take n (xs ++ ys) ≡ xs
  take-append zero [] ys e = refl
  take-append zero (x ∷ xs) ys e = absurd (omega arith)
  take-append (suc n) [] ys e = absurd (omega arith)
  take-append (suc n) (x ∷ xs) ys e = ap (λ t. x ∷ t) (take-append n xs ys (omega arith))

  pub drop-append : (n : ℕ) (xs ys : List A) → length xs ≡ n → drop n (xs ++ ys) ≡ ys
  drop-append zero [] ys e = refl
  drop-append zero (x ∷ xs) ys e = absurd (omega arith)
  drop-append (suc n) [] ys e = absurd (omega arith)
  drop-append (suc n) (x ∷ xs) ys e = drop-append n xs ys (omega arith)

  pub get_or-drop :
      (n : ℕ) (xs : List A) (i : ℕ) (d : A) → get_or (drop n xs) i d ≡ get_or xs (n + i) d
  get_or-drop zero xs i d = ap (λ k. get_or xs k d) (omega arith)
  get_or-drop (suc n) [] i d = refl
  get_or-drop (suc n) (x ∷ xs) i d =
      get_or-drop n xs i d ∙ ap (λ k. get_or (x ∷ xs) k d) (suc_add n i)
    where
      suc_add : (n i : ℕ) → suc (n + i) ≡ suc n + i
      suc_add n i = omega arith

  pub drop-get_or :
      (xs : List A) (i : ℕ) (d : A) → i < length xs → drop i xs ≡ get_or xs i d ∷ drop (i + 1) xs
  drop-get_or [] i d lt = absurd (omega arith)
  drop-get_or (x ∷ xs) zero d lt = refl
  drop-get_or (x ∷ xs) (suc i) d lt =
      let next : suc i + 1 ≡ suc (i + 1) = omega arith in rw next (drop-get_or xs i d (omega arith))

  pub get_or-take :
      (n : ℕ) (xs : List A) (i : ℕ) (d : A) → i < n → get_or (take n xs) i d ≡ get_or xs i d
  get_or-take zero xs i d h = absurd (omega arith)
  get_or-take (suc n) [] i d h = refl
  get_or-take (suc n) (x ∷ xs) zero d h = refl
  get_or-take (suc n) (x ∷ xs) (suc i) d h = get_or-take n xs i d (omega arith)

-- `for (k = i; k < i + n; k++) out[k] = body(k)`, where the right side may read `out` as it is then.
module _ {ℓ} {A : Type ℓ} where
  unfoldable pub sweep : ℕ → ℕ → (ℕ → List A → A) → List A → List A
  sweep zero i body out = out
  sweep (suc n) i body out = sweep n (i + 1) body (set out i (body i out))

  pub length-sweep :
      (n i : ℕ) (body : ℕ → List A → A) (out : List A) → length (sweep n i body out) ≡ length out
  unfolding sweep
  length-sweep zero i body out = refl
  length-sweep (suc n) i body out =
      length-sweep n (i + 1) body (set out i (body i out)) ∙ length-set out i (body i out)

  pub get_or-sweep_outside :
      (n i : ℕ) (body : ℕ → List A → A) (out : List A) (j : ℕ) (d : A)
      → (j < i) ⊎ (i + n ≤ j)
      → get_or (sweep n i body out) j d ≡ get_or out j d
  unfolding sweep
  get_or-sweep_outside zero i body out j d h = refl
  get_or-sweep_outside (suc n) i body out j d h =
      get_or-sweep_outside n (i + 1) body (set out i (body i out)) j d (omega arith)
      ∙ get_or-set_ne out i j (body i out) d (omega arith)

  -- A body that reads no cell behind the one it writes sees the array as it was at the start.
  abbrev pub ReadsAhead : A → (ℕ → List A → A) → Type ℓ
  ReadsAhead d body =
      (i : ℕ) (o o' : List A)
      → ((k : ℕ) → i ≤ k → get_or o k d ≡ get_or o' k d)
      → body i o ≡ body i o'

  pub get_or-sweep :
      (d : A) (body : ℕ → List A → A)
      → ReadsAhead d body
      → (n i : ℕ) (out : List A) (j : ℕ) → i ≤ j
      → j < i + n
      → j < length out
      → get_or (sweep n i body out) j d ≡ body j out
  unfolding sweep
  get_or-sweep d body ahead zero i out j lo hi len = absurd (omega arith)
  get_or-sweep d body ahead (suc n) i out j lo hi len =
      let out' = set out i (body i out) in
      elim (ℕ_discrete j i) [
        | yes here ↦
            get_or-sweep_outside n (i + 1) body out' j d (omega arith)
            ∙ ap (λ k. get_or out' k d) here
            ∙ get_or-set_self out i (body i out) d (omega arith)
            ∙ ap (λ k. body k out) (sym here)
        | no there ↦
            get_or-sweep d body ahead n (i + 1) out' j (omega arith) (omega arith)
              (omega (arith, length-set out i (body i out)))
            ∙ ahead j out' out (λ k le. get_or-set_ne out i k (body i out) d (omega arith))
      ]
