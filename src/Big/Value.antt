-- ===== src/Big/Value.antt =====
-- The number that an array of 32-bit cells stands for, and the form of the numbers of cpp/BigNum.cpp.
use native.Mathlib.Nat.{pow-suc, pow-zero, mul-le-mul_right}
use com_richard_test.Base.{
  ℕ, zero, suc, ◌+◌, ◌-◌, ◌*◌, ◌^◌, ◌≤◌, ◌<◌, List, [], ◌∷◌, ◌==◌, ltb, Bool-cases, true, inl, inr,
  ◌≡◌, ◌≢◌, refl, sym, ap, ◌∙◌, arith, get_or, set, length, get_or-set_self, get_or-set_ne,
  ℕ_discrete,
}
use com_richard_test.Big.Ops.{BigNum, cells, trim}

abbrev pub base : ℕ
base = 4294967296

-- The number in the first `n` cells, lowest first.
abbrev pub upto : List ℕ → ℕ → ℕ
upto a zero = 0
upto a (suc n) = upto a n + get_or a n 0 * base ^ n

abbrev pub IsSmall : List ℕ → Type 0
IsSmall a = (i : ℕ) → get_or a i 0 < base

-- The cells from `n` on are 0.
abbrev pub IsZeroFrom : ℕ → List ℕ → Type 0
IsZeroFrom n a = (i : ℕ) → n ≤ i → get_or a i 0 ≡ 0

pub record IsNum (a : BigNum) : Type 0 where
  pub count : length a.array ≡ cells
  pub small : IsSmall a.array
  pub zeros : IsZeroFrom a.length a.array
  pub some_cell : 1 ≤ a.length
  pub fits : a.length ≤ cells
  pub lead : 1 < a.length → get_or a.array (a.length - 1) 0 ≢ 0

-- The absolute value.
abbrev pub mag : BigNum → ℕ
mag a = upto a.array a.length

pub upto-frame :
    (a b : List ℕ) (n : ℕ) → ((k : ℕ) → k < n → get_or a k 0 ≡ get_or b k 0) → upto a n ≡ upto b n
upto-frame a b zero h = refl
upto-frame a b (suc n) h = omega (
  arith,
  upto-frame a b n (λ k lt. h k (omega arith)),
  ap (λ t. t * base ^ n) (h n (omega arith)),
)

pub upto-set : (a : List ℕ) (n i v : ℕ) → n ≤ i → upto (set a i v) n ≡ upto a n
upto-set a n i v le = upto-frame (set a i v) a n (λ k lt. get_or-set_ne a i k v 0 (omega arith))

pub upto_next : (a : List ℕ) (i : ℕ) → upto a (i + 1) ≡ upto a i + get_or a i 0 * base ^ i
upto_next a i = let e : i + 1 ≡ suc i = omega arith in ap (upto a) e

pub pow_next : (i : ℕ) → base ^ (i + 1) ≡ base ^ i * base
pow_next i = let e : i + 1 ≡ suc i = omega arith in ap (λ t. base ^ t) e ∙ pow-suc base i

-- The first `i + 1` cells when cell `i` is written.
pub upto-set_next :
    (a : List ℕ) (i v : ℕ) → i < length a → upto (set a i v) (i + 1) ≡ upto a i + v * base ^ i
upto-set_next a i v lt = omega (
  arith,
  upto_next (set a i v) i,
  upto-set a i i v (omega arith),
  ap (λ t. t * base ^ i) (get_or-set_self a i v 0 lt),
)

pub upto-lt-pow : (a : List ℕ) (n : ℕ) → IsSmall a → upto a n < base ^ n
upto-lt-pow a zero h = omega (arith, pow-zero base)
upto-lt-pow a (suc n) h = omega (
  arith,
  upto-lt-pow a n h,
  pow-suc base n,
  mul-le-mul_right {m = get_or a n 0} {n = 4294967295} (base ^ n) (omega (arith, h n)),
)

pub upto_zeros : (a : List ℕ) (n k : ℕ) → IsZeroFrom n a → upto a (n + k) ≡ upto a n
upto_zeros a n zero h = ap (upto a) (omega arith)
upto_zeros a n (suc k) h =
    let e : n + suc k ≡ suc (n + k) = omega arith in
    let cell = ap (λ t. t * base ^ (n + k)) (h (n + k) (omega arith)) in
    ap (upto a) e ∙ omega (arith, cell, upto_zeros a n k h)

pub set-IsSmall : (a : List ℕ) (i v : ℕ) → v < base → IsSmall a → IsSmall (set a i v)
set-IsSmall [] i v lt h k = h k
set-IsSmall (x ∷ a) zero v lt h zero = lt
set-IsSmall (x ∷ a) zero v lt h (suc k) = h (suc k)
set-IsSmall (x ∷ a) (suc i) v lt h zero = h zero
set-IsSmall (x ∷ a) (suc i) v lt h (suc k) = set-IsSmall a i v lt (λ j. h (suc j)) k

-- What `trim` counts.
pub record Trimmed (n : ℕ) (a : List ℕ) (t : ℕ) : Type 0 where
  pub some_cell : 1 ≤ t
  pub within : t ≤ n
  pub cut : (i : ℕ) → t ≤ i → i < n → get_or a i 0 ≡ 0
  pub lead : 1 < t → get_or a (t - 1) 0 ≢ 0

pub trim-Trimmed : (n : ℕ) (a : List ℕ) → 1 ≤ n → Trimmed n a (trim n a)
unfolding trim
trim-Trimmed zero a h = absurd (omega arith)
trim-Trimmed (suc zero) a h = record {
  some_cell = omega arith;
  within = omega arith;
  cut = λ i lo hi. absurd (omega arith);
  lead = λ lt. absurd (omega arith);
}
trim-Trimmed (suc (suc n)) a h =
    let two : ltb 1 (suc (suc n)) ≡ true = ground arith in
    elim (Bool-cases (get_or a (suc n) 0 == 0)) [
      | inl null ↦ rw (two, null) (longer (ground arith) (trim-Trimmed (suc n) a (omega arith)))
      | inr lead ↦
          rw (two, lead)
            (record {
              some_cell = omega arith;
              within = omega arith;
              cut = λ i lo hi. absurd (omega arith);
              lead = λ lt. ground arith;
            })
    ]
  where
    longer : {t : ℕ} → get_or a (suc n) 0 ≡ 0 → Trimmed (suc n) a t → Trimmed (suc (suc n)) a t
    longer null t = record {
      some_cell = t.some_cell;
      within = omega (arith, t.within);
      cut = λ i lo hi. elim (ℕ_discrete (suc n) i) [
        | yes e ↦ sym (ap (λ k. get_or a k 0) e) ∙ null
        | no ne ↦ t.cut i lo (omega arith)
      ];
      lead = t.lead;
    }

pub of_cells :
    (n signal : ℕ) (a : List ℕ)
    → length a ≡ cells
    → IsSmall a
    → IsZeroFrom n a
    → 1 ≤ n
    → n ≤ cells
    → IsNum (record { length = trim n a; signal = signal; array = a })
      × (mag (record { length = trim n a; signal = signal; array = a }) ≡ upto a n)
of_cells n signal a count small zeros lo hi =
    let t = trim-Trimmed n a lo in
    let k = n - trim n a in
    let none_behind : IsZeroFrom (trim n a) a = λ i le. elim (Bool-cases (ltb i n)) [
      | inl lt ↦ t.cut i le (ground arith)
      | inr ge ↦ zeros i (ground arith)
    ] in
    let e : trim n a + k ≡ n = omega (arith, t.within) in
    (
      record {
        count = count;
        small = small;
        zeros = none_behind;
        some_cell = t.some_cell;
        fits = omega (arith, t.within);
        lead = t.lead;
      },
      sym (upto_zeros a (trim n a) k none_behind) ∙ ap (upto a) e,
    )
