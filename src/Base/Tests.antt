-- ===== src/Base/Tests.antt =====
-- The comparisons of C on native numbers, the conditional, and case splits that keep an equation.
use Prim.Native.Nat.{ℕ, zero, suc, ◌<◌, compare, Ordering}
use Prim.Native.Char.{code}
use Prim.Native.String.{String}
use mathlib.Core.Path.{◌≡◌, refl}
use mathlib.Core.List.{List, [], ◌∷◌}
use mathlib.Core.Logic.{◌↔◌, ◌⊎◌, inl, inr}
use mathlib.Core.Bool.{Bool, true, false, ◌&&◌, ◌||◌, false≢true}
use native.Mathlib.Omega.{arith}

abbrev pub ltb : ℕ → ℕ → Bool
ltb a b = elim (compare a b) [ Ordering.lt ↦ true | _ ↦ false ]

abbrev pub leb : ℕ → ℕ → Bool
leb a b = elim (compare a b) [ Ordering.gt ↦ false | _ ↦ true ]

infix 50 ◌==◌
abbrev pub ◌==◌ : ℕ → ℕ → Bool
a == b = elim (compare a b) [ Ordering.eq ↦ true | _ ↦ false ]

infix 1 if◌then◌else◌
abbrev pub if◌then◌else◌ {ℓ} : {A : Type ℓ} → Bool → A → A → A
if true then x else y = x
if false then x else y = y

pub ==_iff : (a b : ℕ) → ((a == b) ≡ true) ↔ (a ≡ b)
==_iff a b = ground arith

pub suc-test : (a : ℕ) → (suc a == 0) ≡ false
suc-test a = ground arith

pub Bool-cases : (b : Bool) → (b ≡ true) ⊎ (b ≡ false)
Bool-cases true = inl refl
Bool-cases false = inr refl

-- The code points of a literal, which are its bytes when the text is ASCII.
abbrev pub codes : String → List ℕ
codes String.[] = []
codes (String.◌∷◌ c s) = code c ∷ codes s

-- Over a small range, a test is checked at every value by evaluation.
unfoldable pub all_below : ℕ → (ℕ → Bool) → Bool
all_below zero p = true
all_below (suc n) p = p n && all_below n p

pub all_below_sound : (n : ℕ) (p : ℕ → Bool) (i : ℕ) → all_below n p ≡ true → i < n → p i ≡ true
unfolding all_below
all_below_sound zero p i all i_lt_n = absurd (omega arith)
all_below_sound (suc n) p i all i_lt_n = ground (arith, all_below_sound n p i)

unfoldable pub any_below : ℕ → (ℕ → Bool) → Bool
any_below zero p = false
any_below (suc n) p = p n || any_below n p

pub any_below_sound :
    (n : ℕ) (p : ℕ → Bool) → any_below n p ≡ true → (c : ℕ) × (c < n) × (p c ≡ true)
unfolding any_below
any_below_sound zero p h = absurd (false≢true h)
any_below_sound (suc n) p h = elim (Bool-cases (p n)) [
  | inl here ↦ (n, omega arith, here)
  | inr there ↦ let (c, lt, hit) = any_below_sound n p (ground arith) in (c, omega arith, hit)
]
