-- ===== src/Base/Chain.antt =====
-- Chains of steps that may be undefined in C.
use mathlib.Core.Option.{Option, none, some}
use mathlib.Core.Path.{◌≡◌, refl}

infixl 5 ◌>>=◌
abbrev pub ◌>>=◌ {ℓ κ} : {A : Type ℓ} {B : Type κ} → Option A → (A → Option B) → Option B
none >>= f = none
some a >>= f = f a

pub bind_none {ℓ κ} :
    {A : Type ℓ} {B : Type κ} (r : Option A) (f : A → Option B)
    → ((x : A) → f x ≡ none)
    → (r >>= f) ≡ none
bind_none none f h = refl
bind_none (some x) f h = h x
