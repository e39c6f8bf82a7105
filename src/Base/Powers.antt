-- ===== src/Base/Powers.antt =====
-- Powers modulo a number, and what one step of square-and-multiply does.
use Prim.Native.Nat.{ℕ, zero, suc, ◌+◌, ◌*◌, ◌/◌, ◌%◌, ◌^◌, ◌<◌}
use native.Mathlib.Nat.{add-mul-mod_self_right, mod-add-div', pow-suc, pow-zero}
use native.Mathlib.Omega.{arith}
use mathlib.Core.Path.{◌≡◌, sym, ap, ◌∙◌}
use mathlib.Core.Logic.{inl, inr}
use com_richard_test.Base.Tests.{◌==◌, if◌then◌else◌, Bool-cases}

-- A factor may be reduced before it is multiplied.
pub mod-mul_mod : (a x n : ℕ) → a % n * x % n ≡ a * x % n
mod-mul_mod a x n =
    sym (add-mul-mod_self_right (a % n * x) (a / n * x) n)
    ∙ ap (λ t. t % n) (omega (arith, ap (λ t. t * x) (mod-add-div' a n)))

-- A reduced base of a power makes no difference.
pub mod_power : (y a e m : ℕ) → y * (a % m) ^ e % m ≡ y * a ^ e % m
mod_power y a zero m = ap (λ t. y * t % m) (pow-zero (a % m) ∙ sym (pow-zero a))
mod_power y a (suc e) m =
    ap (λ t. t % m) (omega (arith, ap (λ t. y * t) (pow-suc (a % m) e)))
    ∙ mod_power (y * (a % m)) a e m
    ∙ ap (λ t. t % m) (omega arith)
    ∙ mod-mul_mod a (y * a ^ e) m
    ∙ ap (λ t. t % m) (omega (arith, ap (λ t. y * t) (pow-suc a e)))

power_square : (n e : ℕ) → (n * n) ^ e ≡ n ^ (e + e)
power_square n zero = pow-zero (n * n) ∙ sym (pow-zero n)
power_square n (suc e) =
    let two : suc e + suc e ≡ suc (suc (e + e)) = omega arith in
    pow-suc (n * n) e
    ∙ ap (λ t. t * (n * n)) (power_square n e)
    ∙ omega (arith, pow-suc n (suc (e + e)), ap (λ t. t * n) (pow-suc n (e + e)))
    ∙ ap (λ t. n ^ t) (sym two)

-- One bit of the exponent.
pub even_step : (x n e m : ℕ) → x * (n * n % m) ^ e % m ≡ x * n ^ (e + e) % m
even_step x n e m = mod_power x (n * n) e m ∙ ap (λ t. x * t % m) (power_square n e)

pub odd_step : (x n e m : ℕ) → x * n % m * (n * n % m) ^ e % m ≡ x * n ^ (e + e + 1) % m
odd_step x n e m =
    let one : e + e + 1 ≡ suc (e + e) = omega arith in
    mod-mul_mod (x * n) ((n * n % m) ^ e) m
    ∙ even_step (x * n) n e m
    ∙ ap (λ t. t % m) (omega (arith, ap (λ t. x * t) (ap (λ t. n ^ t) one ∙ pow-suc n (e + e))))

-- The power by squaring, for an exponent of at most `k` bits.
unfoldable pub fast : ℕ → ℕ → ℕ → ℕ → ℕ → ℕ
fast zero x n e m = x % m
fast (suc k) x n e m = fast k (if e % 2 == 1 then x * n % m else x) (n * n % m) (e / 2) m

pub fast-power : (k x n e m : ℕ) → e < 2 ^ k → fast k x n e m ≡ x * n ^ e % m
unfolding fast
fast-power zero x n e m lt =
    let z : e ≡ 0 = omega arith in
    ap (λ t. t % m) (omega (arith, ap (λ t. x * t) (ap (λ t. n ^ t) z ∙ pow-zero n)))
fast-power (suc k) x n e m lt =
    let half : e / 2 < 2 ^ k = omega (arith, pow-suc 2 k) in
    elim (Bool-cases (e % 2 == 1)) [
      | inl odd ↦
          let parts : e / 2 + e / 2 + 1 ≡ e = ground arith in
          rw odd (
            fast-power k (x * n % m) (n * n % m) (e / 2) m half
            ∙ odd_step x n (e / 2) m
            ∙ ap (λ t. x * n ^ t % m) parts)
      | inr even ↦
          let parts : e / 2 + e / 2 ≡ e = ground arith in
          rw even (
            fast-power k x (n * n % m) (e / 2) m half
            ∙ even_step x n (e / 2) m
            ∙ ap (λ t. x * n ^ t % m) parts)
    ]
