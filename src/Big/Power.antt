-- ===== src/Big/Power.antt =====
-- `power_mod` with a modulus of one cell and an `unsigned long` of 32 bits.
use Prim.Native.Nat.{bit_and}
use native.Mathlib.Nat.{
  pow-suc, pow-zero, mod-lt, mod-eq_of_lt, mul-le-mul_right, pow-le-pow_right, div-div-eq-div-mul,
  div-eq_of_lt,
}
use com_richard_test.Base.{
  ◌>>=◌, ℕ, zero, suc, ◌+◌, ◌-◌, ◌*◌, ◌/◌, ◌%◌, ◌^◌, ◌<◌, List, Option, some, ltb, ◌==◌, Bool-cases,
  true, false, ◌⊎◌, inl, inr, ◌≡◌, ◌≢◌, refl, sym, ap, ◌∙◌, arith, get_or,
}
use mathlib.Core.Option.{some-injective}
use com_richard_test.Big.PowerStep.{bit_value}
use com_richard_test.Base.{mod_power, even_step, odd_step}
use com_richard_test.Big.Ops.{BigNum, of_uint}
use com_richard_test.Big.Crypt.{
  mask, Power, times_mod, power_round, bits_loop, power_loop, power_mod,
}
use com_richard_test.Big.Value.{base, upto, IsSmall, IsNum, mag, upto_next, pow_next}
use com_richard_test.Big.Add.{Gives}
use com_richard_test.Big.Mul.{mul-Gives}
use com_richard_test.Big.Short.{mag_one, rem-Gives, of_uint-Gives}

-- A number below the base has one cell.
pub one_cell : (a : BigNum) → IsNum a → mag a < base → a.length ≡ 1
one_cell a v lt = elim (Bool-cases (ltb 1 a.length)) [
  | inl more ↦
      let e : a.length ≡ suc (a.length - 1) = omega (arith, v.some_cell) in
      let two : 1 < a.length = ground arith in
      absurd (
        omega (
          arith,
          ap (upto a.array) e,
          mul-le-mul_right {m = 1} {n = get_or a.array (a.length - 1) 0} (base ^ (a.length - 1))
              (omega (arith, v.lead two)),
          pow-le-pow_right {n = base} (omega arith) {i = 1} {j = a.length - 1} (omega arith),
        ))
  | inr one ↦ ground (arith, v.some_cell)
]

bind-Gives :
    {o : Option BigNum} {s s' v v' : ℕ} {f : BigNum → Option BigNum}
    → Gives o s v
    → ((a : BigNum) → IsNum a → mag a ≡ v → Gives (f a) s' v')
    → Gives (o >>= f) s' v'
bind-Gives g h = rw (g.returns) (h g.number g.valid g.worth)

module _ (fuel : ℕ) (m : BigNum) (vm : IsNum m) (one : m.length ≡ 1) (ne : mag m ≢ 0) where
  small_modulus : mag m < base
  small_modulus = omega (arith, mag_one m one, vm.small 0)

  times_mod-Gives :
      (a b : BigNum)
      → IsNum a
      → IsNum b
      → mag a < base
      → mag b < base
      → Gives (times_mod 32 fuel a b m) 0 (mag a * mag b % mag m)
  unfolding times_mod
  times_mod-Gives a b va vb la lb =
      bind-Gives (mul-Gives a b va vb (omega (arith, one_cell a va la, one_cell b vb lb)))
        λ p vp e. recast_mod (rem-Gives fuel p m vp vm one ne) e
    where
      recast_mod :
          {o : Option BigNum} {u v : ℕ} → Gives o 0 (u % mag m) → u ≡ v → Gives o 0 (v % mag m)
      recast_mod g e = rw (sym e) g

  record Reduced (a : BigNum) : Type 0 where
    valid : IsNum a
    below : mag a < mag m

  record PowerState (o : Option Power) (e v : ℕ) : Type 0 where
    state : Power
    returns : o ≡ some state
    x : Reduced state.x
    n : Reduced state.n
    value : mag state.x * mag state.n ^ e % mag m ≡ v

  reduced : {o : Option BigNum} (v : ℕ) (g : Gives o 0 (v % mag m)) → Reduced g.number
  reduced v g = record {
    valid = g.valid;
    below = omega (arith, g.worth, mod-lt v {m = mag m} (omega arith));
  }

  square :
      (p : Power) → Reduced p.n → Gives (times_mod 32 fuel p.n p.n m) 0 (mag p.n * mag p.n % mag m)
  square p rn =
      times_mod-Gives p.n p.n rn.valid rn.valid (omega (arith, rn.below, small_modulus))
        (omega (arith, rn.below, small_modulus))

  power_round_lem :
      (cell j e : ℕ) (p : Power)
      → j < 32
      → Reduced p.x
      → Reduced p.n
      → PowerState
          (power_round 32 fuel m cell j p)
          e
          (mag p.x * mag p.n ^ (cell / 2 ^ j % 2 + (e + e)) % mag m)
  unfolding power_round
  power_round_lem cell j e p lt rx rn = by_bit (bit_value cell j lt)
    where
      sq : Gives (times_mod 32 fuel p.n p.n m) 0 (mag p.n * mag p.n % mag m)
      sq = square p rn

      pr : Gives (times_mod 32 fuel p.x p.n m) 0 (mag p.x * mag p.n % mag m)
      pr =
          times_mod-Gives p.x p.n rx.valid rn.valid (omega (arith, rx.below, small_modulus))
            (omega (arith, rn.below, small_modulus))

      by_bit :
          (((bit_and cell (mask 32 j) == 0) ≡ true) × (cell / 2 ^ j % 2 ≡ 0))
            ⊎ (((bit_and cell (mask 32 j) == 0) ≡ false) × (cell / 2 ^ j % 2 ≡ 1))
          → PowerState
              (power_round 32 fuel m cell j p)
              e
              (mag p.x * mag p.n ^ (cell / 2 ^ j % 2 + (e + e)) % mag m)
      by_bit (inl (off, bit)) =
          rw (off, sq.returns)
            (record {
              state = record { x = p.x; n = sq.number };
              returns = refl;
              x = rx;
              n = reduced (mag p.n * mag p.n) sq;
              value =
                  ap (λ t. mag p.x * t ^ e % mag m) sq.worth
                  ∙ even_step (mag p.x) (mag p.n) e (mag m)
                  ∙ ap (λ t. mag p.x * mag p.n ^ t % mag m) (omega (arith, bit));
            })
      by_bit (inr (on, bit)) =
          rw (on, sq.returns, pr.returns)
            (record {
              state = record { x = pr.number; n = sq.number };
              returns = refl;
              x = reduced (mag p.x * mag p.n) pr;
              n = reduced (mag p.n * mag p.n) sq;
              value =
                  ap (λ t. mag pr.number * t ^ e % mag m) sq.worth
                  ∙ ap (λ t. t * (mag p.n * mag p.n % mag m) ^ e % mag m) pr.worth
                  ∙ odd_step (mag p.x) (mag p.n) e (mag m)
                  ∙ ap (λ t. mag p.x * mag p.n ^ t % mag m) (omega (arith, bit));
            })

  bits_loop_lem :
      (cell rest k j : ℕ) (p : Power)
      → cell < base
      → j + k ≡ 32
      → Reduced p.x
      → Reduced p.n
      → PowerState
          (bits_loop 32 fuel m cell k j p)
          rest
          (mag p.x * mag p.n ^ (cell / 2 ^ j + 2 ^ k * rest) % mag m)
  unfolding bits_loop
  bits_loop_lem cell rest zero j p lc e rx rn =
      let last : j ≡ 32 = omega arith in
      let over : cell / 2 ^ j ≡ 0 = rw last (div-eq_of_lt lc) in
      record {
        state = p;
        returns = refl;
        x = rx;
        n = rn;
        value =
            ap (λ t. mag p.x * mag p.n ^ t % mag m)
              (omega (arith, over, ap (λ t. t * rest) (pow-zero 2)));
      }
  bits_loop_lem cell rest (suc k) j p lc e rx rn =
      let e1 : ℕ = cell / 2 ^ (j + 1) + 2 ^ k * rest in
      let up : 2 ^ (j + 1) ≡ 2 ^ j * 2 = ap (λ t. 2 ^ t) (next j) ∙ pow-suc 2 j in
      let half : cell / 2 ^ j / 2 ≡ cell / 2 ^ (j + 1) =
        div-div-eq-div-mul cell (2 ^ j) 2 ∙ ap (λ t. cell / t) (sym up) in
      let split : cell / 2 ^ j % 2 + (e1 + e1) ≡ cell / 2 ^ j + 2 ^ suc k * rest =
        omega (arith, half, ap (λ t. t * rest) (pow-suc 2 k)) in
      let r = power_round_lem cell j e1 p (omega arith) rx rn in
      let q = bits_loop_lem cell rest k (j + 1) r.state lc (omega arith) r.x r.n in
      rw r.returns (record {
        state = q.state;
        returns = q.returns;
        x = q.x;
        n = q.n;
        value = q.value ∙ r.value ∙ ap (λ t. mag p.x * mag p.n ^ t % mag m) split;
      })
    where
      next : (j : ℕ) → j + 1 ≡ suc j
      next j = omega arith

  -- The exponent in the cells from `i` on, `k` of them.
  above : List ℕ → ℕ → ℕ → ℕ
  above a i zero = 0
  above a i (suc k) = get_or a i 0 + base * above a (i + 1) k

  power_loop_lem :
      (a : List ℕ) (k i : ℕ) (p : Power)
      → IsSmall a
      → Reduced p.x
      → Reduced p.n
      → PowerState (power_loop 32 fuel m a k i p) 0 (mag p.x * mag p.n ^ above a i k % mag m)
  unfolding power_loop above
  power_loop_lem a zero i p small rx rn = record {
    state = p;
    returns = refl;
    x = rx;
    n = rn;
    value = refl;
  }
  power_loop_lem a (suc k) i p small rx rn =
      let r = bits_loop_lem (get_or a i 0) (above a (i + 1) k) 32 0 p (small i) refl rx rn in
      let q = power_loop_lem a k (i + 1) r.state small r.x r.n in
      rw r.returns (record {
        state = q.state;
        returns = q.returns;
        x = q.x;
        n = q.n;
        value = q.value ∙ r.value ∙ ap (λ t. mag p.x * mag p.n ^ t % mag m) (omega arith);
      })

  above-upto : (a : List ℕ) (k i : ℕ) → upto a i + base ^ i * above a i k ≡ upto a (i + k)
  unfolding above
  above-upto a zero i = let e : i ≡ i + 0 = omega arith in omega (arith, ap (upto a) e)
  above-upto a (suc k) i =
      let e : i + 1 + k ≡ i + suc k = omega arith in
      omega (
        arith,
        ap (upto a) e,
        above-upto a k (i + 1),
        upto_next a i,
        ap (λ t. t * above a (i + 1) k) (pow_next i),
      )

  -- For a modulus of one cell from 2 on, with whatever fuel, `power_mod` returns a well-formed number:
  -- the power of the absolute values, reduced by the modulus.
  pub power_mod-power :
      (this a : BigNum)
      → IsNum this
      → IsNum a
      → 1 < mag m
      → (x : BigNum) × (power_mod 32 fuel this a m ≡ some x)
        × IsNum x
        × (mag x ≡ mag this ^ mag a % mag m)
  unfolding power_mod
  power_mod-power this a vt va two =
      let g = of_uint-Gives 1 (omega arith) in
      let is_g : of_uint 32 1 ≡ g.number = some-injective (of_uint 32 1) g.number g.returns in
      let first = rem-Gives fuel this m vt vm one ne in
      let start : Power = record { x = g.number; n = first.number } in
      let r =
        power_loop_lem a.array a.length 0 start va.small
          (record { valid = g.valid; below = omega (arith, g.worth) }) (reduced (mag this) first) in
      let z : 0 + a.length ≡ a.length = omega arith in
      let whole : above a.array 0 a.length ≡ mag a = omega (
        arith,
        above-upto a.array a.length 0,
        ap (upto a.array) z,
        ap (λ t. t * above a.array 0 a.length) (pow-zero base),
      ) in
      let exponent : mag r.state.x * mag r.state.n ^ 0 ≡ mag r.state.x =
        omega (arith, ap (λ t. mag r.state.x * t) (pow-zero (mag r.state.n))) in
      (
        r.state.x,
        rw (first.returns, is_g, r.returns) refl,
        r.x.valid,
        sym (mod-eq_of_lt r.x.below)
            ∙ ap (λ t. t % mag m) (sym exponent)
            ∙ r.value
            ∙ ap (λ t. t * mag first.number ^ above a.array 0 a.length % mag m) g.worth
            ∙ ap (λ t. 1 * t ^ above a.array 0 a.length % mag m) first.worth
            ∙ mod_power 1 (mag this) (above a.array 0 a.length) (mag m)
            ∙ ap (λ t. 1 * mag this ^ t % mag m) whole
            ∙ ap (λ t. t % mag m) (times_one (mag this ^ mag a)),
      )
    where
      times_one : (t : ℕ) → 1 * t ≡ t
      times_one t = omega arith
