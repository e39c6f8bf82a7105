-- ===== src/Web/Cut.antt =====
-- The parts of a text, and what is written of them into a buffer; `getmethod` and `geturi`.
use com_richard_test.Base.{
  ◌>>=◌, ℕ, zero, suc, ◌+◌, ◌≤◌, ◌<◌, List, [], ◌∷◌, ◌++◌, Bool, true, false, Option, none, some,
  ltb, leb, ◌==◌, if◌then◌else◌, Bool-cases, inl, inr, ◌≡◌, refl, arith, length, take, drop, set,
  length-set,
}
use com_richard_test.Web.{put, is_end, method_loop, getmethod, uri_loop, geturi}

-- The characters before the first one of the kind.
abbrev pub before : (ℕ → Bool) → List ℕ → List ℕ
before stop [] = []
before stop (c ∷ s) = if stop c then [] else c ∷ before stop s

-- The characters behind the first one of the kind.
abbrev pub behind : (ℕ → Bool) → List ℕ → List ℕ
behind stop [] = []
behind stop (c ∷ s) = if stop c then s else behind stop s

-- The text `w` and a 0 in the cells from `k` on; `none` if they do not all lie in the buffer.
unfoldable pub write : List ℕ → ℕ → List ℕ → Option (List ℕ)
write [] k t = put t k 0
write (c ∷ w) k t = do t' ← put t k c; write w (k + 1) t'

method_loop-write :
    (s : List ℕ) (i d n : ℕ) (t : List ℕ)
    → i + d ≡ n
    → method_loop s i n t ≡ write (take d (before is_end s)) i t
unfolding method_loop write
method_loop-write [] i zero n t e = refl
method_loop-write [] i (suc d) n t e = refl
method_loop-write (c ∷ s) i zero n t e = let full : leb n i ≡ true = ground arith in rw full refl
method_loop-write (c ∷ s) i (suc d) n t e =
    let open_cell : leb n i ≡ false = ground arith in
    elim (Bool-cases (is_end c)) [
      | inl stop ↦ rw (open_cell, stop) refl
      | inr go ↦
          rw (open_cell, go)
            (λ p. put t i c >>= (λ t'. method_loop-write s (i + 1) d n t' (omega arith) p))
    ]

-- `getmethod` writes the text up to the first space or line end, at most `n` characters of it, and a 0.
pub getmethod-write :
    (s t : List ℕ) (n : ℕ) → getmethod s t n ≡ write (take n (before is_end s)) 0 t
unfolding getmethod
getmethod-write s t n = method_loop-write s 0 n n t (omega arith)

abbrev pub is_space : ℕ → Bool
is_space c = c == 32

-- Behind the first space.
uri_loop-write :
    (s : List ℕ) (k d n : ℕ) (t : List ℕ)
    → k + d ≡ n
    → uri_loop s 1 k n t ≡ write (take d (before is_space s)) k t
unfolding uri_loop write
uri_loop-write [] k zero n t e = refl
uri_loop-write [] k (suc d) n t e = refl
uri_loop-write (c ∷ s) k zero n t e =
    let full : ltb k n ≡ false = ground arith in
    elim (Bool-cases (c == 32)) [ inl stop ↦ rw stop refl | inr go ↦ rw (go, full) refl ]
uri_loop-write (c ∷ s) k (suc d) n t e =
    let room : ltb k n ≡ true = ground arith in
    elim (Bool-cases (c == 32)) [
      | inl stop ↦ rw stop refl
      | inr go ↦
          rw (go, room) (λ p. put t k c >>= (λ t'. uri_loop-write s (k + 1) d n t' (omega arith) p))
    ]

uri_loop_skip :
    (s : List ℕ) (n : ℕ) (t : List ℕ)
    → uri_loop s 0 0 n t ≡ write (take n (before is_space (behind is_space s))) 0 t
unfolding uri_loop write
uri_loop_skip [] zero t = refl
uri_loop_skip [] (suc n) t = refl
uri_loop_skip (c ∷ s) n t = elim (Bool-cases (c == 32)) [
  | inl stop ↦ rw stop (uri_loop-write s 0 n n t (omega arith))
  | inr go ↦ rw go (uri_loop_skip s n t)
]

-- `geturi` writes the text between the first and the second space, at most `n` characters of it, and a 0.
pub geturi-write :
    (s t : List ℕ) (n : ℕ) → geturi s t n ≡ write (take n (before is_space (behind is_space s))) 0 t
unfolding geturi
geturi-write s t n = uri_loop_skip s n t

put-set : (t : List ℕ) (i v : ℕ) → i < length t → put t i v ≡ some (set t i v)
unfolding put
put-set [] i v lt = absurd (omega arith)
put-set (c ∷ t) zero v lt = refl
put-set (c ∷ t) (suc i) v lt = rw (put-set t i v (omega arith)) refl

put_outside : (t : List ℕ) (i v : ℕ) → length t ≤ i → put t i v ≡ none
unfolding put
put_outside [] i v le = refl
put_outside (c ∷ t) zero v le = absurd (omega arith)
put_outside (c ∷ t) (suc i) v le = rw (put_outside t i v (omega arith)) refl

bind_shift :
    {c : ℕ} (r : Option (List ℕ)) (f g : List ℕ → Option (List ℕ))
    → ((t : List ℕ) → f (c ∷ t) ≡ (g t >>= (λ u. some (c ∷ u))))
    → ((r >>= (λ u. some (c ∷ u))) >>= f) ≡ ((r >>= g) >>= (λ u. some (c ∷ u)))
bind_shift none f g h = refl
bind_shift (some t) f g h = h t

put_shift : (t : List ℕ) (k c v : ℕ) → put (c ∷ t) (k + 1) v ≡ (put t k v >>= (λ u. some (c ∷ u)))
unfolding put
put_shift t k c v = let next : k + 1 ≡ suc k = omega arith in rw next refl

write_shift :
    (w : List ℕ) (k c : ℕ) (t : List ℕ)
    → write w (k + 1) (c ∷ t) ≡ (write w k t >>= (λ u. some (c ∷ u)))
unfolding write
write_shift [] k c t = put_shift t k c 0
write_shift (d ∷ w) k c t =
    rw (put_shift t k c d) (bind_shift (put t k d) _ _ (λ u. write_shift w (k + 1) c u))

-- What the buffer holds behind a write: the text, a 0, and what it held before.
pub write_fits :
    (w t : List ℕ) → length w < length t → write w 0 t ≡ some (w ++ 0 ∷ drop (suc (length w)) t)
unfolding write put
write_fits w [] lt = absurd (omega arith)
write_fits [] (d ∷ t) lt = refl
write_fits (c ∷ w) (d ∷ t) lt = rw (write_shift w 0 c t, write_fits w t (omega arith)) refl

pub write_outside : (w : List ℕ) (k : ℕ) (t : List ℕ) → length t ≤ k + length w → write w k t ≡ none
unfolding write
write_outside [] k t le = put_outside t k 0 (omega arith)
write_outside (c ∷ w) k t le = elim (Bool-cases (ltb k (length t))) [
  | inl lt ↦
      rw (put-set t k c (ground arith))
        (write_outside w (k + 1) (set t k c) (omega (arith, length-set t k c)))
  | inr ge ↦ rw (put_outside t k c (ground arith)) refl
]
