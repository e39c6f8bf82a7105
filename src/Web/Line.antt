-- ===== src/Web/Line.antt =====
-- What `getln` of cpp/http/util.c writes. Each \n and each \r ends a line, so \r\n ends two.
use com_richard_test.Base.{
  ◌>>=◌, ℕ, zero, suc, ◌+◌, List, [], ◌∷◌, true, false, ltb, ◌==◌, Bool-cases, inl, inr, ◌≡◌, refl,
  arith, take, take-nil,
}
use com_richard_test.Web.{put, is_eol, line_loop, getln}
use com_richard_test.Web.Cut.{before, behind, write}

-- The line of a number, counted from 0.
abbrev pub line : ℕ → List ℕ → List ℕ
line zero s = before is_eol s
line (suc l) s = line l (behind is_eol s)

line-nil : (l : ℕ) → line l [] ≡ []
line-nil zero = refl
line-nil (suc l) = line-nil l

-- In the line that is wanted.
line_loop-write :
    (s : List ℕ) (l k d n : ℕ) (t : List ℕ)
    → k + d ≡ n
    → line_loop s l l k n t ≡ write (take d (before is_eol s)) k t
unfolding line_loop write
line_loop-write [] l k zero n t e = refl
line_loop-write [] l k (suc d) n t e = refl
line_loop-write (c ∷ s) l k zero n t e =
    let here : (l == l) ≡ true = ground arith in
    let full : ltb k n ≡ false = ground arith in
    elim (Bool-cases (is_eol c)) [
      | inl stop ↦ rw (here, stop) refl
      | inr go ↦ rw (here, go, full) refl
    ]
line_loop-write (c ∷ s) l k (suc d) n t e =
    let here : (l == l) ≡ true = ground arith in
    let room : ltb k n ≡ true = ground arith in
    elim (Bool-cases (is_eol c)) [
      | inl stop ↦ rw (here, stop) refl
      | inr go ↦
          rw (here, go, room)
            (λ p. put t k c >>= (λ t'. line_loop-write s l (k + 1) d n t' (omega arith) p))
    ]

-- `m` lines before it.
line_loop_skip :
    (s : List ℕ) (m l j n : ℕ) (t : List ℕ)
    → j + m ≡ l
    → line_loop s l j 0 n t ≡ write (take n (line m s)) 0 t
unfolding line_loop write
line_loop_skip [] m l j n t e = rw (line-nil m, take-nil n) refl
line_loop_skip (c ∷ s) zero l j n t e =
    let here : j ≡ l = omega arith in rw here (line_loop-write (c ∷ s) l 0 n n t (omega arith))
line_loop_skip (c ∷ s) (suc m) l j n t e =
    let before_it : (j == l) ≡ false = ground arith in
    elim (Bool-cases (is_eol c)) [
      | inl stop ↦ rw (before_it, stop) (line_loop_skip s m l (j + 1) n t (omega arith))
      | inr go ↦ rw (before_it, go) (line_loop_skip s (suc m) l j n t e)
    ]

-- The result of `getln` is that of writing, from the start of the buffer, the first `n` characters of
-- line `l` of the text, counted from 0, and a 0 behind them, with `none` where a write lies outside.
pub getln-write : (s t : List ℕ) (n l : ℕ) → getln s t n l ≡ write (take n (line l s)) 0 t
unfolding getln
getln-write s t n l = line_loop_skip s l l 0 n t (omega arith)
