-- ===== src/Web/Body.antt =====
-- What `getbody` of cpp/http/util.c writes.
use com_richard_test.Base.{
  drop-get_or, ◌>>=◌, ℕ, zero, suc, ◌+◌, ◌-◌, ◌≤◌, ◌<◌, List, [], ◌∷◌, true, false, ◌&&◌, ltb, leb,
  ◌==◌, if◌then◌else◌, Bool-cases, inl, inr, ◌≡◌, refl, arith, take, drop, length, get_or,
  length-drop, take-nil, drop_all,
}
use com_richard_test.Web.{put, blank_before, body_loop, getbody}
use com_richard_test.Web.Cut.{write}

-- The characters behind the first blank line, \r\n\r\n: none if there is no blank line.
abbrev pub behind_blank : List ℕ → List ℕ
behind_blank (a ∷ b ∷ c ∷ d ∷ s) =
    if (a == 13) && (b == 10) && (c == 13) && (d == 10) then s else behind_blank (b ∷ c ∷ d ∷ s)
behind_blank s = []

behind_blank_short : (s : List ℕ) → length s ≤ 3 → behind_blank s ≡ []
behind_blank_short [] le = refl
behind_blank_short (a ∷ []) le = refl
behind_blank_short (a ∷ b ∷ []) le = refl
behind_blank_short (a ∷ b ∷ c ∷ []) le = refl
behind_blank_short (a ∷ b ∷ c ∷ d ∷ s) le = absurd (omega arith)

-- Behind the blank line.
body_loop-write :
    (s : List ℕ) (m i j d n : ℕ) (t : List ℕ)
    → i + m ≡ length s
    → j + d ≡ n
    → 3 ≤ i
    → body_loop s m i j true n t ≡ write (take d (drop i s)) j t
unfolding body_loop write
body_loop-write s zero i j d n t at e in_text =
    let none_left : drop i s ≡ [] = drop_all i s (omega (arith, at)) in
    rw (none_left, take-nil d) refl
body_loop-write s (suc m) i j zero n t at e in_text =
    let later : ltb i 3 ≡ false = ground arith in
    let full : leb n j ≡ true = ground arith in rw (later, full) refl
body_loop-write s (suc m) i j (suc d) n t at e in_text =
    let later : ltb i 3 ≡ false = ground arith in
    let room : leb n j ≡ false = ground arith in
    let here : drop i s ≡ get_or s i 0 ∷ drop (i + 1) s = drop-get_or s i 0 (omega (arith, at)) in
    rw (later, room, here)
      (λ p. put t j (get_or s i 0) >>= (λ t'.
        body_loop-write s m (i + 1) (j + 1) d n t' (omega (arith, at)) (omega arith) (omega arith)
          p))

behind_blank-drop :
    (s : List ℕ) (p i : ℕ)
    → i ≡ p + 3
    → i < length s
    → behind_blank (drop p s)
      ≡ (if blank_before s i then drop (i + 1) s else behind_blank (drop (p + 1) s))
behind_blank-drop s p i e lt =
    let i3 : i - 3 ≡ p = omega arith in
    let i2 : i - 2 ≡ p + 1 = omega arith in
    let i1 : i - 1 ≡ p + 1 + 1 = omega arith in
    let i0 : i ≡ p + 1 + 1 + 1 = omega arith in
    let d0 = drop-get_or s p 0 (omega arith) in
    let d1 = drop-get_or s (p + 1) 0 (omega arith) in
    let d2 = drop-get_or s (p + 1 + 1) 0 (omega arith) in
    let d3 = drop-get_or s (p + 1 + 1 + 1) 0 (omega arith) in
    rw (i3, i2, i1, i0, d0, d1, d2, d3) refl

-- Before the blank line, from the fourth character on.
body_loop_seek :
    (s : List ℕ) (m p i n : ℕ) (t : List ℕ)
    → i + m ≡ length s
    → i ≡ p + 3
    → body_loop s m i 0 false n t ≡ write (take n (behind_blank (drop p s))) 0 t
unfolding body_loop write
body_loop_seek s zero p i n t at e =
    let too_short : behind_blank (drop p s) ≡ [] =
      behind_blank_short (drop p s) (omega (arith, at, length-drop p s)) in
    rw (too_short, take-nil n) refl
body_loop_seek s (suc m) p i zero t at e =
    let later : ltb i 3 ≡ false = ground arith in rw later refl
body_loop_seek s (suc m) p i (suc n) t at e =
    let later : ltb i 3 ≡ false = ground arith in
    let room : leb (suc n) 0 ≡ false = ground arith in
    let next = behind_blank-drop s p i e (omega (arith, at)) in
    elim (Bool-cases (blank_before s i)) [
      | inl blank ↦
          rw (later, room, blank, next, blank)
            (body_loop-write s m (i + 1) 0 (suc n) (suc n) t (omega (arith, at)) (omega arith)
              (omega arith))
      | inr text ↦
          rw (later, room, text, next, text)
            (body_loop_seek s m (p + 1) (i + 1) (suc n) t (omega (arith, at)) (omega arith))
    ]

body_loop_start :
    (s : List ℕ) (m i n : ℕ) (t : List ℕ)
    → i + m ≡ length s
    → i ≤ 3
    → body_loop s m i 0 false n t ≡ write (take n (behind_blank s)) 0 t
unfolding body_loop write
body_loop_start s zero i n t at le =
    let too_short : behind_blank s ≡ [] = behind_blank_short s (omega (arith, at)) in
    rw (too_short, take-nil n) refl
body_loop_start s (suc m) i n t at le = elim (Bool-cases (ltb i 3)) [
  | inl early ↦ rw early (body_loop_start s m (i + 1) n t (omega (arith, at)) (ground arith))
  | inr late ↦
      let third : i ≡ 3 = ground arith in body_loop_seek s (suc m) 0 i n t at (omega (arith, third))
]

-- The result of `getbody` is that of writing, from the start of the buffer, the first `n` characters of
-- the text behind the first blank line, and a 0 behind them, with `none` where a write lies outside.
pub getbody-write : (s t : List ℕ) (n : ℕ) → getbody s t n ≡ write (take n (behind_blank s)) 0 t
unfolding getbody
getbody-write s t n = body_loop_start s (length s) 0 n t (omega arith) (omega arith)
