-- ===== src/Web/Parts.antt =====
-- The buffers of `dispatch` in cpp/http/dispatcher.c: each part is written with the size of its buffer
-- as the bound, and the 0 behind it comes on top.
use com_richard_test.Base.{
  bind_none, ℕ, suc, ◌≤◌, ◌<◌, List, [], ◌∷◌, ◌++◌, Bool, false, ◌&&◌, none, some, ltb, ◌==◌, ◌⊎◌,
  inl, inr, Bool-cases, ◌≡◌, ◌≢◌, refl, ◌∙◌, arith, length, take, drop, replicate, length-replicate,
  take_all, length-take,
}
use com_richard_test.Web.{is_end, getbody, getmethod, text, Request, cut_request}
use com_richard_test.Web.Cut.{
  before, behind, write, getmethod-write, geturi-write, write_fits, write_outside, is_space,
}
use com_richard_test.Web.Line.{line, getln-write}
use com_richard_test.Web.Body.{behind_blank, getbody-write}

-- A C string: no character of it is 0.
abbrev pub NonZero : List ℕ → Type 0
NonZero [] = Unit
NonZero (c ∷ s) = (c ≢ 0) × NonZero s

pub before-NonZero : (stop : ℕ → Bool) (s : List ℕ) → NonZero s → NonZero (before stop s)
before-NonZero stop [] h = h
before-NonZero stop (c ∷ s) (c0, h) = elim (Bool-cases (stop c)) [
  | inl e ↦ rw e tt
  | inr e ↦ rw e (c0, before-NonZero stop s h)
]

pub text-append : (s t : List ℕ) → NonZero s → text (s ++ 0 ∷ t) ≡ s
text-append [] t h = refl
text-append (c ∷ s) t (c0, h) =
    let nonzero : (c == 0) ≡ false = ground arith in rw (nonzero, text-append s t h) refl

-- A buffer of `n` cells, all 0, with a text written at its start.
abbrev pub held : List ℕ → ℕ → List ℕ
held w n = w ++ 0 ∷ drop (suc (length w)) (replicate n 0)

-- A buffer of `n` cells for a part that is cut at `n` characters.
pub buffer_fits :
    (w : List ℕ) (n : ℕ) → length w < n → write (take n w) 0 (replicate n 0) ≡ some (held w n)
buffer_fits w n lt =
    rw (take_all n w (omega arith))
      (write_fits w (replicate n 0) (omega (arith, length-replicate {A = ℕ} n 0)))

buffer_over : (w : List ℕ) (n : ℕ) → n ≤ length w → write (take n w) 0 (replicate n 0) ≡ none
buffer_over w n le =
    write_outside (take n w) 0 (replicate n 0)
      (omega (arith, length-replicate {A = ℕ} n 0, length-take n w))

pub behind-NonZero : (stop : ℕ → Bool) (s : List ℕ) → NonZero s → NonZero (behind stop s)
behind-NonZero stop [] h = h
behind-NonZero stop (c ∷ s) (c0, h) = elim (Bool-cases (stop c)) [
  | inl e ↦ rw e h
  | inr e ↦ rw e (behind-NonZero stop s h)
]

pub behind_blank-NonZero : (s : List ℕ) → NonZero s → NonZero (behind_blank s)
behind_blank-NonZero [] h = tt
behind_blank-NonZero (a ∷ []) h = tt
behind_blank-NonZero (a ∷ b ∷ []) h = tt
behind_blank-NonZero (a ∷ b ∷ c ∷ []) h = tt
behind_blank-NonZero (a ∷ b ∷ c ∷ d ∷ s) (a0, (b0, (c0, (d0, h)))) =
    elim (Bool-cases ((a == 13) && (b == 10) && (c == 13) && (d == 10))) [
      | inl e ↦ rw e h
      | inr e ↦ rw e (behind_blank-NonZero (b ∷ c ∷ d ∷ s) (b0, (c0, (d0, h))))
    ]

abbrev pub first_word : List ℕ → List ℕ
first_word s = before is_end s

abbrev pub second_word : List ℕ → List ℕ
second_word s = before is_space (behind is_space s)

-- Each part of the request is shorter than its buffer.
abbrev pub Fits : List ℕ → Type 0
Fits req =
    (length (line 0 req) < 100)
    × (length (behind_blank req) < 1024)
    × (length (first_word (line 0 req)) < 5)
    × (length (second_word (line 0 req)) < 50)

-- The strings in the buffers are the parts of the request.
abbrev pub IsCut : List ℕ → Request → Type 0
IsCut req p =
    (text p.l0 ≡ line 0 req)
    × (text p.body ≡ behind_blank req)
    × (text p.method ≡ first_word (line 0 req))
    × (text p.uri ≡ second_word (line 0 req))

-- If a request has no 0 and its parts fit, `cut_request` returns, and the strings in the buffers are
-- exactly these parts.
pub cut_request-Fits :
    (req : List ℕ)
    → NonZero req
    → Fits req
    → (p : Request) × (cut_request req ≡ some p) × IsCut req p
unfolding cut_request
cut_request-Fits req h (l_fits, b_fits, m_fits, u_fits) =
    let l_h : NonZero (line 0 req) = before-NonZero _ req h in
    let l0 : text (held (line 0 req) 100) ≡ line 0 req = text-append _ _ l_h in
    let l_eq = getln-write req (replicate 100 0) 100 0 ∙ buffer_fits _ 100 l_fits in
    let b_eq = getbody-write req (replicate 1024 0) 1024 ∙ buffer_fits _ 1024 b_fits in
    let m_eq = getmethod-write (line 0 req) (replicate 5 0) 5 ∙ buffer_fits _ 5 m_fits in
    let u_eq = geturi-write (line 0 req) (replicate 50 0) 50 ∙ buffer_fits _ 50 u_fits in
    (
      record {
        l0 = held (line 0 req) 100;
        body = held (behind_blank req) 1024;
        method = held (first_word (line 0 req)) 5;
        uri = held (second_word (line 0 req)) 50;
      },
      rw (l_eq, b_eq, l0, m_eq, u_eq) refl,
      (
        l0,
        text-append _ _ (behind_blank-NonZero req h),
        text-append _ _ (before-NonZero _ _ l_h),
        text-append _ _ (before-NonZero _ _ (behind-NonZero _ _ l_h)),
      ),
    )

-- Some part of the request is as long as its buffer, or longer.
abbrev pub Overflows : List ℕ → Type 0
Overflows req =
    (100 ≤ length (line 0 req))
    ⊎ (1024 ≤ length (behind_blank req))
    ⊎ (5 ≤ length (first_word (line 0 req)))
    ⊎ (50 ≤ length (second_word (line 0 req)))

-- The line itself fits.
cut_line_over :
    (req : List ℕ)
    → NonZero req
    → length (line 0 req) < 100
    → (1024 ≤ length (behind_blank req))
      ⊎ (5 ≤ length (first_word (line 0 req)))
      ⊎ (50 ≤ length (second_word (line 0 req)))
    → cut_request req ≡ none
unfolding cut_request
cut_line_over req h fits over =
    let l_h : NonZero (line 0 req) = before-NonZero _ req h in
    let l0 : text (held (line 0 req) 100) ≡ line 0 req = text-append _ _ l_h in
    let l_eq = getln-write req (replicate 100 0) 100 0 ∙ buffer_fits _ 100 fits in
    elim over [
      | inl b ↦ rw (l_eq, getbody-write req (replicate 1024 0) 1024 ∙ buffer_over _ 1024 b) refl
      | inr (inl m) ↦
          rw (l_eq, l0, getmethod-write (line 0 req) (replicate 5 0) 5 ∙ buffer_over _ 5 m)
            (bind_none (getbody req (replicate 1024 0) 1024) _ (λ b. refl))
      | inr (inr u) ↦
          rw (l_eq, l0, geturi-write (line 0 req) (replicate 50 0) 50 ∙ buffer_over _ 50 u)
            (bind_none (getbody req (replicate 1024 0) 1024) _
              (λ b. bind_none (getmethod (line 0 req) (replicate 5 0) 5) _ (λ m. refl)))
    ]

-- If a request has no 0 and some part of it does not fit, `cut_request` writes outside a buffer.
pub cut_request-Overflows : (req : List ℕ) → NonZero req → Overflows req → cut_request req ≡ none
unfolding cut_request
cut_request-Overflows req h over = elim (Bool-cases (ltb (length (line 0 req)) 100)) [
  | inl fits ↦ elim over [
    | inl l ↦ absurd (ground arith)
    | inr rest ↦ cut_line_over req h (ground arith) rest
  ]
  | inr over ↦ rw (getln-write req (replicate 100 0) 100 0 ∙ buffer_over _ 100 (ground arith)) refl
]
