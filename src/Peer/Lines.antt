-- ===== src/Peer/Lines.antt =====
-- Texts with no character of a kind: what the functions of cpp/http/util.c find in them.
use com_richard_test.Base.{
  ℕ, zero, suc, ◌+◌, ◌/◌, ◌%◌, ◌-◌, ◌^◌, ◌≤◌, List, [], ◌∷◌, ◌++◌, Bool, true, false, ◌&&◌, ◌||◌,
  not, ltb, leb, ◌==◌, Bool-cases, inl, inr, ◌≡◌, refl, ap, ◌∙◌, arith, length,
}
use com_richard_test.Web.{is_eol, is_end, text}
use com_richard_test.Web.Cut.{before, behind}
use com_richard_test.Web.Body.{behind_blank}
use com_richard_test.Web.Parts.{NonZero}
use com_richard_test.Peer.{decimal, print_int, print_long}

-- No character is of the kind.
abbrev pub free : (ℕ → Bool) → List ℕ → Bool
free stop [] = true
free stop (c ∷ s) = not (stop c) && free stop s

-- A character that cannot stand in a word of a request.
abbrev pub is_mark : ℕ → Bool
is_mark c = (c == 0) || is_end c

pub free-append :
    (stop : ℕ → Bool) (s t : List ℕ)
    → free stop s ≡ true
    → free stop t ≡ true
    → free stop (s ++ t) ≡ true
free-append stop [] t hs ht = ht
free-append stop (c ∷ s) t hs ht = ground (arith, free-append stop s t)

-- A wider kind excludes more.
pub free_wider :
    (wide narrow : ℕ → Bool)
    → ((c : ℕ) → wide c ≡ false → narrow c ≡ false)
    → (s : List ℕ) → free wide s ≡ true
    → free narrow s ≡ true
free_wider wide narrow le [] h = refl
free_wider wide narrow le (c ∷ s) h = ground (arith, le c, free_wider wide narrow le s)

pub free-NonZero : (s : List ℕ) → free (λ c. c == 0) s ≡ true → NonZero s
free-NonZero [] h = tt
free-NonZero (c ∷ s) h = (ground arith, free-NonZero s (ground arith))

pub NonZero-append : (s t : List ℕ) → NonZero s → NonZero t → NonZero (s ++ t)
NonZero-append [] t hs ht = ht
NonZero-append (c ∷ s) t (c0, hs) ht = (c0, NonZero-append s t hs ht)

pub before-append :
    (stop : ℕ → Bool) (s t : List ℕ)
    → free stop s ≡ true
    → before stop (s ++ t) ≡ s ++ before stop t
before-append stop [] t h = refl
before-append stop (c ∷ s) t h =
    let go : stop c ≡ false = ground arith in
    rw go (ap (λ r. c ∷ r) (before-append stop s t (ground arith)))

pub behind-append :
    (stop : ℕ → Bool) (s t : List ℕ) → free stop s ≡ true → behind stop (s ++ t) ≡ behind stop t
behind-append stop [] t h = refl
behind-append stop (c ∷ s) t h =
    let go : stop c ≡ false = ground arith in rw go (behind-append stop s t (ground arith))

behind_blank-cons : (c : ℕ) (s : List ℕ) → (c == 13) ≡ false → behind_blank (c ∷ s) ≡ behind_blank s
behind_blank-cons c [] h = refl
behind_blank-cons c (x ∷ []) h = refl
behind_blank-cons c (x ∷ y ∷ []) h = refl
behind_blank-cons c (x ∷ y ∷ z ∷ s) h = rw h refl

behind_blank-append : (s t : List ℕ) → free is_eol s ≡ true → behind_blank (s ++ t) ≡ behind_blank t
behind_blank-append [] t h = refl
behind_blank-append (c ∷ s) t h =
    behind_blank-cons c (s ++ t) (ground arith) ∙ behind_blank-append s t (ground arith)

-- A line with its end before more text.
abbrev pub crlf : List ℕ → List ℕ → List ℕ
crlf l t = l ++ 13 ∷ 10 ∷ t

behind_blank-eol :
    (c : ℕ) (t : List ℕ) → (c == 13) ≡ false → behind_blank (13 ∷ 10 ∷ c ∷ t) ≡ behind_blank (c ∷ t)
behind_blank-eol c [] h = refl
behind_blank-eol c (x ∷ t) h = rw h (behind_blank-cons 10 (c ∷ x ∷ t) refl)

pub behind_blank-crlf :
    (l : List ℕ) (c : ℕ) (t : List ℕ)
    → free is_eol l ≡ true
    → (c == 13) ≡ false
    → behind_blank (crlf l (c ∷ t)) ≡ behind_blank (c ∷ t)
behind_blank-crlf l c t hl hc = behind_blank-append l (13 ∷ 10 ∷ c ∷ t) hl ∙ behind_blank-eol c t hc

pub behind_blank_last :
    (l t : List ℕ) → free is_eol l ≡ true → behind_blank (crlf l (13 ∷ 10 ∷ t)) ≡ t
behind_blank_last l t hl = behind_blank-append l (13 ∷ 10 ∷ 13 ∷ 10 ∷ t) hl

pub length-behind_blank : (s : List ℕ) → length (behind_blank s) ≤ length s
length-behind_blank [] = omega arith
length-behind_blank (a ∷ []) = omega arith
length-behind_blank (a ∷ b ∷ []) = omega arith
length-behind_blank (a ∷ b ∷ c ∷ []) = omega arith
length-behind_blank (a ∷ b ∷ c ∷ d ∷ s) =
    elim (Bool-cases ((a == 13) && (b == 10) && (c == 13) && (d == 10))) [
      | inl e ↦ rw e (omega arith)
      | inr e ↦ rw e (omega (arith, length-behind_blank (b ∷ c ∷ d ∷ s)))
    ]

pub text-NonZero : (s : List ℕ) → NonZero s → text s ≡ s
text-NonZero [] h = refl
text-NonZero (c ∷ s) (c0, h) =
    let nonzero : (c == 0) ≡ false = ground arith in rw (nonzero, text-NonZero s h) refl

decimal-free : (fuel n : ℕ) → free is_mark (decimal fuel n) ≡ true
unfolding decimal
decimal-free zero n = refl
decimal-free (suc fuel) n = elim (Bool-cases (ltb n 10)) [
  | inl small ↦ let digit : is_mark (48 + n) ≡ false = ground arith in rw (small, digit) refl
  | inr large ↦
      let digit : is_mark (48 + n % 10) ≡ false = ground arith in
      rw large
        (free-append is_mark (decimal fuel (n / 10)) _ (decimal-free fuel (n / 10)) (rw digit refl))
]

pub print_int-free : (d : ℕ) → free is_mark (print_int d) ≡ true
unfolding print_int
print_int-free d = elim (Bool-cases (leb (2 ^ 31) d)) [
  | inl minus ↦ rw minus (decimal-free 10 (2 ^ 32 - d))
  | inr plus ↦ rw plus (decimal-free 10 d)
]

pub print_long-free : (d : ℕ) → free is_mark (print_long d) ≡ true
unfolding print_long
print_long-free d = decimal-free 19 d
