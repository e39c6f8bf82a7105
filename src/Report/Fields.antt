-- ===== src/Report/Fields.antt =====
-- How cpp/http/dtparser.c prints fields: the labels of a table with the characters of the report between.
use com_richard_test.Base.{
  ℕ, zero, suc, ◌+◌, ◌≤◌, ◌<◌, List, [], ◌∷◌, ◌++◌, true, false, some, ltb, ◌==◌, ◌≡◌, refl, ap,
  ◌∙◌, arith, length, take, drop, length-append, length-take, length-drop, drop_within, drop_add,
}
use mathlib.Core.List.{append-nil, append_assoc}
use com_richard_test.Web.Parts.{NonZero}
use com_richard_test.Report.{read, read_all, strcat, Field, Cursor, start, fields}

-- The characters that the fields take.
abbrev pub widths : List Field → ℕ
widths [] = 0
widths (f ∷ fs) = f.width + widths fs

-- The characters that are printed for them.
abbrev pub size : List Field → ℕ
size [] = 0
size (f ∷ fs) = length f.label + f.width + size fs

abbrev pub render : List Field → List ℕ → List ℕ
render [] m = []
render (f ∷ fs) m = f.label ++ (take f.width m ++ render fs (drop f.width m))

read_text :
    (n : ℕ) (m r : List ℕ) → NonZero m → n ≤ length m → read n (m ++ 0 ∷ r) ≡ some (take n m)
unfolding read
read_text zero m r h le = refl
read_text (suc n) [] r h le = absurd (omega arith)
read_text (suc n) (c ∷ m) r (c0, h) le =
    let here : (c == 0) ≡ false = ground arith in rw (here, read_text n m r h (omega arith)) refl

pub read_all_text : (m r : List ℕ) → NonZero m → read_all (m ++ 0 ∷ r) ≡ some m
unfolding read_all
read_all_text [] r h = refl
read_all_text (c ∷ m) r (c0, h) =
    let here : (c == 0) ≡ false = ground arith in rw (here, read_all_text m r h) refl

pub strcat_fits :
    (cells : ℕ) (out v : List ℕ)
    → length out + length v < cells
    → strcat cells out v ≡ some (out ++ v)
unfolding strcat
strcat_fits cells out v lt =
    let room : ltb (length out + length v) cells ≡ true = ground arith in rw room refl

pub drop-NonZero : (n : ℕ) (m : List ℕ) → NonZero m → NonZero (drop n m)
drop-NonZero zero m h = h
drop-NonZero (suc n) [] h = tt
drop-NonZero (suc n) (c ∷ m) (c0, h) = drop-NonZero n m h

-- On a text that is long enough, and a buffer that is large enough, the fields are printed.
fields-render :
    (fs : List Field) (cells : ℕ) (s m r : List ℕ) (c : Cursor)
    → NonZero m
    → drop c.at s ≡ m ++ 0 ∷ r
    → widths fs ≤ length m
    → length c.out + size fs < cells
    → fields cells s fs c ≡ some (record { out = c.out ++ render fs m; at = c.at + widths fs })
unfolding fields
fields-render [] cells s m r c h e long room =
    let same : c.at + 0 ≡ c.at = omega arith in rw (append-nil c.out, same) refl
fields-render (f ∷ fs) cells s m r c h e long room =
    let w = f.width in
    let v_len : length (take w m) ≡ w = omega (arith, length-take w m) in
    let o_len : length (c.out ++ f.label) ≡ length c.out + length f.label =
      length-append c.out f.label in
    let label = strcat_fits cells c.out f.label (omega arith) in
    let got = read_text w m r h (omega arith) in
    let value = strcat_fits cells (c.out ++ f.label) (take w m) (omega (arith, v_len, o_len)) in
    let here : drop (c.at + w) s ≡ drop w m ++ 0 ∷ r =
      drop_add c.at w s ∙ ap (drop w) e ∙ drop_within w m (0 ∷ r) (omega arith) in
    let rest =
      fields-render fs cells s (drop w m) r
        (record { out = (c.out ++ f.label) ++ take w m; at = c.at + w }) (drop-NonZero w m h) here
        (omega (arith, length-drop w m))
        (omega (arith, length-append (c.out ++ f.label) (take w m), v_len, o_len)) in
    let text : ((c.out ++ f.label) ++ take w m) ++ render fs (drop w m)
        ≡ c.out ++ render (f ∷ fs) m =
      append_assoc (c.out ++ f.label) (take w m) _ ∙ append_assoc c.out f.label _ in
    let index : c.at + w + widths fs ≡ c.at + widths (f ∷ fs) = omega arith in
    rw (label, e, got, value) (rest ∙ rw (text, index) refl)

pub length-render :
    (fs : List Field) (m : List ℕ) → widths fs ≤ length m → length (render fs m) ≡ size fs
length-render [] m long = refl
length-render (f ∷ fs) m long =
    let w = f.width in
    omega (
      arith,
      length-append f.label (take w m ++ render fs (drop w m)),
      length-append (take w m) (render fs (drop w m)),
      length-take w m,
      length-drop w m,
      length-render fs (drop w m) (omega (arith, length-drop w m)),
    )

-- From the start of the text, with `n` characters in the fields.
pub fields-start :
    (fs : List Field) (cells n : ℕ) (m r : List ℕ)
    → NonZero m
    → widths fs ≡ n
    → n ≤ length m
    → size fs < cells
    → fields cells (m ++ 0 ∷ r) fs start ≡ some (record { out = render fs m; at = n })
fields-start fs cells n m r h w long room =
    let index : 0 + widths fs ≡ n = omega (arith, w) in
    fields-render fs cells (m ++ 0 ∷ r) m r start h refl (omega (arith, w)) (omega arith)
    ∙ ap (λ k. some (record { out = render fs m; at = k })) index
