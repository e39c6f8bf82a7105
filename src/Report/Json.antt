-- ===== src/Report/Json.antt =====
-- What `prs_up_rpt_dt_obj` of cpp/http/dtparser.c prints, against a layout of the report by positions.
use Prim.Native.String.{String}
use com_richard_test.Base.{
  ℕ, ◌+◌, ◌≤◌, List, [], ◌∷◌, ◌++◌, some, ◌≡◌, refl, sym, ap, ◌∙◌, arith, length, get_or, take,
  drop, codes, length-append, length-drop, drop_within, drop_add, ◌-◌,
}
use mathlib.Core.List.{append_assoc}
use com_richard_test.Web.Parts.{NonZero}
use com_richard_test.Report.{read_all, Field, at_fields, obj_fields, prs_at_ext, prs_up_rpt_dt_obj}
use com_richard_test.Report.Fields.{
  widths, size, render, read_all_text, strcat_fits, drop-NonZero, length-render, fields-start,
}

-- What `prs_at_ext` prints for a text.
abbrev at_text : List ℕ → List ℕ
at_text m = ((render at_fields m ++ codes "\",\"dt\":\"") ++ drop 6 m) ++ codes "\"}"

at_widths : widths at_fields ≡ 6
unfolding at_fields
at_widths = refl

at_size : size at_fields ≡ 15
unfolding at_fields
at_size = refl

prs_at_ext-text :
    (m r : List ℕ)
    → NonZero m
    → 6 ≤ length m
    → length m ≤ 900
    → prs_at_ext (m ++ 0 ∷ r) ≡ some (at_text m)
unfolding prs_at_ext
prs_at_ext-text m r h long short =
    let head = render at_fields m in
    let head_len : length head ≡ 15 =
      length-render at_fields m (omega (arith, at_widths)) ∙ at_size in
    let label = codes "\",\"dt\":\"" in
    let printed = fields-start at_fields 1024 6 m r h at_widths long (omega (arith, at_size)) in
    let labelled = strcat_fits 1024 head label (omega (arith, head_len)) in
    let l_len = length-append head label in
    let got : read_all (drop 6 (m ++ 0 ∷ r)) ≡ some (drop 6 m) =
      ap read_all (drop_within 6 m (0 ∷ r) long)
      ∙ read_all_text (drop 6 m) r (drop-NonZero 6 m h) in
    let filled =
      strcat_fits 1024 (head ++ label) (drop 6 m)
        (omega (arith, head_len, l_len, length-drop 6 m)) in
    let closed =
      strcat_fits 1024 ((head ++ label) ++ drop 6 m) (codes "\"}") (
        omega
          (arith, head_len, l_len, length-drop 6 m, length-append (head ++ label) (drop 6 m))) in
    rw (printed, labelled, got, filled) closed

obj_widths : widths obj_fields ≡ 178
unfolding obj_fields
obj_widths = refl

obj_size : size obj_fields ≡ 360
unfolding obj_fields
obj_size = refl

length-at_text : (m : List ℕ) → 6 ≤ length m → length (at_text m) ≤ length m + 40
length-at_text m long =
    let head = render at_fields m in
    let label = codes "\",\"dt\":\"" in
    omega (
      arith,
      length-render at_fields m (omega (arith, at_widths)),
      at_size,
      length-append head label,
      length-append (head ++ label) (drop 6 m),
      length-append ((head ++ label) ++ drop 6 m) (codes "\"}"),
      length-drop 6 m,
    )

-- A key of the object, and where its value stands in the report: from one character up to another.
pub record Entry : Type 0 where
  pub key : String
  pub from : ℕ
  pub upto : ℕ

abbrev entry : String → ℕ → ℕ → Entry
entry key from upto = record { key = key; from = from; upto = upto }

-- The layout of a report, written down by positions.
abbrev layout : List Entry
layout =
    entry "time" 0 12
    ∷ entry "sts" 12 20
    ∷ entry "iVStd" 20 36
    ∷ entry "iV" 36 52
    ∷ entry "fVStd" 52 68
    ∷ entry "fV" 68 84
    ∷ entry "flwRtStd" 84 92
    ∷ entry "flwRt" 92 100
    ∷ entry "t" 100 108
    ∷ entry "p" 108 116
    ∷ entry "engSum" 116 132
    ∷ entry "engDst" 132 140
    ∷ entry "acsV" 140 144
    ∷ entry "vlt" 144 148
    ∷ entry "pwr" 148 150
    ∷ entry "nb" 150 158
    ∷ entry "ecl" 158 162
    ∷ entry "cid" 162 174
    ∷ entry "rnf" 174 178
    ∷ []

abbrev slice : ℕ → ℕ → List ℕ → List ℕ
slice from upto m = take (upto - from) (drop from m)

-- The members of a JSON object, each with a comma behind it, before more text.
abbrev members : List Entry → List ℕ → List ℕ → List ℕ
members [] m x = x
members (e ∷ es) m x =
    codes "\""
    ++ (codes e.key
        ++ (codes "\":\"" ++ (slice e.from e.upto m ++ (codes "\"," ++ members es m x))))

abbrev ext_json : List ℕ → List ℕ
ext_json m =
    codes "{\"date\":\"" ++ (slice 0 6 m ++ (codes "\",\"dt\":\"" ++ (drop 6 m ++ codes "\"}")))

-- The JSON text of a report of the second kind.
abbrev pub report_json : List ℕ → List ℕ
report_json m =
    codes "{" ++ members layout m (codes "\"ext\":" ++ (ext_json (drop 178 m) ++ codes "}"))

-- The positions of the fields of a table, and the text that is printed for them.
record Placed : Type 0 where
  label : List ℕ
  from : ℕ
  upto : ℕ

abbrev places : List Field → ℕ → List Placed
places [] k = []
places (f ∷ fs) k =
    record { label = f.label; from = k; upto = k + f.width } ∷ places fs (k + f.width)

abbrev printed_at : List Placed → List ℕ → List ℕ → List ℕ
printed_at [] m x = x
printed_at (p ∷ ps) m x = p.label ++ (slice p.from p.upto m ++ printed_at ps m x)

render-places :
    (fs : List Field) (k : ℕ) (m x : List ℕ)
    → render fs (drop k m) ++ x ≡ printed_at (places fs k) m x
render-places [] k m x = refl
render-places (f ∷ fs) k m x =
    let w = f.width in
    let width : k + w - k ≡ w = omega arith in
    append_assoc f.label (take w (drop k m) ++ render fs (drop w (drop k m))) x
    ∙ ap (λ t. f.label ++ t) (append_assoc (take w (drop k m)) (render fs (drop w (drop k m))) x)
    ∙ rw (width, sym (drop_add k w m), render-places fs (k + w) m x) refl

obj_fields-layout :
    (m ext : List ℕ)
    → printed_at (places obj_fields 0) m (codes "\",\"ext\":" ++ (ext ++ codes "}"))
      ≡ codes "{" ++ members layout m (codes "\"ext\":" ++ (ext ++ codes "}"))
unfolding obj_fields
obj_fields-layout m ext = refl

at_text-json : (m : List ℕ) → at_text m ≡ ext_json m
unfolding at_fields
at_text-json m = simp append_assoc refl

-- For an id whose fourth character is 2 and a report of 184 to 600 characters, none of them 0,
-- `prs_up_rpt_dt_obj` returns exactly the JSON text of the report: each key with the characters between
-- its two positions, and, as the value of ext, the next six characters as the date and the rest as the
-- data.
pub prs_up_rpt_dt_obj-report_json :
    (id m r : List ℕ)
    → NonZero m
    → get_or id 3 0 ≡ 50
    → 184 ≤ length m
    → length m ≤ 600
    → prs_up_rpt_dt_obj id (m ++ 0 ∷ r) ≡ some (report_json m)
unfolding prs_up_rpt_dt_obj
prs_up_rpt_dt_obj-report_json id m r h two long short =
    let head = render obj_fields m in
    let label = codes "\",\"ext\":" in
    let ext = at_text (drop 178 m) in
    let head_len : length head ≡ 360 =
      length-render obj_fields m (omega (arith, obj_widths)) ∙ obj_size in
    let printed =
      fields-start obj_fields 1024 178 m r h obj_widths (omega arith) (omega (arith, obj_size)) in
    let labelled = strcat_fits 1024 head label (omega (arith, head_len)) in
    let left : 6 ≤ length (drop 178 m) = omega (arith, length-drop 178 m) in
    let got : prs_at_ext (drop 178 (m ++ 0 ∷ r)) ≡ some ext =
      ap prs_at_ext (drop_within 178 m (0 ∷ r) (omega arith))
      ∙ prs_at_ext-text (drop 178 m) r (drop-NonZero 178 m h) left
          (omega (arith, length-drop 178 m)) in
    let ext_len = length-at_text (drop 178 m) left in
    let filled =
      strcat_fits 1024 (head ++ label) ext
        (omega (arith, head_len, ext_len, length-append head label, length-drop 178 m)) in
    let closed = strcat_fits 1024 ((head ++ label) ++ ext) (codes "}") (
      omega (
        arith,
        head_len,
        ext_len,
        length-append head label,
        length-append (head ++ label) ext,
        length-drop 178 m,
      )) in
    let text : ((head ++ label) ++ ext) ++ codes "}" ≡ report_json m =
      append_assoc (head ++ label) ext (codes "}")
      ∙ append_assoc head label (ext ++ codes "}")
      ∙ render-places obj_fields 0 m (label ++ (ext ++ codes "}"))
      ∙ obj_fields-layout m ext
      ∙ ap (λ t. codes "{" ++ members layout m (codes "\"ext\":" ++ (t ++ codes "}")))
          (at_text-json (drop 178 m)) in
    rw (printed, labelled, two, got, filled) (closed ∙ ap some text)
