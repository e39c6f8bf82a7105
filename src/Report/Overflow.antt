-- ===== src/Report/Overflow.antt =====
-- The message on which cpp/http/dtparser.c clears a buffer beyond its end.
use com_richard_test.Base.{
  bind_none, ℕ, ◌+◌, List, [], ◌∷◌, false, none, some, ◌==◌, if◌then◌else◌, ◌≡◌, ◌≢◌, refl, sym, ap,
  ◌∙◌, arith, get_or, drop, get_or-drop, codes,
}
use com_richard_test.Report.{
  read, read_all, strcat, memset, fields, start, head_fields, app_field, cell, alarm_obj,
  prs_up_rpt_dt, parsedt,
}

read_two :
    (s : List ℕ) (v : ℕ)
    → get_or s 0 0 ≢ 0
    → get_or s 1 0 ≡ v
    → v ≢ 0
    → read 2 s ≡ some (get_or s 0 0 ∷ v ∷ [])
unfolding read
read_two [] v a b v0 = absurd (a refl)
read_two (c ∷ []) v a b v0 = absurd (ground arith)
read_two (c ∷ d ∷ s) v a b v0 =
    let c0 : (c == 0) ≡ false = ground arith in
    let d0 : (d == 0) ≡ false = ground arith in rw (c0, d0, b) refl

two_at :
    (s : List ℕ) (i v : ℕ)
    → get_or s i 0 ≢ 0
    → get_or s (i + 1) 0 ≡ v
    → v ≢ 0
    → read 2 (drop i s) ≡ some (get_or s i 0 ∷ v ∷ [])
two_at s i v a b v0 =
    let first : get_or (drop i s) 0 0 ≡ get_or s i 0 =
      get_or-drop i s 0 0 ∙ ap (λ k. get_or s k 0) (omega arith) in
    rw (read_two (drop i s) v (λ e. a (sym first ∙ e)) (get_or-drop i s 1 0 ∙ b) v0, first) refl

-- If the third and the fifteenth character of a text are not 0, the fourth is the digit 2 and the
-- sixteenth the digit 1, `parsedt` has no defined result: it clears or fills a buffer beyond its end, or
-- reads beyond the end of the array.
pub parsedt_alarm :
    (s : List ℕ)
    → get_or s 2 0 ≢ 0
    → get_or s 3 0 ≡ 50
    → get_or s 14 0 ≢ 0
    → get_or s 15 0 ≡ 49
    → parsedt s ≡ none
unfolding parsedt prs_up_rpt_dt alarm_obj memset
parsedt_alarm s c0 c1 s0 s1 =
    let ctrl : read 2 (drop 2 s) ≡ some (get_or s 2 0 ∷ 50 ∷ []) =
      two_at s 2 50 c0 c1 (omega arith) in
    let seq : read 2 (drop 14 s) ≡ some (get_or s 14 0 ∷ 49 ∷ []) =
      two_at s 14 49 s0 s1 (omega arith) in
    bind_none (fields 1024 s head_fields start) _ (λ c.
      rw (ctrl, seq)
        (bind_none (cell s 15) _ (λ last.
          bind_none (if last == 48 then fields 1024 s app_field c else some c) _ (λ r.
            bind_none (strcat 1024 r.out (codes "\",\"dt\":\"")) _ (λ out.
              bind_none (read_all (drop r.at s)) _ (λ v.
                bind_none (strcat 1024 out v) _
                  (λ out'. bind_none (strcat 1024 out' (codes "\"}")) _ (λ dt. refl))))))))
