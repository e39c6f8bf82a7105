-- ===== src/Des/Permute.antt =====
-- The initial and the final permutation.
use com_richard_test.Base.{
  ℕ, ◌-◌, ◌<◌, List, Bool, true, false, ◌&&◌, ◌==◌, ltb, ◌≡◌, refl, ap, ◌∙◌, arith, length, get_or,
  get_or_ext, all_below, all_below_sound,
}
use com_richard_test.Des.Tables.{ip_tbl, ipr_tbl}
use com_richard_test.Des.Blocks.{tbl_replace}
use com_richard_test.Des.Cells.{length-tbl_replace, get_or-tbl_replace}

-- The entry that table `s` picks through table `t`.
abbrev pub picks : List ℕ → List ℕ → ℕ → ℕ
picks s t j = get_or s (get_or t j 0 - 1) 0 - 1

abbrev undoes_at : List ℕ → List ℕ → ℕ → Bool
undoes_at s t j = (picks s t j == j) && ltb (get_or t j 0 - 1) 64

ip_table : all_below 64 (undoes_at ipr_tbl ip_tbl) ≡ true
unfolding all_below ip_tbl ipr_tbl
ip_table = refl

ipr_table : all_below 64 (undoes_at ip_tbl ipr_tbl) ≡ true
unfolding all_below ip_tbl ipr_tbl
ipr_table = refl

-- Two replacements by tables that undo one another leave a block of 64 bits as it is.
undo_by_tables :
    (s t : List ℕ) (out out' block : List Bool)
    → all_below 64 (undoes_at s t) ≡ true
    → length block ≡ 64
    → length out ≡ 64
    → length out' ≡ 64
    → tbl_replace out' (tbl_replace out block s 64) t 64 ≡ block
undo_by_tables s t out out' block table eb eo eo' =
    get_or_ext false (tbl_replace out' (tbl_replace out block s 64) t 64) block
      (omega (arith, length-tbl_replace out' (tbl_replace out block s 64) t 64)) cell
  where
    cell :
        (j : ℕ)
        → j < length (tbl_replace out' (tbl_replace out block s 64) t 64)
        → get_or (tbl_replace out' (tbl_replace out block s 64) t 64) j false ≡ get_or block j false
    cell j lt =
        let lt' : j < 64 =
          omega (arith, length-tbl_replace out' (tbl_replace out block s 64) t 64) in
        let entry = all_below_sound 64 (undoes_at s t) j table lt' in
        let inside : get_or t j 0 - 1 < 64 = ground arith in
        let same : picks s t j ≡ j = ground arith in
        get_or-tbl_replace out' (tbl_replace out block s 64) t 64 j lt' (omega arith) (omega arith)
        ∙ get_or-tbl_replace out block s 64 (get_or t j 0 - 1) inside (omega arith) (omega arith)
        ∙ ap (λ k. get_or block k false) same

pub ip_undoes_ipr :
    (out out' block : List Bool)
    → length block ≡ 64
    → length out ≡ 64
    → length out' ≡ 64
    → tbl_replace out' (tbl_replace out block ipr_tbl 64) ip_tbl 64 ≡ block
ip_undoes_ipr out out' block = undo_by_tables ipr_tbl ip_tbl out out' block ip_table

pub ipr_undoes_ip :
    (out out' block : List Bool)
    → length block ≡ 64
    → length out ≡ 64
    → length out' ≡ 64
    → tbl_replace out' (tbl_replace out block ip_tbl 64) ipr_tbl 64 ≡ block
ipr_undoes_ip out out' block = undo_by_tables ip_tbl ipr_tbl out out' block ipr_table
