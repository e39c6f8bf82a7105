-- ===== src/Des/Boxes.antt =====
-- The rows of the S-boxes, entry by entry.
use com_richard_test.Base.{
  ℕ, ◌+◌, ◌*◌, ◌<◌, Bool, true, false, ◌&&◌, ◌||◌, not, ◌==◌, ◌≡◌, ◌≢◌, ◌↔◌, ◌⊎◌, inl, inr, refl,
  arith, get_or, all_below, all_below_sound, any_below, any_below_sound, ==_iff, Bool-cases,
}
use com_richard_test.Des.Tables.{s_box}

-- `s_box[b][r][c]`
abbrev pub s_entry : ℕ → ℕ → ℕ → ℕ
s_entry b r c = get_or s_box (b * 64 + r * 16 + c) 0

full_row : ℕ → ℕ → Bool
full_row b r = all_below 16 (λ v. any_below 16 (λ c. s_entry b r c == v))

typo : ℕ → ℕ → Bool
typo b r = (r == 1) && ((b == 5) || (b == 6))

-- A row is full and has no misprint, or it is one of the two misprinted ones and lacks the value 9.
row_ok : ℕ → ℕ → Bool
row_ok b r =
    (full_row b r && not (typo b r)) || (typo b r && all_below 16 (λ c. not (s_entry b r c == 9)))

rows_table : all_below 8 (λ b. all_below 4 (row_ok b)) ≡ true
unfolding all_below any_below row_ok full_row typo s_box
rows_table = refl

row_lookup : (b r : ℕ) → b < 8 → r < 4 → row_ok b r ≡ true
row_lookup b r hb hr =
    all_below_sound 4 (row_ok b) r (all_below_sound 8 (λ b. all_below 4 (row_ok b)) b rows_table hb)
      hr

full_row_sound :
    (b r : ℕ) → full_row b r ≡ true → (v : ℕ) → v < 16 → (c : ℕ) × (c < 16) × (s_entry b r c ≡ v)
unfolding full_row
full_row_sound b r h v lt =
    let (c, c_lt, hit) =
      any_below_sound 16 (λ c. s_entry b r c == v)
        (all_below_sound 16 (λ v. any_below 16 (λ c. s_entry b r c == v)) v h lt) in
    (c, c_lt, (==_iff _ _).0 hit)

-- Every row of the eight boxes holds each of the values 0 to 15, as the rows of DES do, but for the
-- second row of the sixth and of the seventh box: these two do not.
pub s_box_rows :
    (b r : ℕ)
    → b < 8
    → r < 4
    → ((v : ℕ) → v < 16 → (c : ℕ) × (c < 16) × (s_entry b r c ≡ v))
      ↔ ((r ≢ 1) ⊎ ((b ≢ 5) × (b ≢ 6)))
s_box_rows b r hb hr = elim (Bool-cases (typo b r)) [
  | inl bad ↦ (λ full. absurd (misses bad full), λ good. absurd (excluded bad good))
  | inr good ↦ (λ _. unfold typo in allowed good, λ _. full_row_sound b r (full good))
]
  where
    known : row_ok b r ≡ true
    known = row_lookup b r hb hr

    full : typo b r ≡ false → full_row b r ≡ true
    full e = let k = known in unfold row_ok in ground arith

    lacks : typo b r ≡ true → all_below 16 (λ c. not (s_entry b r c == 9)) ≡ true
    lacks e = let k = known in unfold row_ok in ground arith

    misses : typo b r ≡ true → ((v : ℕ) → v < 16 → (c : ℕ) × (c < 16) × (s_entry b r c ≡ v)) → ⊥
    misses e all =
        let (c, lt, hit) = all 9 (omega arith) in
        let no_nine = all_below_sound 16 (λ c. not (s_entry b r c == 9)) c (lacks e) lt in
        ground arith

    excluded : typo b r ≡ true → (r ≢ 1) ⊎ ((b ≢ 5) × (b ≢ 6)) → ⊥
    excluded e good = unfold typo in ground arith

    allowed : typo b r ≡ false → (r ≢ 1) ⊎ ((b ≢ 5) × (b ≢ 6))
    allowed e = unfold typo in ground arith
