-- ===== src/Des/Keys.antt =====
-- The key schedule: `loop_bit` and `set_key`.
use com_richard_test.Base.{
  ℕ, zero, suc, ◌+◌, ◌-◌, ◌/◌, ◌%◌, ◌≤◌, ◌<◌, List, ◌++◌, Bool, true, false, ◌&&◌, ◌==◌, ltb, ◌≡◌,
  refl, sym, ap, ◌∙◌, arith, length, get_or, get_or_ext, take, drop, sweep, get_or-sweep,
  length-sweep, length-take, length-drop, length-replicate, get_or-take, get_or-drop, all_below,
  all_below_sound, not,
}
use com_richard_test.Des.Tables.{pc1_tbl, mv_tbl}
use com_richard_test.Des.Blocks.{bit_of, bit_cpy, byte_to_bit, tbl_replace, loop_bit, tmp_256}
use com_richard_test.Des.Cipher.{zeros, key_rounds, key_halves, set_key}
use com_richard_test.Des.Cells.{
  length-bit_cpy, get_or-bit_cpy, length-byte_to_bit, get_or-byte_to_bit, length-tbl_replace,
  get_or-tbl_replace,
}
use com_richard_test.Des.Feistel.{length-zeros}

moved_down : ℕ → ℕ → List Bool → List Bool
moved_down mv n b = sweep n 0 (λ i out. get_or out (mv + i) false) b

get_or-moved_down :
    (mv n : ℕ) (b : List Bool) (j : ℕ)
    → j < n
    → n ≤ length b
    → get_or (moved_down mv n b) j false ≡ get_or b (mv + j) false
unfolding moved_down
get_or-moved_down mv n b j lt fits =
    get_or-sweep false (λ i out. get_or out (mv + i) false) (λ i o o' h. h (mv + i) (omega arith)) n
      0 b j (omega arith) (omega arith) (omega arith)

length-moved_down : (mv n : ℕ) (b : List Bool) → length (moved_down mv n b) ≡ length b
unfolding moved_down
length-moved_down mv n b = length-sweep n 0 _ b

-- On a whole array of at most 256 bits, `loop_bit` with a step within the array rotates to the left:
-- the first `mv_step` bits come behind the others.
pub loop_bit-rotates :
    (b : List Bool) (mv_step len : ℕ)
    → length b ≡ len
    → mv_step ≤ len
    → len ≤ 256
    → loop_bit b mv_step len ≡ drop mv_step b ++ take mv_step b
unfolding loop_bit moved_down
loop_bit-rotates b mv len e le small = λ i. front_eq i ++ back_eq i
  where
    moved : List Bool
    moved = moved_down mv (len - mv) b

    tmp : List Bool
    tmp = bit_cpy tmp_256 b mv

    front_eq : take (len - mv) moved ≡ drop mv b
    front_eq =
        get_or_ext false (take (len - mv) moved) (drop mv b)
          (omega (
            arith,
            length-take (len - mv) moved,
            length-drop mv b,
            length-moved_down mv (len - mv) b,
          ))
          λ i lt.
            let lt' : i < len - mv = omega (arith, length-take (len - mv) moved) in
            get_or-take (len - mv) moved i false lt'
            ∙ get_or-moved_down mv (len - mv) b i lt' (omega arith)
            ∙ sym (get_or-drop mv b i false)

    rest_length : length (drop (len - mv) moved) ≡ mv
    rest_length = omega (arith, length-drop (len - mv) moved, length-moved_down mv (len - mv) b)

    back_eq : bit_cpy (drop (len - mv) moved) tmp mv ≡ take mv b
    back_eq =
        get_or_ext false (bit_cpy (drop (len - mv) moved) tmp mv) (take mv b)
          (omega
            (arith, length-bit_cpy (drop (len - mv) moved) tmp mv, rest_length, length-take mv b))
          λ i lt.
            let lt' : i < mv =
              omega (arith, length-bit_cpy (drop (len - mv) moved) tmp mv, rest_length) in
            get_or-bit_cpy (drop (len - mv) moved) tmp mv i lt' (omega (arith, rest_length))
            ∙ get_or-bit_cpy tmp_256 b mv i lt' (omega (arith, length-replicate 256 false))
            ∙ sym (get_or-take mv b i false lt')

-- PC1 reads cells of the 64 key bits, and none that holds the top bit of a byte.
abbrev reads_low : ℕ → Bool
reads_low j = ltb (get_or pc1_tbl j 0 - 1) 64 && not ((get_or pc1_tbl j 0 - 1) % 8 == 7)

pc1_table : all_below 56 reads_low ≡ true
unfolding all_below pc1_tbl
pc1_table = refl

bit_of-mod_128 : (x k : ℕ) → k < 7 → bit_of (x % 128) k ≡ bit_of x k
unfolding bit_of
bit_of-mod_128 x zero h = ap (λ t. t == 1) (omega arith)
bit_of-mod_128 x (suc zero) h = ap (λ t. t == 1) (omega arith)
bit_of-mod_128 x (suc (suc zero)) h = ap (λ t. t == 1) (omega arith)
bit_of-mod_128 x (suc (suc (suc zero))) h = ap (λ t. t == 1) (omega arith)
bit_of-mod_128 x (suc (suc (suc (suc zero)))) h = ap (λ t. t == 1) (omega arith)
bit_of-mod_128 x (suc (suc (suc (suc (suc zero))))) h = ap (λ t. t == 1) (omega arith)
bit_of-mod_128 x (suc (suc (suc (suc (suc (suc zero)))))) h = ap (λ t. t == 1) (omega arith)
bit_of-mod_128 x (suc (suc (suc (suc (suc (suc (suc k))))))) h = absurd (omega arith)

module _ (key key' : List ℕ)
    (same : (k : ℕ) → k < 8 → get_or key k 0 % 128 ≡ get_or key' k 0 % 128) where
  key_bits : List ℕ → List Bool
  key_bits k = byte_to_bit (zeros 64) k 64

  low_bit :
      (c : ℕ) → c < 64 → c % 8 < 7 → get_or (key_bits key) c false ≡ get_or (key_bits key') c false
  unfolding key_bits
  low_bit c lt low =
      get_or-byte_to_bit (zeros 64) key 64 c lt (omega (arith, length-zeros 64))
      ∙ sym (bit_of-mod_128 (get_or key (c / 8) 0) (c % 8) low)
      ∙ ap (λ t. bit_of t (c % 8)) (same (c / 8) (omega arith))
      ∙ bit_of-mod_128 (get_or key' (c / 8) 0) (c % 8) low
      ∙ sym (get_or-byte_to_bit (zeros 64) key' 64 c lt (omega (arith, length-zeros 64)))

  chosen : List Bool → List Bool
  chosen b = tbl_replace b b pc1_tbl 56

  length-key_bits : (k : List ℕ) → length (key_bits k) ≡ 64
  unfolding key_bits
  length-key_bits k = length-byte_to_bit (zeros 64) k 64 ∙ length-zeros 64

  chosen_cell :
      (j : ℕ)
      → j < 56
      → get_or (chosen (key_bits key)) j false ≡ get_or (chosen (key_bits key')) j false
  unfolding chosen
  chosen_cell j lt =
      let entry = all_below_sound 56 reads_low j pc1_table lt in
      let inside : get_or pc1_tbl j 0 - 1 < 64 = ground arith in
      let low : (get_or pc1_tbl j 0 - 1) % 8 < 7 = ground arith in
      get_or-tbl_replace (key_bits key) (key_bits key) pc1_tbl 56 j lt
        (omega (arith, length-key_bits key)) (omega arith)
      ∙ low_bit (get_or pc1_tbl j 0 - 1) inside low
      ∙ sym (
          get_or-tbl_replace (key_bits key') (key_bits key') pc1_tbl 56 j lt
            (omega (arith, length-key_bits key')) (omega arith))

  length-chosen : (k : List ℕ) → length (chosen (key_bits k)) ≡ 64
  unfolding chosen
  length-chosen k = length-tbl_replace (key_bits k) (key_bits k) pc1_tbl 56 ∙ length-key_bits k

  -- Two keys whose eight bytes agree in their seven low bits have the same sub-keys.
  pub set_key-low_bits : set_key key ≡ set_key key'
  unfolding set_key key_halves key_bits chosen
  set_key-low_bits = λ i. key_rounds mv_tbl (record { l = left i; r = right i })
    where
      left : take 28 (chosen (key_bits key)) ≡ take 28 (chosen (key_bits key'))
      left =
          get_or_ext false (take 28 (chosen (key_bits key))) (take 28 (chosen (key_bits key')))
            (omega (
              arith,
              length-take 28 (chosen (key_bits key)),
              length-take 28 (chosen (key_bits key')),
              length-chosen key,
              length-chosen key',
            ))
            λ i lt.
              let lt' : i < 28 = omega (arith, length-take 28 (chosen (key_bits key))) in
              get_or-take 28 (chosen (key_bits key)) i false lt'
              ∙ chosen_cell i (omega arith)
              ∙ sym (get_or-take 28 (chosen (key_bits key')) i false lt')

      right : take 28 (drop 28 (chosen (key_bits key))) ≡ take 28 (drop 28 (chosen (key_bits key')))
      right =
          get_or_ext false (take 28 (drop 28 (chosen (key_bits key))))
            (take 28 (drop 28 (chosen (key_bits key'))))
            (omega (
              arith,
              length-take 28 (drop 28 (chosen (key_bits key))),
              length-take 28 (drop 28 (chosen (key_bits key'))),
              length-drop 28 (chosen (key_bits key)),
              length-drop 28 (chosen (key_bits key')),
              length-chosen key,
              length-chosen key',
            ))
            λ i lt.
              let lt' : i < 28 = omega (arith, length-take 28 (drop 28 (chosen (key_bits key)))) in
              get_or-take 28 (drop 28 (chosen (key_bits key))) i false lt'
              ∙ get_or-drop 28 (chosen (key_bits key)) i false
              ∙ chosen_cell (28 + i) (omega arith)
              ∙ sym (get_or-drop 28 (chosen (key_bits key')) i false)
              ∙ sym (get_or-take 28 (drop 28 (chosen (key_bits key'))) i false lt')
