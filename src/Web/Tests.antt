-- ===== src/Web/Tests.antt =====
-- Runs of the functions of cpp/http/util.c on short texts, and the theorems at concrete inputs.
use com_richard_test.Base.{
  ℕ, zero, suc, List, [], ◌∷◌, Bool, true, ◌&&◌, not, none, some, ◌==◌, inl, inr, ◌≡◌, refl, arith,
  replicate,
}
use com_richard_test.Web.{
  put, method_loop, getmethod, starts_with, json_loop, getjsonv, Request, cut_request,
}
use com_richard_test.Web.Json.{Missing}
use com_richard_test.Web.Parts.{NonZero, IsCut, cut_request-Fits, cut_request-Overflows}

-- GET /a X, a blank line, and the body hi
abbrev get_a : List ℕ
get_a = 71 ∷ 69 ∷ 84 ∷ 32 ∷ 47 ∷ 97 ∷ 32 ∷ 88 ∷ 13 ∷ 10 ∷ 13 ∷ 10 ∷ 104 ∷ 105 ∷ []

-- DELETE /a
abbrev delete_a : List ℕ
delete_a = 68 ∷ 69 ∷ 76 ∷ 69 ∷ 84 ∷ 69 ∷ 32 ∷ 47 ∷ 97 ∷ []

abbrev nonzero : List ℕ → Bool
nonzero [] = true
nonzero (c ∷ s) = not (c == 0) && nonzero s

nonzero_sound : (s : List ℕ) → nonzero s ≡ true → NonZero s
nonzero_sound [] h = tt
nonzero_sound (c ∷ s) h = (ground arith, nonzero_sound s (ground arith))

-- A word of as many characters as the buffer has cells: the 0 does not fit.
method_full : getmethod (68 ∷ 69 ∷ 76 ∷ 69 ∷ 84 ∷ 69 ∷ 32 ∷ []) (replicate 5 0) 5 ≡ none
unfolding getmethod method_loop put
method_full = refl

-- {"k":"v"}: the value is written at the start, the 0 at index 7, and what stood at index 1 stays.
value_not_ended :
    getjsonv (123 ∷ 34 ∷ 107 ∷ 34 ∷ 58 ∷ 34 ∷ 118 ∷ 34 ∷ 125 ∷ []) (replicate 10 120) (107 ∷ []) 10
    ≡ some (118 ∷ 120 ∷ 120 ∷ 120 ∷ 120 ∷ 120 ∷ 120 ∷ 0 ∷ 120 ∷ 120 ∷ [])
unfolding getjsonv json_loop starts_with put
value_not_ended = refl

cut_request-Fits_example : (p : Request) × (cut_request get_a ≡ some p) × IsCut get_a p
cut_request-Fits_example =
    cut_request-Fits get_a (nonzero_sound get_a refl)
      (omega arith, omega arith, omega arith, omega arith)

cut_request-Overflows_example : cut_request delete_a ≡ none
cut_request-Overflows_example =
    cut_request-Overflows delete_a (nonzero_sound delete_a refl) (inr (inr (inl (omega arith))))

-- The text ab has no x.
no_x : Missing (97 ∷ 98 ∷ []) (120 ∷ []) 0
unfolding starts_with
no_x zero le lt = refl
no_x (suc zero) le lt = refl
no_x (suc (suc k)) le lt = absurd (omega arith)
