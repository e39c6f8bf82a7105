-- ===== src/Report/Tests.antt =====
-- Runs of the parser on short reports, and the theorems at concrete inputs.
use com_richard_test.Base.{
  ℕ, List, [], ◌∷◌, ◌++◌, Option, none, some, ◌≡◌, refl, arith, replicate, drop, codes,
}
use com_richard_test.Peer.Lines.{free-NonZero}
use com_richard_test.Report.{read, strcat, fields, obj_fields, prs_up_rpt_dt_obj, parsedt}
use com_richard_test.Report.Overflow.{parsedt_alarm}
use com_richard_test.Report.Json.{report_json, prs_up_rpt_dt_obj-report_json}

abbrev ones : ℕ → List ℕ
ones n = replicate n 49

abbrev behind_fields : Option (List ℕ) → List ℕ
behind_fields none = []
behind_fields (some o) = drop 360 o

-- With an id of another kind nothing stands behind the key ext, which JSON does not allow.
no_ext :
    behind_fields (prs_up_rpt_dt_obj (codes "0001") (ones 180 ++ 0 ∷ [])) ≡ codes "\",\"ext\":}"
unfolding prs_up_rpt_dt_obj fields obj_fields read strcat
no_ext = refl

-- 178 digits for the fields, the date 230102 and the data 77.
abbrev report : List ℕ
report = ones 178 ++ codes "23010277"

-- What is printed behind the fields.
printed_ext : drop 362 (report_json report) ≡ codes "\"ext\":{\"date\":\"230102\",\"dt\":\"77\"}}"
printed_ext = refl

prs_up_rpt_dt_obj-report_json_example :
    prs_up_rpt_dt_obj (codes "0002") (report ++ 0 ∷ []) ≡ some (report_json report)
prs_up_rpt_dt_obj-report_json_example =
    prs_up_rpt_dt_obj-report_json (codes "0002") report [] (free-NonZero report refl) refl
      (omega arith) (omega arith)

parsedt_alarm_example : parsedt (codes "0002000000000001 00" ++ 0 ∷ []) ≡ none
parsedt_alarm_example =
    parsedt_alarm (codes "0002000000000001 00" ++ 0 ∷ []) (λ e. absurd (omega (arith, e))) refl
      (λ e. absurd (omega (arith, e))) refl
