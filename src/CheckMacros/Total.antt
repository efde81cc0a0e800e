-- ===== src/CheckMacros/Total.antt =====
-- `CheckCheck` ends.
use nwtool.Base.{
  Bool-cases, get_or, drop, Text, txt, ℕ, ◌≡◌, refl, inl, inr, Option, none, some, List, [],
}
use nwtool.Report.{Report}
use nwtool.Regex.{matches}
use nwtool.Cleanse.{CleansedLines}
use nwtool.Brackets.{Place, close_expression}
use nwtool.CheckMacros.{
  check_macros, find_check_macro, check_expression, check_relation, check_parsed, check_end,
  check_found, check_check,
}
use nwtool.CheckMacros.Expression.{parse_expression}
use nwtool.CheckMacros.Expression.Total.{parse_expression-total}

abbrev Ends : Option (List Report) → Type 0
Ends o = (rs : List Report) × (o ≡ some rs)

check_parsed-Ends :
    (linenum : ℕ) (macro : Text) (o : Option (Option (Text × Text × Text)))
    (r : Option (Text × Text × Text))
    → o ≡ some r
    → Ends (check_parsed linenum macro o)
unfolding check_parsed
check_parsed-Ends linenum macro none r h = absurd (cc h)
check_parsed-Ends linenum macro (some none) r h = ([], refl)
check_parsed-Ends linenum macro (some (some relation)) r h =
    (check_relation linenum macro relation, refl)

check_end-Ends :
    (elided : List Text) (linenum : ℕ) (macro : Text) (start_pos : ℕ) (o : Option Place)
    → Ends (check_end elided linenum macro start_pos o)
unfolding check_end
check_end-Ends elided linenum macro start_pos none = ([], refl)
check_end-Ends elided linenum macro start_pos (some end) =
    let expression = check_expression elided linenum start_pos end in
    let (r, runs) = parse_expression-total expression in
    let (rs, ends) = check_parsed-Ends linenum macro (parse_expression expression) r runs in
    elim (Bool-cases (matches (txt "\\s*;") (drop end.pos (get_or elided end.linenum [])))) [
      | inl e ↦ (rs, rw (e, check_end) ends)
      | inr e ↦ ([], rw (e, check_end) refl)
    ]

check_found-Ends :
    (elided : List Text) (linenum : ℕ) (o : Option (Text × ℕ)) → Ends (check_found elided linenum o)
unfolding check_found
check_found-Ends elided linenum none = ([], refl)
check_found-Ends elided linenum (some (macro, start_pos)) =
    check_end-Ends elided linenum macro start_pos (close_expression elided linenum start_pos)

-- The loop of `CheckCheck` over the expression between the parentheses ends, so that the check
-- returns its reports, for every line of every file.
pub check_check-total :
    (clean : CleansedLines) (linenum : ℕ)
    → (rs : List Report) × (check_check clean linenum ≡ some rs)
unfolding check_check
check_check-total clean linenum =
    check_found-Ends clean.elided linenum
      (find_check_macro (get_or clean.elided linenum []) check_macros)
