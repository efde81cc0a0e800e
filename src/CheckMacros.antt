-- ===== src/CheckMacros.antt =====
-- Macros that check a comparison: build_support/cpplint.py, `FindCheckMacro` and `CheckCheck`.
pub mod Expression
pub mod Total
use nwtool.Base.{
  ◌==◌, if◌then◌else◌, length, get_or, take, drop, Text, txt, text_eq, starts_with, ends_with,
  strip, contains, ℕ, ◌+◌, ◌-◌, Bool, ◌||◌, Option, none, some, List, [], ◌∷◌, ◌++◌,
}
use nwtool.Report.{Report, report}
use nwtool.Regex.{match, matches}
use nwtool.Cleanse.{CleansedLines}
use nwtool.Cleanse.Strings.{group_text}
use nwtool.Brackets.{Place, close_expression}
use Expression.{parse_expression}

-- `_CHECK_MACROS`
abbrev pub check_macros : List Text
check_macros =
    txt "DCHECK"
    ∷ txt "CHECK"
    ∷ txt "EXPECT_TRUE"
    ∷ txt "ASSERT_TRUE"
    ∷ txt "EXPECT_FALSE"
    ∷ txt "ASSERT_FALSE"
    ∷ []

-- The names of an operator and of its negation.
abbrev pub operator_names : List (Text × Text × Text)
operator_names =
    (txt "==", txt "EQ", txt "NE")
    ∷ (txt "!=", txt "NE", txt "EQ")
    ∷ (txt ">=", txt "GE", txt "LT")
    ∷ (txt ">", txt "GT", txt "LE")
    ∷ (txt "<=", txt "LE", txt "GT")
    ∷ (txt "<", txt "LT", txt "GE")
    ∷ []

operator_name : Bool → Text → List (Text × Text × Text) → Text
operator_name negated operator [] = []
operator_name negated operator ((op, name, inverse) ∷ rest) =
    let more = operator_name negated operator rest in
    if text_eq op operator then (if negated then inverse else name) else more

-- `_CHECK_REPLACEMENT[check_macro][operator]`
unfoldable pub check_replacement : Text → Text → Text
unfolding operator_name text_eq starts_with ends_with
check_replacement check_macro operator =
    let prefix =
      if starts_with check_macro (txt "EXPECT_")
      then txt "EXPECT_"
      else if starts_with check_macro (txt "ASSERT_")
      then txt "ASSERT_"
      else check_macro ++ txt "_" in
    prefix ++ operator_name (ends_with check_macro (txt "_FALSE")) operator operator_names

-- `FindCheckMacro`, with `none` for no macro.
unfoldable pub find_check_macro : Text → List Text → Option (Text × ℕ)
unfolding contains match group_text
find_check_macro line [] = none
find_check_macro line (macro ∷ macros) =
    let rest = find_check_macro line macros in
    if contains line macro
    then (elim (match (txt "^(.*\\b" ++ macro ++ txt "\\s*)\\(") line) [
      | none ↦ rest
      | some m ↦ some (macro, length (group_text 1 m))
    ])
    else rest

abbrev concat : List Text → Text
concat [] = []
concat (l ∷ ls) = l ++ concat ls

-- What stands between the parentheses, from a line and position to the place behind the closing one.
unfoldable pub check_expression : List Text → ℕ → ℕ → Place → Text
check_expression elided linenum start_pos end =
    let first = get_or elided linenum [] in
    let last_line = get_or elided end.linenum [] in
    if linenum == end.linenum
    then drop (start_pos + 1) (take (end.pos - 1) first)
    else drop (start_pos + 1) first
      ++ concat (take (end.linenum - (linenum + 1)) (drop (linenum + 1) elided))
      ++ take (end.pos - 1) last_line

abbrev match_constant : Text
match_constant = txt "^([-+]?(\\d+|0[xX][0-9a-fA-F]+)[lLuU]{0,3}|\".*\"|\\'.*\\')$"

-- The tests of the two sides of a comparison.
unfoldable pub check_relation : ℕ → Text → Text × Text × Text → List Report
unfolding matches contains strip check_replacement text_eq
check_relation linenum check_macro (lhs, operator, rhs) =
    if text_eq lhs [] || text_eq rhs [] || contains rhs (txt "&&") || contains rhs (txt "||")
    then []
    else if matches match_constant (strip lhs) || matches match_constant (strip rhs)
    then report linenum (txt "readability/check") 2 (
        txt "Consider using "
        ++ check_replacement check_macro operator
        ++ txt " instead of "
        ++ check_macro
        ++ txt "(a "
        ++ operator
        ++ txt " b)")
      ∷ []
    else []

-- What follows the loop over the expression; here and below `none` means that the loop was given
-- too few rounds.
unfoldable pub check_parsed : ℕ → Text → Option (Option (Text × Text × Text)) → Option (List Report)
unfolding check_relation
check_parsed linenum check_macro none = none
check_parsed linenum check_macro (some none) = some []
check_parsed linenum check_macro (some (some relation)) =
    some (check_relation linenum check_macro relation)

-- What follows the search for the closing parenthesis.
unfoldable pub check_end : List Text → ℕ → Text → ℕ → Option Place → Option (List Report)
unfolding check_expression parse_expression check_parsed matches
check_end elided linenum check_macro start_pos none = some []
check_end elided linenum check_macro start_pos (some end) =
    let last_line = get_or elided end.linenum [] in
    if matches (txt "\\s*;") (drop end.pos last_line)
    then check_parsed linenum check_macro
        (parse_expression (check_expression elided linenum start_pos end))
    else some []

-- What follows the search for a macro.
unfoldable pub check_found : List Text → ℕ → Option (Text × ℕ) → Option (List Report)
unfolding close_expression check_end
check_found elided linenum none = some []
check_found elided linenum (some (check_macro, start_pos)) =
    check_end elided linenum check_macro start_pos (close_expression elided linenum start_pos)

-- `CheckCheck`
unfoldable pub check_check : CleansedLines → ℕ → Option (List Report)
unfolding find_check_macro check_found
check_check clean linenum =
    check_found clean.elided linenum
      (find_check_macro (get_or clean.elided linenum []) check_macros)
