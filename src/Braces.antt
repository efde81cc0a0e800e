-- ===== src/Braces.antt =====
-- Braces: build_support/cpplint.py, `CheckBraces` and `CheckTrailingSemicolon`.
pub mod Width
pub mod Bodies
pub mod Semicolons
pub mod Empty
use nwtool.Base.{
  ltb, if◌then◌else◌, get_or, drop, last?, Text, txt, char_in, find, contains, ℕ, ◌+◌, Bool, not,
  ◌&&◌, ◌||◌, Option, none, some, List, [], ◌∷◌, ◌++◌,
}
use nwtool.Report.{Report, report}
use nwtool.Regex.{matches, searches}
use nwtool.Cleanse.{CleansedLines}
use nwtool.Brackets.{found, lost, open_stack, close_expression, find_end_of_expression_in_line}
use nwtool.Spacing.Lines.{get_previous_non_blank_line}
use Width.{Unicode, get_line_width}
use Bodies.{brace_report, check_if_else}

-- The line that `CloseExpression` looks at last, where it finds no end.
stop_later : Text → List Text → List ℕ → Text
unfolding find_end_of_expression_in_line
stop_later line [] stack = line
stop_later line (l ∷ ls) [] = line
stop_later line (l ∷ ls) (x ∷ xs) = elim (find_end_of_expression_in_line l 0 (x ∷ xs)) [
  | found e ↦ l
  | lost ↦ l
  | open_stack stack ↦ stop_later l ls stack
]

unfoldable pub stop_line : List Text → ℕ → ℕ → Text
unfolding find_end_of_expression_in_line stop_later
stop_line elided linenum pos =
    let line = get_or elided linenum [] in
    elim (find_end_of_expression_in_line line pos []) [
      | found e ↦ line
      | lost ↦ line
      | open_stack stack ↦ stop_later line (drop (linenum + 1) elided) stack
    ]

-- What stands behind the end of the expression: where there is no end the position is -1, which
-- leaves the last character.
unfoldable pub behind_expression : List Text → ℕ → ℕ → Text
unfolding close_expression stop_line
behind_expression elided linenum pos = elim (close_expression elided linenum pos) [
  | some p ↦ drop p.pos (get_or elided p.linenum [])
  | none ↦ elim (last? (stop_line elided linenum pos)) [ none ↦ [] | some c ↦ c ∷ [] ]
]

abbrev both_sides : ℕ → List Report
both_sides linenum =
    brace_report linenum 5 (txt "If an else has a brace on one side, it should have it on both")

-- The parenthesis behind the first `else if`, which the caller has found.
unfoldable pub else_if_pos : Text → Option ℕ
unfolding find
else_if_pos line = elim (find line (txt "else if")) [
  | none ↦ none
  | some p ↦ elim (find (drop p line) (txt "(")) [ none ↦ none | some q ↦ some (p + q) ]
]

unfoldable pub check_else_sides : List Text → ℕ → List Report
unfolding searches matches else_if_pos behind_expression char_in
check_else_sides elided linenum =
    let line = get_or elided linenum [] in
    if searches (txt "else if\\s*\\(") line
    then (elim (else_if_pos line) [
      | none ↦ []
      | some pos ↦
          let brace_on_left = searches (txt "}\\s*else if\\s*\\(") line in
          let brace_on_right = char_in b'{' (behind_expression elided linenum pos) in
          if ltb 0 pos && (if brace_on_left then not brace_on_right else brace_on_right)
          then both_sides linenum
          else []
    ])
    else if searches (txt "}\\s*else[^{]*$") line || matches (txt "[^}]*else\\s*{") line
    then both_sides linenum
    else []

-- A report on line ends, if a test says so.
abbrev newline : ℕ → Bool → Text → List Report
newline linenum b message =
    if b then report linenum (txt "whitespace/newline") 4 message ∷ [] else []

module _ (u : Unicode) (line_length : ℕ) where
  -- An opening brace that stands alone on its line.
  unfoldable pub check_lone_brace : Text → Text → ℕ → List Report
  unfolding matches searches get_line_width contains
  check_lone_brace line prevline linenum =
      if matches (txt "\\s*{\\s*$") line
        && not (searches (txt "[,;:}{(]\\s*$") prevline)
        && not (matches (txt "\\s*#") prevline)
        && not (ltb line_length (get_line_width u prevline + 2) && contains prevline (txt "[]"))
      then report linenum (txt "whitespace/braces") 4
          (txt "{ should almost always be at the end of the previous line")
        ∷ []
      else []

  -- `CheckBraces`
  unfoldable pub check_braces : CleansedLines → ℕ → List Report
  unfolding get_previous_non_blank_line check_lone_brace matches searches check_else_sides
      check_if_else
  check_braces clean linenum =
      let line = get_or clean.elided linenum [] in
      let prevline : Text = elim (get_previous_non_blank_line clean.elided linenum) [
        | none ↦ []
        | some (l, n) ↦ l
      ] in
      check_lone_brace line prevline linenum
      ++ newline linenum
          (matches (txt "\\s*else\\b\\s*(?:if\\b|\\{|$)") line
            && matches (txt "\\s*}\\s*$") prevline)
          (txt "An else should appear on the same line as the preceding }")
      ++ check_else_sides clean.elided linenum
      ++ newline linenum
          (searches (txt "\\belse [^\\s{]") line && not (searches (txt "\\belse if\\b") line))
          (txt "Else clause should never be on same line as else (use 2 lines)")
      ++ newline linenum (matches (txt "\\s*do [^\\s{]") line)
          (txt "do/while clauses should not be on a single line")
      ++ check_if_else clean.elided linenum
