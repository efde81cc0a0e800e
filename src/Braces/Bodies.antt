-- ===== src/Braces/Bodies.antt =====
-- The bodies of `if` and `else` without braces, in `CheckBraces`.
use nwtool.Base.{
  ltb, ◌==◌, if◌then◌else◌, is_some, length, get_or, drop, Text, txt, find, contains, ℕ, ◌+◌, ◌-◌,
  Bool, not, ◌&&◌, ◌||◌, Option, none, some, List, [], ◌∷◌, ◌++◌,
}
use nwtool.Report.{Report, report}
use nwtool.Regex.{matches, search_in, MatchResult}
use nwtool.Nesting.Blocks.{get_indent_level}
use nwtool.Brackets.{Place, close_expression}

abbrev pub brace_report : ℕ → ℕ → Text → List Report
brace_report linenum confidence message =
    report linenum (txt "readability/braces") confidence message ∷ []

abbrev pub match_end : MatchResult → ℕ
match_end m = m.start + length m.whole

-- The loop for the first semicolon: the line that has it, and its number.
unfoldable pub semicolon_line : ℕ → ℕ → List Text → Option (ℕ × Text)
unfolding contains
semicolon_line endlinenum endpos [] = none
semicolon_line endlinenum endpos (line ∷ lines) =
    let rest = semicolon_line (endlinenum + 1) 0 lines in
    if contains (drop endpos line) (txt ";") then some (endlinenum, line) else rest

-- The checks at the line with the first semicolon.
unfoldable pub check_body : List Text → ℕ → Text → Bool → ℕ → Text → List Report
unfolding find matches get_indent_level
check_body elided linenum line is_if endlinenum endline =
    let rest = drop (elim (find endline (txt ";")) [ none ↦ 0 | some p ↦ p ]) endline in
    let next_line = get_or elided (endlinenum + 1) [] in
    let if_indent = get_indent_level line in
    let next_indent = get_indent_level next_line in
    let many =
      brace_report linenum 4 (txt "If/else bodies with multiple statements require braces") in
    if not (matches (txt ";[\\s}]*(\\\\?)$") rest)
    then (if matches (txt "^[^{};]*\\[[^\\[\\]]*\\][^{}]*\\{[^{}]*\\}\\s*\\)*[;,]\\s*$") endline
        then []
        else many)
    else if not (ltb (endlinenum + 1) (length elided))
    then []
    else if is_if && matches (txt "\\s*else\\b") next_line && not (next_indent == if_indent)
    then brace_report linenum 4 (
        txt "Else clause should be indented at the same level as if. "
        ++ txt "Ambiguous nested if/else chains require braces.")
    else if ltb if_indent next_indent
    then many
    else []

-- A brace opens the body, behind the place or on the next line.
unfoldable pub is_braced : List Text → Place → Bool
unfolding matches
is_braced elided p =
    let rest = drop p.pos (get_or elided p.linenum []) in
    matches (txt "\\s*{") rest
    || (matches (txt "\\s*$") rest && matches (txt "\\s*{") (get_or elided (p.linenum + 1) []))

-- The place behind the condition of an `if`, or behind an `else`; where the condition does not end
-- the loop for the semicolon has no line to look at.
unfoldable pub body_place : List Text → ℕ → Text → MatchResult → Option Place
unfolding search_in close_expression
body_place elided linenum line m = elim (search_in (txt "\\bif\\s*\\(") line) [
  | none ↦ some (record { linenum = linenum; pos = match_end m })
  | some if_match ↦ close_expression elided linenum (match_end if_match - 1)
]

unfoldable pub check_if_else : List Text → ℕ → List Report
unfolding search_in matches body_place is_braced semicolon_line check_body
check_if_else elided linenum =
    let line = get_or elided linenum [] in
    elim (search_in (txt "\\b(if\\s*\\(|else\\b)") line) [
      | none ↦ []
      | some m ↦
          if matches (txt "\\s*#") line then [] else (elim (body_place elided linenum line m) [
            | none ↦ []
            | some p ↦
                if is_braced elided p
                then []
                else (elim (semicolon_line p.linenum p.pos (drop p.linenum elided)) [
                  | none ↦ []
                  | some (endlinenum, endline) ↦
                      check_body elided linenum line (is_some (search_in (txt "\\bif\\s*\\(") line))
                        endlinenum endline
                ])
          ])
    ]
