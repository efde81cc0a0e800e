-- ===== src/Braces/Empty.antt =====
-- Empty bodies: build_support/cpplint.py, `CheckEmptyBlockBody`.
use nwtool.Base.{
  ltb, ◌==◌, if◌then◌else◌, get_or, take, drop, Text, txt, text_eq, find, join_with, ℕ, ◌+◌, ◌-◌,
  Bool, true, false, not, Option, none, some, List, [], ◌∷◌, ◌++◌,
}
use nwtool.Report.{Report, report}
use nwtool.Regex.{match, matches, searches}
use nwtool.Cleanse.{CleansedLines}
use nwtool.Cleanse.Strings.{group_text, cleanse_comments}
use nwtool.Brackets.{Place, close_expression}

-- The position of a text, or 0.
abbrev position : Text → Text → ℕ
position line p = elim (find line p) [ none ↦ 0 | some i ↦ i ]

-- The loop for the opening brace, from what stands behind the condition: the number of the line, and
-- the part of it that was looked at.
unfoldable pub opening_loop : ℕ → Text → List Text → Option (ℕ × Text)
unfolding searches
opening_loop linenum fragment [] =
    if searches (txt "^\\s*\\{") fragment then some (linenum, fragment) else none
opening_loop linenum fragment (line ∷ lines) =
    let rest = opening_loop (linenum + 1) line lines in
    if searches (txt "^\\s*\\{") fragment
    then some (linenum, fragment)
    else if searches (txt "^(?!\\s*$)") fragment
    then none
    else rest

-- The loop for an `else` behind the closing brace.
unfoldable pub else_follows : Text → List Text → Bool
unfolding searches
else_follows fragment [] = searches (txt "^(?=\\s*else)") fragment
else_follows fragment (line ∷ lines) =
    let rest = else_follows line lines in
    if searches (txt "^(?=\\s*else)") fragment
    then true
    else if searches (txt "^\\s*$") fragment
    then rest
    else false

-- `list(text)`
abbrev characters : Text → List Text
characters [] = []
characters (c ∷ s) = (c ∷ []) ∷ characters s

-- The text between the braces.
unfoldable pub conditional_body : CleansedLines → ℕ → ℕ → Place → Text
unfolding join_with
conditional_body clean opening_linenum opening_pos closing =
    let opening_line = get_or clean.elided opening_linenum [] in
    if ltb opening_linenum closing.linenum
    then join_with 10 (
        characters (drop (opening_pos + 1) opening_line)
        ++ take (closing.linenum - (opening_linenum + 1))
            (drop (opening_linenum + 1) clean.raw_lines)
        ++ take (closing.pos - 1) (get_or clean.elided closing.linenum []) ∷ [])
    else drop (opening_pos + 1) (take (closing.pos - 1) opening_line)

-- The braces of an `if` are empty, and no `else` follows.
unfoldable pub is_empty_if : CleansedLines → Place → Bool
unfolding opening_loop close_expression cleanse_comments text_eq conditional_body searches
    else_follows find
is_empty_if clean end =
    let elided = clean.elided in
    let behind = drop end.pos (get_or elided end.linenum []) in
    elim (opening_loop end.linenum behind (drop (end.linenum + 1) elided)) [
      | none ↦ false
      | some (opening_linenum, fragment) ↦
          let brace = position fragment (txt "{") in
          let opening_pos = if opening_linenum == end.linenum then brace + end.pos else brace in
          let raw = get_or clean.raw_lines opening_linenum [] in
          elim (close_expression elided opening_linenum opening_pos) [
            | none ↦ false
            | some closing ↦
                if not (text_eq raw (cleanse_comments raw))
                then false
                else if not (
                    searches (txt "^\\s*$")
                      (conditional_body clean opening_linenum opening_pos closing))
                then false
                else not (
                    else_follows (drop closing.pos (get_or elided closing.linenum []))
                      (drop (closing.linenum + 1) elided))
          ]
    ]

-- The reports on a loop or an `if` whose condition ends at this place.
unfoldable pub check_empty_body : CleansedLines → Bool → Place → List Report
unfolding matches is_empty_if
check_empty_body clean is_if end =
    (if matches (txt ";") (drop end.pos (get_or clean.elided end.linenum []))
      then (if is_if
          then report end.linenum (txt "whitespace/empty_conditional_body") 5
              (txt "Empty conditional bodies should use {}")
          else report end.linenum (txt "whitespace/empty_loop_body") 5
              (txt "Empty loop bodies should use {} or continue"))
        ∷ []
      else [])
    ++ (if is_if
        then (if is_empty_if clean end
            then report end.linenum (txt "whitespace/empty_if_body") 4
                (txt "If statement had no body and no else clause")
              ∷ []
            else [])
        else [])

unfoldable pub check_empty_block_body : CleansedLines → ℕ → List Report
unfolding match group_text find close_expression check_empty_body text_eq
check_empty_block_body clean linenum =
    let line = get_or clean.elided linenum [] in
    elim (match (txt "\\s*(for|while|if)\\s*\\(") line) [
      | none ↦ []
      | some matched ↦ elim (close_expression clean.elided linenum (position line (txt "("))) [
        | none ↦ []
        | some end ↦ check_empty_body clean (text_eq (group_text 1 matched) (txt "if")) end
      ]
    ]
