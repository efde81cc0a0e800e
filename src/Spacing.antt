-- ===== src/Spacing.antt =====
-- Horizontal and vertical space: build_support/cpplint.py, `CheckComment`, `CheckSpacing`,
-- `CheckParenthesisSpacing`, `CheckCommaSpacing`, `CheckSectionSpacing` and
-- `GetPreviousNonBlankLine`.
pub mod Lines
pub mod Calls
use nwtool.Base.{
  ltb, leb, ◌==◌, if◌then◌else◌, length, get_or, take, drop, Text, txt, text_eq, find, count,
  lstrip, ℕ, ◌+◌, ◌-◌, ◌%◌, Bool, true, false, not, ◌&&◌, ◌||◌, none, some, List, [], ◌∷◌, ◌++◌,
}
use nwtool.Report.{Report, report, when}
use nwtool.Regex.{match, matches, search_in, searches, replace_all, group, MatchResult}
use nwtool.Cleanse.{CleansedLines}
use nwtool.Cleanse.Strings.{group_text}
use nwtool.Nesting.Blocks.{NestingState, in_namespace_body, in_extern_c}
use Lines.{is_blank_line, is_initializer_list, opens_block}
use nwtool.Includes.Lines.{line_before}

-- `_RE_PATTERN_TODO`
abbrev pub todo_pattern : Text
todo_pattern = txt "^//(\\s*)TODO(\\(.+?\\))?:?(\\s|$)?"

-- What `CheckComment` says of a comment that is a TODO.
unfoldable pub check_todo : ℕ → MatchResult → List Report
unfolding group group_text text_eq
check_todo linenum m =
    when (ltb 1 (length (group_text 1 m)))
      (report linenum (txt "whitespace/todo") 2 (txt "Too many spaces before TODO"))
    ++ when (text_eq (group_text 2 m) []) (
        report linenum (txt "readability/todo") 2 (
          txt "Missing username in TODO; it should look like "
          ++ txt "\"// TODO(my_username): Stuff.\""))
    ++ when
        (elim (group 3 m) [
          | none ↦ true
          | some s ↦ not (text_eq s (txt " ")) && not (text_eq s [])
        ])
        (report linenum (txt "whitespace/todo") 2
          (txt "TODO(my_username) should be followed by a space"))

-- `c not in string.whitespace`
abbrev is_ink : ℕ → Bool
is_ink c = not ((leb 9 c && leb c 13) || c == b' ')

-- The code before a comment ends too close to it.
unfoldable pub is_crowded : Text → ℕ → ℕ → Bool
unfolding matches
is_crowded line commentpos next_line_start =
    not (matches (txt "^.*{ *//") line && next_line_start == commentpos)
    && ((leb 1 commentpos && is_ink (get_or line (commentpos - 1) 0))
        || (leb 2 commentpos && is_ink (get_or line (commentpos - 2) 0)))

unfoldable pub check_comment : Text → ℕ → ℕ → List Report
unfolding find replace_all count is_crowded match check_todo matches
check_comment line linenum next_line_start = elim (find line (txt "//")) [
  | none ↦ []
  | some commentpos ↦
      let comment = drop commentpos line in
      if count (replace_all (txt "\\\\.") [] (take commentpos line)) (txt "\"") % 2 == 0
      then when (is_crowded line commentpos next_line_start) (
          report linenum (txt "whitespace/comments") 2
            (txt "At least two spaces is best between code and comments"))
        ++ (elim (match todo_pattern comment) [ none ↦ [] | some m ↦ check_todo linenum m ])
        ++ when
            (matches (txt "//[^ ]*\\w") comment
              && not (matches (txt "(///|//\\!)(\\s+|$)") comment))
            (report linenum (txt "whitespace/comments") 4
              (txt "Should have a space between // and comment"))
      else []
]

-- The column of the first character of the next line that is not space.
unfoldable pub next_line_start : List Text → ℕ → ℕ
unfolding lstrip
next_line_start raw linenum =
    let next_line = get_or raw (linenum + 1) [] in length next_line - length (lstrip next_line)

unfoldable pub redundant_start : List Text → ℕ → List Report
unfolding opens_block is_initializer_list matches line_before
redundant_start elided linenum =
    let prev_line = line_before elided linenum in
    let exception =
      if matches (txt " {6}\\w") prev_line
      then is_initializer_list elided linenum
      else matches (txt " {4}\\w[^\\(]*\\)\\s*(const\\s*)?(\\{\\s*$|:)") prev_line
        || matches (txt " {4}:") prev_line in
    when (opens_block prev_line && not exception) (
      report linenum (txt "whitespace/blank_line") 2
        (txt "Redundant blank line at the start of a code block " ++ txt "should be deleted."))

unfoldable pub redundant_end : List Text → ℕ → List Report
unfolding matches find
redundant_end raw linenum =
    let next_line = get_or raw (linenum + 1) [] in
    when
      (matches (txt "\\s*}") next_line
        && (elim (find next_line (txt "} else ")) [ none ↦ true | some p ↦ false ]))
      (report linenum (txt "whitespace/blank_line") 3
        (txt "Redundant blank line at the end of a code block " ++ txt "should be deleted."))

unfoldable pub blank_after_access : List Text → ℕ → List Report
unfolding match group_text line_before
blank_after_access elided linenum =
    elim (match (txt "\\s*(public|protected|private):") (line_before elided linenum)) [
      | none ↦ []
      | some matched ↦
          report linenum (txt "whitespace/blank_line") 3
            (txt "Do not leave a blank line after \"" ++ group_text 1 matched ++ txt ":\"")
          ∷ []
    ]

-- The checks of a blank line, outside the bodies of namespaces and of `extern "C"`.
unfoldable pub check_blank_line : CleansedLines → ℕ → NestingState → List Report
unfolding is_blank_line in_namespace_body in_extern_c redundant_start redundant_end
    blank_after_access
check_blank_line clean linenum s =
    let raw = clean.lines_without_raw_strings in
    if is_blank_line (get_or raw linenum []) && not (in_namespace_body s) && not (in_extern_c s)
    then redundant_start clean.elided linenum
      ++ redundant_end raw linenum
      ++ blank_after_access clean.elided linenum
    else []

-- `CheckSpacing`
unfoldable pub check_spacing : CleansedLines → ℕ → NestingState → List Report
unfolding check_blank_line check_comment next_line_start searches
check_spacing clean linenum s =
    let raw = clean.lines_without_raw_strings in
    let line = get_or clean.elided linenum [] in
    check_blank_line clean linenum s
    ++ check_comment (get_or raw linenum []) linenum (next_line_start raw linenum)
    ++ when
        (searches (txt "\\w\\s+\\[") line
          && not (searches (txt "(?:auto&?|delete|return)\\s+\\[") line))
        (report linenum (txt "whitespace/braces") 5 (txt "Extra space before ["))
    ++ when
        (searches (txt "for *\\(.*[^:]:[^: ]") line || searches (txt "for *\\(.*[^: ]:[^:]") line)
        (report linenum (txt "whitespace/forcolon") 2
          (txt "Missing space around colon in range-based for loop"))

-- The spaces behind an opening and before its closing parenthesis.
unfoldable pub check_inner_spaces : Text → ℕ → MatchResult → List Report
unfolding group_text text_eq searches
check_inner_spaces line linenum m =
    let left = length (group_text 2 m) in
    let right = length (group_text 4 m) in
    when
      (not (left == right)
        && not (
            (text_eq (group_text 3 m) (txt ";") && left == 1 + right)
            || (left == 0 && searches (txt "\\bfor\\s*\\(.*; \\)") line)))
      (report linenum (txt "whitespace/parens") 5
        (txt "Mismatching spaces inside () in " ++ group_text 1 m))
    ++ when (ltb 1 left) (
        report linenum (txt "whitespace/parens") 5
          (txt "Should have zero or one spaces inside ( and ) in " ++ group_text 1 m))

unfoldable pub check_parenthesis_spacing : CleansedLines → ℕ → List Report
unfolding search_in group_text check_inner_spaces
check_parenthesis_spacing clean linenum =
    let line = get_or clean.elided linenum [] in
    (elim (search_in (txt " (if\\(|for\\(|while\\(|switch\\()") line) [
      | none ↦ []
      | some m ↦
          report linenum (txt "whitespace/parens") 5
            (txt "Missing space before ( in " ++ group_text 1 m)
          ∷ []
    ])
    ++ (elim (search_in
        (txt "\\b(if|for|while|switch)\\s*" ++ txt "\\(([ ]*)(.).*[^ ]+([ ]*)\\)\\s*{\\s*$") line) [
          | none ↦ []
          | some m ↦ check_inner_spaces line linenum m
        ])

unfoldable pub check_comma_spacing : CleansedLines → ℕ → List Report
unfolding searches replace_all
check_comma_spacing clean linenum =
    let line = get_or clean.elided linenum [] in
    when
      (searches (txt ",[^,\\s]") (replace_all (txt "\\boperator\\s*,\\s*\\(") (txt "F(") line)
        && searches (txt ",[^,\\s]") (get_or clean.lines_without_raw_strings linenum []))
      (report linenum (txt "whitespace/comma") 3 (txt "Missing space after ,"))
    ++ when (searches (txt ";[^\\s};\\\\)/]") line)
        (report linenum (txt "whitespace/semicolon") 3 (txt "Missing space after ;"))
