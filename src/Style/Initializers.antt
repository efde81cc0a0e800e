-- ===== src/Style/Initializers.antt =====
-- Spaces round braces: `CheckBracesSpacing`, and `_IsType`, which it asks, and `IsDecltype`.
use nwtool.Base.{
  if◌then◌else◌, length, get_or, take, drop, Text, txt, contains, ℕ, zero, suc, ◌+◌, ◌-◌, Bool,
  true, false, not, ◌&&◌, Option, none, some, List, [], ◌∷◌, ◌++◌,
}
use nwtool.Report.{Report, report}
use nwtool.Regex.{match, matches, searches}
use nwtool.Cleanse.{CleansedLines}
use nwtool.Cleanse.Strings.{group_text}
use nwtool.Brackets.{close_expression, reverse_close_expression}
use nwtool.Nesting.Blocks.{Block, NestingState, is_namespace}
use nwtool.Nesting.Checks.{escape}

-- `_TYPES`
abbrev pub types : Text
types =
    txt "^(?:"
    ++ txt "(char(16_t|32_t)?)|wchar_t|"
    ++ txt "bool|short|int|long|signed|unsigned|float|double|"
    ++ txt "(ptrdiff_t|size_t|max_align_t|nullptr_t)|"
    ++ txt "(u?int(_fast|_least)?(8|16|32|64)_t)|"
    ++ txt "(u?int(max|ptr)_t)|"
    ++ txt ")$"

-- The loop back over `k` lines, of which the first has the number given: the line of the template.
unfoldable pub template_line : List Text → ℕ → ℕ → Option ℕ
unfolding contains
template_line elided first_line zero = none
template_line elided first_line (suc k) =
    let rest = template_line elided (first_line - 1) k in
    if contains (get_or elided first_line []) (txt "template") then some first_line else rest

-- The loop over `k` lines from `i` on.
unfoldable pub search_lines : Text → List Text → ℕ → ℕ → Bool
unfolding searches
search_lines pattern elided i zero = false
search_lines pattern elided i (suc k) =
    let rest = search_lines pattern elided (i + 1) k in
    if searches pattern (get_or elided i []) then true else rest

abbrev start_of_top : List Block → ℕ
start_of_top [] = 0
start_of_top (b ∷ bs) = b.starting_linenum

abbrev declares : Text → List Text → ℕ → Option ℕ → Bool
declares pattern elided last_line none = false
declares pattern elided last_line (some first_line) =
    search_lines pattern elided first_line (last_line + 1 - first_line)

-- The loop up the stack, for a block that declares the name as a type.
unfoldable pub declared_type : Text → List Text → List Block → Bool
unfolding template_line search_lines
declared_type pattern elided [] = false
declared_type pattern elided (b ∷ bs) =
    let last_line = b.starting_linenum in
    let found = template_line elided last_line (last_line + 1 - start_of_top bs) in
    let rest = declared_type pattern elided bs in
    if is_namespace b.kind
    then false
    else if declares pattern elided last_line found
    then true
    else rest

-- `_IsType`
unfoldable pub is_type : CleansedLines → NestingState → Text → Bool
unfolding match matches group_text escape declared_type
is_type clean s expr =
    let token : Text = elim (match (txt "^.*(\\b\\S+)$") expr) [
      | none ↦ expr
      | some m ↦ group_text 1 m
    ] in
    if matches types token
    then true
    else declared_type (txt "\\b(?:typename|class|struct)\\s+" ++ escape token ++ txt "\\b")
        clean.elided s.stack

abbrev joined : List Text → Text
joined [] = []
joined (l ∷ ls) = l ++ joined ls

-- What stands behind the closing brace: the rest of its line, and two lines more, but not the last.
unfoldable pub trailing_text : CleansedLines → ℕ → ℕ → Text
unfolding close_expression
trailing_text clean linenum pos = elim (close_expression clean.elided linenum pos) [
  | none ↦ []
  | some p ↦
      drop p.pos (get_or clean.elided p.linenum [])
      ++ joined (take 2 (drop (p.linenum + 1) (take (length clean.raw_lines - 1) clean.elided)))
]

unfoldable pub check_open_brace : CleansedLines → ℕ → NestingState → List Report
unfolding match matches group_text trailing_text is_type
check_open_brace clean linenum s =
    elim (match (txt "^(.*[^ ({>]){") (get_or clean.elided linenum [])) [
      | none ↦ []
      | some m ↦
          let leading_text = group_text 1 m in
          if not (
              matches (txt "^[\\s}]*[{.;,)<>\\]:]")
                (trailing_text clean linenum (length leading_text)))
            && not (is_type clean s leading_text)
          then report linenum (txt "whitespace/braces") 5 (txt "Missing space before {") ∷ []
          else []
    ]

abbrev semicolon : ℕ → Text → List Report
semicolon linenum message = report linenum (txt "whitespace/semicolon") 5 message ∷ []

unfoldable pub check_last_semicolon : Text → ℕ → List Report
unfolding searches
check_last_semicolon line linenum =
    if searches (txt ":\\s*;\\s*$") line
    then semicolon linenum (txt "Semicolon defining empty statement. Use {} instead.")
    else if searches (txt "^\\s*;\\s*$") line
    then semicolon linenum (
        txt "Line contains only semicolon. If this should be an empty statement, "
        ++ txt "use {} instead.")
    else if searches (txt "\\s+;\\s*$") line && not (searches (txt "\\bfor\\b") line)
    then semicolon linenum (
        txt "Extra space before last semicolon. If this should be an empty "
        ++ txt "statement, use {} instead.")
    else []

unfoldable pub check_braces_spacing : CleansedLines → ℕ → NestingState → List Report
unfolding check_open_brace searches check_last_semicolon
check_braces_spacing clean linenum s =
    let line = get_or clean.elided linenum [] in
    check_open_brace clean linenum s
    ++ (if searches (txt "}else") line
        then report linenum (txt "whitespace/braces") 5 (txt "Missing space before else") ∷ []
        else [])
    ++ check_last_semicolon line linenum

-- `IsDecltype`
unfoldable pub is_decltype : CleansedLines → ℕ → ℕ → Bool
unfolding reverse_close_expression searches
is_decltype clean linenum column = elim (reverse_close_expression clean.elided linenum column) [
  | none ↦ false
  | some p ↦ searches (txt "\\bdecltype\\s*$") (take p.pos (get_or clean.elided p.linenum []))
]
