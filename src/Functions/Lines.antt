-- ===== src/Functions/Lines.antt =====
-- The lines of functions: build_support/cpplint.py, `IsBlankLine` and `CheckForFunctionLengths`.
pub mod Counting
use nwtool.Base.{
  if◌then◌else◌, get_or, drop, last?, Text, txt, text_eq, lstrip, words, ℕ, Bool, false, not, ◌||◌,
  Option, none, some, List, [], ◌∷◌, ◌++◌,
}
use nwtool.Report.{Report, report}
use nwtool.Regex.{match, matches, search_in, searches}
use nwtool.Cleanse.Strings.{group_text}
use nwtool.Functions.{FunctionState, begin, count_line, end_function, check}

-- The name before the parenthesis, if the line may start a function.
abbrev pub function_start : Text
function_start = txt "(\\w(\\w|::|\\*|\\&|\\s)*)\\("

unfoldable pub starting_func : Text → Bool
unfolding matches match words group_text text_eq
starting_func line = elim (match function_start line) [
  | none ↦ false
  | some m ↦ elim (last? (words (group_text 1 m))) [
    | none ↦ false
    | some function_name ↦
        text_eq function_name (txt "TEST")
        || text_eq function_name (txt "TEST_F")
        || not (matches (txt "[A-Z_]+$") function_name)
  ]
]

-- The name under which a function is counted, from its first line and the lines up to its brace.
unfoldable pub counted_name : Text → Text → Text
unfolding search_in matches group_text
counted_name line joined_line =
    let function : Text = elim (search_in (txt "((\\w|:)*)\\(") line) [
      | none ↦ []
      | some m ↦ group_text 1 m
    ] in
    if matches (txt "TEST") function
    then (elim (search_in (txt "(\\(.*\\))") joined_line) [
      | none ↦ function
      | some m ↦ function ++ group_text 1 m
    ])
    else function ++ txt "()"

-- The loop for the function's body over the lines that are left; `none` means that it found no
-- body and no sign that there is none.
unfoldable pub body_loop : FunctionState → Text → Text → List Text → Option FunctionState
unfolding lstrip searches counted_name begin
body_loop s line joined_line [] = none
body_loop s line joined_line (start_line ∷ rest) =
    let joined : Text = joined_line ++ (b' ' ∷ lstrip start_line) in
    let more = body_loop s line joined rest in
    if searches (txt "(;|})") start_line
    then some s
    else if searches (txt "{") start_line
    then some (begin s (counted_name line joined))
    else more

-- `CheckForFunctionLengths`, over the file's lines.
unfoldable pub check_for_function_lengths :
    FunctionState → ℕ → List Text → ℕ → FunctionState × List Report
unfolding starting_func body_loop check end_function count_line matches
check_for_function_lengths s verbose_level lines linenum =
    let line = get_or lines linenum [] in
    if starting_func line
    then (elim (body_loop s line [] (drop linenum lines)) [
      | some t ↦ (t, [])
      | none ↦ (
        s,
        report linenum (txt "readability/fn_size") 5
              (txt "Lint failed to find start of function body.")
            ∷ [],
      )
    ])
    else if matches (txt "^\\}\\s*$") line
    then (end_function s, check s verbose_level linenum)
    else if matches (txt "^\\s*$") line
    then (s, [])
    else (count_line s, [])
