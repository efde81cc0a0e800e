-- ===== src/Language.antt =====
-- Parts of `CheckLanguage` in build_support/cpplint.py: `CheckPrintf`, and the questions on the
-- context of a line, `IsDerivedFunction`, `IsOutOfLineMethodDefinition`, `IsInitializerList` and
-- `ExpectingFunctionArgs`.
pub mod Inside
pub mod Casts
pub mod Statics
pub mod References
pub mod Line
use nwtool.Base.{
  leb, if◌then◌else◌, length, get_or, drop, Text, txt, text_eq, ℕ, zero, suc, ◌-◌, Bool, true,
  false, ◌&&◌, ◌||◌, none, some, List, [], ◌∷◌, ◌++◌,
}
use nwtool.Report.{Report, report}
use nwtool.Regex.{match, matches, search_in, searches}
use nwtool.Cleanse.{CleansedLines}
use nwtool.Cleanse.Strings.{group_text}
use nwtool.Brackets.{close_expression}

abbrev printf_report : ℕ → ℕ → Text → List Report
printf_report linenum confidence message =
    report linenum (txt "runtime/printf") confidence message ∷ []

unfoldable pub check_snprintf : Text → ℕ → List Report
unfolding search_in group_text text_eq
check_snprintf line linenum =
    elim (search_in (txt "snprintf\\s*\\(([^,]*),\\s*([0-9]*)\\s*,") line) [
      | none ↦ []
      | some m ↦
          if text_eq (group_text 2 m) (txt "0")
          then []
          else printf_report linenum 3 (
              txt "If you can, use sizeof("
              ++ group_text 1 m
              ++ txt ") instead of "
              ++ group_text 2 m
              ++ txt " as the 2nd arg to snprintf.")
    ]

unfoldable pub check_printf : CleansedLines → ℕ → List Report
unfolding check_snprintf searches search_in group_text
check_printf clean linenum =
    let line = get_or clean.elided linenum [] in
    check_snprintf line linenum
    ++ (if searches (txt "\\bsprintf\\s*\\(") line
        then printf_report linenum 5 (txt "Never use sprintf. Use snprintf instead.")
        else [])
    ++ (elim (search_in (txt "\\b(strcpy|strcat)\\s*\\(") line) [
      | none ↦ []
      | some m ↦
          printf_report linenum 4 (txt "Almost always, snprintf is better than " ++ group_text 1 m)
    ])

-- Line `i` starts a function that overrides another.
unfoldable pub overrides : List Text → ℕ → ℕ → Bool
unfolding close_expression searches
overrides elided i pos = elim (close_expression elided i pos) [
  | none ↦ false
  | some p ↦ searches (txt "\\boverride\\b") (drop p.pos (get_or elided p.linenum []))
]

-- The loops back over `k` lines, of which the first has the number given.
unfoldable pub derived_loop : List Text → ℕ → ℕ → Bool
unfolding match group_text overrides
derived_loop elided i zero = false
derived_loop elided i (suc k) =
    let rest = derived_loop elided (i - 1) k in
    elim (match (txt "^([^()]*\\w+)\\(") (get_or elided i [])) [
      | none ↦ rest
      | some m ↦ overrides elided i (length (group_text 1 m))
    ]

unfoldable pub out_of_line_loop : List Text → ℕ → ℕ → Bool
unfolding matches
out_of_line_loop elided i zero = false
out_of_line_loop elided i (suc k) =
    let rest = out_of_line_loop elided (i - 1) k in
    if matches (txt "^([^()]*\\w+)\\(") (get_or elided i [])
    then matches (txt "^[^()]*\\w+::\\w+\\(") (get_or elided i [])
    else rest

-- The lines back from a line, ten at most.
abbrev lines_back : ℕ → ℕ
lines_back linenum = if leb 10 linenum then 10 else suc linenum

unfoldable pub is_derived_function : CleansedLines → ℕ → Bool
unfolding derived_loop
is_derived_function clean linenum = derived_loop clean.elided linenum (lines_back linenum)

unfoldable pub is_out_of_line_method_definition : CleansedLines → ℕ → Bool
unfolding out_of_line_loop
is_out_of_line_method_definition clean linenum =
    out_of_line_loop clean.elided linenum (lines_back linenum)

-- The loop back from line `i`, whose text is given, over `k` lines.
unfoldable pub initializer_loop : List Text → Text → ℕ → ℕ → Bool
unfolding searches
initializer_loop elided line i zero = false
initializer_loop elided line i (suc k) =
    let rest = initializer_loop elided (get_or elided (i - 1) []) (i - 1) k in
    if searches (txt "\\s:\\s*\\w+[({]") line
    then true
    else if searches (txt "\\}\\s*,\\s*$") line
    then true
    else if searches (txt "[{};]\\s*$") line
    then false
    else rest

-- `IsInitializerList`; the lines from the given one down to line 2 are looked at.
unfoldable pub is_initializer_list : CleansedLines → ℕ → Bool
unfolding initializer_loop match group_text
is_initializer_list clean linenum =
    let line = get_or clean.elided linenum [] in
    let first : Text = elim (match (txt "^(.*)\\{\\s*$") line) [
      | none ↦ line
      | some m ↦ group_text 1 m
    ] in
    initializer_loop clean.elided first linenum (linenum - 1)

unfoldable pub expecting_function_args : CleansedLines → ℕ → Bool
unfolding matches searches
expecting_function_args clean linenum =
    let before = get_or clean.elided (linenum - 1) [] in
    matches (txt "^\\s*MOCK_(CONST_)?METHOD\\d+(_T)?\\(") (get_or clean.elided linenum [])
    || (leb 2 linenum
        && (matches (txt "^\\s*MOCK_(?:CONST_)?METHOD\\d+(?:_T)?\\((?:\\S+,)?\\s*$") before
            || matches (txt "^\\s*MOCK_(?:CONST_)?METHOD\\d+(?:_T)?\\(\\s*$")
                (get_or clean.elided (linenum - 2) [])
            || searches (txt "\\bstd::m?function\\s*\\<\\s*$") before))
