-- ===== src/Spacing/Calls.antt =====
-- `CheckSpacingForFunctionCall`.
use nwtool.Base.{
  if◌then◌else◌, get_or, Text, txt, ℕ, Bool, not, ◌&&◌, none, some, List, [], ◌∷◌, ◌++◌,
}
use nwtool.Report.{Report, report}
use nwtool.Regex.{search_in, searches}
use nwtool.Cleanse.{CleansedLines}
use nwtool.Cleanse.Strings.{group_text}

abbrev parens : ℕ → ℕ → Text → List Report
parens linenum confidence message = report linenum (txt "whitespace/parens") confidence message ∷ []

-- The loop over the control structures: what stands between the parentheses of the first found.
unfoldable pub function_call : Text → List Text → Text
unfolding search_in group_text
function_call line [] = line
function_call line (pattern ∷ patterns) =
    let rest = function_call line patterns in
    elim (search_in pattern line) [ none ↦ rest | some m ↦ group_text 1 m ]

abbrev control_structures : List Text
control_structures =
    txt "\\bif\\s*\\((.*)\\)\\s*{"
    ∷ txt "\\bfor\\s*\\((.*)\\)\\s*{"
    ∷ txt "\\bwhile\\s*\\((.*)\\)\\s*[{;]"
    ∷ txt "\\bswitch\\s*\\((.*)\\)\\s*{"
    ∷ []

unfoldable pub is_plain_call : Text → Bool
unfolding searches
is_plain_call fncall =
    not (searches (txt "\\b(if|for|while|switch|return|new|delete|catch|sizeof)\\b") fncall)
    && not (searches (txt " \\([^)]+\\)\\([^)]*(\\)|,$)") fncall)
    && not (searches (txt " \\([^)]+\\)\\[[^\\]]+\\]") fncall)

unfoldable pub after_open : Text → ℕ → List Report
unfolding searches
after_open fncall linenum =
    if searches (txt "\\w\\s*\\(\\s(?!\\s*\\\\$)") fncall
    then parens linenum 4 (txt "Extra space after ( in function call")
    else if searches (txt "\\(\\s+(?!(\\s*\\\\)|\\()") fncall
    then parens linenum 2 (txt "Extra space after (")
    else []

unfoldable pub before_open : Text → Text → ℕ → List Report
unfolding searches
before_open line fncall linenum =
    if searches (txt "\\w\\s+\\(") fncall
      && not (searches (txt "_{0,2}asm_{0,2}\\s+_{0,2}volatile_{0,2}\\s+\\(") fncall)
      && not (searches (txt "#\\s*define|typedef|using\\s+\\w+\\s*=") fncall)
      && not (searches (txt "\\w\\s+\\((\\w+::)*\\*\\w+\\)\\(") fncall)
      && not (searches (txt "\\bcase\\s+\\(") fncall)
    then parens linenum (if searches (txt "\\boperator_*\\b") line then 0 else 4)
        (txt "Extra space before ( in function call")
    else []

unfoldable pub before_close : Text → ℕ → List Report
unfolding searches
before_close fncall linenum =
    if searches (txt "[^)]\\s+\\)\\s*[^{\\s]") fncall
    then (if searches (txt "^\\s+\\)") fncall
        then parens linenum 2 (txt "Closing ) should be moved to the previous line")
        else parens linenum 2 (txt "Extra space before )"))
    else []

unfoldable pub check_spacing_for_function_call : CleansedLines → ℕ → List Report
unfolding function_call is_plain_call after_open before_open before_close
check_spacing_for_function_call clean linenum =
    let line = get_or clean.elided linenum [] in
    let fncall = function_call line control_structures in
    if is_plain_call fncall
    then after_open fncall linenum ++ before_open line fncall linenum ++ before_close fncall linenum
    else []
