-- ===== src/LineChecks/Inheritance.antt =====
-- `CheckRedundantVirtual` and `CheckRedundantOverrideOrFinal`.
use nwtool.Base.{
  ltb, if◌then◌else◌, length, get_or, take, drop, Text, txt, rfind, ℕ, ◌+◌, ◌-◌, Bool, ◌&&◌, ◌||◌,
  Option, none, some, List, [], ◌∷◌, ◌++◌,
}
use nwtool.Report.{Report, report}
use nwtool.Regex.{match, matches, search_in, searches, MatchResult}
use nwtool.Cleanse.{CleansedLines}
use nwtool.Cleanse.Strings.{group_text}
use nwtool.Brackets.{Place, close_expression}

-- The loop for the parameter list, over the lines from `start_line`: the end that `CloseExpression`
-- finds, `none` for its -1 and for no list at all. The column is 0 from the second line on.
unfoldable pub parameter_list_end : List Text → ℕ → ℕ → List Text → Option Place
unfolding match group_text close_expression
parameter_list_end elided start_line start_col [] = none
parameter_list_end elided start_line start_col (line ∷ lines) =
    let rest = parameter_list_end elided (start_line + 1) 0 lines in
    elim (match (txt "^([^(]*)\\(") (drop start_col line)) [
      | none ↦ rest
      | some m ↦ close_expression elided start_line (start_col + length (group_text 1 m))
    ]

-- The loop behind the parameter list, over the lines that it looks at.
unfoldable pub redundant_loop : ℕ → ℕ → List Text → List Report
unfolding search_in searches group_text
redundant_loop linenum end_col [] = []
redundant_loop linenum end_col (whole ∷ lines) =
    let line = drop end_col whole in
    let rest = redundant_loop linenum 0 lines in
    (elim (search_in (txt "\\b(override|final)\\b") line) [
      | none ↦ []
      | some m ↦
          report linenum (txt "readability/inheritance") 4 (
            txt "\"virtual\" is redundant since function is "
            ++ txt "already declared as \""
            ++ group_text 1 m
            ++ txt "\"")
          ∷ []
    ])
    ++ (if searches (txt "[^\\w]\\s*$") line then [] else rest)

-- The tests that leave out `virtual` before a base class.
unfoldable pub is_base_specifier : MatchResult → Text → Bool
unfolding searches matches group_text
is_base_specifier virtual line =
    searches (txt "\\b(public|protected|private)\\s+$") (group_text 1 virtual)
    || matches (txt "^\\s+(public|protected|private)\\b") (group_text 3 virtual)
    || matches (txt "^.*[^:]:[^:].*$") line

unfoldable pub check_redundant_virtual : CleansedLines → ℕ → List Report
unfolding match group_text is_base_specifier parameter_list_end redundant_loop
check_redundant_virtual clean linenum =
    let line = get_or clean.elided linenum [] in
    elim (match (txt "^(.*)(\\bvirtual\\b)(.*)$") line) [
      | none ↦ []
      | some virtual ↦
          if is_base_specifier virtual line
          then []
          else (elim (parameter_list_end clean.elided linenum (length (group_text 2 virtual))
              (take 3 (drop linenum clean.elided))) [
                | none ↦ []
                | some end ↦ redundant_loop linenum end.pos (take 3 (drop end.linenum clean.elided))
              ])
    ]

-- The part of a line behind the declarator, if there is one near by.
unfoldable pub virt_specifiers : List Text → ℕ → Option Text
unfolding rfind
virt_specifiers elided linenum =
    let line = get_or elided linenum [] in
    elim (rfind line b')') [
      | some declarator_end ↦ some (drop declarator_end line)
      | none ↦
          if ltb 1 linenum
          then elim (rfind (get_or elided (linenum - 1) []) b')') [
            | none ↦ none
            | some p ↦ some line
          ]
          else none
    ]

unfoldable pub check_redundant_override_or_final : CleansedLines → ℕ → List Report
unfolding virt_specifiers searches
check_redundant_override_or_final clean linenum = elim (virt_specifiers clean.elided linenum) [
  | none ↦ []
  | some fragment ↦
      if searches (txt "\\boverride\\b") fragment && searches (txt "\\bfinal\\b") fragment
      then report linenum (txt "readability/inheritance") 4 (
          txt "\"override\" is redundant since function is " ++ txt "already declared as \"final\"")
        ∷ []
      else []
]
