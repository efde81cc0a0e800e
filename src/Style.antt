-- ===== src/Style.antt =====
-- Style of a line: build_support/cpplint.py, `CheckStyle`, and the checks that it calls and no other
-- module has.
pub mod Operators
pub mod Initializers
pub mod Tokens
pub mod Limits
use nwtool.Base.{
  ◌==◌, if◌then◌else◌, get_or, last?, Text, txt, text_eq, char_in, is_space, ℕ, zero, suc, Bool,
  false, not, ◌&&◌, ◌||◌, Option, none, some, List, [], ◌∷◌, ◌++◌,
}
use nwtool.Base.Int.{ℤ, pos, negsuc}
use nwtool.Report.{Report, report, when}
use nwtool.Actions.{Action, reported}
use nwtool.Regex.{matches, searches}
use nwtool.Cleanse.{CleansedLines}
use nwtool.FileInfo.{System, Flags}
use nwtool.Nesting.Blocks.{class_block, Block, NestingState, innermost_class}
use nwtool.Braces.{check_braces}
use nwtool.Braces.Width.{Unicode}
use nwtool.Braces.Semicolons.{check_trailing_semicolon}
use nwtool.Braces.Empty.{check_empty_block_body}
use nwtool.Spacing.{check_spacing, check_parenthesis_spacing, check_comma_spacing}
use nwtool.Spacing.Calls.{check_spacing_for_function_call}
use nwtool.Spacing.Lines.{check_section_spacing}
use nwtool.CheckMacros.{check_check}
use Operators.{check_operator_spacing}
use Initializers.{check_braces_spacing}
use Tokens.{check_alt_tokens}
use Limits.{is_header_guard, check_line_length, check_commands}

unfoldable pub initial_spaces : Text → ℕ
initial_spaces [] = 0
initial_spaces (c ∷ s) = if c == b' ' then suc (initial_spaces s) else 0

abbrev pub scope_or_label : Text
scope_or_label = txt "\\s*\\w+\\s*:\\s*\\\\?$"

-- The indentation of a line, with the line before it, or the empty text on line 0.
unfoldable pub check_indent : CleansedLines → ℕ → Text → Text → List Report
unfolding initial_spaces searches matches text_eq
check_indent clean linenum prev line =
    when
      (not (searches (txt "[\",=><] *$") prev)
        && (initial_spaces line == 1 || initial_spaces line == 3)
        && not (matches scope_or_label (get_or clean.elided linenum []))
        && not (
            not (text_eq (get_or clean.raw_lines linenum []) line)
            && matches (txt "^\\s*\"\"") line))
      (report linenum (txt "whitespace/indent") 3
        (txt "Weird number of spaces at line-start.  " ++ txt "Are you using a 2-space indent?"))

abbrev ends_in_space : Text → Bool
ends_in_space line = elim (last? line) [ none ↦ false | some c ↦ is_space c ]

abbrev before : List Text → ℕ → Text
before lines zero = []
before lines (suc n) = get_or lines n []

-- The first checks, up to the end of the line.
unfoldable pub check_layout : CleansedLines → ℕ → List Report
unfolding char_in check_indent is_space
check_layout clean linenum =
    let raw_lines = clean.lines_without_raw_strings in
    let line = get_or raw_lines linenum [] in
    when (char_in 9 line)
      (report linenum (txt "whitespace/tab") 1 (txt "Tab found; better to use spaces"))
    ++ check_indent clean linenum (before raw_lines linenum) line
    ++ when (ends_in_space line) (
        report linenum (txt "whitespace/end_of_line") 4
          (txt "Line ends in whitespace.  Consider deleting these extra spaces."))

-- `_line_length` where a number that is not negative is added before the test: no negative number
-- says more than 0.
abbrev at_least_zero : ℤ → ℕ
at_least_zero (pos n) = n
at_least_zero (negsuc n) = 0

-- The spaces between sections of the innermost class.
unfoldable pub check_sections : CleansedLines → ℕ → List Block → List Report
unfolding innermost_class check_section_spacing
check_sections clean linenum stack = elim (innermost_class stack) [
  | none ↦ []
  | some b ↦ elim b.kind [
    | class_block c ↦ check_section_spacing clean b.starting_linenum c linenum
    | _ ↦ []
  ]
]

-- The checks on braces and spaces, before the `CHECK` macros; `none` is a loop that does not end.
unfoldable pub check_spaces : Unicode → ℤ → CleansedLines → ℕ → NestingState → Option (List Action)
unfolding check_braces check_trailing_semicolon check_empty_block_body check_spacing
    check_operator_spacing check_parenthesis_spacing check_comma_spacing check_braces_spacing
    check_spacing_for_function_call
check_spaces u line_length clean linenum s = elim (check_operator_spacing clean linenum) [
  | none ↦ none
  | some operators ↦ some (
      reported (check_braces u (at_least_zero line_length) clean linenum)
      ++ check_trailing_semicolon clean linenum
      ++ reported (check_empty_block_body clean linenum)
      ++ reported (check_spacing clean linenum s)
      ++ reported operators
      ++ reported (check_parenthesis_spacing clean linenum)
      ++ reported (check_comma_spacing clean linenum)
      ++ reported (check_braces_spacing clean linenum s)
      ++ reported (check_spacing_for_function_call clean linenum))
]

-- The checks that `CheckStyle` calls.
unfoldable pub check_components :
    Unicode → ℤ → CleansedLines → ℕ → NestingState → Option (List Action)
unfolding check_spaces check_check check_alt_tokens check_sections
check_components u line_length clean linenum s = elim (check_spaces u line_length clean linenum s) [
  | none ↦ none
  | some spaces ↦ elim (check_check clean linenum) [
    | none ↦ none
    | some macros ↦ some (
        spaces
        ++ reported macros
        ++ reported (check_alt_tokens clean linenum)
        ++ reported (check_sections clean linenum s.stack))
  ]
]

-- `CheckStyle`; `none` means that a loop does not end.
unfoldable pub check_style :
    System
    → Flags
    → Unicode
    → ℤ
    → Text
    → Text
    → CleansedLines
    → ℕ
    → NestingState
    → Option (List Action)
unfolding check_layout is_header_guard check_line_length check_commands check_components
check_style sys flags u line_length filename file_extension clean linenum s =
    let line = get_or clean.lines_without_raw_strings linenum [] in
    elim (is_header_guard sys flags filename file_extension line) [
      | none ↦ none
      | some guard ↦ elim (check_components u line_length clean linenum s) [
        | none ↦ none
        | some actions ↦ some (
            reported (check_layout clean linenum)
            ++ reported (check_line_length u line_length guard line linenum)
            ++ reported (check_commands clean line linenum)
            ++ actions)
      ]
    ]
