-- ===== src/Process.antt =====
-- One line of a file: build_support/cpplint.py, `ProcessLine`.
pub mod Data
use nwtool.Base.{get_or, Text, ℕ, true, false, Option, none, some, List, [], ◌∷◌, ◌++◌}
use nwtool.Base.Int.{ℤ}
use nwtool.Report.{Report}
use nwtool.Actions.{Action, parse_nolint, reported}
use nwtool.Cleanse.{CleansedLines}
use nwtool.FileInfo.{System, Flags}
use nwtool.Braces.Width.{Unicode}
use nwtool.FileChecks.{check_for_multiline_comments_and_strings}
use nwtool.Functions.{FunctionState}
use nwtool.Functions.Lines.{check_for_function_lengths}
use nwtool.Includes.{IncludeState}
use nwtool.Nesting.Blocks.{NestingState, in_asm_block}
use nwtool.Nesting.Update.{update}
use nwtool.LineChecks.{
  check_posix_threading, check_vlog_arguments, check_invalid_increment,
  check_make_pair_uses_deduction,
}
use nwtool.LineChecks.Inheritance.{check_redundant_virtual, check_redundant_override_or_final}
use nwtool.LineChecks.Namespaces.{check_for_namespace_indentation}
use nwtool.Constructors.{check_for_non_standard_constructs}
use nwtool.Language.Line.{check_language}
use nwtool.Language.References.{check_for_non_const_reference}
use nwtool.Style.{check_style}

-- What the checks read: the system, the module's variables that options set, and the file's name,
-- extension and cleansed lines. `extra_checks` are the checks that a caller adds.
pub record File : Type 0 where
  pub sys : System
  pub unicode : Unicode
  pub flags : Flags
  pub line_length : ℤ
  pub verbose_level : ℕ
  pub filename : Text
  pub file_extension : Text
  pub clean : CleansedLines
  pub extra_checks : List (CleansedLines → ℕ → List Report)

-- `include_state`, `function_state` and `nesting_state`.
pub record FileState : Type 0 where
  pub includes : IncludeState
  pub functions : FunctionState
  pub nesting : NestingState

abbrev extra_reports : List (CleansedLines → ℕ → List Report) → CleansedLines → ℕ → List Report
extra_reports [] clean linenum = []
extra_reports (check_fn ∷ fns) clean linenum =
    check_fn clean linenum ++ extra_reports fns clean linenum

-- The checks behind `CheckForNonStandardConstructs`.
unfoldable pub last_checks : File → ℕ → List Report
unfolding check_vlog_arguments check_posix_threading check_invalid_increment
    check_make_pair_uses_deduction check_redundant_virtual check_redundant_override_or_final
last_checks file linenum =
    check_vlog_arguments file.clean linenum
    ++ check_posix_threading file.clean linenum
    ++ check_invalid_increment file.clean linenum
    ++ check_make_pair_uses_deduction file.clean linenum
    ++ check_redundant_virtual file.clean linenum
    ++ check_redundant_override_or_final file.clean linenum
    ++ extra_reports file.extra_checks file.clean linenum

-- The checks from `CheckLanguage` on, for the state of the includes and of the nesting.
unfoldable pub language_checks :
    File → ℕ → IncludeState → NestingState → Option (IncludeState × List Report)
unfolding check_language check_for_non_const_reference check_for_non_standard_constructs last_checks
language_checks file linenum includes nesting =
    elim (check_language file.sys file.flags file.filename file.file_extension file.clean linenum
      includes) [
        | none ↦ none
        | some (after, language) ↦
            elim (check_for_non_standard_constructs file.clean linenum nesting) [
              | none ↦ none
              | some constructs ↦ some (
                after,
                language
                    ++ check_for_non_const_reference file.clean linenum nesting
                    ++ constructs
                    ++ last_checks file linenum,
              )
            ]
      ]

-- The checks of a line outside blocks of assembly.
unfoldable pub check_code_line : File → FileState → ℕ → Option (FileState × List Action)
unfolding check_for_function_lengths check_for_multiline_comments_and_strings check_style
    language_checks
check_code_line file s linenum =
    let (functions, lengths) =
      check_for_function_lengths s.functions file.verbose_level file.clean.lines linenum in
    elim (check_style file.sys file.flags file.unicode file.line_length file.filename
      file.file_extension file.clean linenum s.nesting) [
        | none ↦ none
        | some style ↦ elim (language_checks file linenum s.includes s.nesting) [
          | none ↦ none
          | some (includes, reports) ↦ some (
            record { includes = includes; functions = functions; nesting = s.nesting },
            reported lengths
                ++ reported (check_for_multiline_comments_and_strings file.clean linenum)
                ++ style
                ++ reported reports,
          )
        ]
      ]

abbrev with_actions :
    List Action → Option (FileState × List Action) → Option (FileState × List Action)
with_actions before none = none
with_actions before (some (s, actions)) = some (s, before ++ actions)

-- `ProcessLine`; `none` is an exception, or a loop that does not end.
unfoldable pub process_line : File → FileState → ℕ → Option (FileState × List Action)
unfolding update check_for_namespace_indentation in_asm_block check_code_line
process_line file s linenum = elim (update s.nesting file.clean linenum) [
  | none ↦ none
  | some (nesting, reports) ↦
      let t : FileState = record s { nesting = nesting } in
      let before =
        parse_nolint (get_or file.clean.raw_lines linenum []) linenum
        ∷ reported (
            reports
            ++ check_for_namespace_indentation s.nesting nesting file.clean.elided linenum) in
      elim (in_asm_block nesting) [
        | true ↦ some (t, before)
        | false ↦ with_actions before (check_code_line file t linenum)
      ]
]
