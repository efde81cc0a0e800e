-- ===== src/Process/Data.antt =====
-- The lines of a file: `ProcessFileData`.
pub mod Kept
use nwtool.Base.{if◌then◌else◌, length, Text, ℕ, zero, suc, ◌+◌, Option, none, some, List, [], ◌++◌}
use nwtool.Base.Int.{ℤ}
use nwtool.Report.{Report}
use nwtool.Actions.{Action, reported, Linter, act_all}
use nwtool.Cleanse.{CleansedLines, cleansed_lines}
use nwtool.Cleanse.Comments.{remove_multi_line_comments}
use nwtool.FileInfo.{System, Flags, is_header_extension, is_source_extension}
use nwtool.FileChecks.{
  add_markers, check_for_bad_characters, check_for_newline_at_eof, check_for_copyright,
}
use nwtool.Functions
use nwtool.HeaderGuard.{check_for_header_guard}
use nwtool.Includes
use nwtool.Includes.Own.{check_header_file_included}
use nwtool.IncludeWhatYouUse.{check_for_include_what_you_use}
use nwtool.LineChecks.{flag_cxx11_features}
use nwtool.Nesting.Blocks
use nwtool.Nesting.Checks.{check_completed_blocks}
use nwtool.Nolint.{reset, process_global_suppressions}
use nwtool.Braces.Width.{Unicode}
use nwtool.Process.{File, FileState, process_line}

abbrev pub initial_state : FileState
initial_state = record {
  includes = Includes.initial;
  functions = Functions.initial;
  nesting = Blocks.initial;
}

-- The loop over `k` lines from the given one on.
unfoldable pub process_lines : File → FileState → ℕ → ℕ → Option (FileState × List Action)
unfolding process_line flag_cxx11_features
process_lines file s linenum zero = some (s, [])
process_lines file s linenum (suc k) = elim (process_line file s linenum) [
  | none ↦ none
  | some (t, actions) ↦ elim (process_lines file t (linenum + 1) k) [
    | none ↦ none
    | some (u, more) ↦
        some (u, actions ++ reported (flag_cxx11_features file.clean linenum) ++ more)
  ]
]

unfoldable pub header_actions : File → Option (List Action)
unfolding is_header_extension check_for_header_guard
header_actions file =
    if is_header_extension file.flags file.file_extension
    then check_for_header_guard file.sys file.flags file.filename file.clean
    else some []

-- The checks of the includes behind the loop over the lines.
unfoldable pub include_reports : File → FileState → Option (List Report)
unfolding check_for_include_what_you_use is_source_extension check_header_file_included
include_reports file s =
    elim (check_for_include_what_you_use file.sys file.flags file.filename file.clean s.includes) [
      | none ↦ none
      | some used ↦
          elim (if is_source_extension file.flags file.file_extension
            then check_header_file_included file.sys file.flags file.filename s.includes
            else some []) [ none ↦ none | some own ↦ some (used ++ own) ]
    ]

-- What follows the cleansing, in order.
unfoldable pub file_actions : File → Option (List Action)
unfolding header_actions process_lines check_completed_blocks include_reports
    check_for_bad_characters check_for_newline_at_eof
file_actions file = elim (header_actions file) [
  | none ↦ none
  | some header ↦ elim (process_lines file initial_state 0 (length file.clean.raw_lines)) [
    | none ↦ none
    | some (s, actions) ↦ elim (include_reports file s) [
      | none ↦ none
      | some includes ↦ some (
          header
          ++ actions
          ++ reported (
              check_completed_blocks s.nesting.stack
              ++ includes
              ++ check_for_bad_characters file.clean.raw_lines
              ++ check_for_newline_at_eof file.clean.raw_lines))
    ]
  ]
]

unfoldable pub run_actions : Text → Linter → Option (List Action) → Option (Linter × Text)
unfolding act_all
run_actions filename l none = none
run_actions filename l (some actions) = act_all l filename actions

abbrev pub with_output : Text → Option (Linter × Text) → Option (Linter × Text)
with_output out none = none
with_output out (some (l, more)) = some (l, out ++ more)

abbrev pub suppressed_globally : List Text → Linter → Linter
suppressed_globally lines m = record m {
  suppressions = process_global_suppressions m.suppressions lines;
}

module _ (sys : System) (unicode : Unicode) (flags : Flags) (line_length : ℤ)
    (extra_checks : List (CleansedLines → ℕ → List Report)) (filename file_extension : Text) where
  abbrev file_of : ℕ → CleansedLines → File
  file_of verbose_level clean = record {
    sys = sys;
    unicode = unicode;
    flags = flags;
    line_length = line_length;
    verbose_level = verbose_level;
    filename = filename;
    file_extension = file_extension;
    clean = clean;
    extra_checks = extra_checks;
  }

  -- The cleansing, and all that follows it, for lines whose suppressions have been read. The checks
  -- behind `RemoveMultiLineComments`, which changes the list in its place, see the changed lines.
  unfoldable pub data_actions : ℕ → List Text → Option (List Action)
  unfolding remove_multi_line_comments cleansed_lines file_actions
  data_actions verbose_level lines = elim (remove_multi_line_comments lines) [
    | none ↦ none
    | some (without, reports) ↦ elim (cleansed_lines without) [
      | none ↦ none
      | some clean ↦ elim (file_actions (file_of verbose_level clean)) [
        | none ↦ none
        | some actions ↦ some (reported reports ++ actions)
      ]
    ]
  ]

  -- What follows `CheckForCopyright`.
  unfoldable pub behind_copyright : List Text → Option (Linter × Text) → Option (Linter × Text)
  unfolding process_global_suppressions data_actions run_actions
  behind_copyright lines none = none
  behind_copyright lines (some (m, out)) = with_output out (
      run_actions filename (suppressed_globally lines m)
        (data_actions m.lint_state.verbose_level lines))

  -- `ProcessFileData`: the linter's state behind it, and what it writes to the standard error; `none`
  -- is an exception, or a loop that does not end.
  unfoldable pub process_file_data : Linter → List Text → Option (Linter × Text)
  unfolding add_markers check_for_copyright reset act_all behind_copyright
  process_file_data l file_lines =
      let lines = add_markers file_lines in
      behind_copyright lines (
        act_all (record l { suppressions = reset l.suppressions }) filename
          (reported (check_for_copyright lines)))
