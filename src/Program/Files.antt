-- ===== src/Program/Files.antt =====
-- `ProcessFile`.
pub mod Endings
pub mod Frame
use nwtool.Base.{
  ◌==◌, if◌then◌else◌, drop, Text, txt, text_eq, one_of, split, rfind, ℕ, ◌+◌, Bool, true, false,
  not, ◌||◌, Option, none, some, List, [], ◌∷◌, ◌++◌,
}
use nwtool.Report.{Report}
use nwtool.Actions.{reported, act_all}
use nwtool.Cleanse.{CleansedLines}
use nwtool.FileInfo.{get_all_extensions}
use nwtool.State.{set_verbose_level, backup_filters, restore_filters}
use nwtool.Process.Data.{process_file_data}
use nwtool.Program.{Host, Globals, on_state, put_info, put_error}
use nwtool.Program.Config.{process_config_overrides}
use Endings.{strip_returns, crlf_warnings}

-- The text of a file, `-` for the standard input; `none` is an IOError.
unfoldable pub read_file : Host → Text → Option Text
unfolding text_eq
read_file host filename = if text_eq filename (txt "-") then some host.stdin else host.read filename

unfoldable pub file_extension : Text → Text
unfolding rfind
file_extension filename = elim (rfind filename b'.') [
  | none ↦ filename
  | some p ↦ drop (p + 1) filename
]

-- `', '.join(exts)`
abbrev comma_separated : List Text → Text
comma_separated [] = []
comma_separated (w ∷ []) = w
comma_separated (w ∷ v ∷ ws) = w ++ txt ", " ++ comma_separated (v ∷ ws)

unfoldable pub has_valid_name : Text → Globals → Bool
unfolding text_eq one_of file_extension get_all_extensions
has_valid_name filename g =
    text_eq filename (txt "-") || one_of (file_extension filename) (get_all_extensions g.flags)

-- `Done processing`, unless it is quiet and nothing has been found in this file.
unfoldable pub finish : Text → ℕ → Globals → Globals
unfolding put_info
finish filename old_errors g =
    if not g.linter.lint_state.quiet || not (old_errors == g.linter.lint_state.error_count)
    then put_info (txt "Done processing " ++ filename ++ txt "\n") g
    else g

abbrev pub restored : Option Globals → Option Globals
restored none = none
restored (some g) = some (on_state restore_filters g)

-- The messages on a name that is not valid, and on a file that cannot be read.
unfoldable pub ignored : Text → Globals → Text
unfolding get_all_extensions
ignored filename g =
    txt "Ignoring "
    ++ filename
    ++ txt "; not a valid file name ("
    ++ comma_separated (get_all_extensions g.flags)
    ++ txt ")\n"

abbrev pub skipped : Text → Text
skipped filename = txt "Skipping input '" ++ filename ++ txt "': Can't open for reading\n"

module _ (host : Host) (extra_checks : List (CleansedLines → ℕ → List Report))
    (filename : Text) where
  -- The checks of the file's text, and the warnings on its line ends.
  unfoldable pub lint_lines : List Text → Globals → Option Globals
  unfolding strip_returns crlf_warnings process_file_data act_all file_extension
  lint_lines lines g =
      elim (process_file_data host.sys host.unicode g.flags g.line_length extra_checks filename
        (file_extension filename) g.linter (strip_returns lines)) [
          | none ↦ none
          | some (l, out) ↦ elim (act_all l filename (reported (crlf_warnings lines))) [
            | none ↦ none
            | some (m, more) ↦ some (record g { linter = m; stderr = g.stderr ++ out ++ more })
          ]
        ]

  unfoldable pub lint_named : List Text → Globals → Option Globals
  unfolding has_valid_name lint_lines put_error ignored
  lint_named lines g =
      if has_valid_name filename g
      then lint_lines lines g
      else some (put_error (ignored filename g) g)

  -- A file that is not excluded, up to the restoring of the filters.
  unfoldable pub lint_file : ℕ → Globals → Option Globals
  unfolding read_file split lint_named finish put_error
  lint_file old_errors g = elim (read_file host filename) [
    | none ↦ some (put_error (skipped filename) g)
    | some text ↦ elim (lint_named (split 10 text) g) [
      | none ↦ none
      | some h ↦ some (finish filename old_errors h)
    ]
  ]

  -- The file itself, from what `ProcessConfigOverrides` says of it.
  unfoldable pub lint_allowed : ℕ → Option (Bool × Globals) → Option Globals
  unfolding lint_file
  lint_allowed old_errors none = none
  lint_allowed old_errors (some (false, g)) = some g
  lint_allowed old_errors (some (true, g)) = lint_file old_errors g

  -- `ProcessFile`; `none` is an exception, or a loop that does not end.
  unfoldable pub process_file : ℕ → Globals → Option Globals
  unfolding process_config_overrides lint_allowed backup_filters restore_filters
  process_file vlevel g =
      let ready = on_state (λ s. backup_filters (set_verbose_level s vlevel).0) g in
      restored (
        lint_allowed g.linter.lint_state.error_count (process_config_overrides host filename ready))
