-- ===== src/Program/Main.antt =====
-- `main`.
pub mod Counts
use nwtool.Base.{
  ltb, if◌then◌else◌, Text, txt, text_eq, Bool, not, ◌||◌, Option, none, some, List, [], ◌∷◌, ◌++◌,
}
use nwtool.State.{reset_error_counts}
use nwtool.Program.{Host, Globals, on_state, print_error_counts}
use nwtool.Program.Files.{process_file}
use nwtool.Program.Arguments.{Stop, stop, go_on, parse_arguments}

-- The loop over the files; `none` is an exception, or a loop that does not end.
unfoldable pub process_files : Host → List Text → Globals → Option Globals
unfolding process_file
process_files host [] g = some g
process_files host (f ∷ fs) g = elim (process_file host [] f g.linter.lint_state.verbose_level g) [
  | none ↦ none
  | some h ↦ process_files host fs h
]

-- The error counts, and the XML document of the JUnit format.
unfoldable pub print_summary : Host → Globals → Globals
unfolding print_error_counts text_eq
print_summary host g =
    let s = g.linter.lint_state in
    let counted = if not s.quiet || ltb 0 s.error_count then print_error_counts g else g in
    if text_eq s.output_format (txt "junit")
    then record counted { stderr = counted.stderr ++ host.junit s }
    else counted

-- How the program ends: before it reads a file, by an exception, or with an exit status.
pub data Ending : Type 0 where
  stopped : Stop → Ending
  raised : Ending
  exits : Bool → Globals → Ending

abbrev ending : Host → Option Globals → Ending
ending host none = raised
ending host (some g) = exits (ltb 0 g.linter.lint_state.error_count) (print_summary host g)

-- `main`, from the program's first state.
unfoldable pub main : Host → List Text → Globals → Ending
unfolding parse_arguments process_files print_summary reset_error_counts
main host args g = elim (parse_arguments host args g) [
  | stop why ↦ stopped why
  | go_on (h, filenames) ↦
      ending host (process_files host filenames (on_state reset_error_counts h))
]
