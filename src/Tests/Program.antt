-- ===== src/Tests/Program.antt =====
-- The whole program on small files.
use nwtool.Base.{
  if◌then◌else◌, Text, txt, text_eq, one_of, ends_with, ◌<◌, ◌≡◌, refl, ◌↔◌, true, false, Option,
  none, some, List, [], ◌∷◌, arith,
}
use nwtool.Base.Int.{pos}
use nwtool.Nolint.{no_suppressions}
use nwtool.State.{initial}
use nwtool.State.{bad_filter}
use nwtool.State.Filters.{WellFormed}
use nwtool.State.Kept.{Tally}
use nwtool.Program.{Host, Globals}
use nwtool.Program.Config.{config_loop}
use nwtool.Program.Config.Total.{Ends, config_loop-total}
use nwtool.Program.Files.Frame.{process_file-filters}
use nwtool.Report.{report}
use nwtool.FileChecks.BadCharacters.{at_line}
use nwtool.Program.Files.Endings.{crlf_warnings}
use nwtool.Program.Files.Endings.Mixed.{crlf_warnings-at_line}
use nwtool.Program.Main.Counts.{main-counts}
use nwtool.Program.Arguments.Valid.{Known, parse_arguments-Known}
use nwtool.Program.Arguments.{Outcome, stop, go_on, parse_arguments}
use nwtool.Program.Files.{process_file}
use nwtool.Program.Main.{Ending, exits, main}

-- A configuration file lies in the directory of the source.
abbrev config_path : Text
config_path = txt "/src/CPPLINT.cfg"

abbrev host : Host
host = record {
  sys = record { cwd = txt "/src"; exists = λ p. false; contents = λ p. none };
  unicode = record { normalize = λ t. t; is_wide = λ c. false; combining = λ c. false };
  is_file = λ p. text_eq p config_path;
  is_dir = λ p. false;
  config = λ p.
      if text_eq p config_path
      then some (txt "filter=-readability/casting\n" ∷ txt "set noparent\n" ∷ [])
      else none;
  read = λ p. some (txt "int f();\n");
  stdin = [];
  glob = λ p. [];
  walk = λ p. [];
  set_of = λ ts. ts;
  junit = λ s. [];
}

abbrev globals : Globals
globals = record {
  linter = record { lint_state = initial; suppressions = no_suppressions };
  flags = record { root = []; repository = []; hpp_headers = []; valid_extensions = [] };
  line_length = pos 80;
  stdout = [];
  stderr = [];
}

abbrev args : List Text
args = txt "--counting=detailed" ∷ txt "a.cc" ∷ []

abbrev run_of : Ending → Globals
run_of (exits b g) = g
run_of _ = globals

abbrev parsed : Outcome (Globals × List Text) → Globals × List Text
parsed (go_on r) = r
parsed (stop e) = (globals, [])

abbrev files : List Text
files = txt "a.cc" ∷ []

abbrev of_file : Option Globals → Globals
of_file (some g) = g
of_file none = globals

parse_test : parse_arguments host args globals ≡ go_on (parsed (parse_arguments host args globals))
unfolding parse_arguments
parse_test = refl

main_test : main host args globals ≡ exits true (run_of (main host args globals))
unfolding main nwtool.Cleanse.Comments.remove_loop nwtool.FileChecks.add_markers
    nwtool.Cleanse.Comments.find_next_multi_line_comment_start nwtool.Cleanse.Comments.is_start
    nwtool.Cleanse.RawStrings.cleanse_raw_strings nwtool.Cleanse.RawStrings.cleanse_lines
    nwtool.Cleanse.RawStrings.line_step nwtool.Cleanse.RawStrings.open_loop
    nwtool.Cleanse.Strings.collapse_strings nwtool.Nesting.Braces.brace_loop
    nwtool.Nesting.Update.count_parentheses nwtool.Nesting.Preprocessor.update_preprocessor
    nwtool.Nesting.Braces.token_step nwtool.Nesting.Blocks.seen_brace nwtool.Base.before_char
    nwtool.State.Printing.error nwtool.State.should_print_error nwtool.Nolint.is_suppressed
    nwtool.State.increment_error_count
main_test = refl

file_test :
    process_file host [] (txt "a.cc") 1 globals
    ≡ some (of_file (process_file host [] (txt "a.cc") 1 globals))
unfolding process_file nwtool.State.set_verbose_level nwtool.Cleanse.Comments.remove_loop
    nwtool.FileChecks.add_markers nwtool.Cleanse.Comments.find_next_multi_line_comment_start
    nwtool.Cleanse.Comments.is_start nwtool.Cleanse.RawStrings.cleanse_raw_strings
    nwtool.Cleanse.RawStrings.cleanse_lines nwtool.Cleanse.RawStrings.line_step
    nwtool.Cleanse.RawStrings.open_loop nwtool.Cleanse.Strings.collapse_strings
    nwtool.Nesting.Braces.brace_loop nwtool.Nesting.Update.count_parentheses
    nwtool.Nesting.Preprocessor.update_preprocessor nwtool.Nesting.Braces.token_step
    nwtool.Nesting.Blocks.seen_brace nwtool.Base.before_char nwtool.State.Printing.error
    nwtool.State.should_print_error nwtool.Nolint.is_suppressed nwtool.State.increment_error_count
file_test = refl

main-counts_example :
    let r = run_of (main host args globals) in
    let h = (parsed (parse_arguments host args globals)).0 in
    ((true ≡ true) ↔ (0 < r.linter.lint_state.error_count))
    × Tally r.linter.lint_state
    × (r.linter.lint_state.filters ≡ h.linter.lint_state.filters)
    × WellFormed r.linter.lint_state.filters
main-counts_example =
    main-counts host args (parsed (parse_arguments host args globals)).1 globals
      (parsed (parse_arguments host args globals)).0 (run_of (main host args globals)) true
      (unfold one_of in refl) parse_test main_test

process_file-filters_example :
    let h = of_file (process_file host [] (txt "a.cc") 1 globals) in
    (h.linter.lint_state.filters ≡ txt "-build/include_alpha" ∷ [])
    × (h.linter.lint_state.quiet ≡ false)
    × (h.linter.lint_state.counting ≡ txt "total")
    × (h.linter.lint_state.output_format ≡ txt "emacs")
    × (Tally initial → Tally h.linter.lint_state)
process_file-filters_example =
    process_file-filters host [] (txt "a.cc") 1 globals
      (of_file (process_file host [] (txt "a.cc") 1 globals)) (unfold bad_filter in refl) file_test

parse_arguments-Known_example :
    let h = (parsed (parse_arguments host args globals)).0 in
    WellFormed h.linter.lint_state.filters
    × Known h.linter.lint_state.output_format h.linter.lint_state.counting
parse_arguments-Known_example =
    parse_arguments-Known host args globals (parsed (parse_arguments host args globals)).0
      (parsed (parse_arguments host args globals)).1 (unfold one_of in refl) parse_test

config_loop-total_example : Ends (
    config_loop 12 host
      (txt "a.cc")
      (txt "/src/a.cc")
      (record { keep_looking = true; cfg_filters = []; globals = globals }))
config_loop-total_example =
    config_loop-total 12 host (txt "a.cc") (txt "/src/a.cc")
      (record { keep_looking = true; cfg_filters = []; globals = globals }) (omega arith)

crlf_warnings-at_line_example :
    at_line 2 (crlf_warnings (txt "int a;" ∷ txt "int b;\r" ∷ [] ∷ []))
    ≡ report 2
        (txt "whitespace/newline")
        1
        (txt "Unexpected \\r (^M) found; better to use only \\n")
      ∷ []
unfolding ends_with
crlf_warnings-at_line_example = crlf_warnings-at_line (txt "int a;" ∷ txt "int b;\r" ∷ [] ∷ []) 1
