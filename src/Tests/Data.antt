-- ===== src/Tests/Data.antt =====
-- The processing of a file's lines, on a small file.
use nwtool.Base.{Text, txt, ◌≡◌, refl, ◌↔◌, false, Option, none, List, [], ◌∷◌}
use nwtool.Base.Int.{pos}
use nwtool.Actions.{Action}
use nwtool.FileChecks.{add_markers}
use nwtool.Process.Data.{data_actions}
use nwtool.Actions.{Linter}
use nwtool.State.{initial, bad_filter}
use nwtool.Nolint.{no_suppressions}
use nwtool.Cleanse.{CleansedLines}
use nwtool.Language.Casts.{check_casts}
use nwtool.Process.Data.{process_file_data}
use nwtool.Process.Data.Kept.{process_file_data-eq-none}
use nwtool.Brackets.{find_end_of_expression_in_line, end_loop, end_step}
use nwtool.FileInfo.{System, Flags}
use nwtool.Braces.Width.{Unicode}

abbrev sys : System
sys = record { cwd = txt "/src"; exists = λ p. false; contents = λ p. none }

abbrev unicode : Unicode
unicode = record { normalize = λ t. t; is_wide = λ c. false; combining = λ c. false }

abbrev flags : Flags
flags = record { root = []; repository = []; hpp_headers = []; valid_extensions = [] }

abbrev linter : Linter
linter = record { lint_state = initial; suppressions = no_suppressions }

abbrev of_lines : List Text → CleansedLines
of_lines ls = record { elided = ls; lines = ls; raw_lines = ls; lines_without_raw_strings = ls }

-- A cast whose `>` ends the line makes `CheckCasts` raise an IndexError.
casts_test : check_casts (of_lines (txt "x = &static_cast<int*>" ∷ txt "(y);" ∷ [])) 0 ≡ none
unfolding check_casts find_end_of_expression_in_line end_loop end_step
casts_test = refl

-- Such a line ends the program: both sides of the equivalence below hold.
abbrev cast_lines : List Text
cast_lines = txt "x = &static_cast<int*>" ∷ txt "(y);" ∷ [] ∷ []

abbrev result : Option (List Action)
result =
    data_actions sys unicode flags (pos 80) [] (txt "a.cc") (txt "cc") 1 (add_markers cast_lines)

data_test : result ≡ none
unfolding data_actions nwtool.Cleanse.Comments.remove_loop add_markers
    nwtool.Cleanse.Comments.find_next_multi_line_comment_start nwtool.Cleanse.Comments.is_start
    nwtool.Cleanse.RawStrings.cleanse_raw_strings nwtool.Cleanse.RawStrings.cleanse_lines
    nwtool.Cleanse.RawStrings.line_step nwtool.Cleanse.RawStrings.open_loop
    nwtool.Cleanse.Strings.collapse_strings nwtool.Nesting.Braces.brace_loop
    nwtool.Nesting.Update.count_parentheses nwtool.Nesting.Preprocessor.update_preprocessor
    nwtool.Nesting.Braces.token_step nwtool.Nesting.Blocks.seen_brace nwtool.Base.before_char
    end_loop end_step
data_test = refl

process_file_data-eq-none_example :
    (process_file_data sys unicode flags (pos 80) [] (txt "a.cc") (txt "cc") linter cast_lines
      ≡ none)
    ↔ (data_actions sys unicode flags (pos 80) [] (txt "a.cc") (txt "cc") 1 (add_markers cast_lines)
        ≡ none)
process_file_data-eq-none_example =
    process_file_data-eq-none sys unicode flags (pos 80) [] (txt "a.cc") (txt "cc") linter
      cast_lines (unfold bad_filter in refl)
