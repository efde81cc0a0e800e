-- ===== src/Tests/Checks.antt =====
-- The checks of lines on concrete files.
use nwtool.Base.{Text, txt, ◌≡◌, refl, false, List, [], ◌∷◌}
use nwtool.Regex.{group}
use nwtool.Report.{report}
use nwtool.Cleanse.{CleansedLines}
use nwtool.Actions.{parse_nolint, report_error}
use nwtool.Nesting.Blocks.{initial}
use nwtool.Brackets.{
  find_start_of_expression_in_line, start_loop, start_step, find_end_of_expression_in_line,
  end_loop, end_step, close_later,
}
use nwtool.Spacing.{check_spacing, check_parenthesis_spacing}
use nwtool.Spacing.Calls.{check_spacing_for_function_call}
use nwtool.Braces.{check_braces}
use nwtool.Braces.Width.{Unicode}
use nwtool.Braces.Semicolons.{check_trailing_semicolon}
use nwtool.Braces.Empty.{check_empty_block_body}
use nwtool.LineChecks.{check_posix_threading}
use nwtool.LineChecks.Inheritance.{check_redundant_virtual}

abbrev of_lines : List Text → CleansedLines
of_lines ls = record { elided = ls; lines = ls; raw_lines = ls; lines_without_raw_strings = ls }

abbrev plain_unicode : Unicode
plain_unicode = record { normalize = λ t. t; is_wide = λ c. false; combining = λ c. false }

else_test :
    check_braces plain_unicode 80
      (of_lines (txt "if (a) {" ∷ txt "}" ∷ txt "else {" ∷ txt "}" ∷ []))
      2
    ≡ report 2
        (txt "whitespace/newline")
        4
        (txt "An else should appear on the same line as the preceding }")
      ∷ report 2
          (txt "readability/braces")
          5
          (txt "If an else has a brace on one side, it should have it on both")
      ∷ []
unfolding check_braces
else_test = refl

semicolon_test :
    check_trailing_semicolon (of_lines (txt "" ∷ txt "void f() {" ∷ txt "};" ∷ [])) 1
    ≡ parse_nolint (txt "void f() {") 1
      ∷ parse_nolint (txt "};") 2
      ∷ report_error (report 2 (txt "readability/braces") 4 (txt "You don't need a ; after a }"))
      ∷ []
unfolding check_trailing_semicolon group find_start_of_expression_in_line start_loop start_step
    find_end_of_expression_in_line end_loop end_step close_later
semicolon_test = refl

empty_body_test :
    check_empty_block_body (of_lines (txt "if (a) {" ∷ txt "}" ∷ txt "g();" ∷ [])) 0
    ≡ report 0
        (txt "whitespace/empty_if_body")
        4
        (txt "If statement had no body and no else clause")
      ∷ []
unfolding check_empty_block_body group find_end_of_expression_in_line end_loop end_step close_later
empty_body_test = refl

comment_test :
    check_spacing (of_lines (txt "int a; //b" ∷ [])) 0 initial
    ≡ report 0
        (txt "whitespace/comments")
        2
        (txt "At least two spaces is best between code and comments")
      ∷ report 0 (txt "whitespace/comments") 4 (txt "Should have a space between // and comment")
      ∷ []
unfolding check_spacing
comment_test = refl

paren_test :
    check_parenthesis_spacing (of_lines (txt " if( abc) {" ∷ [])) 0
    ≡ report 0 (txt "whitespace/parens") 5 (txt "Missing space before ( in if(")
      ∷ report 0 (txt "whitespace/parens") 5 (txt "Mismatching spaces inside () in if")
      ∷ []
unfolding check_parenthesis_spacing group
paren_test = refl

call_test :
    check_spacing_for_function_call (of_lines (txt "f( 3);" ∷ [])) 0
    ≡ report 0 (txt "whitespace/parens") 4 (txt "Extra space after ( in function call") ∷ []
unfolding check_spacing_for_function_call
call_test = refl

threading_test :
    check_posix_threading (of_lines (txt "x = rand();" ∷ [])) 0
    ≡ report 0
        (txt "runtime/threadsafe_fn")
        2
        (txt "Consider using rand_r(...) instead of rand(...) for improved thread safety.")
      ∷ []
unfolding check_posix_threading
threading_test = refl

virtual_test :
    check_redundant_virtual (of_lines (txt "virtual void f() override;" ∷ [])) 0
    ≡ report 0
        (txt "readability/inheritance")
        4
        (txt "\"virtual\" is redundant since function is already declared as \"override\"")
      ∷ []
unfolding check_redundant_virtual group find_end_of_expression_in_line end_loop end_step
virtual_test = refl
