-- ===== src/Tests/Lines.antt =====
-- The theorems on the checks of lines, on concrete inputs.
use nwtool.Base.{All, Text, txt, char_in, ◌≡◌, refl, true, false, none, some, List, [], ◌∷◌, ◌++◌}
use nwtool.Regex.{group}
use nwtool.Functions.{initial, begin, check}
use nwtool.Constructors.{check_constructor}
use nwtool.Constructors.Arguments.{collapse_arguments}
use nwtool.Constructors.Arguments.Joined.{joined, AreClosed, collapse_arguments-joined}
use nwtool.Report.{Report, report}
use nwtool.Cleanse.{CleansedLines}
use nwtool.Brackets.{end_loop, end_step}
use nwtool.CheckMacros.{check_check}
use nwtool.CheckMacros.Total.{check_check-total}
use nwtool.Language.Inside.{matching_punctuation, text_inside}
use nwtool.Language.Inside.Nested.{Nested, nil, other, bracketed, text_inside_lem}
use nwtool.Spacing.Lines.{get_previous_non_blank_line}
use nwtool.Spacing.Lines.Previous.{IsPrevious, get_previous_non_blank_line_lem}
use nwtool.Functions.Lines.{starting_func, body_loop}
use nwtool.Functions.Lines.Counting.{check_lines, count_filled, IsInner, check_lines-function}

abbrev inside : List Text
inside = txt "  return 1;" ∷ [] ∷ txt "  g();" ∷ []

abbrev function_file : List Text
function_file = txt "int f() {" ∷ txt "  return 1;" ∷ [] ∷ txt "  g();" ∷ txt "}" ∷ []

starts : starting_func (txt "int f() {") ≡ true
unfolding starting_func group
starts = refl

finds_body : body_loop initial (txt "int f() {") [] function_file ≡ some (begin initial (txt "f()"))
unfolding body_loop begin group
finds_body = refl

is_inside : All IsInner inside
unfolding starting_func
is_inside = ((refl, refl), ((refl, refl), ((refl, refl), tt)))

check_lines-function_example : check_lines initial 0 function_file 0 5 ≡ (
  record { in_a_function = false; lines_in_function = 2; current_function = txt "f()" },
  check (record { in_a_function = true; lines_in_function = 2; current_function = txt "f()" }) 0 4,
)
unfolding count_filled starting_func
check_lines-function_example =
    check_lines-function initial 0 function_file 0 (txt "f()") (txt "int f() {") inside (txt "}") []
      refl starts finds_body is_inside refl refl

get_previous_non_blank_line_lem_example :
    IsPrevious (txt "int a;" ∷ txt "  " ∷ [] ∷ txt "int b;" ∷ []) 3 (some (txt "int a;", 0))
unfolding get_previous_non_blank_line
get_previous_non_blank_line_lem_example =
    get_previous_non_blank_line_lem (txt "int a;" ∷ txt "  " ∷ [] ∷ txt "int b;" ∷ []) 3

collapse_arguments-joined_example :
    (joined (txt "map<a,b> m" ∷ txt " int c" ∷ [])
      ≡ joined (txt "map<a" ∷ txt "b> m" ∷ txt " int c" ∷ []))
    × AreClosed (txt "map<a,b> m" ∷ txt " int c" ∷ [])
collapse_arguments-joined_example =
    collapse_arguments-joined (txt "map<a" ∷ txt "b> m" ∷ txt " int c" ∷ [])
      (txt "map<a,b> m" ∷ txt " int c" ∷ []) (unfold collapse_arguments in refl)

-- A comparison in a default argument makes the loop run out of arguments.
comparison_fails : check_constructor 1 (txt "Foo") (txt "  Foo(bool b = 1 < 2);") ≡ none
unfolding check_constructor group
comparison_fails = refl

abbrev checking : List Text
checking = txt "CHECK(size(x, y) == 42);" ∷ []

abbrev checking_file : CleansedLines
checking_file = record {
  elided = checking;
  lines = checking;
  raw_lines = checking;
  lines_without_raw_strings = checking;
}

check_check-total_example : (rs : List Report) × (check_check checking_file 0 ≡ some rs)
check_check-total_example = check_check-total checking_file 0

check_check_reports :
    check_check checking_file 0
    ≡ some (
        report 0
          (txt "readability/check")
          2
          (txt "Consider using CHECK_EQ instead of CHECK(a == b)")
        ∷ [])
unfolding check_check group end_loop end_step
check_check_reports = refl

arguments-Nested : Nested (txt "a(), b")
unfolding matching_punctuation char_in
arguments-Nested = other {c = b'a'} {s = txt "(), b"} refl (
    bracketed {o = b'('} {s = []} {t = txt ", b"} refl nil (
      other {c = b','} {s = txt " b"} refl
        (other {c = b' '} {s = txt "b"} refl (other {c = b'b'} {s = []} refl nil))))

text_inside_lem_example :
    text_inside
      (matching_punctuation b'(' ∷ [])
      (txt "a(), b" ++ matching_punctuation b'(' ∷ txt ";")
    ≡ some (txt "a(), b")
text_inside_lem_example = text_inside_lem b'(' (txt "a(), b") (txt ";") arguments-Nested
