-- ===== src/Tests/Linter.antt =====
-- The theorems on the linter's state, on NOLINT comments, on headers and on functions, on concrete
-- inputs.
use nwtool.Base.{
  length, All, txt, text_eq, one_of, starts_with, ends_with, strip, split, show, ◌+◌, ◌*◌, ◌^◌, ◌≤◌,
  ◌<◌, ◌≡◌, refl, ◌≢◌, ◌↔◌, true, false, none, some, List, [], ◌∷◌, arith,
}
use nwtool.Regex.{search_in, group}
use nwtool.Report.{Report, report}
use nwtool.Nolint.{no_suppressions, is_suppressed, parse_nolint_suppressions}
use nwtool.Nolint.Frame.{parse_nolint_suppressions_lem}
use nwtool.State.{
  CppLintState, Failure, initial, set_filters, bad_filter, should_print_error,
  increment_error_count,
}
use nwtool.State.Filters.{should_print_error-last, should_print_error-eq-none, set_filters-error}
use nwtool.State.Printing.{error, emacs_form, errors, group_failures, failures_of}
use nwtool.State.Printing.Laws.{passing, errors-error_count, group_of, Distinct, group_failures_lem}
use nwtool.Includes.{
  HeaderType, c_sys_header, cpp_sys_header, likely_my_header, other_header,
  check_next_include_order,
}
use nwtool.Includes
use nwtool.Includes.Order.{check_all, IsSorted, check_next_include_order_lem, check_all-IsSorted}
use nwtool.Functions.{FunctionState, check, base_trigger}
use nwtool.Functions.Levels.{check-confidence}

parse_nolint_suppressions_lem_example :
    is_suppressed
      (parse_nolint_suppressions no_suppressions (txt "int x;  // NOLINT(runtime/int)") 7).0
      (txt "runtime/int")
      7
    ≡ true
unfolding is_suppressed one_of search_in group starts_with ends_with
parse_nolint_suppressions_lem_example =
    parse_nolint_suppressions_lem no_suppressions (txt "int x;  // NOLINT(runtime/int)")
      (txt "runtime/int") 7 7

abbrev strict : CppLintState
strict = record initial { filters = txt "-build" ∷ txt "+build/class" ∷ [] }

should_print_error-last_example :
    should_print_error strict no_suppressions (txt "build/class") 5 3 ≡ some true
unfolding is_suppressed one_of starts_with
should_print_error-last_example =
    should_print_error-last strict no_suppressions (txt "build/class") 5 3
      (unfold bad_filter in refl)

-- A filter without a sign, which a command line's `ValueError` keeps out.
abbrev unsigned_state : CppLintState
unsigned_state = record initial { filters = txt "-build" ∷ txt "whitespace" ∷ [] }

should_print_error-eq-none_example :
    (should_print_error unsigned_state no_suppressions (txt "build/class") 5 3 ≡ none)
    ↔ ((is_suppressed no_suppressions (txt "build/class") 3 ≡ false) × (1 ≤ 5) × (true ≡ true))
unfolding starts_with
should_print_error-eq-none_example =
    should_print_error-eq-none unsigned_state no_suppressions (txt "build/class") 5 3

set_filters-error_example :
    ((set_filters strict (txt " +build, whitespace")).0.filters
      ≡ txt "-build/include_alpha" ∷ txt "+build" ∷ txt "whitespace" ∷ [])
    × ((set_filters strict (txt " +build, whitespace")).1 ≡ some (txt "whitespace"))
unfolding split text_eq starts_with strip
set_filters-error_example = set_filters-error strict (txt " +build, whitespace")

abbrev class_reports : List Report
class_reports =
    report 3 (txt "build/class") 5 (txt "a") ∷ report 4 (txt "build/include") 4 (txt "b") ∷ []

abbrev counted : CppLintState
counted = record strict { error_count = 1 }

class_reports_written :
    errors strict no_suppressions (txt "a.cc") class_reports
    ≡ some (counted, txt "a.cc:3:  a  [build/class] [5]\n")
unfolding errors error emacs_form should_print_error is_suppressed increment_error_count show
    starts_with one_of text_eq
class_reports_written = refl

errors-error_count_example :
    counted.error_count ≡ strict.error_count + length (passing strict no_suppressions class_reports)
errors-error_count_example =
    errors-error_count strict no_suppressions (txt "a.cc") class_reports counted
      (txt "a.cc:3:  a  [build/class] [5]\n") class_reports_written

abbrev two_failures : List Failure
two_failures =
    record { report = report 3 (txt "build/class") 5 (txt "a"); file = txt "a.cc" }
    ∷ record { report = report 4 (txt "build/class") 5 (txt "b"); file = txt "b.cc" }
    ∷ record { report = report 9 (txt "build/class") 5 (txt "c"); file = txt "a.cc" }
    ∷ []

group_failures_lem_example :
    (group_of (txt "a.cc") (group_failures [] two_failures)
      ≡ report 3 (txt "build/class") 5 (txt "a") ∷ report 9 (txt "build/class") 5 (txt "c") ∷ [])
    × Distinct (group_failures [] two_failures)
unfolding failures_of text_eq
group_failures_lem_example = group_failures_lem (txt "a.cc") two_failures

abbrev three_headers : List HeaderType
three_headers = likely_my_header ∷ c_sys_header ∷ other_header ∷ []

check_all-IsSorted_example : IsSorted three_headers
check_all-IsSorted_example =
    check_all-IsSorted Includes.initial three_headers (omega arith)
      (unfold check_all check_next_include_order in (refl, (refl, (refl, tt))))

check_next_include_order_lem_example :
    let (s', m) = check_next_include_order Includes.initial cpp_sys_header in
    (0 ≤ s'.section)
    × (s'.section ≤ 4)
    × ((m ≡ none) ↔ (0 ≤ 3))
    × (m ≢ none → s'.section ≡ 0)
    × (s'.include_list ≡ [] ∷ [])
check_next_include_order_lem_example =
    check_next_include_order_lem Includes.initial cpp_sys_header (omega arith)

abbrev long_function : FunctionState
long_function = record {
  in_a_function = true;
  lines_in_function = 1234;
  current_function = txt "Run()";
}

check-confidence_example :
    All
      (λ (r : Report).
        (1 ≤ r.confidence)
        × (r.confidence ≤ 5)
        × (base_trigger long_function.current_function * 2 ^ r.confidence ≤ 1234)
        × (r.confidence < 5
            → 1234 < base_trigger long_function.current_function * 2 ^ (r.confidence + 1)))
      (check long_function 1 99)
check-confidence_example = check-confidence long_function 1 99 (omega arith)
