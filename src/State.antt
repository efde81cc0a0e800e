-- ===== src/State.antt =====
-- The linter's own state: build_support/cpplint.py, class `_CppLintState`, and the decision whether
-- an error is printed. Verbosity levels are natural numbers.
pub mod Filters
pub mod Counts
pub mod Printing
pub mod Kept
use nwtool.Base.{
  ltb, if◌then◌else◌, drop, Text, txt, text_eq, starts_with, strip, split, before_char, ℕ, ◌+◌,
  Bool, true, false, not, ◌||◌, Option, none, some, List, [], ◌∷◌, ◌++◌,
}
use nwtool.Report.{Report}
use nwtool.Nolint.{Suppressions, is_suppressed}
use mathlib.Core.List

-- A failure or error kept for the JUnit output.
pub record Failure : Type 0 where
  pub report : Report
  pub file : Text

pub record CppLintState : Type 0 where
  pub verbose_level : ℕ
  pub error_count : ℕ
  pub filters : List Text
  pub filters_backup : List Text
  pub counting : Text
  pub errors_by_category : List (Text × ℕ)
  pub quiet : Bool
  pub output_format : Text
  pub junit_errors : List Text
  pub junit_failures : List Failure

abbrev pub default_filters : List Text
default_filters = txt "-build/include_alpha" ∷ []

-- `__init__`
abbrev pub initial : CppLintState
initial = record {
  verbose_level = 1;
  error_count = 0;
  filters = default_filters;
  filters_backup = default_filters;
  counting = txt "total";
  errors_by_category = [];
  quiet = false;
  output_format = txt "emacs";
  junit_errors = [];
  junit_failures = [];
}

unfoldable pub set_output_format : CppLintState → Text → CppLintState
set_output_format s f = record s { output_format = f }

unfoldable pub set_quiet : CppLintState → Bool → CppLintState × Bool
set_quiet s q = (record s { quiet = q }, s.quiet)

unfoldable pub set_verbose_level : CppLintState → ℕ → CppLintState × ℕ
set_verbose_level s level = (record s { verbose_level = level }, s.verbose_level)

unfoldable pub set_counting_style : CppLintState → Text → CppLintState
set_counting_style s c = record s { counting = c }

-- The filters that `AddFilters` appends: the parts between commas, stripped, less the empty ones.
unfoldable pub clean_filters : List Text → List Text
unfolding strip
clean_filters [] = []
clean_filters (f ∷ fs) =
    let c = strip f in (if text_eq c [] then [] else c ∷ []) ++ clean_filters fs

unfoldable pub is_filter : Text → Bool
unfolding starts_with
is_filter f = starts_with f (txt "+") || starts_with f (txt "-")

-- The filter that `ValueError` names: the first with no sign.
unfoldable pub bad_filter : List Text → Option Text
unfolding is_filter
bad_filter [] = none
bad_filter (f ∷ fs) = if is_filter f then bad_filter fs else some f

-- The filters are appended before they are looked at, so they stay when `ValueError` is raised.
unfoldable pub add_filters : CppLintState → Text → CppLintState × Option Text
unfolding clean_filters bad_filter split
add_filters s fs =
    let s' : CppLintState = record s { filters = s.filters ++ clean_filters (split b',' fs) } in
    (s', bad_filter s'.filters)

unfoldable pub set_filters : CppLintState → Text → CppLintState × Option Text
unfolding add_filters
set_filters s fs = add_filters (record s { filters = default_filters }) fs

unfoldable pub backup_filters : CppLintState → CppLintState
backup_filters s = record s { filters_backup = s.filters }

unfoldable pub restore_filters : CppLintState → CppLintState
restore_filters s = record s { filters = s.filters_backup }

unfoldable pub reset_error_counts : CppLintState → CppLintState
reset_error_counts s = record s { error_count = 0; errors_by_category = [] }

-- `d[category] += 1`, where a missing category starts at 0.
unfoldable pub bump : Text → List (Text × ℕ) → List (Text × ℕ)
bump c [] = (c, 1) ∷ []
bump c ((d, n) ∷ m) = if text_eq d c then (d, n + 1) ∷ m else (d, n) ∷ bump c m

unfoldable pub increment_error_count : CppLintState → Text → CppLintState
unfolding bump before_char
increment_error_count s category =
    let counted : CppLintState = record s { error_count = s.error_count + 1 } in
    if text_eq s.counting (txt "toplevel") || text_eq s.counting (txt "detailed")
    then record counted {
      errors_by_category =
          bump (if text_eq s.counting (txt "detailed") then category else before_char b'/' category)
            s.errors_by_category;
    }
    else counted

-- The loop over the filters of `_ShouldPrintError`; `none` is the failed assertion.
unfoldable pub is_filtered : Text → Bool → List Text → Option Bool
unfolding starts_with
is_filtered category acc [] = some acc
is_filtered category acc (f ∷ fs) =
    let hit = starts_with category (drop 1 f) in
    if starts_with f (txt "-")
    then is_filtered category (if hit then true else acc) fs
    else if starts_with f (txt "+")
    then is_filtered category (if hit then false else acc) fs
    else none

-- `_ShouldPrintError`
unfoldable pub should_print_error : CppLintState → Suppressions → Text → ℕ → ℕ → Option Bool
unfolding is_filtered
should_print_error s sup category confidence linenum =
    if is_suppressed sup category linenum
    then some false
    else if ltb confidence s.verbose_level
    then some false
    else elim (is_filtered category false s.filters) [ none ↦ none | some b ↦ some (not b) ]
