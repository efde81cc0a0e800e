-- ===== src/State/Printing.antt =====
-- Where a printed error goes: build_support/cpplint.py, `Error`, `PrintError`, `AddJUnitFailure`,
-- `PrintInfo`, `PrintErrorCounts` and the grouping in `FormatJUnitXML`.
pub mod Laws
use nwtool.Base.{
  if◌then◌else◌, Text, txt, text_eq, show, true, false, Option, none, some, List, [], ◌∷◌, ◌++◌,
}
use nwtool.Report.{Report}
use nwtool.Nolint.{Suppressions}
use nwtool.State.{CppLintState, Failure, should_print_error, increment_error_count}

-- What a call writes to the standard error.
abbrev pub Written : Type 0
Written = CppLintState × Text

unfoldable pub print_error : CppLintState → Text → Written
print_error s message =
    if text_eq s.output_format (txt "junit")
    then (record s { junit_errors = s.junit_errors ++ message ∷ [] }, [])
    else (s, message)

unfoldable pub add_junit_failure : CppLintState → Text → Report → CppLintState
add_junit_failure s filename r = record s {
  junit_failures = s.junit_failures ++ record { report = r; file = filename } ∷ [];
}

abbrev show_line : Report → Text
show_line r = if r.has_line then show r.linenum else txt "None"

-- The forms of an error for Visual Studio, for Eclipse, and for Emacs.
pub vs7_form : Text → Report → Text
vs7_form f r =
    f
    ++ txt "("
    ++ show_line r
    ++ txt "): error cpplint: ["
    ++ r.category
    ++ txt "] "
    ++ r.message
    ++ txt " ["
    ++ show r.confidence
    ++ txt "]\n"

pub eclipse_form : Text → Report → Text
eclipse_form f r =
    f
    ++ txt ":"
    ++ show_line r
    ++ txt ": warning: "
    ++ r.message
    ++ txt "  ["
    ++ r.category
    ++ txt "] ["
    ++ show r.confidence
    ++ txt "]\n"

unfoldable pub emacs_form : Text → Report → Text
emacs_form f r =
    f
    ++ txt ":"
    ++ show_line r
    ++ txt ":  "
    ++ r.message
    ++ txt "  ["
    ++ r.category
    ++ txt "] ["
    ++ show r.confidence
    ++ txt "]\n"

-- `Error`, for an error that passes `_ShouldPrintError`.
unfoldable pub log_error : CppLintState → Text → Report → Written
unfolding print_error add_junit_failure
log_error s f r =
    let counted = increment_error_count s r.category in
    if text_eq s.output_format (txt "vs7")
    then print_error counted (vs7_form f r)
    else if text_eq s.output_format (txt "eclipse")
    then (counted, eclipse_form f r)
    else if text_eq s.output_format (txt "junit")
    then (add_junit_failure counted f r, [])
    else (counted, emacs_form f r)

-- `Error`; `none` is a failed assertion.
unfoldable pub error : CppLintState → Suppressions → Text → Report → Option Written
unfolding log_error
error s sup f r = elim (should_print_error s sup r.category r.confidence r.linenum) [
  | none ↦ none
  | some true ↦ some (log_error s f r)
  | some false ↦ some (s, [])
]

-- The calls of `Error` that a check makes, in order.
unfoldable pub errors : CppLintState → Suppressions → Text → List Report → Option Written
errors s sup f [] = some (s, [])
errors s sup f (r ∷ rs) = elim (error s sup f r) [
  | none ↦ none
  | some (t, out) ↦ elim (errors t sup f rs) [
    | none ↦ none
    | some (u, more) ↦ some (u, out ++ more)
  ]
]

-- `PrintInfo` writes to the standard output. It asks the module's variable `_quiet`, which is
-- false and never assigned again, and not the state's field `quiet`.
unfoldable pub print_info : CppLintState → Text → Text
print_info s message = if text_eq s.output_format (txt "junit") then [] else message

-- The texts of one file's failures, in the order in which they were added.
unfoldable pub failures_of : Text → List Failure → List Report
failures_of f [] = []
failures_of f (x ∷ xs) = (if text_eq x.file f then x.report ∷ [] else []) ++ failures_of f xs

-- `failed_file_order` and `failures_by_file`, as one list.
unfoldable pub add_to_group : Failure → List (Text × List Report) → List (Text × List Report)
add_to_group x [] = (x.file, x.report ∷ []) ∷ []
add_to_group x ((f, rs) ∷ gs) =
    if text_eq f x.file then (f, rs ++ x.report ∷ []) ∷ gs else (f, rs) ∷ add_to_group x gs

unfoldable pub group_failures : List (Text × List Report) → List Failure → List (Text × List Report)
unfolding add_to_group
group_failures gs [] = gs
group_failures gs (x ∷ xs) = group_failures (add_to_group x gs) xs
