-- ===== src/Nolint.antt =====
-- NOLINT comments: build_support/cpplint.py, `ParseNolintSuppressions`, `ProcessGlobalSuppresions`,
-- `ResetNolintSuppressions` and `IsErrorSuppressedByNolint`, over the two global dictionaries.
pub mod Frame
pub mod Global
pub mod Refinement
use nwtool.Base.{
  ◌==◌, if◌then◌else◌, is_some, length, take, drop, Text, txt, text_eq, one_of, starts_with,
  ends_with, ℕ, ◌+◌, ◌-◌, Bool, true, false, ◌&&◌, ◌||◌, Option, none, some, List, [], ◌∷◌, ◌++◌,
}
use nwtool.Report.{Report, report}
use nwtool.Regex.{search_in, searches, group}

-- `_error_suppressions`, whose key `None` is `none`, and the true keys of
-- `_global_error_suppressions`.
pub record Suppressions : Type 0 where
  pub lines : List (Option Text × ℕ)
  pub everywhere : List Text

unfoldable pub reset : Suppressions → Suppressions
reset s = record { lines = []; everywhere = [] }

abbrev pub no_suppressions : Suppressions
no_suppressions = record { lines = []; everywhere = [] }

unfoldable pub same_key : Option Text → Option Text → Bool
same_key none none = true
same_key (some a) (some b) = text_eq a b
same_key _ _ = false

-- `linenum in _error_suppressions.get(category, set())`
unfoldable pub on_line : Option Text → ℕ → List (Option Text × ℕ) → Bool
unfolding same_key
on_line key l [] = false
on_line key l ((k, n) ∷ m) = (same_key k key && n == l) || on_line key l m

unfoldable pub is_suppressed : Suppressions → Text → ℕ → Bool
unfolding on_line
is_suppressed s category linenum =
    one_of category s.everywhere
    || on_line (some category) linenum s.lines
    || on_line none linenum s.lines

abbrev pub error_categories : List Text
error_categories =
    txt "build/class"
    ∷ txt "build/c++11"
    ∷ txt "build/c++14"
    ∷ txt "build/c++tr1"
    ∷ txt "build/deprecated"
    ∷ txt "build/endif_comment"
    ∷ txt "build/explicit_make_pair"
    ∷ txt "build/forward_decl"
    ∷ txt "build/header_guard"
    ∷ txt "build/include"
    ∷ txt "build/include_subdir"
    ∷ txt "build/include_alpha"
    ∷ txt "build/include_order"
    ∷ txt "build/include_what_you_use"
    ∷ txt "build/namespaces_literals"
    ∷ txt "build/namespaces"
    ∷ txt "build/printf_format"
    ∷ txt "build/storage_class"
    ∷ txt "legal/copyright"
    ∷ txt "readability/alt_tokens"
    ∷ txt "readability/braces"
    ∷ txt "readability/casting"
    ∷ txt "readability/check"
    ∷ txt "readability/constructors"
    ∷ txt "readability/fn_size"
    ∷ txt "readability/inheritance"
    ∷ txt "readability/multiline_comment"
    ∷ txt "readability/multiline_string"
    ∷ txt "readability/namespace"
    ∷ txt "readability/nolint"
    ∷ txt "readability/nul"
    ∷ txt "readability/strings"
    ∷ txt "readability/todo"
    ∷ txt "readability/utf8"
    ∷ txt "runtime/arrays"
    ∷ txt "runtime/casting"
    ∷ txt "runtime/explicit"
    ∷ txt "runtime/int"
    ∷ txt "runtime/init"
    ∷ txt "runtime/invalid_increment"
    ∷ txt "runtime/member_string_references"
    ∷ txt "runtime/memset"
    ∷ txt "runtime/indentation_namespace"
    ∷ txt "runtime/operator"
    ∷ txt "runtime/printf"
    ∷ txt "runtime/printf_format"
    ∷ txt "runtime/references"
    ∷ txt "runtime/string"
    ∷ txt "runtime/threadsafe_fn"
    ∷ txt "runtime/vlog"
    ∷ txt "whitespace/blank_line"
    ∷ txt "whitespace/braces"
    ∷ txt "whitespace/comma"
    ∷ txt "whitespace/comments"
    ∷ txt "whitespace/empty_conditional_body"
    ∷ txt "whitespace/empty_if_body"
    ∷ txt "whitespace/empty_loop_body"
    ∷ txt "whitespace/end_of_line"
    ∷ txt "whitespace/ending_newline"
    ∷ txt "whitespace/forcolon"
    ∷ txt "whitespace/indent"
    ∷ txt "whitespace/line_length"
    ∷ txt "whitespace/newline"
    ∷ txt "whitespace/operators"
    ∷ txt "whitespace/parens"
    ∷ txt "whitespace/semicolon"
    ∷ txt "whitespace/tab"
    ∷ txt "whitespace/todo"
    ∷ []

abbrev pub legacy_error_categories : List Text
legacy_error_categories = txt "readability/streams" ∷ txt "readability/function" ∷ []

abbrev pub nolint : Text
nolint = txt "\\bNOLINT(NEXTLINE)?\\b(\\([^)]+\\))?"

-- `_error_suppressions.setdefault(key, set()).add(line)`
unfoldable pub suppress : Suppressions → Option Text → ℕ → Suppressions
suppress s key line = record s { lines = (key, line) ∷ s.lines }

-- What a NOLINT comment with this `(category)` does; `none` is a comment with no category.
unfoldable pub apply_category : Suppressions → Option Text → ℕ → ℕ → Suppressions × List Report
unfolding suppress
apply_category s none line linenum = (suppress s none line, [])
apply_category s (some category) line linenum =
    let inner = take (length category - 2) (drop 1 category) in
    if text_eq category (txt "(*)")
    then (suppress s none line, [])
    else if starts_with category (txt "(") && ends_with category (txt ")")
    then if one_of inner error_categories
      then (suppress s (some inner) line, [])
      else if one_of inner legacy_error_categories
      then (s, [])
      else (
        s,
        report linenum (txt "readability/nolint") 5 (txt "Unknown NOLINT error category: " ++ inner)
            ∷ [],
      )
    else (s, [])

unfoldable pub parse_nolint_suppressions : Suppressions → Text → ℕ → Suppressions × List Report
unfolding apply_category
parse_nolint_suppressions s raw_line linenum = elim (search_in nolint raw_line) [
  | none ↦ (s, [])
  | some m ↦
      apply_category s (group 2 m) (if is_some (group 1 m) then linenum + 1 else linenum) linenum
]

abbrev pub c_file : Text
c_file = txt "\\b(?:LINT_C_FILE|vim?:\\s*.*(\\s*|:)filetype=c(\\s*|:|$))"

abbrev pub kernel_file : Text
kernel_file = txt "\\b(?:LINT_KERNEL_FILE)"

-- One round of the loop, for a line.
unfoldable pub suppress_globally : Suppressions → Text → Suppressions
suppress_globally s line = record s {
  everywhere =
      (if searches kernel_file line then txt "whitespace/tab" ∷ [] else [])
      ++ (if searches c_file line then txt "readability/casting" ∷ [] else [])
      ++ s.everywhere;
}

unfoldable pub process_global_suppressions : Suppressions → List Text → Suppressions
process_global_suppressions s [] = s
process_global_suppressions s (line ∷ lines) =
    process_global_suppressions (suppress_globally s line) lines
