-- ===== src/Constructors.antt =====
-- Constructs that are not standard, and constructors: build_support/cpplint.py,
-- `CheckForNonStandardConstructs`.
pub mod Arguments
pub mod Constructs
use nwtool.Base.{
  leb, ◌==◌, if◌then◌else◌, length, get_or, drop, Text, txt, text_eq, starts_with, strip, split,
  contains, ℕ, zero, suc, ◌-◌, Bool, true, false, not, ◌&&◌, ◌||◌, Option, none, some, List, [],
  ◌∷◌, ◌++◌,
}
use nwtool.Report.{Report, report}
use nwtool.Regex.{match, matches, searches}
use nwtool.Cleanse.{CleansedLines}
use nwtool.Cleanse.Strings.{group_text}
use nwtool.Nesting.Blocks.{Kind, class_block, NestingState, innermost_class}
use Arguments.{collapse_arguments}
use Constructs.{check_constructs}

-- `name.split('::')[-1]`; the number says how much to skip.
last_part : ℕ → Text → Text → Text
last_part skip [] best = best
last_part (suc skip) (c ∷ s) best = last_part skip s best
last_part zero (c ∷ s) best =
    let here = starts_with (c ∷ s) (txt "::") in
    last_part (if here then 1 else 0) s (if here then drop 1 s else best)

unfoldable pub base_classname : Text → Text
unfolding last_part starts_with
base_classname name = last_part 0 name name

abbrev with_text : Text → List Text → List Text
with_text t [] = []
with_text t (a ∷ as') = (if contains a t then a ∷ [] else []) ++ with_text t as'

-- What the code asks of the arguments of a constructor.
pub record Shape : Type 0 where
  pub variadic_args : List Text
  pub defaulted_args : List Text
  pub noarg_constructor : Bool
  pub onearg_constructor : Bool

unfoldable pub shape : List Text → Shape
unfolding contains strip text_eq
shape args =
    let n = length args in
    let variadic = with_text (txt "&&...") args in
    let defaulted = with_text (txt "=") args in
    let noarg = n == 0 || (n == 1 && text_eq (strip (get_or args 0 [])) (txt "void")) in
    record {
      variadic_args = variadic;
      defaulted_args = defaulted;
      noarg_constructor = noarg;
      onearg_constructor =
          (n == 1 && not noarg)
          || (leb 1 n && not noarg && leb (n - 1) (length defaulted))
          || (leb n 2 && leb 1 (length variadic));
    }

-- The first argument makes it a constructor from an initializer list, or a copy constructor. A class
-- name is a word, of which `re.escape` changes nothing.
unfoldable pub is_conversion_exempt : Text → List Text → Bool
unfolding searches matches strip
is_conversion_exempt classname args =
    let first = get_or args 0 [] in
    searches (txt "\\bstd\\s*::\\s*initializer_list\\b") first
    || matches
        (txt "(const\\s+)?" ++ classname ++ txt "(\\s*<[^>]*>)?(\\s+const)?\\s*(?:<\\w+>\\s*)?&")
        (strip first)

abbrev no_text : List Text → Bool
no_text [] = true
no_text (a ∷ as') = false

-- The reports on a constructor with these collapsed arguments.
unfoldable pub check_explicit : ℕ → Text → Bool → List Text → List Report
unfolding shape is_conversion_exempt
check_explicit linenum classname is_marked_explicit args =
    let s = shape args in
    if not is_marked_explicit && s.onearg_constructor && not (is_conversion_exempt classname args)
    then report linenum (txt "runtime/explicit") 5 (
        if no_text s.defaulted_args && no_text s.variadic_args
        then txt "Single-parameter constructors should be marked explicit."
        else txt "Constructors callable with one argument " ++ txt "should be marked explicit.")
      ∷ []
    else if is_marked_explicit && not s.onearg_constructor && s.noarg_constructor
    then report linenum (txt "runtime/explicit") 5
        (txt "Zero-parameter constructors should not be marked explicit.")
      ∷ []
    else []

abbrev constructor_pattern : Text → Text
constructor_pattern classname =
    txt "\\s+(?:(?:inline|constexpr)\\s+)*(explicit\\s+)?"
    ++ txt "(?:(?:inline|constexpr)\\s+)*"
    ++ classname
    ++ txt "\\s*\\(((?:[^()]|\\([^()]*\\))*)\\)"

-- The part on constructors, on a line of the class; `none` is an IndexError.
unfoldable pub check_constructor : ℕ → Text → Text → Option (List Report)
unfolding match group_text collapse_arguments check_explicit text_eq split
check_constructor linenum classname line = elim (match (constructor_pattern classname) line) [
  | none ↦ some []
  | some m ↦
      let arguments = group_text 2 m in
      let split_args = if text_eq arguments [] then [] else split b',' arguments in
      elim (collapse_arguments split_args) [
        | none ↦ none
        | some args ↦
            some (check_explicit linenum classname (not (text_eq (group_text 1 m) [])) args)
      ]
]

abbrev class_name : Kind → Text
class_name (class_block c) = c.name
class_name _ = []

-- `CheckForNonStandardConstructs`; `none` is an IndexError.
unfoldable pub check_for_non_standard_constructs :
    CleansedLines → ℕ → NestingState → Option (List Report)
unfolding check_constructs innermost_class check_constructor base_classname
check_for_non_standard_constructs clean linenum s =
    let reports = check_constructs clean linenum in
    elim (innermost_class s.stack) [
      | none ↦ some reports
      | some classinfo ↦
          if not classinfo.seen_open_brace
          then some reports
          else (elim (check_constructor linenum (base_classname (class_name classinfo.kind))
              (get_or clean.elided linenum [])) [
                | none ↦ none
                | some more ↦ some (reports ++ more)
              ])
    ]
