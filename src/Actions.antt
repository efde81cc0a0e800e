-- ===== src/Actions.antt =====
-- What a check of build_support/cpplint.py does to the outside, in order: it reports an error, or
-- has a line read for a NOLINT comment.
pub mod Kept
use nwtool.Base.{Text, ℕ, Option, none, some, List, [], ◌∷◌, ◌++◌, map}
use nwtool.Report.{Report}
use nwtool.Nolint.{Suppressions, parse_nolint_suppressions}
use nwtool.State.{CppLintState}
use nwtool.State.Printing.{errors}

pub data Action : Type 0 where
  report_error : Report → Action
  parse_nolint : Text → ℕ → Action

abbrev pub reported : List Report → List Action
reported = map report_error

pub record Linter : Type 0 where
  pub lint_state : CppLintState
  pub suppressions : Suppressions

-- One action on the linter's state, for a file of this name; `none` is a failed assertion.
unfoldable pub act : Linter → Text → Action → Option (Linter × Text)
unfolding errors parse_nolint_suppressions
act l filename (report_error r) = elim (errors l.lint_state l.suppressions filename (r ∷ [])) [
  | none ↦ none
  | some (s, out) ↦ some (record l { lint_state = s }, out)
]
act l filename (parse_nolint raw_line linenum) =
    let (sup, rs) = parse_nolint_suppressions l.suppressions raw_line linenum in
    elim (errors l.lint_state sup filename rs) [
      | none ↦ none
      | some (s, out) ↦ some (record { lint_state = s; suppressions = sup }, out)
    ]

unfoldable pub act_all : Linter → Text → List Action → Option (Linter × Text)
unfolding act
act_all l filename [] = some (l, [])
act_all l filename (a ∷ as') = elim (act l filename a) [
  | none ↦ none
  | some (m, out) ↦ elim (act_all m filename as') [
    | none ↦ none
    | some (n, more) ↦ some (n, out ++ more)
  ]
]
