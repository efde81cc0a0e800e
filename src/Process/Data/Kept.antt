-- ===== src/Process/Data/Kept.antt =====
-- What the processing of a file's lines leaves as it is, and that it comes to its end.
use nwtool.Base.{
  Option-cases, Text, ℕ, ◌≡◌, sym, ◌∙◌, ◌≢◌, ◌↔◌, inl, inr, Option, none, some, List, ◌++◌, arith,
}
use nwtool.Base.Int.{ℤ}
use nwtool.Report.{Report}
use nwtool.Actions.{Action, reported, Linter, act_all}
use nwtool.Actions.Kept.{Stays, Stays-trans, act_all-Stays, act_all-total}
use nwtool.Braces.Width.{Unicode}
use nwtool.Cleanse.{CleansedLines}
use nwtool.FileChecks.{add_markers, check_for_copyright}
use nwtool.FileInfo.{System, Flags}
use nwtool.Nolint.{reset}
use nwtool.State.Filters.{WellFormed}
use nwtool.Process.Data.{
  data_actions, run_actions, process_file_data, behind_copyright, with_output, suppressed_globally,
}

run_actions-Stays :
    (filename : Text) (l m : Linter) (o : Option (List Action)) (out : Text)
    → run_actions filename l o ≡ some (m, out)
    → Stays l m
unfolding run_actions
run_actions-Stays f l m none out h = cc
run_actions-Stays f l m (some as') out h = act_all-Stays l f as' m out h

with_output-some :
    (before : Text) (o : Option (Linter × Text)) (m : Linter) (out : Text)
    → with_output before o ≡ some (m, out)
    → (more : Text) × (o ≡ some (m, more))
with_output-some before none m out h = cc
with_output-some before (some (l, more)) m out h = (more, ground arith)

none-some : (o : Linter × Text) → none ≢ some o
none-some o h = cc

module _ (sys : System) (unicode : Unicode) (flags : Flags) (line_length : ℤ)
    (extra_checks : List (CleansedLines → ℕ → List Report)) (filename file_extension : Text) where
  abbrev checks : ℕ → List Text → Option (List Action)
  checks = data_actions sys unicode flags line_length extra_checks filename file_extension

  abbrev process : Linter → List Text → Option (Linter × Text)
  process = process_file_data sys unicode flags line_length extra_checks filename file_extension

  behind_copyright-Stays :
      (lines : List Text) (l k m : Linter) (before out : Text)
      → Stays l k
      → behind_copyright sys unicode flags line_length extra_checks filename file_extension lines
          (some (k, before))
        ≡ some (m, out)
      → Stays l m
  unfolding behind_copyright
  behind_copyright-Stays lines l k m before out kept h =
      let (more, runs) = with_output-some before _ m out h in
      Stays-trans l k m kept (
        run_actions-Stays filename (suppressed_globally lines k) m
          (checks k.lint_state.verbose_level lines) more runs)

  -- `ProcessFileData` keeps the filters and the other settings, and the tally of the counts.
  pub process_file_data-Stays :
      (l m : Linter) (lines : List Text) (out : Text) → process l lines ≡ some (m, out) → Stays l m
  unfolding process_file_data
  process_file_data-Stays l m lines out h =
      let fresh : Linter = record l { suppressions = reset l.suppressions } in
      let reports = reported (check_for_copyright (add_markers lines)) in
      elim (Option-cases (act_all fresh filename reports)) [
        | inl e ↦ absurd (none-some (m, out) (rw e at h))
        | inr ((k, before), e) ↦
            behind_copyright-Stays (add_markers lines) l k m before out
              (act_all-Stays fresh filename reports k before e) (rw e at h)
      ]

  process_file_data-total :
      (l : Linter) (lines : List Text) (actions : List Action)
      → WellFormed l.lint_state.filters
      → checks l.lint_state.verbose_level (add_markers lines) ≡ some actions
      → (r : Linter × Text) × (process l lines ≡ some r)
  unfolding process_file_data run_actions
  process_file_data-total l lines actions w e =
      let fresh : Linter = record l { suppressions = reset l.suppressions } in
      let ((k, before), copyright) =
        act_all-total fresh filename (reported (check_for_copyright (add_markers lines))) w in
      let (kept, _) =
        act_all-Stays fresh filename (reported (check_for_copyright (add_markers lines))) k before
          copyright in
      let ((m, out), runs) =
        act_all-total (suppressed_globally (add_markers lines) k) filename actions
          (rw kept.filters w) in
      ((m, before ++ out), rw (copyright, behind_copyright, kept.level, e, runs))

  -- While every filter has a sign, the processing of a file's lines fails exactly where what
  -- follows `CheckForCopyright` cannot list its actions: where a check raises an exception or one
  -- of the loops does not end. No error and no NOLINT comment makes it fail besides.
  pub process_file_data-eq-none :
      (l : Linter) (lines : List Text)
      → WellFormed l.lint_state.filters
      → (process l lines ≡ none) ↔ (checks l.lint_state.verbose_level (add_markers lines) ≡ none)
  unfolding process_file_data run_actions
  process_file_data-eq-none l lines w =
      let fresh : Linter = record l { suppressions = reset l.suppressions } in
      let reports = reported (check_for_copyright (add_markers lines)) in
      let ((k, before), copyright) = act_all-total fresh filename reports w in
      let (kept, _) = act_all-Stays fresh filename reports k before copyright in
      elim (Option-cases (checks l.lint_state.verbose_level (add_markers lines))) [
        | inl fails ↦ (λ _. fails, λ _. rw (copyright, behind_copyright, kept.level, fails))
        | inr (actions, e) ↦
            let (r, runs) = process_file_data-total l lines actions w e in
            (λ h. absurd (none-some r (sym h ∙ runs)), λ h. absurd (cc))
      ]
