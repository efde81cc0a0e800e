-- ===== src/Program/Files/Frame.antt =====
-- What `ProcessFile` leaves as it was.
use nwtool.Base.{
  Bool-cases, Option-cases, Text, split, ℕ, ◌≡◌, refl, ap, ◌∙◌, inl, inr, Bool, true, false, Option,
  none, some, List, arith,
}
use nwtool.Report.{Report}
use nwtool.Cleanse.{CleansedLines}
use nwtool.Actions.{Linter, reported, act_all}
use nwtool.Actions.Kept.{Stays, Stays-trans, act_all-Stays}
use nwtool.State.{CppLintState, backup_filters, restore_filters, set_verbose_level}
use nwtool.State.Filters.{WellFormed}
use nwtool.State.Kept.{Kept-refl, Tally}
use nwtool.Nolint.{Suppressions}
use nwtool.Process.Data.{process_file_data}
use nwtool.Process.Data.Kept.{process_file_data-Stays}
use nwtool.Program.{Host, Globals, on_state, put_info, put_error}
use nwtool.Program.Config.{process_config_overrides}
use nwtool.Program.Config.Filters.{rest, process_config_overrides-rest}
use nwtool.Program.Files.Endings.{strip_returns, crlf_warnings}
use nwtool.Program.Files.{
  lint_lines, lint_named, finish, lint_file, lint_allowed, process_file, read_file, has_valid_name,
  file_extension, ignored, skipped,
}

put_error-Stays : (m : Text) (g : Globals) → Stays g.linter (put_error m g).linter
unfolding put_error
put_error-Stays m g = ground arith

finish-linter : (filename : Text) (n : ℕ) (g : Globals) → (finish filename n g).linter ≡ g.linter
unfolding finish put_info
finish-linter filename n g = ground arith

Stays-refl : (l : Linter) → Stays l l
Stays-refl l = (Kept-refl l.lint_state, λ t. t)

-- The tally is one of what configuration files do not change.
rest-Tally :
    (g c : Globals) → rest c ≡ rest g → Tally g.linter.lint_state → Tally c.linter.lint_state
rest-Tally g c same t =
    let counts : c.linter.lint_state.error_count ≡ g.linter.lint_state.error_count =
      ap (λ (x : CppLintState × Suppressions). x.0.error_count) same in
    let categories : c.linter.lint_state.errors_by_category
        ≡ g.linter.lint_state.errors_by_category =
      ap (λ (x : CppLintState × Suppressions). x.0.errors_by_category) same in
    let counting : c.linter.lint_state.counting ≡ g.linter.lint_state.counting =
      ap (λ (x : CppLintState × Suppressions). x.0.counting) same in
    rw (counts, categories, counting) t

module _ (host : Host) (extra_checks : List (CleansedLines → ℕ → List Report))
    (filename : Text) where
  lint_lines-Stays :
      (lines : List Text) (g h : Globals)
      → lint_lines host extra_checks filename lines g ≡ some h
      → Stays g.linter h.linter
  unfolding lint_lines
  lint_lines-Stays lines g h e =
      elim (Option-cases (
        process_file_data host.sys host.unicode g.flags g.line_length extra_checks filename
          (file_extension filename) g.linter (strip_returns lines))) [
            | inl e' ↦ absurd (ground (arith, e'))
            | inr ((l, out), e') ↦
                elim (Option-cases (act_all l filename (reported (crlf_warnings lines)))) [
                  | inl f ↦ absurd (ground (arith, e', f))
                  | inr ((m, more), f) ↦
                      let is : h.linter ≡ m = ground (arith, e', f) in
                      rw is (
                        Stays-trans g.linter l m
                          (process_file_data-Stays host.sys host.unicode g.flags g.line_length
                            extra_checks filename (file_extension filename) g.linter l
                            (strip_returns lines) out e')
                          (act_all-Stays l filename (reported (crlf_warnings lines)) m more f))
                ]
          ]

  lint_named-Stays :
      (lines : List Text) (g h : Globals)
      → lint_named host extra_checks filename lines g ≡ some h
      → Stays g.linter h.linter
  unfolding lint_named
  lint_named-Stays lines g h e = elim (Bool-cases (has_valid_name filename g)) [
    | inl valid ↦ lint_lines-Stays lines g h (rw (valid, lint_named) at e)
    | inr other ↦
        let is : h ≡ put_error (ignored filename g) g = ground (arith, other) in
        rw is (put_error-Stays (ignored filename g) g)
  ]

  lint_file-Stays :
      (n : ℕ) (g h : Globals)
      → lint_file host extra_checks filename n g ≡ some h
      → Stays g.linter h.linter
  unfolding lint_file
  lint_file-Stays n g h e = elim (Option-cases (read_file host filename)) [
    | inl fails ↦
        let is : h ≡ put_error (skipped filename) g = ground (arith, fails) in
        rw is (put_error-Stays (skipped filename) g)
    | inr (text, is) ↦
        elim (Option-cases (lint_named host extra_checks filename (split 10 text) g)) [
          | inl e' ↦ absurd (ground (arith, is, e'))
          | inr (k, e') ↦
              let same : h ≡ finish filename n k = ground (arith, is, e') in
              rw (same, finish-linter filename n k) (lint_named-Stays (split 10 text) g k e')
        ]
  ]

  lint_allowed-Stays :
      (n : ℕ) (o : Option (Bool × Globals)) (h : Globals)
      → lint_allowed host extra_checks filename n o ≡ some h
      → (b : Bool) × (c : Globals) × (o ≡ some (b, c)) × Stays c.linter h.linter
  unfolding lint_allowed
  lint_allowed-Stays n none h e = cc
  lint_allowed-Stays n (some (false, c)) h e =
      let is : h ≡ c = cc in (false, c, refl, rw is (Stays-refl c.linter))
  lint_allowed-Stays n (some (true, c)) h e = (true, c, refl, lint_file-Stays n c h e)

  -- Where `ProcessFile` returns, and every filter had a sign before, it leaves the filters as they
  -- were, whatever filters the configuration files have added and whether the file is checked,
  -- excluded, ignored or cannot be read; with them the quiet flag, the style of counting and the
  -- output format, and the counts by category still add up to the number of errors if they did
  -- before. Where it raises an exception, as for an added filter with no sign, nothing is said.
  pub process_file-filters :
      (vlevel : ℕ) (g h : Globals)
      → WellFormed g.linter.lint_state.filters
      → process_file host extra_checks filename vlevel g ≡ some h
      → (h.linter.lint_state.filters ≡ g.linter.lint_state.filters)
        × (h.linter.lint_state.quiet ≡ g.linter.lint_state.quiet)
        × (h.linter.lint_state.counting ≡ g.linter.lint_state.counting)
        × (h.linter.lint_state.output_format ≡ g.linter.lint_state.output_format)
        × (Tally g.linter.lint_state → Tally h.linter.lint_state)
  unfolding process_file restore_filters backup_filters set_verbose_level
  process_file-filters vlevel g h w e =
      let ready = on_state (λ s. backup_filters (set_verbose_level s vlevel).0) g in
      let n = g.linter.lint_state.error_count in
      let overrides = process_config_overrides host filename ready in
      elim (Option-cases (lint_allowed host extra_checks filename n overrides)) [
        | inl e' ↦ absurd (ground (arith, e'))
        | inr (k, e') ↦
            let is : h ≡ on_state restore_filters k = ground (arith, e') in
            let (b, c, given, (kept, tally)) = lint_allowed-Stays n overrides k e' in
            let (same, _) = process_config_overrides-rest host filename ready c b given w in
            rw is (
              kept.backup ∙ ap (λ (x : CppLintState × Suppressions). x.0.filters_backup) same,
              kept.quiet ∙ ap (λ (x : CppLintState × Suppressions). x.0.quiet) same,
              kept.counting ∙ ap (λ (x : CppLintState × Suppressions). x.0.counting) same,
              kept.format ∙ ap (λ (x : CppLintState × Suppressions). x.0.output_format) same,
              λ t. tally (rest-Tally ready c same t),
            )
      ]
