-- ===== src/Program/Main/Counts.antt =====
-- The counts and the exit status of a whole run.
use nwtool.Base.{
  ltb, Option-cases, Text, one_of, ℕ, ◌<◌, ◌≡◌, refl, sym, ap, ◌∙◌, ◌↔◌, inl, inr, Bool, true, some,
  List, [], ◌∷◌, arith,
}
use nwtool.Actions.{Linter}
use nwtool.State.{reset_error_counts}
use nwtool.State.Filters.{WellFormed}
use nwtool.State.Counts.{total}
use nwtool.State.Kept.{Tally}
use nwtool.Nolint.{no_suppressions}
use nwtool.State
use nwtool.Program.{
  Host, Globals, on_state, put_info, count_lines, sort_categories, print_error_counts,
}
use nwtool.Program.Files.{process_file}
use nwtool.Program.Files.Frame.{process_file-filters}
use nwtool.Program.Arguments.{go_on, parse_arguments, formats}
use nwtool.Program.Arguments.Valid.{parse_arguments-Known}
use nwtool.Program.Main.{process_files, print_summary, Ending, exits, ending, main}

process_files-filters :
    (host : Host) (fs : List Text) (g h : Globals)
    → WellFormed g.linter.lint_state.filters
    → process_files host fs g ≡ some h
    → (h.linter.lint_state.filters ≡ g.linter.lint_state.filters)
      × (Tally g.linter.lint_state → Tally h.linter.lint_state)
unfolding process_files
process_files-filters host [] g h w e = let same : h ≡ g = cc in rw same (refl, λ t. t)
process_files-filters host (f ∷ fs) g h w e =
    elim (Option-cases (process_file host [] f g.linter.lint_state.verbose_level g)) [
      | inl e' ↦ absurd (ground (arith, e'))
      | inr (k, e') ↦
          let (filters, _, _, _, tally) =
            process_file-filters host [] f g.linter.lint_state.verbose_level g k w e' in
          let (filters', tally') =
            process_files-filters host fs k h (rw filters w) (rw (e', process_files) at e) in
          (filters' ∙ filters, λ t. tally' (tally t))
    ]

count_lines-linter : (cs : List (Text × ℕ)) (g : Globals) → (count_lines cs g).linter ≡ g.linter
unfolding put_info
count_lines-linter [] g = refl
count_lines-linter ((c, n) ∷ cs) g = count_lines-linter cs _

print_summary-linter : (host : Host) (g : Globals) → (print_summary host g).linter ≡ g.linter
unfolding print_summary print_error_counts put_info
print_summary-linter host g =
    ground (arith, count_lines-linter (sort_categories g.linter.lint_state.errors_by_category) g)

linter_of : Ending → Linter
linter_of (exits b g) = g.linter
linter_of _ = record { lint_state = State.initial; suppressions = no_suppressions }

-- When the program comes to its end, its exit status is 1 exactly if it has counted an error, the
-- counts by category, where it keeps them, add up to the number of errors, and the filters are
-- those of the command line, each with a sign, whatever files and configurations it has read.
pub main-counts :
    (host : Host) (args filenames : List Text) (g h r : Globals) (b : Bool)
    → one_of g.linter.lint_state.output_format formats ≡ true
    → parse_arguments host args g ≡ go_on (h, filenames)
    → main host args g ≡ exits b r
    → ((b ≡ true) ↔ (0 < r.linter.lint_state.error_count))
      × Tally r.linter.lint_state
      × (r.linter.lint_state.filters ≡ h.linter.lint_state.filters)
      × WellFormed r.linter.lint_state.filters
unfolding main reset_error_counts linter_of
main-counts host args filenames g h r b k parsed e =
    let start = on_state reset_error_counts h in
    let (good, _) = parse_arguments-Known host args g h filenames k parsed in
    let run : ending host (process_files host filenames start) ≡ exits b r =
      rw (parsed, main) at e in
    elim (Option-cases (process_files host filenames start)) [
      | inl raises ↦ absurd (ground (arith, rw raises at run))
      | inr (m, ends) ↦
          let stop_at : exits (ltb 0 m.linter.lint_state.error_count) (print_summary host m)
              ≡ exits b r =
            rw ends at run in
          let same : r.linter ≡ m.linter =
            ap linter_of (sym stop_at) ∙ print_summary-linter host m in
          let status : ltb 0 m.linter.lint_state.error_count ≡ b = cc in
          let (filters, tally) = process_files-filters host filenames start m good ends in
          rw same
            (ground (arith, status), tally (λ c. unfold total in refl), filters, rw filters good)
    ]
