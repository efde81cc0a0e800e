-- ===== src/Program/Config/Filters.antt =====
-- The filters that configuration files add, and what else `ProcessConfigOverrides` may change.
use mathlib.Core.List.{append_assoc, append-nil}
use nwtool.Base.{
  Option-cases, length, Text, split, ◌+◌, ◌≡◌, refl, sym, ap, ◌∙◌, inl, inr, Bool, true, Option,
  none, some, List, [], ◌∷◌, ◌++◌, reverse, arith,
}
use nwtool.Paths.{abspath}
use nwtool.State.{CppLintState, add_filters, clean_filters}
use nwtool.State.Filters.{WellFormed}
use nwtool.Nolint.{Suppressions}
use nwtool.Program.{Host, Globals, on_state}
use nwtool.Program.Config.{
  Overrides, Verdict, proceed, excluded, config_loop, add_all_filters, apply_overrides,
  process_config_overrides,
}
use nwtool.Program.Config.Frame.{bare, globals_of, add_all_filters-rest, config_loop-bare}

-- The filters in a list of values of `filter`.
abbrev pub all_clean : List Text → List Text
all_clean [] = []
all_clean (f ∷ fs) = clean_filters (split b',' f) ++ all_clean fs

pub add_all_filters_lem :
    (fs : List Text) (s t : CppLintState)
    → add_all_filters fs s ≡ some t
    → WellFormed s.filters
    → (t.filters ≡ s.filters ++ all_clean fs) × WellFormed t.filters
unfolding add_all_filters add_filters
add_all_filters_lem [] s t h w =
    let same : t ≡ s = cc in
    (ap (λ (u : CppLintState). u.filters) same ∙ sym (append-nil s.filters), rw same w)
add_all_filters_lem (f ∷ fs) s t h w =
    let added = clean_filters (split b',' f) in
    elim (Option-cases (add_filters s f).1) [
      | inr (filter, bad) ↦ absurd (ground (arith, rw (bad, add_all_filters) at h))
      | inl good ↦
          let (last, kept) =
            add_all_filters_lem fs (add_filters s f).0 t (rw (good, add_all_filters) at h) good in
          (last ∙ append_assoc s.filters added (all_clean fs), kept)
    ]

-- All that the overrides leave: the linter's state but its filters and the texts kept for JUnit, and
-- the suppressions.
abbrev pub rest : Globals → CppLintState × Suppressions
rest g = (record g.linter.lint_state { filters = []; junit_errors = [] }, g.linter.suppressions)

abbrev without_filters : CppLintState × Suppressions → CppLintState × Suppressions
without_filters (s, sup) = (record s { filters = [] }, sup)

apply_overrides-rest :
    (o : Option (Option Verdict)) (g c : Globals) (b : Bool)
    → ((v : Verdict) → o ≡ some (some v) → bare (globals_of v) ≡ bare g)
    → WellFormed g.linter.lint_state.filters
    → apply_overrides o ≡ some (b, c)
    → (rest c ≡ rest g) × WellFormed c.linter.lint_state.filters
unfolding apply_overrides
apply_overrides-rest none g c b k w h = cc
apply_overrides-rest (some none) g c b k w h = cc
apply_overrides-rest (some (some (excluded e))) g c b k w h =
    let same : c ≡ e = cc in
    let kept = k (excluded e) refl in
    let filters : e.linter.lint_state.filters ≡ g.linter.lint_state.filters =
      ap (λ (x : CppLintState × Suppressions). x.0.filters) kept in
    (ap rest same ∙ ap without_filters kept, rw (same, filters) w)
apply_overrides-rest (some (some (proceed p))) g c b k w h =
    let s = p.globals.linter.lint_state in
    let kept = k (proceed p) refl in
    let filters : s.filters ≡ g.linter.lint_state.filters =
      ap (λ (x : CppLintState × Suppressions). x.0.filters) kept in
    elim (Option-cases (add_all_filters (reverse p.cfg_filters) s)) [
      | inl e ↦ absurd (ground (arith, e))
      | inr (t, e) ↦
          let same : c ≡ on_state (λ u. t) p.globals = ground (arith, e) in
          let (_, good) = add_all_filters_lem (reverse p.cfg_filters) s t e (rw filters w) in
          (
            ap rest same
                ∙ ap
                    (λ (u : CppLintState).
                      (record u { junit_errors = [] }, p.globals.linter.suppressions))
                    (add_all_filters-rest (reverse p.cfg_filters) s t e)
                ∙ ap without_filters kept,
            rw same good,
          )
    ]

-- Whatever the configuration files say, `ProcessConfigOverrides` changes nothing of the linter's
-- state but the filters, which stay such that each has a sign, and the texts kept for JUnit.
pub process_config_overrides-rest :
    (host : Host) (filename : Text) (g c : Globals) (b : Bool)
    → process_config_overrides host filename g ≡ some (b, c)
    → WellFormed g.linter.lint_state.filters
    → (rest c ≡ rest g) × WellFormed c.linter.lint_state.filters
unfolding process_config_overrides
process_config_overrides-rest host filename g c b h w =
    let path = abspath host.sys.cwd filename in
    let start : Overrides = record { keep_looking = true; cfg_filters = []; globals = g } in
    apply_overrides-rest (config_loop (length path + 1) host filename path start) g c b
      (config_loop-bare (length path + 1) host filename path start) w h
