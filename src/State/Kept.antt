-- ===== src/State/Kept.antt =====
-- What a call of `Error` leaves as it is in `_CppLintState`, and the tally of its counts.
use nwtool.Base.{
  Option-cases, Text, ◌≡◌, refl, ◌∙◌, ◌≢◌, inl, inr, none, some, List, [], ◌∷◌, ◌++◌, arith,
}
use nwtool.Report.{Report}
use nwtool.Nolint.{Suppressions}
use nwtool.State.{CppLintState, increment_error_count}
use nwtool.State.Counts.{ByCategory, total, total-bump, key}
use nwtool.State.Printing.{print_error, log_error, error, errors}
use nwtool.State.Filters.{WellFormed, should_print_error-last}
use nwtool.State.Printing.Laws.{error-cases, errors-cons}

-- The settings of two states are the same.
pub record Kept (s t : CppLintState) : Type 0 where
  pub backup : t.filters_backup ≡ s.filters_backup
  pub filters : t.filters ≡ s.filters
  pub quiet : t.quiet ≡ s.quiet
  pub counting : t.counting ≡ s.counting
  pub format : t.output_format ≡ s.output_format
  pub level : t.verbose_level ≡ s.verbose_level

-- The counts by category add up to the number of errors, where errors are counted by category.
abbrev pub Tally : CppLintState → Type 0
Tally s = ByCategory s → total s.errors_by_category ≡ s.error_count

pub Kept-refl : (s : CppLintState) → Kept s s
Kept-refl s = record {
  backup = refl;
  filters = refl;
  quiet = refl;
  counting = refl;
  format = refl;
  level = refl;
}

pub Kept-trans : {s t u : CppLintState} → Kept s t → Kept t u → Kept s u
Kept-trans a b = record {
  backup = b.backup ∙ a.backup;
  filters = b.filters ∙ a.filters;
  quiet = b.quiet ∙ a.quiet;
  counting = b.counting ∙ a.counting;
  format = b.format ∙ a.format;
  level = b.level ∙ a.level;
}

log_error-Kept : (s : CppLintState) (f : Text) (r : Report) → Kept s (log_error s f r).0
unfolding log_error print_error increment_error_count
log_error-Kept s f r = ground arith

log_error-Tally : (s : CppLintState) (f : Text) (r : Report) → Tally s → Tally (log_error s f r).0
unfolding log_error print_error increment_error_count
log_error-Tally s f r h = ground (arith, total-bump (key s r.category) s.errors_by_category)

error-Kept :
    (s : CppLintState) (sup : Suppressions) (f : Text) (r : Report) (u : CppLintState) (o : Text)
    → error s sup f r ≡ some (u, o)
    → Kept s u × (Tally s → Tally u)
error-Kept s sup f r u o e = elim (error-cases s sup f r u o e) [
  | inl (pass, eq) ↦ rw eq (log_error-Kept s f r, log_error-Tally s f r)
  | inr (fail, eq) ↦ rw eq (Kept-refl s, λ h. h)
]

pub errors-Kept :
    (s : CppLintState) (sup : Suppressions) (f : Text) (rs : List Report) (t : CppLintState)
    (out : Text)
    → errors s sup f rs ≡ some (t, out)
    → Kept s t × (Tally s → Tally t)
errors-Kept s sup f [] t out h =
    let same : s ≡ t = unfold errors in cc in rw same (Kept-refl t, λ h. h)
errors-Kept s sup f (r ∷ rs) t out h =
    let (u, o, more, e, later) = errors-cons s sup f r rs t out h in
    let (kept, tally) = error-Kept s sup f r u o e in
    let (kept', tally') = errors-Kept u sup f rs t more later in
    (Kept-trans kept kept', λ h. tally' (tally h))

error-total :
    (s : CppLintState) (sup : Suppressions) (f : Text) (r : Report)
    → WellFormed s.filters
    → error s sup f r ≢ none
unfolding error
error-total s sup f r h e =
    ground (arith, should_print_error-last s sup r.category r.confidence r.linenum h)

-- While every filter has a sign, no assertion fails.
pub errors-total :
    (s : CppLintState) (sup : Suppressions) (f : Text) (rs : List Report)
    → WellFormed s.filters
    → (r : CppLintState × Text) × (errors s sup f rs ≡ some r)
unfolding errors
errors-total s sup f [] h = ((s, []), refl)
errors-total s sup f (r ∷ rs) h = elim (Option-cases (error s sup f r)) [
  | inl e ↦ absurd (error-total s sup f r h e)
  | inr ((u, o), e) ↦
      let (kept, _) = error-Kept s sup f r u o e in
      let ((t, more), later) = errors-total u sup f rs (rw kept.filters h) in
      ((t, o ++ more), rw (e, errors, later))
]
