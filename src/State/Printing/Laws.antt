-- ===== src/State/Printing/Laws.antt =====
-- What `Error` records, and how `FormatJUnitXML` groups the failures.
use mathlib.Core.List.{append-nil, append_assoc}
use nwtool.Base.{
  if◌then◌else◌, Option-cases, length, Text, text_eq, text_eq_iff, ◌+◌, ◌≡◌, refl, sym, ap, ◌∙◌,
  ◌⊎◌, inl, inr, Bool, true, false, ◌||◌, some, List, [], ◌∷◌, ◌++◌, arith,
}
use nwtool.Report.{Report}
use nwtool.Nolint.{Suppressions}
use nwtool.State.{CppLintState, Failure, should_print_error, increment_error_count}
use nwtool.State.Printing.{
  print_error, log_error, error, errors, failures_of, add_to_group, group_failures,
}

-- The reports that pass the tests of the state.
pub passing : CppLintState → Suppressions → List Report → List Report
passing s sup [] = []
passing s sup (r ∷ rs) = elim (should_print_error s sup r.category r.confidence r.linenum) [
  | some true ↦ r ∷ passing s sup rs
  | _ ↦ passing s sup rs
]

-- Two states that decide alike.
record Same (s t : CppLintState) : Type 0 where
  verbose : t.verbose_level ≡ s.verbose_level
  filters : t.filters ≡ s.filters
  format : t.output_format ≡ s.output_format

log_error-Same : (s : CppLintState) (f : Text) (r : Report) → Same s (log_error s f r).0
unfolding log_error print_error increment_error_count
log_error-Same s f r = ground arith

log_error-count :
    (s : CppLintState) (f : Text) (r : Report) → (log_error s f r).0.error_count ≡ s.error_count + 1
unfolding log_error print_error increment_error_count
log_error-count s f r = ground arith

should_print_error-Same :
    (s t : CppLintState) (sup : Suppressions) (r : Report)
    → Same s t
    → should_print_error t sup r.category r.confidence r.linenum
      ≡ should_print_error s sup r.category r.confidence r.linenum
unfolding should_print_error
should_print_error-Same s t sup r h = rw (h.verbose, h.filters)

passing-Same :
    (s t : CppLintState) (sup : Suppressions) (rs : List Report)
    → Same s t
    → passing t sup rs ≡ passing s sup rs
unfolding passing
passing-Same s t sup [] h = refl
passing-Same s t sup (r ∷ rs) h =
    ground (arith, should_print_error-Same s t sup r h, passing-Same s t sup rs h)

pub error-cases :
    (s : CppLintState) (sup : Suppressions) (f : Text) (r : Report) (u : CppLintState) (o : Text)
    → error s sup f r ≡ some (u, o)
    → ((should_print_error s sup r.category r.confidence r.linenum ≡ some true)
        × (u ≡ (log_error s f r).0))
      ⊎ ((should_print_error s sup r.category r.confidence r.linenum ≡ some false) × (u ≡ s))
unfolding error
error-cases s sup f r u o h = ground arith

pub errors-cons :
    (s : CppLintState) (sup : Suppressions) (f : Text) (r : Report) (rs : List Report)
    (t : CppLintState) (out : Text)
    → errors s sup f (r ∷ rs) ≡ some (t, out)
    → (u : CppLintState) × (o : Text) × (more : Text) × (error s sup f r ≡ some (u, o))
      × (errors u sup f rs ≡ some (t, more))
unfolding errors
errors-cons s sup f r rs t out h = elim (Option-cases (error s sup f r)) [
  | inl e ↦ absurd (ground (arith, e))
  | inr ((u, o), e) ↦ elim (Option-cases (errors u sup f rs)) [
    | inl e' ↦ absurd (ground (arith, e, e'))
    | inr ((v, more), e') ↦ (u, o, more, e, ground (arith, e, e'))
  ]
]

-- Whatever the output format, a run of `Error` calls that meets no failed assertion adds to
-- `error_count` exactly the number of the errors that pass `_ShouldPrintError`, decided by the
-- state before the first call.
pub errors-error_count :
    (s : CppLintState) (sup : Suppressions) (f : Text) (rs : List Report) (t : CppLintState)
    (out : Text)
    → errors s sup f rs ≡ some (t, out)
    → t.error_count ≡ s.error_count + length (passing s sup rs)
unfolding passing
errors-error_count s sup f [] t out h = unfold errors in ground arith
errors-error_count s sup f (r ∷ rs) t out h =
    let (u, o, more, e, later) = errors-cons s sup f r rs t out h in
    let ih = errors-error_count u sup f rs t more later in
    elim (error-cases s sup f r u o e) [
      | inl (pass, eq) ↦ ground (
        arith,
        ih,
        log_error-count s f r,
        passing-Same s (log_error s f r).0 sup rs (log_error-Same s f r),
      )
      | inr (fail, eq) ↦ ground (arith, ih)
    ]

-- All that is kept for a file.
pub group_of : Text → List (Text × List Report) → List Report
group_of f [] = []
group_of f ((g, rs) ∷ gs) = (if text_eq g f then rs else []) ++ group_of f gs

pub has_group : Text → List (Text × List Report) → Bool
has_group f [] = false
has_group f ((g, rs) ∷ gs) = text_eq g f || has_group f gs

-- No file has two groups.
abbrev pub Distinct : List (Text × List Report) → Type 0
Distinct [] = Unit {0}
Distinct ((g, rs) ∷ gs) = (has_group g gs ≡ false) × Distinct gs

has_group-add :
    (f : Text) (x : Failure) (gs : List (Text × List Report))
    → has_group f (add_to_group x gs) ≡ (text_eq x.file f || has_group f gs)
unfolding has_group add_to_group
has_group-add f x [] = refl
has_group-add f x ((g, rs) ∷ gs) =
    ground
      (arith, has_group-add f x gs, text_eq_iff g x.file, text_eq_iff g f, text_eq_iff x.file f)

add_to_group-Distinct :
    (x : Failure) (gs : List (Text × List Report)) → Distinct gs → Distinct (add_to_group x gs)
unfolding add_to_group
add_to_group-Distinct x [] d = (unfold has_group in refl, tt)
add_to_group-Distinct x ((g, rs) ∷ gs) d = ground (
  arith,
  add_to_group-Distinct x gs d.1,
  has_group-add g x gs,
  text_eq_iff g x.file,
  text_eq_iff x.file g,
)

group_of-none :
    (f : Text) (gs : List (Text × List Report)) → has_group f gs ≡ false → group_of f gs ≡ []
unfolding group_of has_group
group_of-none f [] h = refl
group_of-none f ((g, rs) ∷ gs) h = ground (arith, group_of-none f gs)

group_of-add :
    (f : Text) (x : Failure) (gs : List (Text × List Report))
    → Distinct gs
    → group_of f (add_to_group x gs)
      ≡ group_of f gs ++ (if text_eq x.file f then x.report ∷ [] else [])
unfolding group_of add_to_group
group_of-add f x [] d = ground arith
group_of-add f x ((g, rs) ∷ gs) d = ground (
  arith,
  group_of-add f x gs d.1,
  group_of-none g gs,
  text_eq_iff g f,
  text_eq_iff g x.file,
  text_eq_iff x.file f,
  append_assoc rs (group_of f gs) (x.report ∷ []),
  append-nil (group_of f gs),
  append-nil rs,
  append-nil (rs ++ x.report ∷ []),
)

group_failures-group_of :
    (f : Text) (gs : List (Text × List Report)) (xs : List Failure)
    → Distinct gs
    → (group_of f (group_failures gs xs) ≡ group_of f gs ++ failures_of f xs)
      × Distinct (group_failures gs xs)
unfolding group_failures failures_of
group_failures-group_of f gs [] d = (sym (append-nil (group_of f gs)), d)
group_failures-group_of f gs (x ∷ xs) d =
    let more = if text_eq x.file f then x.report ∷ [] else [] in
    let (kept, distinct) =
      group_failures-group_of f (add_to_group x gs) xs (add_to_group-Distinct x gs d) in
    (
      kept
          ∙ ap (λ l. l ++ failures_of f xs) (group_of-add f x gs d)
          ∙ append_assoc (group_of f gs) more (failures_of f xs),
      distinct,
    )

-- The grouping of the JUnit failures loses none and keeps their order: a file's test case holds
-- exactly the failures that were added for it, as they were added, and no file has two test cases.
pub group_failures_lem :
    (f : Text) (xs : List Failure)
    → (group_of f (group_failures [] xs) ≡ failures_of f xs) × Distinct (group_failures [] xs)
unfolding group_of
group_failures_lem f xs = group_failures-group_of f [] xs tt
