-- ===== src/Actions/Kept.antt =====
-- What a run of actions leaves as it is, and that none of its assertions fails.
use nwtool.Base.{Option-cases, Text, ◌≡◌, refl, inl, inr, some, List, [], ◌∷◌, ◌++◌, arith}
use nwtool.State.Filters.{WellFormed}
use nwtool.State.Kept.{Kept, Kept-refl, Kept-trans, Tally, errors-Kept, errors-total}
use nwtool.State.Printing.{errors}
use nwtool.Nolint.{parse_nolint_suppressions}
use nwtool.Actions.{Action, report_error, parse_nolint, Linter, act, act_all}

-- The settings are kept, and so is the tally of the counts.
abbrev pub Stays : Linter → Linter → Type 0
Stays l m = Kept l.lint_state m.lint_state × (Tally l.lint_state → Tally m.lint_state)

pub Stays-trans : (l m n : Linter) → Stays l m → Stays m n → Stays l n
Stays-trans l m n a b = (Kept-trans a.0 b.0, λ h. b.1 (a.1 h))

act-Stays :
    (l : Linter) (filename : Text) (a : Action) (m : Linter) (out : Text)
    → act l filename a ≡ some (m, out)
    → Stays l m
unfolding act
act-Stays l f (report_error r) m out h =
    elim (Option-cases (errors l.lint_state l.suppressions f (r ∷ []))) [
      | inl e ↦ absurd (ground (arith, e))
      | inr ((s, o), e) ↦
          let is : m.lint_state ≡ s = ground (arith, e) in
          rw is (errors-Kept l.lint_state l.suppressions f (r ∷ []) s o e)
    ]
act-Stays l f (parse_nolint raw linenum) m out h =
    let (sup, rs) = parse_nolint_suppressions l.suppressions raw linenum in
    elim (Option-cases (errors l.lint_state sup f rs)) [
      | inl e ↦ absurd (ground (arith, e))
      | inr ((s, o), e) ↦
          let is : m.lint_state ≡ s = ground (arith, e) in
          rw is (errors-Kept l.lint_state sup f rs s o e)
    ]

act-total :
    (l : Linter) (filename : Text) (a : Action)
    → WellFormed l.lint_state.filters
    → (r : Linter × Text) × (act l filename a ≡ some r)
unfolding act
act-total l f (report_error r) w =
    let ((s, o), e) = errors-total l.lint_state l.suppressions f (r ∷ []) w in
    ((record l { lint_state = s }, o), rw (e, act))
act-total l f (parse_nolint raw linenum) w =
    let (sup, rs) = parse_nolint_suppressions l.suppressions raw linenum in
    let ((s, o), e) = errors-total l.lint_state sup f rs w in
    ((record { lint_state = s; suppressions = sup }, o), rw (e, act))

pub act_all-Stays :
    (l : Linter) (filename : Text) (as' : List Action) (m : Linter) (out : Text)
    → act_all l filename as' ≡ some (m, out)
    → Stays l m
unfolding act_all
act_all-Stays l f [] m out h = let same : l ≡ m = cc in rw same (Kept-refl m.lint_state, λ t. t)
act_all-Stays l f (a ∷ as') m out h = elim (Option-cases (act l f a)) [
  | inl e ↦ absurd (ground (arith, e))
  | inr ((k, o), e) ↦ elim (Option-cases (act_all k f as')) [
    | inl e' ↦ absurd (ground (arith, e, e'))
    | inr ((n, more), e') ↦
        let is : n ≡ m = ground (arith, e, e') in
        Stays-trans l k m (act-Stays l f a k o e) (rw is at (act_all-Stays k f as' n more e'))
  ]
]

-- While every filter has a sign, every run of actions comes to its end: the assertion of
-- `_ShouldPrintError` does not fail.
pub act_all-total :
    (l : Linter) (filename : Text) (as' : List Action)
    → WellFormed l.lint_state.filters
    → (r : Linter × Text) × (act_all l filename as' ≡ some r)
unfolding act_all
act_all-total l f [] w = ((l, []), refl)
act_all-total l f (a ∷ as') w =
    let ((k, o), e) = act-total l f a w in
    let (kept, _) = act-Stays l f a k o e in
    let ((n, more), e') = act_all-total k f as' (rw kept.filters w) in
    ((n, o ++ more), rw (e, act_all, e'))
