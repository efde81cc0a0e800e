-- ===== src/State/Filters.antt =====
-- The filters of `_CppLintState` and `_ShouldPrintError`, against a description of the verdict by
-- the last filter that applies.
use nwtool.Base.{
  leb, if◌then◌else◌, Option-cases, drop, Text, txt, text_eq, starts_with, strip, split, ℕ, ◌≤◌,
  ◌≡◌, refl, ap, ◌∙◌, ◌↔◌, inl, inr, Bool, true, false, not, ◌&&◌, ◌||◌, Option, none, some, List,
  [], ◌∷◌, ◌++◌, arith,
}
use nwtool.Nolint.{Suppressions, is_suppressed}
use nwtool.State.{
  CppLintState, bad_filter, is_filtered, should_print_error, add_filters, set_filters,
  clean_filters, backup_filters, restore_filters, default_filters,
}

-- A filter applies to the categories that begin with what follows its sign.
abbrev pub applies : Text → Text → Bool
applies category f = starts_with category (drop 1 f)

abbrev pub last_applying : Text → List Text → Option Text
last_applying category [] = none
last_applying category (f ∷ fs) = elim (last_applying category fs) [
  | some g ↦ some g
  | none ↦ if applies category f then some f else none
]

abbrev pub excluded_by : Option Text → Bool → Bool
excluded_by none acc = acc
excluded_by (some f) acc = starts_with f (txt "-")

abbrev pub WellFormed : List Text → Type 0
WellFormed fs = bad_filter fs ≡ none

is_filtered-last :
    (category : Text) (acc : Bool) (fs : List Text)
    → WellFormed fs
    → is_filtered category acc fs ≡ some (excluded_by (last_applying category fs) acc)
unfolding is_filtered bad_filter
is_filtered-last category acc [] h = refl
is_filtered-last category acc (f ∷ fs) h = ground (
  arith,
  is_filtered-last category true fs,
  is_filtered-last category false fs,
  is_filtered-last category acc fs,
)

is_filtered-bad :
    (category f : Text) (acc : Bool) (fs : List Text)
    → bad_filter fs ≡ some f
    → is_filtered category acc fs ≡ none
unfolding is_filtered bad_filter
is_filtered-bad category f acc [] h = cc
is_filtered-bad category f acc (g ∷ fs) h = ground (
  arith,
  is_filtered-bad category f true fs,
  is_filtered-bad category f false fs,
  is_filtered-bad category f acc fs,
)

-- Some filter begins neither with `+` nor with `-`.
abbrev pub any_unsigned : List Text → Bool
any_unsigned [] = false
any_unsigned (f ∷ fs) =
    (not (starts_with f (txt "+")) && not (starts_with f (txt "-"))) || any_unsigned fs

any_unsigned-bad_filter :
    (fs : List Text) → any_unsigned fs ≡ (elim (bad_filter fs) [ none ↦ false | some f ↦ true ])
unfolding bad_filter
any_unsigned-bad_filter [] = refl
any_unsigned-bad_filter (f ∷ fs) = ground (arith, any_unsigned-bad_filter fs)

module _ (s : CppLintState) (sup : Suppressions) (category : Text) (confidence linenum : ℕ) where
  -- While every filter has a sign, an error is printed exactly when it is not suppressed, its
  -- confidence reaches the verbosity level, and the last filter that applies to its category, if
  -- there is one, is not a `-` filter.
  pub should_print_error-last :
      WellFormed s.filters
      → should_print_error s sup category confidence linenum
        ≡ some (
            not (is_suppressed sup category linenum)
            && leb s.verbose_level confidence
            && not (excluded_by (last_applying category s.filters) false))
  unfolding should_print_error
  should_print_error-last h = ground (arith, is_filtered-last category false s.filters h)

  -- The assertion in the loop over the filters fails exactly on an error that is neither
  -- suppressed nor below the verbosity level while some filter begins neither with `+` nor with `-`,
  -- though the usage text gives such a filter a meaning.
  pub should_print_error-eq-none : (should_print_error s sup category confidence linenum ≡ none) ↔ (
      (is_suppressed sup category linenum ≡ false)
      × (s.verbose_level ≤ confidence)
      × (any_unsigned s.filters ≡ true))
  unfolding should_print_error
  should_print_error-eq-none =
      let same = any_unsigned-bad_filter s.filters in
      elim (Option-cases (bad_filter s.filters)) [
        | inl good ↦ (
          λ e. ground (arith, is_filtered-last category false s.filters good),
          λ e. absurd (ground (arith, same, good, e.2)),
        )
        | inr (f, bad) ↦ (
          λ e. (ground arith, ground arith, ground (arith, same, bad)),
          λ e. ground (arith, is_filtered-bad category f false s.filters bad),
        )
      ]

bad_filter-append : (fs gs : List Text) → WellFormed fs → bad_filter (fs ++ gs) ≡ bad_filter gs
unfolding bad_filter
bad_filter-append [] gs h = refl
bad_filter-append (f ∷ fs) gs h = ground (arith, bad_filter-append fs gs)

-- A part of the argument that is no filter: not blank, and with no sign.
abbrev pub unsigned : Text → Bool
unsigned part =
    not (text_eq (strip part) [])
    && not (starts_with (strip part) (txt "+"))
    && not (starts_with (strip part) (txt "-"))

-- The parts without the blanks round them, but for blank ones.
abbrev pub stripped : List Text → List Text
stripped [] = []
stripped (part ∷ parts) =
    if text_eq (strip part) [] then stripped parts else strip part ∷ stripped parts

abbrev pub first_unsigned : List Text → Option Text
first_unsigned [] = none
first_unsigned (part ∷ parts) = if unsigned part then some (strip part) else first_unsigned parts

clean_filters-stripped : (parts : List Text) → clean_filters parts ≡ stripped parts
unfolding clean_filters
clean_filters-stripped [] = refl
clean_filters-stripped (part ∷ parts) = ground (arith, clean_filters-stripped parts)

bad_filter-first_unsigned : (parts : List Text) → bad_filter (stripped parts) ≡ first_unsigned parts
unfolding bad_filter
bad_filter-first_unsigned [] = refl
bad_filter-first_unsigned (part ∷ parts) = ground (arith, bad_filter-first_unsigned parts)

-- `SetFilters` puts the parts of its argument between the commas, stripped and without blank ones,
-- behind the default filters, whatever the filters were before, and raises `ValueError` for the
-- first part that is not blank and begins neither with `+` nor with `-`, and for no other reason.
pub set_filters-error :
    (s : CppLintState) (fs : Text)
    → ((set_filters s fs).0.filters ≡ default_filters ++ stripped (split b',' fs))
      × ((set_filters s fs).1 ≡ first_unsigned (split b',' fs))
unfolding set_filters add_filters
set_filters-error s fs =
    let parts = split b',' fs in
    (
      ap (λ l. default_filters ++ l) (clean_filters-stripped parts),
      bad_filter-append default_filters (clean_filters parts) (unfold bad_filter in refl)
          ∙ ap bad_filter (clean_filters-stripped parts)
          ∙ bad_filter-first_unsigned parts,
    )

-- Calls of `AddFilters`, in order; whatever they raise.
add_all : CppLintState → List Text → CppLintState
add_all s [] = s
add_all s (fs ∷ more) = add_all (add_filters s fs).0 more

add_all-keeps :
    (s : CppLintState) (added : List Text) → restore_filters (add_all s added) ≡ restore_filters s
unfolding add_all add_filters restore_filters
add_all-keeps s [] = refl
add_all-keeps s (fs ∷ more) = add_all-keeps (add_filters s fs).0 more

-- Filters that a file's configuration adds, any number of times and with any errors, are gone once
-- the backup made before is restored; nothing else that the state holds is touched meanwhile.
restore-add_all-backup :
    (s : CppLintState) (added : List Text)
    → restore_filters (add_all (backup_filters s) added) ≡ record s { filters_backup = s.filters }
unfolding backup_filters
restore-add_all-backup s added =
    add_all-keeps (backup_filters s) added ∙ unfold restore_filters in refl
