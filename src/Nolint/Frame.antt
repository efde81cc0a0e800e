-- ===== src/Nolint/Frame.antt =====
-- Which errors a NOLINT comment suppresses, and which it leaves.
use nwtool.Base.{
  ◌==◌, if◌then◌else◌, Option-cases, is_some, length, take, drop, Text, txt, text_eq, one_of,
  starts_with, ends_with, ℕ, ◌+◌, ◌-◌, ◌≡◌, inl, inr, Bool, true, false, ◌&&◌, ◌||◌, Option, none,
  some, arith,
}
use nwtool.Regex.{search_in, group}
use nwtool.Nolint.{
  Suppressions, is_suppressed, on_line, suppress, apply_category, parse_nolint_suppressions,
  error_categories, nolint,
}

-- Whether a comment with this `(category)` speaks of errors of category `k`.
abbrev pub covers : Option Text → Text → Bool
covers none k = true
covers (some c) k =
    let inner = take (length c - 2) (drop 1 c) in
    text_eq c (txt "(*)")
    || (starts_with c (txt "(")
        && ends_with c (txt ")")
        && one_of inner error_categories
        && text_eq inner k)

apply_category-suppressed :
    (s : Suppressions) (c : Option Text) (line linenum l : ℕ) (k : Text)
    → is_suppressed (apply_category s c line linenum).0 k l
      ≡ (is_suppressed s k l || ((line == l) && covers c k))
unfolding apply_category is_suppressed on_line suppress
apply_category-suppressed s none line linenum l k = ground arith
apply_category-suppressed s (some c) line linenum l k = ground arith

-- The line that a NOLINT comment speaks of: its own, or the next for NOLINTNEXTLINE.
abbrev pub target : Option Text → ℕ → ℕ
target nextline linenum = if is_some nextline then linenum + 1 else linenum

-- Behind a line with a NOLINT comment those errors are suppressed that were before, and the errors
-- on the comment's line that its category covers: every category for no category and for `(*)`, its
-- own for a known one, and none for an unknown one. A line with no comment changes nothing.
pub parse_nolint_suppressions_lem :
    (s : Suppressions) (raw_line category : Text) (linenum l : ℕ)
    → is_suppressed (parse_nolint_suppressions s raw_line linenum).0 category l ≡ (
        is_suppressed s category l || elim (search_in nolint raw_line) [
          | none ↦ false
          | some m ↦ (target (group 1 m) linenum == l) && covers (group 2 m) category
        ])
unfolding parse_nolint_suppressions
parse_nolint_suppressions_lem s raw_line category linenum l =
    elim (Option-cases (search_in nolint raw_line)) [
      | inl e ↦ ground (arith, e)
      | inr (m, e) ↦ ground (
        arith,
        e,
        apply_category-suppressed s (group 2 m) (target (group 1 m) linenum) linenum l category,
      )
    ]
