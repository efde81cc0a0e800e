-- ===== src/Cleanse/Strings/Loop.antt =====
-- The loop of `_CollapseStrings` ends.
use mathlib.Core.List.{append_assoc}
use nwtool.Base.{
  Bool-cases, Option-cases, length, drop, length-drop, Text, txt, text_eq, find, ℕ, zero, suc, ◌+◌,
  ◌≤◌, ◌<◌, ◌≡◌, refl, ap, ◌∙◌, inl, inr, true, false, Option, none, some, [], ◌∷◌, ◌++◌, arith,
}
use nwtool.Regex.{match, searches, MatchResult}
use nwtool.Regex.Lengths.{tree, match-ends_groups, match-last_group}
use nwtool.Cleanse.Strings.{group_text, group_text-some, first_quote, collapse_step, collapse_loop}

first_quote_groups :
    (line : Text) (m : MatchResult)
    → match first_quote line ≡ some m
    → length (group_text 1 m) + length (group_text 3 m) + 1 ≤ length line
unfolding tree
first_quote_groups line m h =
    let (f, g, first_is, last_is, short) =
      match-ends_groups first_quote line 1 3 m refl refl (omega arith) h in
    rw (group_text-some 1 m f first_is, group_text-some 3 m g last_is) (omega (arith, short))

abbrev separator_tail : Text
separator_tail = txt "^((?:\\'?[0-9a-zA-Z_])*)(.*)$"

separator_tail_group :
    (line : Text) (m : MatchResult)
    → match separator_tail line ≡ some m
    → length (group_text 2 m) ≤ length line
unfolding tree
separator_tail_group line m h =
    let (g, last_is, short) = match-last_group separator_tail line 2 2 m refl refl h in
    rw (group_text-some 2 m g last_is) (omega (arith, short))

abbrev number_end : Text
number_end = txt "\\b(?:0[bBxX]?|[1-9])[0-9a-fA-F]*$"

number_end-nil : searches number_end [] ≡ false
unfolding searches
number_end-nil = refl

number_end-ne_nil : (head : Text) → searches number_end head ≡ true → 0 < length head
number_end-ne_nil [] h = absurd (ground (arith, number_end-nil))
number_end-ne_nil (c ∷ cs) h = omega arith

-- A round that goes on leaves a shorter text.
abbrev Shorter : Text → Option Text → Type 0
Shorter l none = Unit {0}
Shorter l (some r) = length r < length l

drop_shorter :
    (q : ℕ) (tail l : Text) → length tail + 1 ≤ length l → length (drop (q + 1) tail) < length l
drop_shorter q tail l h = omega (arith, length-drop (q + 1) tail)

collapse_step-Shorter : (l : Text) → Shorter l (collapse_step l).1
unfolding collapse_step
collapse_step-Shorter l = elim (Option-cases (match first_quote l)) [
  | inl e ↦ rw (e, collapse_step) tt
  | inr (m, e) ↦
      let tail = group_text 3 m in
      let bound = first_quote_groups l m e in
      let short : length tail + 1 ≤ length l = omega (arith, bound) in
      elim (Bool-cases (text_eq (group_text 2 m) (txt "\""))) [
        | inl double ↦ elim (Option-cases (find tail (txt "\""))) [
          | inl missing ↦ rw (e, collapse_step) (rw (double, missing) tt)
          | inr (q, at_q) ↦ rw (e, collapse_step) (rw (double, at_q) (drop_shorter q tail l short))
        ]
        | inr single ↦ elim (Bool-cases (searches number_end (group_text 1 m))) [
          | inl digits ↦ elim (Option-cases (match separator_tail (b'\'' ∷ tail))) [
            | inl missing ↦ rw (e, collapse_step) (rw (single, digits, missing) tt)
            | inr (d, at_d) ↦
                rw (e, collapse_step)
                  (rw (single, digits, at_d)
                    (omega (
                      arith,
                      bound,
                      number_end-ne_nil (group_text 1 m) digits,
                      separator_tail_group (b'\'' ∷ tail) d at_d,
                    )))
          ]
          | inr letters ↦ elim (Option-cases (find tail (txt "'"))) [
            | inl missing ↦ rw (e, collapse_step) (rw (single, letters, missing) tt)
            | inr (q, at_q) ↦
                rw (e, collapse_step) (rw (single, letters, at_q) (drop_shorter q tail l short))
          ]
        ]
      ]
]

-- With more rounds than characters left, the loop of `_CollapseStrings` ends, and what it returns
-- begins with what was collapsed before.
pub collapse_loop-total :
    (f : ℕ) (collapsed l : Text)
    → length l < f
    → (c : Text) × (collapse_loop f collapsed l ≡ some (collapsed ++ c))
unfolding collapse_loop
collapse_loop-total zero collapsed l h = absurd (omega arith)
collapse_loop-total (suc f) collapsed l h = elim (Option-cases (collapse_step l).1) [
  | inl last ↦ ((collapse_step l).0, rw (last, collapse_loop))
  | inr (r, more) ↦
      let shorter : length r < length l = rw more at (collapse_step-Shorter l) in
      let (c, runs) = collapse_loop-total f (collapsed ++ (collapse_step l).0) r (omega arith) in
      (
        (collapse_step l).0 ++ c,
        rw (more, collapse_loop) (runs ∙ ap some (append_assoc collapsed (collapse_step l).0 c)),
      )
]
