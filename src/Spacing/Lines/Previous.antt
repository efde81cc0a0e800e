-- ===== src/Spacing/Lines/Previous.antt =====
-- What `GetPreviousNonBlankLine` finds.
use nwtool.Base.{
  Bool-cases, get_or, Text, ℕ, zero, suc, ◌+◌, ◌≤◌, ◌<◌, ◌≡◌, refl, inl, inr, true, false, Option,
  none, some, List, [], arith,
}
use native.Mathlib.Decide.{dec_lt}
use nwtool.Spacing.Lines.{is_blank_line, get_previous_non_blank_line}

-- Every line of a stretch is blank.
abbrev pub AllBlank : List Text → ℕ → ℕ → Type 0
AllBlank elided a b = (i : ℕ) → a ≤ i → i < b → is_blank_line (get_or elided i []) ≡ true

-- A line before line `n` with its number, the nearest that is not blank, or nothing if all are.
abbrev pub IsPrevious : List Text → ℕ → Option (Text × ℕ) → Type 0
IsPrevious elided n none = AllBlank elided 0 n
IsPrevious elided n (some (line, k)) =
    (k < n) × (get_or elided k [] ≡ line) × (is_blank_line line ≡ false) × AllBlank elided (k + 1) n

AllBlank-snoc :
    (elided : List Text) (a n : ℕ)
    → AllBlank elided a n
    → is_blank_line (get_or elided n []) ≡ true
    → AllBlank elided a (suc n)
AllBlank-snoc elided a n all e i low high = elim (dec_lt i n) [
  | yes p ↦ all i low p
  | no p ↦ let same : i ≡ n = omega arith in rw same e
]

IsPrevious-snoc :
    (elided : List Text) (n : ℕ) (o : Option (Text × ℕ))
    → is_blank_line (get_or elided n []) ≡ true
    → IsPrevious elided n o
    → IsPrevious elided (suc n) o
IsPrevious-snoc elided n none e all = AllBlank-snoc elided 0 n all e
IsPrevious-snoc elided n (some (line, k)) e (below, at_k, ink, all) =
    (omega arith, at_k, ink, AllBlank-snoc elided (k + 1) n all e)

-- `GetPreviousNonBlankLine` returns the nearest line before the given one that is not blank, with
-- its number, and the empty line at -1 only where every line before is blank.
pub get_previous_non_blank_line_lem :
    (elided : List Text) (n : ℕ) → IsPrevious elided n (get_previous_non_blank_line elided n)
unfolding get_previous_non_blank_line
get_previous_non_blank_line_lem elided zero = λ i low high. absurd (omega arith)
get_previous_non_blank_line_lem elided (suc n) =
    elim (Bool-cases (is_blank_line (get_or elided n []))) [
      | inl e ↦
          rw (e, get_previous_non_blank_line)
            (IsPrevious-snoc elided n (get_previous_non_blank_line elided n) e
              (get_previous_non_blank_line_lem elided n))
      | inr e ↦
          rw (e, get_previous_non_blank_line)
            (omega arith, refl, e, λ i low high. absurd (omega arith))
    ]
