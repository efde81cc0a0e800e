-- ===== src/Cleanse/RawStrings/Total.antt =====
-- `CleanseRawStrings` ends, raises nothing, and keeps the number of lines.
use nwtool.Base.{
  Bool-cases, Option-cases, is_some, length, drop, length-append, length-drop, Text, txt,
  starts_with, find, is_space, ℕ, zero, suc, ◌+◌, ◌≤◌, ◌<◌, ◌≡◌, refl, ap, ◌⊎◌, inl, inr, true,
  false, Option, none, some, List, [], ◌∷◌, ◌++◌, arith,
}
use nwtool.Regex.{match, matches, compile, MatchResult}
use nwtool.Regex.Engine.Spaces.{has_ink, match_leading_space}
use nwtool.Regex.Lengths.{tree, match-ends_groups}
use nwtool.Cleanse.Strings.{group_text, group_text-some}
use nwtool.Cleanse.RawStrings.{
  raw_string, in_comment, open_loop, inside_step, line_step, cleanse_lines, cleanse_raw_strings,
}

raw_string_groups :
    (line : Text) (m : MatchResult)
    → match raw_string line ≡ some m
    → length (group_text 1 m) + length (group_text 3 m) + 3 ≤ length line
unfolding tree
raw_string_groups line m h =
    let (f, g, first_is, last_is, short) =
      match-ends_groups raw_string line 5 3 m refl refl (omega arith) h in
    rw (group_text-some 1 m f first_is, group_text-some 3 m g last_is) (omega (arith, short))

-- The line that a round leaves is shorter than the line it began with.
abbrev next_line : Text → MatchResult → ℕ → Text
next_line delimiter m end =
    group_text 1 m ++ txt "\"\"" ++ drop (end + length delimiter) (group_text 3 m)

length-next_line :
    (line w : Text) (m : MatchResult) (end : ℕ)
    → match raw_string line ≡ some m
    → length (next_line (txt ")" ++ w ++ txt "\"") m end) < length line
length-next_line line w m end h =
    let delimiter = txt ")" ++ w ++ txt "\"" in
    let g1 = group_text 1 m in
    let g3 = group_text 3 m in
    omega (
      arith,
      raw_string_groups line m h,
      length-append (g1 ++ txt "\"\"") (drop (end + length delimiter) g3),
      length-append g1 (txt "\"\""),
      length-drop (end + length delimiter) g3,
      length-append (txt ")" ++ w) (txt "\""),
    )

-- A delimiter begins with `)`.
abbrev Pending : Option Text → Type 0
Pending none = Unit {0}
Pending (some d) = (w : Text) × (d ≡ b')' ∷ w)

open_loop-total :
    (f : ℕ) (line : Text)
    → length line < f
    → (r : Text × Option Text) × (open_loop f line ≡ some r) × Pending r.1
unfolding open_loop
open_loop-total zero line h = absurd (omega arith)
open_loop-total (suc f) line h = elim (Option-cases (match raw_string line)) [
  | inl e ↦ ((line, none), rw (e, open_loop), tt)
  | inr (m, e) ↦ elim (Bool-cases (matches in_comment (group_text 1 m))) [
    | inl comment ↦ ((line, none), rw (e, open_loop) (rw comment), tt)
    | inr code ↦
        let delimiter = txt ")" ++ group_text 2 m ++ txt "\"" in
        elim (Option-cases (find (group_text 3 m) delimiter)) [
          | inl open_end ↦ (
            (group_text 1 m ++ txt "\"\"", some delimiter),
            ground (arith, e, code, open_end),
            (group_text 2 m ++ txt "\"", refl),
          )
          | inr (end, closed) ↦
              let (r, runs, pending) =
                open_loop-total f (next_line delimiter m end)
                  (omega (arith, length-next_line line (group_text 2 m) m end e)) in
              (r, ground (arith, e, code, closed, runs), pending)
        ]
  ]
]

find-has_ink :
    (s d : Text) (c e : ℕ) → is_space c ≡ false → find s (c ∷ d) ≡ some e → has_ink s ≡ true
unfolding find starts_with
find-has_ink [] d c e dark h = cc
find-has_ink (x ∷ s) d c e dark h = elim (Option-cases (find s (c ∷ d))) [
  | inl missing ↦ ground (arith, missing)
  | inr (n, found_at) ↦ ground (arith, find-has_ink s d c n dark found_at)
]

leading_space_matches :
    (line : Text) → has_ink line ≡ true → is_some (match (txt "^(\\s*)\\S") line) ≡ true
unfolding match compile
leading_space_matches line h = match_leading_space line h

-- The expression that takes the leading space of the line where a raw string ends always matches,
-- since the delimiter itself stands on that line.
inside_step-total :
    (delimiter line : Text)
    → Pending (some delimiter)
    → (r : Text × Option Text) × (inside_step delimiter line ≡ some r)
      × ((r.1 ≡ none) ⊎ (r.1 ≡ some delimiter))
unfolding inside_step
inside_step-total delimiter line (w, is) = elim (Option-cases (find line delimiter)) [
  | inl missing ↦ ((txt "\"\"", some delimiter), rw (missing, inside_step), inr refl)
  | inr (e, found_at) ↦ elim (Option-cases (match (txt "^(\\s*)\\S") line)) [
    | inl fails ↦
        let dark : is_space b')' ≡ false = unfold is_space in refl in
        let ink = find-has_ink line w b')' e dark (rw is at found_at) in
        absurd (ground (arith, fails, leading_space_matches line ink))
    | inr (m, matched) ↦ (
      (group_text 1 m ++ txt "\"\"" ++ drop (e + length delimiter) line, none),
      ground (arith, found_at, matched),
      inl refl,
    )
  ]
]

line_step-total :
    (d : Option Text) (line : Text)
    → Pending d
    → (r : Text × Option Text) × (line_step d line ≡ some r) × Pending r.1
unfolding line_step
line_step-total none line p = open_loop-total (length line + 1) line (omega arith)
line_step-total (some delimiter) line p =
    let (r, runs, kept) = inside_step-total delimiter line p in
    elim kept [
      | inl closed ↦
          let (r', runs', pending) = open_loop-total (length r.0 + 1) r.0 (omega arith) in
          (r', ground (arith, runs, runs'), pending)
      | inr still ↦ (r, ground arith, rw still p)
    ]

cleanse_lines-total :
    (d : Option Text) (lines : List Text)
    → Pending d
    → (r : List Text) × (cleanse_lines d lines ≡ some r) × (length r ≡ length lines)
unfolding cleanse_lines
cleanse_lines-total d [] p = ([], refl, refl)
cleanse_lines-total d (line ∷ lines) p =
    let (r, runs, pending) = line_step-total d line p in
    let (rs, runs', same) = cleanse_lines-total r.1 lines pending in
    (r.0 ∷ rs, ground (arith, runs, runs'), ap suc same)

-- `CleanseRawStrings` ends and raises no exception on any lines, and returns as many lines as it is
-- given: its loop over the raw strings of a line stays within its bound, and the match for a line's
-- leading space, whose result it uses untested, never fails.
pub cleanse_raw_strings-total :
    (lines : List Text)
    → (r : List Text) × (cleanse_raw_strings lines ≡ some r) × (length r ≡ length lines)
unfolding cleanse_raw_strings
cleanse_raw_strings-total lines = cleanse_lines-total none lines tt
