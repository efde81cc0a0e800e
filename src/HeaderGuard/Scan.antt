-- ===== src/HeaderGuard/Scan.antt =====
-- What the loop of `CheckForHeaderGuard` finds.
use nwtool.Base.{
  if◌then◌else◌, Bool-cases, Option-cases, length, All, length-reverse, Text, txt, text_eq,
  text_eq_iff, starts_with, is_space, words_from, words, ℕ, suc, ◌+◌, ◌≡◌, refl, sym, ap, ◌∙◌, ◌⊎◌,
  inl, inr, true, false, Option, none, some, List, [], ◌∷◌, ◌++◌, reverse, arith,
}
use nwtool.Report.{Report}
use nwtool.Cleanse.{CleansedLines}
use nwtool.Actions.{Action, report_error, parse_nolint}
use nwtool.Regex.{match, matches}
use nwtool.FileInfo.{System, Flags}
use nwtool.HeaderGuard.{
  Guard, no_guard, take_words, guard_step, guard_scan, any_search, check_ifndef, check_guard,
  check_endif, get_header_guard_cpp_variable, check_for_header_guard,
}

-- The second word of a line whose first word is `d`.
unfoldable pub second_word : Text → List Text → Option Text
second_word d (first ∷ second ∷ rest) = if text_eq first d then some second else none
second_word d _ = none

unfoldable pub argument : Text → Text → Option Text
unfolding second_word words
argument d line = second_word d (words line)

-- The first argument of a directive in lines, empty if there is none, and the number of its line.
unfoldable pub first_argument : Text → List Text → Text
unfolding argument
first_argument d [] = []
first_argument d (l ∷ ls) = elim (argument d l) [ some a ↦ a | none ↦ first_argument d ls ]

unfoldable pub first_linenum : Text → ℕ → ℕ → List Text → ℕ
unfolding argument
first_linenum d default n [] = default
first_linenum d default n (l ∷ ls) = elim (argument d l) [
  | some a ↦ n
  | none ↦ first_linenum d default (n + 1) ls
]

-- The last line that begins with `#endif`, and its number, from line `n` on.
unfoldable pub last_endif : Text × ℕ → ℕ → List Text → Text × ℕ
last_endif e n [] = e
last_endif e n (l ∷ ls) = last_endif (if starts_with l (txt "#endif") then (l, n) else e) (n + 1) ls

reverse-ne_empty : (c : ℕ) (w : Text) → text_eq (reverse (c ∷ w)) [] ≡ false
unfolding text_eq
reverse-ne_empty c w = not_empty (reverse (c ∷ w)) (length-reverse (c ∷ w))
  where
    not_empty : (s : Text) → length s ≡ suc (length w) → text_eq s [] ≡ false
    not_empty [] h = absurd (omega arith)
    not_empty (x ∷ s) h = refl

words_from-ne_empty : (w s : Text) → All (λ t. text_eq t [] ≡ false) (words_from w s)
unfolding words_from
words_from-ne_empty [] [] = tt
words_from-ne_empty (c ∷ w) [] = (reverse-ne_empty c w, tt)
words_from-ne_empty [] (c ∷ s) = elim (Bool-cases (is_space c)) [
  | inl e ↦ rw (e, words_from) (words_from-ne_empty [] s)
  | inr e ↦ rw (e, words_from) (words_from-ne_empty (c ∷ []) s)
]
words_from-ne_empty (d ∷ v) (c ∷ s) = elim (Bool-cases (is_space c)) [
  | inl e ↦ rw (e, words_from) (reverse-ne_empty d v, words_from-ne_empty [] s)
  | inr e ↦ rw (e, words_from) (words_from-ne_empty (c ∷ d ∷ v) s)
]

second_word-ne_empty :
    (d a : Text) (ws : List Text)
    → All (λ t. text_eq t [] ≡ false) ws
    → second_word d ws ≡ some a
    → text_eq a [] ≡ false
unfolding second_word
second_word-ne_empty d a [] h e = cc
second_word-ne_empty d a (w ∷ []) h e = cc
second_word-ne_empty d a (w ∷ v ∷ ws) h e = ground (arith, e, h)

argument-ne_empty : (d a line : Text) → argument d line ≡ some a → text_eq a [] ≡ false
unfolding argument words
argument-ne_empty d a line e = second_word-ne_empty d a (words line) (words_from-ne_empty [] line) e

-- What the words of a line add, for a scan that has found nothing yet.
abbrev or_second : Text → List Text → Text → Text
or_second d ws old =
    if text_eq old [] then (elim (second_word d ws) [ some a ↦ a | none ↦ old ]) else old

abbrev or_number : Text → List Text → Text → ℕ → ℕ → ℕ
or_number d ws old n m =
    if text_eq old [] then (elim (second_word d ws) [ some a ↦ n | none ↦ m ]) else m

take_words_lem :
    (n : ℕ) (ws : List Text) (g : Guard)
    → take_words n ws g ≡ record g {
      ifndef = or_second (txt "#ifndef") ws g.ifndef;
      ifndef_linenum = or_number (txt "#ifndef") ws g.ifndef n g.ifndef_linenum;
      define = or_second (txt "#define") ws g.define;
    }
unfolding take_words second_word
take_words_lem n [] g = ground arith
take_words_lem n (w ∷ []) g = ground arith
take_words_lem n (w ∷ v ∷ ws) g = ground arith

guard_step_lem :
    (n : ℕ) (line : Text) (g : Guard)
    → let ws = words line in
      let e : Text × ℕ =
        if starts_with line (txt "#endif") then (line, n) else (g.endif, g.endif_linenum) in
      guard_step n line g ≡ record {
        ifndef = or_second (txt "#ifndef") ws g.ifndef;
        ifndef_linenum = or_number (txt "#ifndef") ws g.ifndef n g.ifndef_linenum;
        define = or_second (txt "#define") ws g.define;
        endif = e.0;
        endif_linenum = e.1;
      }
unfolding guard_step
guard_step_lem n line g = ground (arith, take_words_lem n (words line) g)

-- What is found in lines, from a scan that has got so far.
abbrev described : ℕ → List Text → Guard → Guard
described n lines g = record {
  ifndef = if text_eq g.ifndef [] then first_argument (txt "#ifndef") lines else g.ifndef;
  ifndef_linenum =
      if text_eq g.ifndef []
      then first_linenum (txt "#ifndef") g.ifndef_linenum n lines
      else g.ifndef_linenum;
  define = if text_eq g.define [] then first_argument (txt "#define") lines else g.define;
  endif = (last_endif (g.endif, g.endif_linenum) n lines).0;
  endif_linenum = (last_endif (g.endif, g.endif_linenum) n lines).1;
}

-- One line more in front.
described-step :
    (n : ℕ) (l : Text) (ls : List Text) (g : Guard)
    → described (n + 1) ls (guard_step n l g) ≡ described n (l ∷ ls) g
unfolding first_argument first_linenum last_endif argument
described-step n l ls g =
    ap (described (n + 1) ls) (guard_step_lem n l g)
    ∙ elim (Option-cases (argument (txt "#ifndef") l)) [
      | inl i ↦ elim (Option-cases (argument (txt "#define") l)) [
        | inl d ↦ ground (arith, i, d)
        | inr (b, d) ↦ ground (arith, i, d, argument-ne_empty (txt "#define") b l d)
      ]
      | inr (a, i) ↦ elim (Option-cases (argument (txt "#define") l)) [
        | inl d ↦ ground (arith, i, d, argument-ne_empty (txt "#ifndef") a l i)
        | inr (b, d) ↦ ground (
          arith,
          i,
          d,
          argument-ne_empty (txt "#ifndef") a l i,
          argument-ne_empty (txt "#define") b l d,
        )
      ]
    ]

guard_scan-described :
    (n : ℕ) (lines : List Text) (g : Guard) → guard_scan n lines g ≡ described n lines g
unfolding guard_scan first_argument first_linenum last_endif
guard_scan-described n [] g = ground (arith, text_eq_iff g.ifndef [], text_eq_iff g.define [])
guard_scan-described n (l ∷ ls) g =
    guard_scan-described (n + 1) ls (guard_step n l g) ∙ described-step n l ls g

-- The loop of `CheckForHeaderGuard` over a file's lines finds the argument of the first `#ifndef`
-- that has one, with its line's number, the argument of the first `#define` that has one, and the
-- last line that begins with `#endif`, with its number; it finds empty texts where there is no such
-- line.
pub guard_scan_lem :
    (lines : List Text)
    → guard_scan 0 lines no_guard ≡ record {
      ifndef = first_argument (txt "#ifndef") lines;
      ifndef_linenum = first_linenum (txt "#ifndef") 0 0 lines;
      define = first_argument (txt "#define") lines;
      endif = (last_endif ([], 0) 0 lines).0;
      endif_linenum = (last_endif ([], 0) 0 lines).1;
    }
unfolding text_eq
guard_scan_lem lines = guard_scan-described 0 lines no_guard

unfoldable pub reports_of : List Action → List Report
reports_of [] = []
reports_of (report_error r ∷ as') = r ∷ reports_of as'
reports_of (parse_nolint l n ∷ as') = reports_of as'

-- The comment on an `#endif` line that names the variable, of one kind or the other.
abbrev pub IsCommented : Text → Text → Type 0
IsCommented cppvar endif =
    (matches (txt "#endif\\s*//\\s*" ++ cppvar ++ txt "(_)?\\b") endif ≡ true)
    ⊎ (matches (txt "#endif\\s*/\\*\\s*" ++ cppvar ++ txt "(_)?\\s*\\*/") endif ≡ true)

check_endif-quiet :
    (raw_lines : List Text) (cppvar : Text) (g : Guard)
    → reports_of (check_endif raw_lines cppvar g) ≡ []
    → IsCommented cppvar g.endif
unfolding check_endif reports_of
check_endif-quiet raw_lines cppvar g h =
    elim (Option-cases (match (txt "#endif\\s*//\\s*" ++ cppvar ++ txt "(_)?\\b") g.endif)) [
      | inr (m, e) ↦ inl (unfold matches in rw e)
      | inl e ↦
          elim (Option-cases
            (match (txt "#endif\\s*/\\*\\s*" ++ cppvar ++ txt "(_)?\\s*\\*/") g.endif)) [
              | inr (m, e') ↦ inr (unfold matches in rw e')
              | inl e' ↦ absurd (ground (arith, h, e, e'))
            ]
    ]

check_guard-quiet :
    (raw_lines : List Text) (cppvar : Text) (g : Guard)
    → reports_of (check_guard raw_lines cppvar g) ≡ []
    → (g.ifndef ≡ cppvar) × (g.define ≡ cppvar) × (reports_of (check_endif raw_lines cppvar g) ≡ [])
unfolding check_guard check_ifndef reports_of
check_guard-quiet raw_lines cppvar g h =
    ground (arith, h, text_eq_iff g.ifndef cppvar, text_eq_iff g.ifndef g.define)

-- A header with no mark against the check, for which the check makes no report, is guarded: the
-- first `#ifndef` and the first `#define` both name the right variable, and the last line that
-- begins with `#endif` has a comment that names it.
pub check_for_header_guard-quiet :
    (sys : System) (flags : Flags) (filename : Text) (clean : CleansedLines) (acts : List Action)
    (cppvar : Text)
    → let lines = clean.lines_without_raw_strings in
      any_search (txt "//\\s*NOLINT\\(build/header_guard\\)") lines ≡ false
      → any_search (txt "^\\s*#pragma\\s+once") lines ≡ false
      → get_header_guard_cpp_variable sys flags filename ≡ some cppvar
      → check_for_header_guard sys flags filename clean ≡ some acts
      → reports_of acts ≡ []
      → (first_argument (txt "#ifndef") lines ≡ cppvar)
        × (first_argument (txt "#define") lines ≡ cppvar)
        × IsCommented cppvar (last_endif ([], 0) 0 lines).0
unfolding check_for_header_guard
check_for_header_guard-quiet sys flags filename clean acts cppvar nolint once var runs quiet =
    let lines = clean.lines_without_raw_strings in
    let g = guard_scan 0 lines no_guard in
    let is : check_guard lines cppvar g ≡ acts = ground (arith, nolint, once, var, runs) in
    let (i, d, e) = check_guard-quiet lines cppvar g (ap reports_of is ∙ quiet) in
    let found = guard_scan_lem lines in
    (
      sym (ap (λ (x : Guard). x.ifndef) found) ∙ i,
      sym (ap (λ (x : Guard). x.define) found) ∙ d,
      rw (ap (λ (x : Guard). x.endif) found) at (check_endif-quiet lines cppvar g e),
    )
