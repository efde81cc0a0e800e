-- ===== src/Nolint/Global.antt =====
-- Which errors `ProcessGlobalSuppresions` suppresses in the whole file.
use nwtool.Base.{
  if◌then◌else◌, Text, txt, text_eq, one_of, ℕ, ◌≡◌, ap, ◌∙◌, Bool, true, false, ◌&&◌, ◌||◌, none,
  some, List, [], ◌∷◌, ◌++◌, arith,
}
use nwtool.Regex.{searches}
use nwtool.Nolint.{
  Suppressions, is_suppressed, on_line, c_file, kernel_file, suppress_globally,
  process_global_suppressions,
}

-- Some line holds a match of the pattern.
unfoldable pub any_line : Text → List Text → Bool
any_line pattern [] = false
any_line pattern (line ∷ lines) = searches pattern line || any_line pattern lines

one_of-two :
    (category t u : Text) (k c : Bool) (e : List Text)
    → one_of category ((if k then t ∷ [] else []) ++ (if c then u ∷ [] else []) ++ e)
      ≡ (one_of category e || (c && text_eq u category) || (k && text_eq t category))
unfolding one_of
one_of-two category t u true true e = ground arith
one_of-two category t u true false e = ground arith
one_of-two category t u false true e = ground arith
one_of-two category t u false false e = ground arith

regroup : (a p q d e : Bool) → ((a || p || q) || d || e) ≡ ((a || d || e) || p || q)
regroup a p q d e = ground arith

suppress_globally-suppressed :
    (s : Suppressions) (line category : Text) (l : ℕ)
    → is_suppressed (suppress_globally s line) category l ≡ (
        is_suppressed s category l
        || (searches c_file line && text_eq (txt "readability/casting") category)
        || (searches kernel_file line && text_eq (txt "whitespace/tab") category))
unfolding suppress_globally is_suppressed
suppress_globally-suppressed s line category l =
    let two =
      one_of-two category (txt "whitespace/tab") (txt "readability/casting")
        (searches kernel_file line) (searches c_file line) s.everywhere in
    ap (λ b. b || on_line (some category) l s.lines || on_line none l s.lines) two
    ∙ regroup (one_of category s.everywhere)
        (searches c_file line && text_eq (txt "readability/casting") category)
        (searches kernel_file line && text_eq (txt "whitespace/tab") category)
        (on_line (some category) l s.lines) (on_line none l s.lines)

-- A file with a mark for C suppresses the errors on casts in every line, and one with a mark for
-- the Linux kernel those on tabs; no other verdict changes.
pub process_global_suppressions_lem :
    (s : Suppressions) (lines : List Text) (category : Text) (l : ℕ)
    → is_suppressed (process_global_suppressions s lines) category l ≡ (
        is_suppressed s category l
        || (any_line c_file lines && text_eq (txt "readability/casting") category)
        || (any_line kernel_file lines && text_eq (txt "whitespace/tab") category))
unfolding process_global_suppressions any_line
process_global_suppressions_lem s [] category l = ground arith
process_global_suppressions_lem s (line ∷ lines) category l = ground (
  arith,
  suppress_globally-suppressed s line category l,
  process_global_suppressions_lem (suppress_globally s line) lines category l,
)
