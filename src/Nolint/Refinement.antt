-- ===== src/Nolint/Refinement.antt =====
-- The two dictionaries of suppressions behind what their client asks of them: a verdict for each
-- category and line.
use mathlib.Core.Path.{fun_ext}
use nwtool.Base.{
  ◌==◌, Text, txt, text_eq, one_of, ℕ, ◌≡◌, refl, ap, ◌∙◌, Bool, false, ◌&&◌, ◌||◌, none, some,
  List, [], ◌∷◌,
}
use nwtool.Regex.{search_in, group}
use nwtool.Nolint.{
  Suppressions, is_suppressed, on_line, parse_nolint_suppressions, process_global_suppressions,
  reset, nolint, c_file, kernel_file,
}
use nwtool.Nolint.Frame.{covers, target, parse_nolint_suppressions_lem}
use nwtool.Nolint.Global.{any_line, process_global_suppressions_lem}

-- The calls that change the dictionaries.
pub data Call : Type 0 where
  reset_all : Call
  comment : Text → ℕ → Call
  file : List Text → Call

unfoldable pub call : Suppressions → Call → Suppressions
call s reset_all = reset s
call s (comment raw_line linenum) = (parse_nolint_suppressions s raw_line linenum).0
call s (file lines) = process_global_suppressions s lines

unfoldable pub call_all : Suppressions → List Call → Suppressions
unfolding call
call_all s [] = s
call_all s (c ∷ cs) = call_all (call s c) cs

-- What each call means for the verdict on a category and a line.
abbrev pub Verdict : Type 0
Verdict = Text → ℕ → Bool

unfoldable pub meaning : Verdict → Call → Verdict
unfolding any_line
meaning v reset_all category l = false
meaning v (comment raw_line linenum) category l = v category l || elim (search_in nolint raw_line) [
  | none ↦ false
  | some m ↦ (target (group 1 m) linenum == l) && covers (group 2 m) category
]
meaning v (file lines) category l =
    v category l
    || (any_line c_file lines && text_eq (txt "readability/casting") category)
    || (any_line kernel_file lines && text_eq (txt "whitespace/tab") category)

unfoldable pub meaning_all : Verdict → List Call → Verdict
unfolding meaning
meaning_all v [] = v
meaning_all v (c ∷ cs) = meaning_all (meaning v c) cs

reset-suppressed :
    (s : Suppressions) (category : Text) (l : ℕ) → is_suppressed (reset s) category l ≡ false
unfolding reset is_suppressed on_line one_of
reset-suppressed s category l = refl

call-meaning :
    (s : Suppressions) (c : Call) → is_suppressed (call s c) ≡ meaning (is_suppressed s) c
unfolding call meaning
call-meaning s reset_all = fun_ext λ k. fun_ext λ l. reset-suppressed s k l
call-meaning s (comment raw n) = fun_ext λ k. fun_ext λ l. parse_nolint_suppressions_lem s raw k n l
call-meaning s (file lines) = fun_ext λ k. fun_ext λ l. process_global_suppressions_lem s lines k l

-- After any sequence of resets, NOLINT comments and files, the verdicts that the dictionaries give
-- are those that the calls mean, one after the other, from the verdicts before.
pub call_all_refines :
    (s : Suppressions) (cs : List Call)
    → is_suppressed (call_all s cs) ≡ meaning_all (is_suppressed s) cs
unfolding call_all meaning_all
call_all_refines s [] = refl
call_all_refines s (c ∷ cs) =
    call_all_refines (call s c) cs ∙ ap (λ v. meaning_all v cs) (call-meaning s c)
