-- ===== src/Nesting/Braces/Loop.antt =====
-- The loop over a line's braces ends.
use nwtool.Base.{
  Option-cases, length, Text, ℕ, zero, suc, ◌<◌, ◌≡◌, refl, inl, inr, some, List, [], ◌++◌, arith,
}
use nwtool.Regex.{match, MatchResult}
use nwtool.Regex.Lengths.{tree, match-last_group}
use nwtool.Cleanse.{CleansedLines}
use nwtool.Cleanse.Strings.{group_text, group_text-some}
use nwtool.Nesting.Blocks.{Block}
use nwtool.Nesting.Braces.{Scan, brace_token, token_step, brace_loop}

pub brace_token_group :
    (line : Text) (m : MatchResult)
    → match brace_token line ≡ some m
    → length (group_text 2 m) < length line
unfolding tree
brace_token_group line m h =
    let (g, last_is, short) = match-last_group brace_token line 3 2 m refl refl h in
    rw (group_text-some 2 m g last_is) (omega (arith, short))

-- Each round leaves less of the line, so one round more than its characters is enough.
pub brace_loop-total :
    (f : ℕ) (stack : List Block) (clean : CleansedLines) (linenum : ℕ) (line : Text)
    → length line < f
    → (r : Scan) × (brace_loop f stack clean linenum line ≡ some r)
unfolding brace_loop
brace_loop-total zero stack clean linenum line h = absurd (omega arith)
brace_loop-total (suc f) stack clean linenum line h = elim (Option-cases (match brace_token line)) [
  | inl e ↦ ((stack, []), rw (e, brace_loop))
  | inr (m, e) ↦
      let now = token_step stack clean linenum line (group_text 1 m) in
      let (r, runs) =
        brace_loop-total f now.0 clean linenum (group_text 2 m)
          (omega (arith, brace_token_group line m e)) in
      ((r.0, now.1 ++ r.1), ground (arith, e, runs))
]
