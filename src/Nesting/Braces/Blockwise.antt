-- ===== src/Nesting/Braces/Blockwise.antt =====
-- Balanced braces leave the stack as it was.
use nwtool.Base.{
  Bool-cases, Option-cases, length, Text, txt, text_eq, ℕ, zero, suc, ◌<◌, ◌≡◌, refl, sym, ap, ◌∙◌,
  inl, inr, true, none, some, List, [], ◌∷◌, ◌++◌, arith,
}
use mathlib.Core.List.{append_assoc, append-nil}
use nwtool.Regex.{match, matches}
use nwtool.Cleanse.{CleansedLines}
use nwtool.Cleanse.Strings.{group_text}
use nwtool.Nesting.Blocks.{Block, seen_brace, block_info, block_asm, extern_c_info}
use nwtool.Nesting.Checks.{check_end}
use nwtool.Nesting.Braces.{
  Scan, brace_token, asm_start, open_brace, end_declaration, close_brace, token_step, brace_loop,
}
use nwtool.Nesting.Braces.Loop.{brace_token_group}

-- The tokens that the loop meets, each with what was left of the line at it.
unfoldable pub tokens : ℕ → Text → List (Text × Text)
unfolding match group_text
tokens zero line = []
tokens (suc f) line = elim (match brace_token line) [
  | none ↦ []
  | some m ↦ (line, group_text 1 m) ∷ tokens f (group_text 2 m)
]

-- The steps of the loop on tokens.
unfoldable pub run : List Block → CleansedLines → ℕ → List (Text × Text) → Scan
unfolding token_step
run stack clean linenum [] = (stack, [])
run stack clean linenum ((line, token) ∷ ts) =
    let (stack', now) = token_step stack clean linenum line token in
    let (stack'', later) = run stack' clean linenum ts in (stack'', now ++ later)

-- Every opening brace has its closing brace, with anything balanced between them.
pub data Balanced : List (Text × Text) → Type 0 where
  nothing : Balanced []
  semicolon :
      (line : Text) {ts : List (Text × Text)} → Balanced ts → Balanced ((line, txt ";") ∷ ts)
  parenthesis :
      (line : Text) {ts : List (Text × Text)} → Balanced ts → Balanced ((line, txt ")") ∷ ts)
  block :
      (line line' : Text) {ts us : List (Text × Text)}
      → Balanced ts
      → Balanced us
      → Balanced ((line, txt "{") ∷ (ts ++ ((line', txt "}") ∷ us)))

brace_loop-run :
    (f : ℕ) (stack : List Block) (clean : CleansedLines) (linenum : ℕ) (line : Text)
    → length line < f
    → brace_loop f stack clean linenum line ≡ some (run stack clean linenum (tokens f line))
unfolding brace_loop tokens run
brace_loop-run zero stack clean linenum line h = absurd (omega arith)
brace_loop-run (suc f) stack clean linenum line h = elim (Option-cases (match brace_token line)) [
  | inl e ↦ rw (e, brace_loop, tokens)
  | inr (m, e) ↦
      let now = token_step stack clean linenum line (group_text 1 m) in
      let rest =
        brace_loop-run f now.0 clean linenum (group_text 2 m)
          (omega (arith, brace_token_group line m e)) in
      rw (e, brace_loop, tokens, rest)
]

open_brace-pushes :
    (stack : List Block) (clean : CleansedLines) (linenum : ℕ) (line : Text)
    → seen_brace stack ≡ true
    → (b : Block) × (open_brace stack linenum line ≡ b ∷ stack)
      × (seen_brace (b ∷ stack) ≡ true)
      × (check_end b clean linenum ≡ [])
unfolding open_brace check_end seen_brace
open_brace-pushes stack clean linenum line h =
    elim (Bool-cases (matches (txt "^extern\\s*\"[^\"]*\"\\s*\\{") line)) [
      | inl e ↦ (extern_c_info linenum, rw (open_brace, h, e), refl, refl)
      | inr e ↦ elim (Bool-cases (matches asm_start line)) [
        | inl a ↦ (
          record (block_info linenum true) { inline_asm = block_asm },
          rw (open_brace, h, e, a),
          refl,
          refl,
        )
        | inr a ↦ (block_info linenum true, rw (open_brace, h, e, a), refl, refl)
      ]
    ]

run-opening :
    (stack : List Block) (clean : CleansedLines) (linenum : ℕ) (line : Text)
    (ts : List (Text × Text))
    → run stack clean linenum ((line, txt "{") ∷ ts)
      ≡ run (open_brace stack linenum line) clean linenum ts
unfolding run token_step text_eq
run-opening stack clean linenum line ts = refl

run-closing :
    (b : Block) (stack : List Block) (clean : CleansedLines) (linenum : ℕ) (line : Text)
    (ts : List (Text × Text))
    → check_end b clean linenum ≡ []
    → run (b ∷ stack) clean linenum ((line, txt "}") ∷ ts) ≡ run stack clean linenum ts
unfolding run token_step text_eq close_brace
run-closing b stack clean linenum line ts h = rw h

run-Balanced :
    (clean : CleansedLines) (linenum : ℕ) {ts : List (Text × Text)}
    → Balanced ts
    → (stack : List Block) (us : List (Text × Text)) → seen_brace stack ≡ true
    → run stack clean linenum (ts ++ us) ≡ run stack clean linenum us
unfolding run token_step text_eq end_declaration
run-Balanced clean linenum nothing stack us h = refl
run-Balanced clean linenum (semicolon line inner) stack us h =
    rw h (run-Balanced clean linenum inner stack us h)
run-Balanced clean linenum (parenthesis line inner) stack us h =
    rw h (run-Balanced clean linenum inner stack us h)
run-Balanced clean linenum (block line line' {ts} {us = vs} inner after) stack us h =
    let (b, opened, seen, ends) = open_brace-pushes stack clean linenum line h in
    let closing : Text × Text = (line', txt "}") in
    ap (λ s. run s clean linenum ((ts ++ (closing ∷ vs)) ++ us)) opened
    ∙ ap (run (b ∷ stack) clean linenum) (append_assoc ts (closing ∷ vs) us)
    ∙ run-Balanced clean linenum inner (b ∷ stack) (closing ∷ (vs ++ us)) seen
    ∙ run-closing b stack clean linenum line' (vs ++ us) ends
    ∙ run-Balanced clean linenum after stack us h

-- With more rounds than characters, the loop over a line whose braces are balanced, met where the
-- innermost block has seen its brace, leaves the stack as it was, and reports nothing.
pub brace_loop-Balanced :
    (f : ℕ) (stack : List Block) (clean : CleansedLines) (linenum : ℕ) (line : Text)
    → length line < f
    → Balanced (tokens f line)
    → seen_brace stack ≡ true
    → brace_loop f stack clean linenum line ≡ some (stack, [])
unfolding run
brace_loop-Balanced f stack clean linenum line h balanced seen =
    brace_loop-run f stack clean linenum line h
    ∙ ap some (
        ap (run stack clean linenum) (sym (append-nil (tokens f line)))
        ∙ run-Balanced clean linenum balanced stack [] seen)
