-- ===== src/Nesting/Braces.antt =====
-- The loop of `NestingState.Update` over the braces, semicolons and closing parentheses of a line.
pub mod Loop
pub mod Blockwise
use nwtool.Base.{
  if◌then◌else◌, Text, txt, text_eq, ℕ, zero, suc, true, not, ◌||◌, Option, none, some, List, [],
  ◌∷◌, ◌++◌,
}
use nwtool.Report.{Report}
use nwtool.Regex.{match, matches}
use nwtool.Cleanse.{CleansedLines}
use nwtool.Cleanse.Strings.{group_text}
use nwtool.Nesting.Blocks.{Block, block_info, extern_c_info, seen_brace, block_asm}
use nwtool.Nesting.Checks.{check_end}

abbrev pub brace_token : Text
brace_token = txt "^[^{;)}]*([{;)}])(.*)$"

-- `_MATCH_ASM`
abbrev pub asm_start : Text
asm_start = txt "^\\s*(?:asm|_asm|__asm|__asm__)(?:\\s+(volatile|__volatile__))?\\s*[{(]"

abbrev pub mark_seen : List Block → List Block
mark_seen [] = []
mark_seen (b ∷ bs) = record b { seen_open_brace = true } ∷ bs

abbrev pub pop : List Block → List Block
pop [] = []
pop (b ∷ bs) = bs

abbrev pub Scan : Type 0
Scan = List Block × List Report

-- At `{`, in what is left of the line.
unfoldable pub open_brace : List Block → ℕ → Text → List Block
unfolding matches
open_brace stack linenum line =
    if not (seen_brace stack)
    then mark_seen stack
    else if matches (txt "^extern\\s*\"[^\"]*\"\\s*\\{") line
    then extern_c_info linenum ∷ stack
    else if matches asm_start line
    then record (block_info linenum true) { inline_asm = block_asm } ∷ stack
    else block_info linenum true ∷ stack

-- At `;` and `)`.
unfoldable pub end_declaration : List Block → List Block
end_declaration stack = if not (seen_brace stack) then pop stack else stack

-- At `}`.
unfoldable pub close_brace : List Block → CleansedLines → ℕ → Scan
unfolding check_end
close_brace [] clean linenum = ([], [])
close_brace (b ∷ bs) clean linenum = (bs, check_end b clean linenum)

-- One round, on a token.
unfoldable pub token_step : List Block → CleansedLines → ℕ → Text → Text → Scan
unfolding open_brace end_declaration close_brace
token_step stack clean linenum line token =
    if text_eq token (txt "{")
    then (open_brace stack linenum line, [])
    else if text_eq token (txt ";") || text_eq token (txt ")")
    then (end_declaration stack, [])
    else close_brace stack clean linenum

-- The loop, with a bound on its rounds; `none` means that the bound was too small.
unfoldable pub brace_loop : ℕ → List Block → CleansedLines → ℕ → Text → Option Scan
brace_loop zero stack clean linenum line = none
brace_loop (suc f) stack clean linenum line = elim (match brace_token line) [
  | none ↦ some (stack, [])
  | some m ↦
      let (stack', now) = token_step stack clean linenum line (group_text 1 m) in
      elim (brace_loop f stack' clean linenum (group_text 2 m)) [
        | none ↦ none
        | some (stack'', later) ↦ some (stack'', now ++ later)
      ]
]
