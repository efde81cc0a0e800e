-- ===== src/Nesting/Update.antt =====
-- `NestingState.Update`: one line.
pub mod Total
use nwtool.Base.{
  ◌==◌, if◌then◌else◌, length, get_or, drop, Text, txt, find, count, ℕ, zero, suc, ◌+◌, Bool, true,
  false, not, ◌&&◌, Option, none, some, List, [], ◌∷◌, ◌++◌,
}
use nwtool.Base.Int.{ℤ, ◌+ℤ◌, sub_ℕ, is_ℕ}
use nwtool.Report.{Report, report}
use nwtool.Regex.{match, matches, group, MatchResult}
use nwtool.Cleanse.{CleansedLines}
use nwtool.Cleanse.Strings.{group_text}
use nwtool.Nesting.Blocks.{
  Block, class_block, ClassFields, NestingState, namespace_info, class_info, Asm, no_asm,
  inside_asm, end_asm, block_asm,
}
use nwtool.Nesting.Braces.{Scan, mark_seen, brace_loop, asm_start}
use nwtool.Nesting.Checks.{check_begin, parent_name}
use nwtool.Nesting.Preprocessor.{update_preprocessor}
use nwtool.Nesting.Template.{in_template_argument_list}

abbrev pub head? : List Block → Option Block
head? [] = none
head? (b ∷ bs) = some b

-- The state of inline assembly of the innermost block, behind a line with this change of depth.
unfoldable pub next_asm : Asm → ℤ → ℤ → Text → Asm
unfolding matches
next_asm no_asm change depth line =
    if not (is_ℕ change 0) && is_ℕ depth 1 && matches asm_start line then inside_asm else no_asm
next_asm end_asm change depth line =
    if not (is_ℕ change 0) && is_ℕ depth 1 && matches asm_start line then inside_asm else no_asm
next_asm inside_asm change depth line = if is_ℕ depth 0 then end_asm else inside_asm
next_asm block_asm change depth line = block_asm

unfoldable pub count_parentheses : List Block → Text → List Block
unfolding count ◌+ℤ◌ next_asm
count_parentheses [] line = []
count_parentheses (b ∷ bs) line =
    let change = sub_ℕ (count line (txt "(")) (count line (txt ")")) in
    let depth = b.open_parentheses +ℤ change in
    record b { open_parentheses = depth; inline_asm = next_asm b.inline_asm change depth line } ∷ bs

abbrev pub namespace_decl : Text
namespace_decl = txt "^\\s*namespace\\b\\s*([:\\w]+)?(.*)$"

-- The loop over namespace declarations, with a bound on its rounds: the stack and what is left of
-- the line; `none` means that the bound was too small.
unfoldable pub namespace_loop : ℕ → List Block → ℕ → Text → Option (List Block × Text)
unfolding find
namespace_loop zero stack linenum line = none
namespace_loop (suc f) stack linenum line = elim (match namespace_decl line) [
  | none ↦ some (stack, line)
  | some m ↦
      let b = namespace_info (group 1 m) linenum in
      let rest = group_text 2 m in
      elim (find rest (txt "{")) [
        | none ↦ namespace_loop f (b ∷ stack) linenum rest
        | some p ↦ namespace_loop f (mark_seen (b ∷ stack)) linenum (drop (p + 1) rest)
      ]
]

abbrev pub class_decl : Text
class_decl =
    txt "^(\\s*(?:template\\s*<[\\w\\s<>,:=]*>\\s*)?"
    ++ txt "(class|struct)\\s+(?:[A-Z_]+\\s+)*(\\w+(?:::\\w+)*))"
    ++ txt "(.*)$"

abbrev pub no_parentheses : List Block → Bool
no_parentheses [] = true
no_parentheses (b ∷ bs) = is_ℕ b.open_parentheses 0

-- The class declaration in what is left of the line.
unfoldable pub declare_class : List Block → CleansedLines → ℕ → Text → Option (List Block × Text)
unfolding in_template_argument_list class_info
declare_class stack clean linenum line = elim (match class_decl line) [
  | none ↦ some (stack, line)
  | some m ↦
      if not (no_parentheses stack)
      then some (stack, line)
      else (elim (in_template_argument_list clean.elided linenum (length (group_text 1 m))) [
        | none ↦ none
        | some true ↦ some (stack, line)
        | some false ↦
            some
              (class_info (group_text 3 m) (group_text 2 m) clean linenum ∷ stack, group_text 4 m)
      ])
]

unfoldable pub begin_block : List Block → CleansedLines → ℕ → List Block
unfolding check_begin
begin_block [] clean linenum = []
begin_block (b ∷ bs) clean linenum =
    if b.seen_open_brace then b ∷ bs else check_begin b clean linenum ∷ bs

abbrev pub access_keyword : Text
access_keyword =
    txt "^(.*)\\b(public|private|protected|signals)(\\s+(?:slots\\s*)?)?" ++ txt ":(?:[^:]|$)"

-- What a match of an access keyword reports in a class.
unfoldable pub check_access : ClassFields → MatchResult → ℕ → List Report
unfolding matches
check_access c m linenum =
    let indent = group_text 1 m in
    if not (length indent == c.class_indent + 1) && matches (txt "^\\s*$") indent
    then report linenum (txt "whitespace/indent") 3 (
        group_text 2 m
        ++ (elim (group 3 m) [ none ↦ [] | some slots ↦ slots ])
        ++ txt ": should be indented +1 space inside "
        ++ parent_name c)
      ∷ []
    else []

unfoldable pub update_access : List Block → ℕ → Text → Scan
unfolding check_access
update_access [] linenum line = ([], [])
update_access (b ∷ bs) linenum line = elim b.kind [
  | class_block c ↦ elim (match access_keyword line) [
    | none ↦ (b ∷ bs, [])
    | some m ↦ (
      record b { kind = class_block (record c { access = group_text 2 m }) } ∷ bs,
      check_access c m linenum,
    )
  ]
  | _ ↦ (b ∷ bs, [])
]

-- `Update`; `none` means that the bound of one of the loops was too small.
unfoldable pub update : NestingState → CleansedLines → ℕ → Option (NestingState × List Report)
unfolding namespace_loop declare_class begin_block update_access
update s clean linenum =
    let line = get_or clean.elided linenum [] in
    let t = update_preprocessor (record s { previous_stack_top = head? s.stack }) line in
    elim (namespace_loop (length line + 1) (count_parentheses t.stack line) linenum line) [
      | none ↦ none
      | some (stack, rest) ↦ elim (declare_class stack clean linenum rest) [
        | none ↦ none
        | some (stack', rest') ↦
            let (stack'', accesses) =
              update_access (begin_block stack' clean linenum) linenum rest' in
            elim (brace_loop (length rest' + 1) stack'' clean linenum rest') [
              | none ↦ none
              | some (last, ends) ↦ some (record t { stack = last }, accesses ++ ends)
            ]
      ]
    ]
