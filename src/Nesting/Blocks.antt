-- ===== src/Nesting/Blocks.antt =====
-- The blocks on the stack, and the questions that the checks ask about its top.
use nwtool.Base.{
  if◌then◌else◌, length, get_or, drop, Text, txt, text_eq, count, ℕ, ◌+◌, Bool, true, false, not,
  Option, none, some, List, [], ◌∷◌,
}
use nwtool.Base.Int.{ℤ, pos, ◌+ℤ◌, sub_ℕ, is_ℕ}
use nwtool.Regex.{match}
use nwtool.Cleanse.{CleansedLines}
use nwtool.Cleanse.Strings.{group_text}

-- `_NO_ASM`, `_INSIDE_ASM`, `_END_ASM` and `_BLOCK_ASM`.
pub data Asm : Type 0 where
  no_asm inside_asm end_asm block_asm : Asm

-- What `_ClassInfo` adds to a block.
pub record ClassFields : Type 0 where
  pub name : Text
  pub is_derived : Bool
  pub access : Text
  pub is_struct : Bool
  pub class_indent : ℕ
  pub last_line : ℕ

-- `_BlockInfo`, `_ExternCInfo`, `_ClassInfo` and `_NamespaceInfo` with its name.
pub data Kind : Type 0 where
  plain_block extern_c : Kind
  class_block : ClassFields → Kind
  namespace_block : Text → Kind

pub record Block : Type 0 where
  pub kind : Kind
  pub starting_linenum : ℕ
  pub seen_open_brace : Bool
  pub open_parentheses : ℤ
  pub inline_asm : Asm
  pub check_namespace_indentation : Bool

-- `_BlockInfo.__init__`
abbrev pub block_info : ℕ → Bool → Block
block_info linenum seen = record {
  kind = plain_block;
  starting_linenum = linenum;
  seen_open_brace = seen;
  open_parentheses = pos 0;
  inline_asm = no_asm;
  check_namespace_indentation = false;
}

-- `_ExternCInfo.__init__`
abbrev pub extern_c_info : ℕ → Block
extern_c_info linenum = record (block_info linenum true) { kind = extern_c }

-- `_NamespaceInfo.__init__`, where no name is the empty text.
abbrev pub namespace_info : Option Text → ℕ → Block
namespace_info name linenum = record (block_info linenum false) {
  kind = namespace_block (elim name [ none ↦ [] | some n ↦ n ]);
  check_namespace_indentation = true;
}

-- `GetIndentLevel`
unfoldable pub get_indent_level : Text → ℕ
unfolding match group_text
get_indent_level line = elim (match (txt "^( *)\\S") line) [
  | none ↦ 0
  | some m ↦ length (group_text 1 m)
]

-- The loop for `last_line`, over the lines from number `i`.
unfoldable pub last_line_from : ℕ → ℤ → List Text → ℕ
unfolding count ◌+ℤ◌
last_line_from i depth [] = 0
last_line_from i depth (line ∷ lines) =
    let depth' = depth +ℤ sub_ℕ (count line (txt "{")) (count line (txt "}")) in
    if is_ℕ depth' 0 then i else last_line_from (i + 1) depth' lines

-- `_ClassInfo.__init__`
unfoldable pub class_info : Text → Text → CleansedLines → ℕ → Block
unfolding get_indent_level last_line_from text_eq
class_info name class_or_struct clean linenum =
    let is_struct = text_eq class_or_struct (txt "struct") in
    record (block_info linenum false) {
      kind = class_block (record {
        name = name;
        is_derived = false;
        access = if is_struct then txt "public" else txt "private";
        is_struct = is_struct;
        class_indent = get_indent_level (get_or clean.raw_lines linenum []);
        last_line = last_line_from linenum (pos 0) (drop linenum clean.elided);
      });
      check_namespace_indentation = true;
    }

-- `_PreprocessorInfo`
pub record PreprocessorInfo : Type 0 where
  pub stack_before_if : List Block
  pub stack_before_else : List Block
  pub seen_else : Bool

-- `previous_stack_top` is the block as it was when the line began; the code that reads it asks only
-- for its class, which does not change, and whether it is still on the stack.
pub record NestingState : Type 0 where
  pub stack : List Block
  pub previous_stack_top : Option Block
  pub pp_stack : List PreprocessorInfo

abbrev pub initial : NestingState
initial = record { stack = []; previous_stack_top = none; pp_stack = [] }

-- `SeenOpenBrace`
unfoldable pub seen_brace : List Block → Bool
seen_brace [] = true
seen_brace (b ∷ bs) = b.seen_open_brace

abbrev pub is_class : Kind → Bool
is_class (class_block c) = true
is_class _ = false

abbrev pub is_namespace : Kind → Bool
is_namespace (namespace_block n) = true
is_namespace _ = false

abbrev pub is_extern_c : Kind → Bool
is_extern_c extern_c = true
is_extern_c _ = false

abbrev pub is_no_asm : Asm → Bool
is_no_asm no_asm = true
is_no_asm _ = false

-- A test of the top block, which fails on the empty stack.
abbrev pub top_passes : (Block → Bool) → List Block → Bool
top_passes p [] = false
top_passes p (b ∷ bs) = p b

unfoldable pub in_namespace_body : NestingState → Bool
in_namespace_body s = top_passes (λ b. is_namespace b.kind) s.stack

unfoldable pub in_extern_c : NestingState → Bool
in_extern_c s = top_passes (λ b. is_extern_c b.kind) s.stack

unfoldable pub in_class_declaration : NestingState → Bool
in_class_declaration s = top_passes (λ b. is_class b.kind) s.stack

unfoldable pub in_asm_block : NestingState → Bool
in_asm_block s = top_passes (λ b. not (is_no_asm b.inline_asm)) s.stack

-- `InnermostClass`
unfoldable pub innermost_class : List Block → Option Block
innermost_class [] = none
innermost_class (b ∷ bs) = if is_class b.kind then some b else innermost_class bs
