-- ===== src/LineChecks/Namespaces.antt =====
-- Indentation in namespaces: `IsMacroDefinition`, `IsForwardClassDeclaration`, `IsBlockInNameSpace`,
-- `ShouldCheckNamespaceIndentation`, `CheckItemIndentationInNamespace` and
-- `CheckForNamespaceIndentation`, over the elided lines.
use nwtool.Base.{
  ◌==◌, if◌then◌else◌, length, get_or, Text, txt, ℕ, zero, suc, ◌+◌, Bool, true, false, not, ◌&&◌,
  ◌||◌, List, [], ◌∷◌,
}
use nwtool.Report.{Report, report}
use nwtool.Regex.{matches, searches}
use nwtool.Nesting.Blocks.{Block, NestingState, PreprocessorInfo, is_namespace, top_passes}
use nwtool.Nesting.Preprocessor.{Directive, alternates, closes, directive}

unfoldable pub is_macro_definition : List Text → ℕ → Bool
unfolding searches
is_macro_definition lines zero = searches (txt "^#define") (get_or lines 0 [])
is_macro_definition lines (suc n) =
    searches (txt "^#define") (get_or lines (suc n) [])
    || searches (txt "\\\\$") (get_or lines n [])

unfoldable pub is_forward_class_declaration : List Text → ℕ → Bool
unfolding matches
is_forward_class_declaration lines linenum =
    matches (txt "^\\s*(\\btemplate\\b)*.*class\\s+\\w+;\\s*$") (get_or lines linenum [])

-- The two blocks on the top of the stack.
abbrev in_namespace_block : List Block → Bool
in_namespace_block (top ∷ below ∷ rest) = top.check_namespace_indentation && is_namespace below.kind
in_namespace_block _ = false

unfoldable pub is_block_in_name_space : NestingState → Bool → Bool
is_block_in_name_space s is_forward_declaration =
    if is_forward_declaration
    then top_passes (λ b. is_namespace b.kind) s.stack
    else in_namespace_block s.stack

unfoldable pub should_check_namespace_indentation : NestingState → Bool → List Text → ℕ → Bool
unfolding is_forward_class_declaration is_macro_definition is_block_in_name_space
should_check_namespace_indentation s is_namespace_indent_item lines linenum =
    let is_forward_declaration = is_forward_class_declaration lines linenum in
    (is_namespace_indent_item || is_forward_declaration)
    && (not (is_macro_definition lines linenum) && is_block_in_name_space s is_forward_declaration)

unfoldable pub check_item_indentation_in_namespace : List Text → ℕ → List Report
unfolding matches
check_item_indentation_in_namespace lines linenum =
    if matches (txt "^\\s+") (get_or lines linenum [])
    then report linenum (txt "runtime/indentation_namespace") 4
        (txt "Do not indent within a namespace")
      ∷ []
    else []

-- The directive puts copies in the place of the blocks on the stack.
abbrev replaces : Directive → List PreprocessorInfo → Bool
replaces alternates (p ∷ ps) = true
replaces closes (p ∷ ps) = p.seen_else
replaces _ _ = false

-- `previous_stack_top == stack[-2]` compares objects: the block that was on the top before the line,
-- when the stack was `old`, is below the top now. Every block that the line has made starts on it.
abbrev is_below_top : List Block → List Block → ℕ → Bool
is_below_top old (top ∷ below ∷ rest) linenum =
    length rest + 1 == length old && not (below.starting_linenum == linenum)
is_below_top old _ linenum = false

-- `is_namespace_indent_item`, from the state before `Update` and the state behind it.
unfoldable pub is_namespace_indent_item : NestingState → NestingState → List Text → ℕ → Bool
unfolding directive
is_namespace_indent_item old s lines linenum =
    top_passes (λ b. b.check_namespace_indentation) s.stack
    && top_passes (λ b. is_namespace b.kind) old.stack
    && not (replaces (directive (get_or lines linenum [])) old.pp_stack)
    && is_below_top old.stack s.stack linenum

unfoldable pub check_for_namespace_indentation :
    NestingState → NestingState → List Text → ℕ → List Report
unfolding is_namespace_indent_item should_check_namespace_indentation
    check_item_indentation_in_namespace
check_for_namespace_indentation old s lines linenum =
    if should_check_namespace_indentation s (is_namespace_indent_item old s lines linenum) lines
      linenum
    then check_item_indentation_in_namespace lines linenum
    else []
