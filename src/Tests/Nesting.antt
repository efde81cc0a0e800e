-- ===== src/Tests/Nesting.antt =====
-- The theorems on the nesting of blocks, on concrete lines.
use nwtool.Base.{Text, txt, ℕ, ◌≡◌, refl, Bool, true, some, List, [], ◌∷◌, arith}
use nwtool.Cleanse.{CleansedLines}
use nwtool.Nesting.Blocks.{Block, NestingState, initial, block_info, seen_brace}
use nwtool.Nesting.Preprocessor.{directive}
use nwtool.Nesting.Preprocessor.Discipline.{
  Event, line, change, run, Nested, done, moves, conditional, last, more, effect, run-Nested,
}
use nwtool.Nesting.Braces.{brace_loop}
use nwtool.Nesting.Braces.Blockwise.{
  Balanced, nothing, semicolon, parenthesis, block, tokens, brace_loop-Balanced,
}
use nwtool.Nesting.Template.{in_template_argument_list}
use nwtool.Nesting.Template.Total.{in_template_argument_list-total}
use nwtool.Nesting.Update.{update}
use nwtool.Nesting.Update.Total.{update-total}
use nwtool.Report.{Report}
use nwtool.Regex.{group}

abbrev push_block : ℕ → List Block → List Block
push_block n bs = block_info n true ∷ bs

-- Two branches that open one block each.
abbrev two_branches : List Event
two_branches =
    line (txt "#ifdef A")
    ∷ change (push_block 2)
    ∷ line (txt "#else")
    ∷ change (push_block 4)
    ∷ line (txt "#endif")
    ∷ []

abbrev two_branches-Nested : Nested two_branches
unfolding directive
two_branches-Nested =
    conditional (txt "#ifdef A") refl
      (more (txt "#else") refl (moves (push_block 2) done)
        (last (txt "#endif") refl (moves (push_block 4) done) refl) refl)
      refl done

run-Nested_example : run initial two_branches ≡ record initial { stack = block_info 2 true ∷ [] }
unfolding effect two_branches-Nested
run-Nested_example = run-Nested two_branches-Nested initial

abbrev empty_lines : CleansedLines
empty_lines = record { elided = []; raw_lines = []; lines = []; lines_without_raw_strings = [] }

abbrev braces_line : Text
braces_line = txt "if (a) { f(b); }"

abbrev braces_line-Balanced : Balanced (tokens 20 braces_line)
unfolding tokens group
braces_line-Balanced = parenthesis (txt "if (a) { f(b); }") (
    block (txt " { f(b); }") (txt " }")
      (parenthesis (txt " f(b); }") (semicolon (txt "; }") nothing)) nothing)

brace_loop-Balanced_example :
    brace_loop 20 (block_info 0 true ∷ []) empty_lines 0 braces_line
    ≡ some (block_info 0 true ∷ [], [])
brace_loop-Balanced_example =
    brace_loop-Balanced 20 (block_info 0 true ∷ []) empty_lines 0 braces_line (omega arith)
      braces_line-Balanced (unfold seen_brace in refl)

abbrev class_lines : CleansedLines
class_lines = record {
  elided = txt "namespace a { class B : public C<D> {" ∷ txt "}; }" ∷ [];
  raw_lines = txt "namespace a { class B : public C<D> {" ∷ txt "}; }" ∷ [];
  lines = txt "namespace a { class B : public C<D> {" ∷ txt "}; }" ∷ [];
  lines_without_raw_strings = txt "namespace a { class B : public C<D> {" ∷ txt "}; }" ∷ [];
}

in_template_argument_list-total_example :
    (b : Bool) × (in_template_argument_list class_lines.elided 0 34 ≡ some b)
in_template_argument_list-total_example = in_template_argument_list-total class_lines.elided 0 34

update-total_example : (r : NestingState × List Report) × (update initial class_lines 0 ≡ some r)
update-total_example = update-total initial class_lines 0
