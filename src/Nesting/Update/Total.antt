-- ===== src/Nesting/Update/Total.antt =====
-- `Update` ends.
use nwtool.Base.{
  Bool-cases, Option-cases, length, get_or, drop, length-drop, Text, txt, find, ℕ, zero, suc, ◌+◌,
  ◌<◌, ◌≡◌, refl, inl, inr, some, List, [], ◌∷◌, ◌++◌, arith,
}
use nwtool.Report.{Report}
use nwtool.Regex.{match, MatchResult, group}
use nwtool.Regex.Lengths.{tree, match-last_group}
use nwtool.Cleanse.{CleansedLines}
use nwtool.Cleanse.Strings.{group_text, group_text-some}
use nwtool.Nesting.Blocks.{Block, NestingState, namespace_info, class_info}
use nwtool.Nesting.Braces.{Scan, mark_seen, brace_loop}
use nwtool.Nesting.Braces.Loop.{brace_loop-total}
use nwtool.Nesting.Preprocessor.{update_preprocessor}
use nwtool.Nesting.Template.Total.{in_template_argument_list-total}
use nwtool.Nesting.Update.{
  head?, namespace_decl, namespace_loop, count_parentheses, class_decl, no_parentheses,
  declare_class, begin_block, update_access, update,
}

namespace_decl_group :
    (line : Text) (m : MatchResult)
    → match namespace_decl line ≡ some m
    → length (group_text 2 m) < length line
unfolding tree
namespace_decl_group line m h =
    let (g, last_is, short) = match-last_group namespace_decl line 14 2 m refl refl h in
    rw (group_text-some 2 m g last_is) (omega (arith, short))

-- A namespace declaration takes at least its keyword off the line.
namespace_loop-total :
    (f : ℕ) (stack : List Block) (linenum : ℕ) (line : Text)
    → length line < f
    → (r : List Block × Text) × (namespace_loop f stack linenum line ≡ some r)
unfolding namespace_loop
namespace_loop-total zero stack linenum line h = absurd (omega arith)
namespace_loop-total (suc f) stack linenum line h =
    elim (Option-cases (match namespace_decl line)) [
      | inl e ↦ ((stack, line), rw (e, namespace_loop))
      | inr (m, e) ↦
          let b = namespace_info (group 1 m) linenum in
          let rest = group_text 2 m in
          elim (Option-cases (find rest (txt "{"))) [
            | inl same ↦
                let (r, runs) =
                  namespace_loop-total f (b ∷ stack) linenum rest
                    (omega (arith, namespace_decl_group line m e)) in
                (r, ground (arith, e, same, runs))
            | inr (p, brace) ↦
                let (r, runs) =
                  namespace_loop-total f (mark_seen (b ∷ stack)) linenum (drop (p + 1) rest)
                    (omega (arith, namespace_decl_group line m e, length-drop (p + 1) rest)) in
                (r, ground (arith, e, brace, runs))
          ]
    ]

declare_class-total :
    (stack : List Block) (clean : CleansedLines) (linenum : ℕ) (line : Text)
    → (r : List Block × Text) × (declare_class stack clean linenum line ≡ some r)
unfolding declare_class
declare_class-total stack clean linenum line = elim (Option-cases (match class_decl line)) [
  | inl e ↦ ((stack, line), rw (e, declare_class))
  | inr (m, e) ↦ elim (Bool-cases (no_parentheses stack)) [
    | inr unclosed ↦ ((stack, line), rw (e, unclosed, declare_class))
    | inl closed ↦
        let (inside, inside_is) =
          in_template_argument_list-total clean.elided linenum (length (group_text 1 m)) in
        elim (Bool-cases inside) [
          | inl inner ↦ ((stack, line), rw (e, closed, inside_is, inner, declare_class))
          | inr outer ↦ (
            (class_info (group_text 3 m) (group_text 2 m) clean linenum ∷ stack, group_text 4 m),
            rw (e, closed, inside_is, outer, declare_class),
          )
        ]
  ]
]

-- What `Update` gives when each of its loops ends.
update-loops :
    (s : NestingState) (clean : CleansedLines) (linenum : ℕ) (a b : List Block × Text) (c : Scan)
    → let line = get_or clean.elided linenum [] in
      let t = update_preprocessor (record s { previous_stack_top = head? s.stack }) line in
      let begun = update_access (begin_block b.0 clean linenum) linenum b.1 in
      namespace_loop (length line + 1) (count_parentheses t.stack line) linenum line ≡ some a
      → declare_class a.0 clean linenum a.1 ≡ some b
      → brace_loop (length b.1 + 1) begun.0 clean linenum b.1 ≡ some c
      → update s clean linenum ≡ some (record t { stack = c.0 }, begun.1 ++ c.1)
unfolding update
update-loops s clean linenum a b c a_is b_is c_is = rw (update, a_is, b_is, c_is)

-- `Update` ends on every line and in every state: the loops over namespace declarations, over
-- template arguments and over braces stay within their bounds, and there is a new state with its
-- reports.
pub update-total :
    (s : NestingState) (clean : CleansedLines) (linenum : ℕ)
    → (r : NestingState × List Report) × (update s clean linenum ≡ some r)
unfolding update
update-total s clean linenum =
    let line = get_or clean.elided linenum [] in
    let t = update_preprocessor (record s { previous_stack_top = head? s.stack }) line in
    let (a, a_is) =
      namespace_loop-total (length line + 1) (count_parentheses t.stack line) linenum line
        (omega arith) in
    let (b, b_is) = declare_class-total a.0 clean linenum a.1 in
    let begun = update_access (begin_block b.0 clean linenum) linenum b.1 in
    let (c, c_is) = brace_loop-total (length b.1 + 1) begun.0 clean linenum b.1 (omega arith) in
    ((record t { stack = c.0 }, begun.1 ++ c.1), update-loops s clean linenum a b c a_is b_is c_is)
