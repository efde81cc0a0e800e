-- ===== src/Nesting/Checks.antt =====
-- The checks at the beginning and the end of a block, and at the end of the file.
use nwtool.Base.{
  ltb, ◌==◌, if◌then◌else◌, length, get_or, Text, txt, text_eq, ℕ, zero, suc, ◌+◌, ◌-◌, Bool, true,
  false, not, ◌&&◌, none, some, List, [], ◌∷◌, ◌++◌,
}
use nwtool.Report.{Report, report}
use nwtool.Regex.Syntax.{is_word}
use nwtool.Regex.{match, matches, search_in, searches}
use nwtool.Cleanse.{CleansedLines}
use nwtool.Cleanse.Strings.{group_text}
use nwtool.Nesting.Blocks.{Block, class_block, namespace_block, ClassFields}

-- `_ClassInfo.CheckBegin`; other blocks check nothing.
unfoldable pub check_begin : Block → CleansedLines → ℕ → Block
unfolding searches
check_begin b clean linenum = elim b.kind [
  | class_block c ↦
      if searches (txt "(^|[^:]):($|[^:])") (get_or clean.elided linenum [])
      then record b { kind = class_block (record c { is_derived = true }) }
      else b
  | _ ↦ b
]

-- The loop for the DISALLOW macros, from line `i` down, `n` lines in all.
unfoldable pub disallow_loop : Text → List Text → ℕ → ℕ → Bool → List Report
unfolding search_in matches group_text
disallow_loop name elided zero i seen = []
disallow_loop name elided (suc n) i seen =
    let line = get_or elided i [] in
    let rest =
      disallow_loop name elided n (i - 1) (if matches (txt "^\\s*$") line then seen else true) in
    elim (search_in
      (txt "\\b(DISALLOW_COPY_AND_ASSIGN|DISALLOW_IMPLICIT_CONSTRUCTORS)\\(" ++ name ++ txt "\\)")
      line) [
        | none ↦ rest
        | some m ↦
            if seen
            then report i (txt "readability/constructors") 3
                (group_text 1 m ++ txt " should be the last thing in the class")
              ∷ []
            else []
      ]

abbrev pub parent_name : ClassFields → Text
parent_name c = if c.is_struct then txt "struct " ++ c.name else txt "class " ++ c.name

-- `_ClassInfo.CheckEnd`
unfoldable pub check_class_end : ClassFields → ℕ → CleansedLines → ℕ → List Report
unfolding disallow_loop match group_text
check_class_end c starting_linenum clean linenum =
    disallow_loop c.name clean.elided (linenum - 1 - starting_linenum) (linenum - 1) false
    ++ (elim (match (txt "^( *)\\}") (get_or clean.elided linenum [])) [
      | none ↦ []
      | some m ↦
          if length (group_text 1 m) == c.class_indent
          then []
          else report linenum (txt "whitespace/indent") 3
              (txt "Closing brace should be aligned with beginning of " ++ parent_name c)
            ∷ []
    ])

-- `re.escape`
unfoldable pub escape : Text → Text
unfolding is_word
escape [] = []
escape (c ∷ cs) = if is_word c then c ∷ escape cs else b'\\' ∷ c ∷ escape cs

-- `_NamespaceInfo.CheckEnd`
unfoldable pub check_namespace_end : Text → ℕ → CleansedLines → ℕ → List Report
unfolding matches escape
check_namespace_end name starting_linenum clean linenum =
    let line = get_or clean.raw_lines linenum [] in
    let complain = λ (m : Text). report linenum (txt "readability/namespace") 5 m ∷ [] in
    if ltb linenum (starting_linenum + 10)
      && not (matches (txt "^\\s*};*\\s*(//|/\\*).*\\bnamespace\\b") line)
    then []
    else if not (text_eq name [])
    then if matches
        (txt "^\\s*};*\\s*(//|/\\*).*\\bnamespace\\s+" ++ escape name ++ txt "[\\*/\\.\\\\\\s]*$")
        line
      then []
      else complain (txt "Namespace should be terminated with \"// namespace " ++ name ++ txt "\"")
    else if matches (txt "^\\s*};*\\s*(//|/\\*).*\\bnamespace[\\*/\\.\\\\\\s]*$") line
    then []
    else if matches (txt "^\\s*}.*\\b(namespace anonymous|anonymous namespace)\\b") line
    then complain (
        txt "Anonymous namespace should be terminated with \"// namespace\""
        ++ txt " or \"// anonymous namespace\"")
    else complain (txt "Anonymous namespace should be terminated with \"// namespace\"")

-- `CheckEnd`
unfoldable pub check_end : Block → CleansedLines → ℕ → List Report
unfolding check_class_end check_namespace_end
check_end b clean linenum = elim b.kind [
  | class_block c ↦ check_class_end c b.starting_linenum clean linenum
  | namespace_block name ↦ check_namespace_end name b.starting_linenum clean linenum
  | _ ↦ []
]

-- What `CheckCompletedBlocks` reports of one block.
unfoldable pub incomplete : Block → List Report
incomplete b = elim b.kind [
  | class_block c ↦
      report b.starting_linenum (txt "build/class") 5
        (txt "Failed to find complete declaration of class " ++ c.name)
      ∷ []
  | namespace_block name ↦
      report b.starting_linenum (txt "build/namespaces") 5
        (txt "Failed to find complete declaration of namespace " ++ name)
      ∷ []
  | _ ↦ []
]

-- `CheckCompletedBlocks`, from the outermost block in.
unfoldable pub check_completed_blocks : List Block → List Report
unfolding incomplete
check_completed_blocks [] = []
check_completed_blocks (b ∷ bs) = check_completed_blocks bs ++ incomplete b
