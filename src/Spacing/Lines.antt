-- ===== src/Spacing/Lines.antt =====
-- The searches back over the lines of a file: `IsBlankLine`, `GetPreviousNonBlankLine`, and the
-- loops of `CheckSpacing` and `CheckSectionSpacing`.
pub mod Previous
use nwtool.Base.{
  ltb, leb, if◌then◌else◌, get_or, take, drop, Text, txt, text_eq, find, is_space, rfind, ℕ, zero,
  suc, ◌+◌, ◌-◌, Bool, true, false, not, ◌&&◌, ◌||◌, Option, none, some, List, [], ◌∷◌, ◌++◌,
}
use nwtool.Report.{Report, report}
use nwtool.Regex.{match, matches, searches}
use nwtool.Cleanse.{CleansedLines}
use nwtool.Cleanse.Strings.{group_text}
use nwtool.Nesting.Blocks.{ClassFields}

-- `IsBlankLine`
unfoldable pub is_blank_line : Text → Bool
unfolding is_space
is_blank_line [] = true
is_blank_line (c ∷ s) = is_space c && is_blank_line s

-- `GetPreviousNonBlankLine`, with `none` for the empty line at -1.
unfoldable pub get_previous_non_blank_line : List Text → ℕ → Option (Text × ℕ)
unfolding is_blank_line
get_previous_non_blank_line elided zero = none
get_previous_non_blank_line elided (suc n) =
    let rest = get_previous_non_blank_line elided n in
    let prevline = get_or elided n [] in if is_blank_line prevline then rest else some (prevline, n)

-- The last of the first `n` lines that is not indented by six spaces.
unfoldable pub before_indented : List Text → ℕ → Option ℕ
unfolding matches
before_indented elided zero = none
before_indented elided (suc n) =
    let rest = before_indented elided n in
    if matches (txt " {6}\\w") (get_or elided n []) then rest else some n

-- The line before the lines indented by six spaces begins with the colon of an initializer list.
unfoldable pub is_initializer_list : List Text → ℕ → Bool
unfolding before_indented text_eq
is_initializer_list elided linenum = elim (before_indented elided (linenum - 1)) [
  | none ↦ false
  | some p ↦ text_eq (take 5 (get_or elided p [])) (txt "    :")
]

-- A brace is open at the end of the line.
unfoldable pub opens_block : Text → Bool
unfolding rfind find
opens_block line = elim (rfind line b'{') [
  | none ↦ false
  | some prevbrace ↦ elim (find (drop prevbrace line) (txt "}")) [ none ↦ true | some p ↦ false ]
]

-- The first of `k` lines from `i` on that ends with an opening brace, or else the default.
unfoldable pub end_class_head : List Text → ℕ → ℕ → ℕ → ℕ
unfolding searches
end_class_head lines default i zero = default
end_class_head lines default i (suc k) =
    let rest = end_class_head lines default (i + 1) k in
    if searches (txt "\\{\\s*$") (get_or lines i []) then i else rest

-- `CheckSectionSpacing`, for a class that starts at this line.
unfoldable pub check_section_spacing : CleansedLines → ℕ → ClassFields → ℕ → List Report
unfolding match group_text is_blank_line searches end_class_head
check_section_spacing clean starting_linenum c linenum =
    if leb c.last_line (starting_linenum + 24) || leb linenum starting_linenum
    then []
    else (elim (match (txt "\\s*(public|protected|private):") (get_or clean.lines linenum [])) [
      | none ↦ []
      | some matched ↦
          let prev_line = get_or clean.lines (linenum - 1) [] in
          let head =
            end_class_head clean.lines starting_linenum starting_linenum
              (linenum - starting_linenum) in
          if not (is_blank_line prev_line)
            && not (searches (txt "\\b(class|struct)\\b") prev_line)
            && not (searches (txt "\\\\$") prev_line)
            && ltb head (linenum - 1)
          then report linenum (txt "whitespace/blank_line") 3
              (b'"' ∷ (group_text 1 matched ++ txt ":\" should be preceded by a blank line"))
            ∷ []
          else []
    ])
