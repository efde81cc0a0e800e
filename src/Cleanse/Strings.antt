-- ===== src/Cleanse/Strings.antt =====
-- Comments and strings within one line.
pub mod Loop
use nwtool.Base.{
  ◌==◌, if◌then◌else◌, length, take, drop, Text, txt, text_eq, find, count, replace, rstrip, ℕ,
  zero, suc, ◌+◌, ◌%◌, ◌≡◌, Bool, Option, none, some, [], ◌∷◌, ◌++◌,
}
use nwtool.Regex.{match, matches, searches, replace_all, MatchResult, group}

-- A group that takes part in every match of its pattern.
unfoldable pub group_text : ℕ → MatchResult → Text
group_text n m = elim (group n m) [ none ↦ [] | some t ↦ t ]

pub group_text-some : (n : ℕ) (m : MatchResult) (t : Text) → group n m ≡ some t → group_text n m ≡ t
unfolding group_text
group_text-some n m t h = rw (h, group_text)

-- `IsCppString`; the parity of a difference is that of the sum.
unfoldable pub is_cpp_string : Text → Bool
unfolding replace count
is_cpp_string line =
    let l = replace line (txt "\\\\") (txt "XX") in
    (count l (txt "\"") + count l (txt "\\\"") + count l (txt "'\"'")) % 2 == 1

abbrev pub cleanse_line_escapes : Text
cleanse_line_escapes = txt "\\\\([abfnrtv?\"\\\\\\']|\\d+|x[0-9a-fA-F]+)"

abbrev pub cleanse_line_c_comments : Text
cleanse_line_c_comments =
    txt "(\\s*/\\*(?:[^*]|\\*(?!/))*\\*/\\s*$|"
    ++ txt "/\\*(?:[^*]|\\*(?!/))*\\*/\\s+|"
    ++ txt "\\s+/\\*(?:[^*]|\\*(?!/))*\\*/(?=\\W)|"
    ++ txt "/\\*(?:[^*]|\\*(?!/))*\\*/)"

unfoldable pub cleanse_comments : Text → Text
unfolding find is_cpp_string rstrip replace_all
cleanse_comments line =
    let without : Text = elim (find line (txt "//")) [
      | none ↦ line
      | some p ↦ if is_cpp_string (take p line) then line else rstrip (take p line)
    ] in
    replace_all cleanse_line_c_comments [] without

abbrev pub include_line : Text
include_line = txt "^\\s*#\\s*include\\s*([<\"])([^>\"]*)[>\"].*$"

abbrev pub first_quote : Text
first_quote = txt "^([^'\"]*)(['\"])(.*)$"

-- One round of the loop of `_CollapseStrings`: what it appends, and what is left if it goes on.
-- The pattern of a digit separator's tail matches every line.
unfoldable pub collapse_step : Text → Text × Option Text
unfolding match group_text find searches replace
collapse_step elided = elim (match first_quote elided) [
  | none ↦ (elided, none)
  | some m ↦
      let head = group_text 1 m in
      let tail = group_text 3 m in
      if text_eq (group_text 2 m) (txt "\"")
      then (elim (find tail (txt "\"")) [
        | some q ↦ (head ++ txt "\"\"", some (drop (q + 1) tail))
        | none ↦ (elided, none)
      ])
      else if searches (txt "\\b(?:0[bBxX]?|[1-9])[0-9a-fA-F]*$") head
      then (elim (match (txt "^((?:\\'?[0-9a-zA-Z_])*)(.*)$") (b'\'' ∷ tail)) [
        | some d ↦ (head ++ replace (group_text 1 d) (txt "'") [], some (group_text 2 d))
        | none ↦ (elided, none)
      ])
      else (elim (find tail (txt "'")) [
        | some q ↦ (head ++ txt "''", some (drop (q + 1) tail))
        | none ↦ (elided, none)
      ])
]

-- The loop, with a bound on its rounds; `none` means that the bound was too small.
unfoldable pub collapse_loop : ℕ → Text → Text → Option Text
collapse_loop zero collapsed elided = none
collapse_loop (suc f) collapsed elided =
    let (more, rest) = collapse_step elided in
    elim rest [ none ↦ some (collapsed ++ more) | some r ↦ collapse_loop f (collapsed ++ more) r ]

-- `_CollapseStrings`
unfoldable pub collapse_strings : Text → Text
unfolding collapse_loop collapse_step matches replace_all
collapse_strings line =
    if matches include_line line
    then line
    else let l = replace_all cleanse_line_escapes [] line in
      elim (collapse_loop (length l + 2) [] l) [ none ↦ l | some c ↦ c ]
