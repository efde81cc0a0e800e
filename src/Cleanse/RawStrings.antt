-- ===== src/Cleanse/RawStrings.antt =====
-- C++11 raw strings, over the lines of a file.
pub mod Total
use nwtool.Base.{
  if◌then◌else◌, length, drop, Text, txt, find, ℕ, zero, suc, ◌+◌, Option, none, some, List, [],
  ◌∷◌, ◌++◌,
}
use nwtool.Regex.{match, matches}
use nwtool.Cleanse.Strings.{group_text}

abbrev pub raw_string : Text
raw_string = txt "^(.*?)\\b(?:R|u8R|uR|UR|LR)\"([^\\s\\\\()]*)\\((.*)$"

abbrev pub in_comment : Text
in_comment = txt "^([^\\'\"]|\\'(\\\\.|[^\\'])*\\'|\"(\\\\.|[^\"])*\")*//"

-- The inner loop from a line with no raw string open: the new line, and the delimiter if one is
-- open at its end. The number bounds the rounds, and `none` means that it was too small.
unfoldable pub open_loop : ℕ → Text → Option (Text × Option Text)
open_loop zero line = none
open_loop (suc f) line = elim (match raw_string line) [
  | none ↦ some (line, none)
  | some m ↦
      let prefix = group_text 1 m in
      let delimiter = txt ")" ++ group_text 2 m ++ txt "\"" in
      let closed : Option (Text × Option Text) = elim (find (group_text 3 m) delimiter) [
        | some end ↦
            open_loop f (prefix ++ txt "\"\"" ++ drop (end + length delimiter) (group_text 3 m))
        | none ↦ some (prefix ++ txt "\"\"", some delimiter)
      ] in
      if matches in_comment prefix then some (line, none) else closed
]

-- The first part of the body, with a raw string open; `none` is the exception at a line with no
-- leading space to match.
unfoldable pub inside_step : Text → Text → Option (Text × Option Text)
inside_step delimiter line = elim (find line delimiter) [
  | none ↦ some (txt "\"\"", some delimiter)
  | some end ↦ elim (match (txt "^(\\s*)\\S") line) [
    | none ↦ none
    | some m ↦ some (group_text 1 m ++ txt "\"\"" ++ drop (end + length delimiter) line, none)
  ]
]

-- The body of the loop over the lines.
unfoldable pub line_step : Option Text → Text → Option (Text × Option Text)
line_step none line = open_loop (length line + 1) line
line_step (some delimiter) line = elim (inside_step delimiter line) [
  | none ↦ none
  | some (l, some d) ↦ some (l, some d)
  | some (l, none) ↦ open_loop (length l + 1) l
]

unfoldable pub cleanse_lines : Option Text → List Text → Option (List Text)
cleanse_lines delimiter [] = some []
cleanse_lines delimiter (line ∷ lines) = elim (line_step delimiter line) [
  | none ↦ none
  | some (l, d) ↦ elim (cleanse_lines d lines) [ none ↦ none | some ls ↦ some (l ∷ ls) ]
]

-- `CleanseRawStrings`
unfoldable pub cleanse_raw_strings : List Text → Option (List Text)
cleanse_raw_strings = cleanse_lines none
