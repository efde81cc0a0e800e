-- ===== src/FileChecks.antt =====
-- Checks of a whole file's text: build_support/cpplint.py, `CheckForBadCharacters`,
-- `CheckForNewlineAtEOF`, `CheckForMultilineCommentsAndStrings`, and the markers that
-- `ProcessFileData` puts round the lines.
pub mod Newline
pub mod BadCharacters
use nwtool.Base.{
  ltb, ◌==◌, if◌then◌else◌, length, get_or, take, drop, Text, txt, text_eq, char_in, count, replace,
  lower, contains, ℕ, ◌+◌, ◌-◌, ◌%◌, Bool, false, not, ◌||◌, List, [], ◌∷◌, ◌++◌,
}
use nwtool.Report.{Report, report}
use nwtool.Cleanse.{CleansedLines}

abbrev pub marker_start : Text
marker_start = txt "// marker so line numbers and indices both start at 1"

abbrev pub marker_end : Text
marker_end = txt "// marker so line numbers end in a known way"

-- The lines that `ProcessFileData` works on.
unfoldable pub add_markers : List Text → List Text
add_markers lines = marker_start ∷ (lines ++ marker_end ∷ [])

unfoldable pub bad_characters : ℕ → Text → List Report
unfolding char_in
bad_characters linenum line =
    (if char_in 65533 line
      then report linenum (txt "readability/utf8") 5
          (txt "Line contains invalid UTF-8 (or Unicode replacement character).")
        ∷ []
      else [])
    ++ (if char_in 0 line
        then report linenum (txt "readability/nul") 5 (txt "Line contains NUL byte.") ∷ []
        else [])

-- The loop of `CheckForBadCharacters`, from line `linenum` on.
unfoldable pub bad_characters_from : ℕ → List Text → List Report
unfolding bad_characters
bad_characters_from linenum [] = []
bad_characters_from linenum (line ∷ lines) =
    bad_characters linenum line ++ bad_characters_from (linenum + 1) lines

unfoldable pub check_for_bad_characters : List Text → List Report
unfolding bad_characters_from
check_for_bad_characters = bad_characters_from 0

-- `lines[-2]`, for two lines or more.
unfoldable pub second_last : List Text → Text
second_last [] = []
second_last (x ∷ []) = []
second_last (x ∷ y ∷ []) = x
second_last (x ∷ y ∷ z ∷ zs) = second_last (y ∷ z ∷ zs)

-- `CheckForNewlineAtEOF`, for two lines or more: the caller has put its two markers round them.
unfoldable pub check_for_newline_at_eof : List Text → List Report
unfolding second_last text_eq
check_for_newline_at_eof lines =
    if ltb (length lines) 3 || not (text_eq (second_last lines) [])
    then report (length lines - 2) (txt "whitespace/ending_newline") 5
        (txt "Could not find a newline character at the end of the file.")
      ∷ []
    else []

-- The parity of a difference is that of the sum.
unfoldable pub check_for_multiline_comments_and_strings : CleansedLines → ℕ → List Report
unfolding replace count
check_for_multiline_comments_and_strings clean linenum =
    let line = replace (get_or clean.elided linenum []) (txt "\\\\") [] in
    (if ltb (count line (txt "*/")) (count line (txt "/*"))
      then report linenum (txt "readability/multiline_comment") 5 (
          txt "Complex multi-line /*...*/-style comment found. "
          ++ txt "Lint may give bogus warnings.  "
          ++ txt "Consider replacing these with //-style comments, "
          ++ txt "with #if 0...#endif, "
          ++ txt "or with more clearly structured multi-line comments.")
        ∷ []
      else [])
    ++ (if (count line (txt "\"") + count line (txt "\\\"")) % 2 == 1
        then report linenum (txt "readability/multiline_string") 5 (
            txt "Multi-line string (\"...\") found.  This lint script doesn't "
            ++ txt "do well with such strings, and may give bogus warnings.  "
            ++ txt "Use C++11 raw strings or concatenation instead.")
          ∷ []
        else [])

unfoldable pub has_copyright : List Text → Bool
unfolding contains lower
has_copyright [] = false
has_copyright (l ∷ ls) = contains (lower l) (txt "copyright") || has_copyright ls

-- `CheckForCopyright`: the lines after the first marker, up to line 10.
unfoldable pub check_for_copyright : List Text → List Report
unfolding has_copyright
check_for_copyright lines =
    if has_copyright (take 10 (drop 1 lines))
    then []
    else report 0 (txt "legal/copyright") 5 (
        txt "No copyright message found.  "
        ++ txt "You should have a line: \"Copyright [year] <Copyright Owner>\"")
      ∷ []
