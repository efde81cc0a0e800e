-- ===== src/Tests/FileChecks.antt =====
-- The theorems on the checks of a whole file, on concrete texts.
use nwtool.Base.{txt, char_in, split, ◌≡◌, [], ◌∷◌}
use nwtool.Report.{report}
use nwtool.FileChecks.{add_markers, check_for_bad_characters, check_for_newline_at_eof}
use nwtool.FileChecks.Newline.{unterminated, check_for_newline_at_eof_lem}
use nwtool.FileChecks.BadCharacters.{at_line, check_for_bad_characters-at_line}

check_for_newline_at_eof_lem_example :
    check_for_newline_at_eof (add_markers (split 10 (txt "int a;\nint b;")))
    ≡ report 2
        (txt "whitespace/ending_newline")
        5
        (txt "Could not find a newline character at the end of the file.")
      ∷ []
unfolding unterminated split
check_for_newline_at_eof_lem_example = check_for_newline_at_eof_lem (txt "int a;\nint b;")

check_for_bad_characters-at_line_example :
    at_line 1 (check_for_bad_characters (txt "int a;" ∷ (0 ∷ 65533 ∷ []) ∷ []))
    ≡ report 1
        (txt "readability/utf8")
        5
        (txt "Line contains invalid UTF-8 (or Unicode replacement character).")
      ∷ report 1 (txt "readability/nul") 5 (txt "Line contains NUL byte.")
      ∷ []
unfolding char_in
check_for_bad_characters-at_line_example =
    check_for_bad_characters-at_line (txt "int a;" ∷ (0 ∷ 65533 ∷ []) ∷ []) 1
