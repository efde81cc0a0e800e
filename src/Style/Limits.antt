-- ===== src/Style/Limits.antt =====
-- The length of a line and the number of its commands: the parts of `CheckStyle`.
use nwtool.Base.{
  ltb, if◌then◌else◌, get_or, Text, txt, starts_with, count, contains, show, ℕ, ◌+◌, Bool, true,
  false, not, ◌&&◌, ◌||◌, Option, none, some, List, [], ◌∷◌, ◌++◌,
}
use nwtool.Base.Int.{ℤ, pos, negsuc}
use nwtool.Report.{Report, report, when}
use nwtool.Regex.{matches}
use nwtool.Cleanse.{CleansedLines}
use nwtool.FileInfo.{System, Flags, is_header_extension}
use nwtool.HeaderGuard.{get_header_guard_cpp_variable}
use nwtool.Braces.Width.{Unicode, get_line_width}
use nwtool.Spacing.Lines.{get_previous_non_blank_line}

-- The line is one of those of the file's header guard; `none` means that a loop on the path does not
-- end.
unfoldable pub is_header_guard : System → Flags → Text → Text → Text → Option Bool
unfolding is_header_extension get_header_guard_cpp_variable starts_with
is_header_guard sys flags filename file_extension line =
    if not (is_header_extension flags file_extension)
    then some false
    else (elim (get_header_guard_cpp_variable sys flags filename) [
      | none ↦ none
      | some cppvar ↦ some (
          starts_with line (txt "#ifndef " ++ cppvar)
          || starts_with line (txt "#define " ++ cppvar)
          || starts_with line (txt "#endif  // " ++ cppvar))
    ])

-- Lines that may be long besides the header guard's.
unfoldable pub may_be_long : Text → Bool
unfolding starts_with matches
may_be_long line =
    starts_with line (txt "#include")
    || matches (txt "^\\s*//.*http(s?)://\\S*$") line
    || matches (txt "^\\s*//\\s*[^\\s]*$") line
    || matches (txt "^// \\$Id:.*#[0-9]+ \\$$") line
    || matches (txt "^\\s*/// [@\\\\](copydoc|copydetails|copybrief) .*$") line

-- `n > i` and `'%i'`
abbrev pub exceeds : ℕ → ℤ → Bool
exceeds n (pos m) = ltb m n
exceeds n (negsuc m) = true

abbrev show_int : ℤ → Text
show_int (pos n) = show n
show_int (negsuc n) = b'-' ∷ show (n + 1)

unfoldable pub check_line_length : Unicode → ℤ → Bool → Text → ℕ → List Report
unfolding may_be_long get_line_width
check_line_length u line_length guard line linenum =
    when (not guard && not (may_be_long line) && exceeds (get_line_width u line) line_length) (
      report linenum (txt "whitespace/line_length") 2
        (txt "Lines should be <= " ++ show_int line_length ++ txt " characters long"))

-- The line that is not blank before a line, or the empty text.
abbrev previous : CleansedLines → ℕ → Text
previous clean linenum = elim (get_previous_non_blank_line clean.elided linenum) [
  | none ↦ []
  | some (l, n) ↦ l
]

-- More than one command on a line, whose text without raw strings is given.
unfoldable pub check_commands : CleansedLines → Text → ℕ → List Report
unfolding count matches contains get_previous_non_blank_line
check_commands clean line linenum =
    let cleansed_line = get_or clean.elided linenum [] in
    let prev = previous clean linenum in
    when
      (ltb 1 (count cleansed_line (txt ";"))
        && not (matches (txt "^[^{};]*\\[[^\\[\\]]*\\][^{}]*\\{[^{}\\n\\r]*\\}") line)
        && not (contains cleansed_line (txt "for"))
        && (not (contains prev (txt "for")) || contains prev (txt ";"))
        && not (
            (contains cleansed_line (txt "case ") || contains cleansed_line (txt "default:"))
            && contains cleansed_line (txt "break;")))
      (report linenum (txt "whitespace/newline") 0 (txt "More than one command on the same line"))
