-- ===== src/Constructors/Constructs.antt =====
-- The constructs that `CheckForNonStandardConstructs` looks for on any line.
use nwtool.Base.{get_or, Text, txt, replace, ℕ, List, [], ◌++◌}
use nwtool.Report.{Report, report, when}
use nwtool.Regex.{matches, searches}
use nwtool.Cleanse.{CleansedLines}

-- The formats and escapes, in strings.
unfoldable pub check_formats : Text → ℕ → List Report
unfolding searches replace
check_formats line linenum =
    when (searches (txt "printf\\s*\\(.*\".*%[-+ ]?\\d*q") line) (
      report linenum (txt "runtime/printf_format") 3
        (txt "%q in format strings is deprecated.  Use %ll instead."))
    ++ when (searches (txt "printf\\s*\\(.*\".*%\\d+\\$") line) (
        report linenum (txt "runtime/printf_format") 2
          (txt "%N$ formats are unconventional.  Try rewriting to avoid them."))
    ++ when (searches (txt "(\"|\\').*\\\\(%|\\[|\\(|{)") (replace line (txt "\\\\") [])) (
        report linenum (txt "build/printf_format") 3
          (txt "%, [, (, and { are undefined character escapes.  Unescape them."))

unfoldable pub check_constructs : CleansedLines → ℕ → List Report
unfolding check_formats searches matches
check_constructs clean linenum =
    let line = get_or clean.elided linenum [] in
    check_formats (get_or clean.lines linenum []) linenum
    ++ when
        (searches
          (txt "\\b(const|volatile|void|char|short|int|long"
            ++ txt "|float|double|signed|unsigned"
            ++ txt "|schar|u?int8|u?int16|u?int32|u?int64)"
            ++ txt "\\s+(register|static|extern|typedef)\\b")
          line)
        (report linenum (txt "build/storage_class") 5 (
          txt "Storage-class specifier (static, extern, typedef, etc) should be "
          ++ txt "at the beginning of the declaration."))
    ++ when (matches (txt "\\s*#\\s*endif\\s*[^/\\s]+") line) (
        report linenum (txt "build/endif_comment") 5
          (txt "Uncommented text after #endif is non-standard.  Use a comment."))
    ++ when (matches (txt "\\s*class\\s+(\\w+\\s*::\\s*)+\\w+\\s*;") line) (
        report linenum (txt "build/forward_decl") 5
          (txt "Inner-style forward declarations are invalid.  Remove this line."))
    ++ when
        (searches (txt "(\\w+|[+-]?\\d+(\\.\\d*)?)\\s*(<|>)\\?=?\\s*(\\w+|[+-]?\\d+)(\\.\\d*)?")
          line)
        (report linenum (txt "build/deprecated") 3
          (txt ">? and <? (max and min) operators are non-standard and deprecated."))
    ++ when (searches (txt "^\\s*const\\s*string\\s*&\\s*\\w+\\s*;") line) (
        report linenum (txt "runtime/member_string_references") 2 (
          txt "const string& members are dangerous. It is much better to use "
          ++ txt "alternatives, such as pointers or simple constants."))
