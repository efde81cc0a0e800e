-- ===== src/Language/Line.antt =====
-- `CheckLanguage`, and its parts that are no functions of their own.
pub mod Arrays
use nwtool.Base.{
  ◌==◌, if◌then◌else◌, length, get_or, take, drop, last?, Text, txt, text_eq, lower, ℕ, Bool, false,
  not, ◌&&◌, Option, none, some, List, [], ◌∷◌, ◌++◌,
}
use nwtool.Report.{Report, report, when}
use nwtool.Regex.{match, matches, search_in, searches, MatchResult}
use nwtool.Cleanse.{CleansedLines}
use nwtool.Cleanse.Strings.{group_text, include_line}
use nwtool.FileInfo.{System, Flags, is_header_extension}
use nwtool.Includes.{IncludeState, reset_section}
use nwtool.Includes.Lines.{check_include_line}
use nwtool.Language.{check_printf}
use nwtool.Language.Inside.{text_inside}
use nwtool.Language.Casts.{check_casts}
use nwtool.Language.Statics.{check_global_static}
use Arrays.{check_arrays}

unfoldable pub check_basic_types : Text → ℕ → List Report
unfolding searches search_in group_text
check_basic_types line linenum =
    if searches (txt "\\bshort port\\b") line
    then when (not (searches (txt "\\bunsigned short port\\b") line)) (
        report linenum (txt "runtime/int") 4
          (txt "Use \"unsigned short\" for ports, not \"short\""))
    else (elim (search_in (txt "\\b(short|long(?! +double)|long long)\\b") line) [
      | none ↦ []
      | some m ↦
          report linenum (txt "runtime/int") 4
            (txt "Use int16/int64/etc, rather than the C type " ++ group_text 1 m)
          ∷ []
    ])

-- A format string that is no literal, where a match of `printf` on the lower case line is given.
unfoldable pub check_format : Text → ℕ → MatchResult → List Report
unfolding text_inside match group_text text_eq
check_format line linenum m = elim (text_inside (b')' ∷ []) (drop m.stop line)) [
  | none ↦ []
  | some printf_args ↦ elim (match (txt "([\\w.\\->()]+)$") printf_args) [
    | none ↦ []
    | some arg ↦
        if text_eq (group_text 1 arg) (txt "__VA_ARGS__")
        then []
        else report linenum (txt "runtime/printf") 4 (
            txt "Potential format string bug. Do "
            ++ take (length (group_text 1 m)) (drop m.start line)
            ++ txt "(\"%s\", "
            ++ group_text 1 arg
            ++ txt ") instead.")
          ∷ []
  ]
]

-- Both searches of `printf` ignore case. The second, for the function's name, finds the same place.
unfoldable pub check_format_string : Text → ℕ → List Report
unfolding search_in lower check_format
check_format_string line linenum =
    elim (search_in (txt "\\b((?:string)?printf)\\s*\\(") (lower line)) [
      | none ↦ []
      | some m ↦ check_format line linenum m
    ]

unfoldable pub check_memset : Text → ℕ → List Report
unfolding search_in matches group_text
check_memset line linenum =
    elim (search_in (txt "memset\\s*\\(([^,]*),\\s*([^,]*),\\s*0\\s*\\)") line) [
      | none ↦ []
      | some m ↦
          if matches (txt "^''|-?[0-9]+|0x[0-9A-Fa-f]$") (group_text 2 m)
          then []
          else report linenum (txt "runtime/memset") 4 (
              txt "Did you mean \"memset("
              ++ group_text 1 m
              ++ txt ", 0, "
              ++ group_text 2 m
              ++ txt ")\"?")
            ∷ []
    ]

unfoldable pub check_using_namespace : Text → ℕ → List Report
unfolding searches
check_using_namespace line linenum =
    let message =
      txt "Do not use namespace using-directives.  " ++ txt "Use using-declarations instead." in
    when (searches (txt "\\busing namespace\\b") line) (
      report linenum
        (if searches (txt "\\bliterals\\b") line
          then txt "build/namespaces_literals"
          else txt "build/namespaces")
        5 message)

abbrev ends_in_backslash : Text → Bool
ends_in_backslash line = elim (last? line) [ none ↦ false | some c ↦ c == b'\\' ]

-- The checks behind `CheckPrintf`.
unfoldable pub check_line : Bool → Text → ℕ → List Report
unfolding check_basic_types searches check_format_string check_memset check_using_namespace
    check_arrays
check_line is_header line linenum =
    check_basic_types line linenum
    ++ when (searches (txt "\\boperator\\s*&\\s*\\(\\s*\\)") line) (
        report linenum (txt "runtime/operator") 4
          (txt "Unary operator& is dangerous.  Do not use it."))
    ++ when (searches (txt "\\}\\s*if\\s*\\(") line) (
        report linenum (txt "readability/braces") 4
          (txt "Did you mean \"else if\"? If not, start a new line for \"if\"."))
    ++ check_format_string line linenum
    ++ check_memset line linenum
    ++ check_using_namespace line linenum
    ++ check_arrays line linenum
    ++ when (is_header && searches (txt "\\bnamespace\\s*{") line && not (ends_in_backslash line)) (
        report linenum (txt "build/namespaces") 4 (
          txt "Do not use unnamed namespaces in header files.  See "
          ++ txt "https://google-styleguide.googlecode.com/svn/trunk/cppguide.xml#Namespaces"
          ++ txt " for more information."))

abbrev pub conditional : Text
conditional = txt "^\\s*#\\s*(if|ifdef|ifndef|elif|else|endif)\\b"

-- The state of the includes is reset at a conditional directive.
unfoldable pub reset_includes : Text → IncludeState → IncludeState
unfolding match group_text
reset_includes line s = elim (match conditional line) [
  | none ↦ s
  | some m ↦ reset_section s (group_text 1 m)
]

-- A line that is neither empty nor an include.
unfoldable pub check_code : Bool → CleansedLines → ℕ → Option (List Report)
unfolding check_casts check_global_static check_printf check_line
check_code is_header clean linenum = elim (check_casts clean linenum) [
  | none ↦ none
  | some casts ↦ some (
      casts
      ++ check_global_static clean linenum
      ++ check_printf clean linenum
      ++ check_line is_header (get_or clean.elided linenum []) linenum)
]

-- `CheckLanguage`; `none` is an exception, or a loop on the file's name that does not end.
unfoldable pub check_language :
    System
    → Flags
    → Text
    → Text
    → CleansedLines
    → ℕ
    → IncludeState
    → Option (IncludeState × List Report)
unfolding text_eq searches check_include_line reset_includes is_header_extension check_code
check_language sys flags filename file_extension clean linenum s =
    let line = get_or clean.elided linenum [] in
    if text_eq line []
    then some (s, [])
    else if searches include_line line
    then check_include_line sys flags filename clean linenum s
    else (elim (check_code (is_header_extension flags file_extension) clean linenum) [
      | none ↦ none
      | some reports ↦ some (reset_includes line s, reports)
    ])
