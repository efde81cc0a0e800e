-- ===== src/LineChecks.antt =====
-- Checks of single lines in build_support/cpplint.py that look at the elided line only.
pub mod Namespaces
pub mod Inheritance
use nwtool.Base.{
  if◌then◌else◌, get_or, Text, txt, one_of, starts_with, ℕ, not, ◌&&◌, none, some, List, [], ◌∷◌,
  ◌++◌,
}
use nwtool.Report.{Report, report}
use nwtool.Regex.{match, matches, searches}
use nwtool.Cleanse.{CleansedLines}
use nwtool.Cleanse.Strings.{group_text}

-- `_UNSAFE_FUNC_PREFIX`
abbrev pub unsafe_func_prefix : Text
unsafe_func_prefix = txt "(?:[-+*/=%^&|(<]\\s*|>\\s+)"

-- `_THREADING_LIST`: the function, the safe one, and the pattern of a call without the prefix.
abbrev pub threading_list : List (Text × Text × Text)
threading_list =
    (txt "asctime(", txt "asctime_r(", txt "asctime\\([^)]+\\)")
    ∷ (txt "ctime(", txt "ctime_r(", txt "ctime\\([^)]+\\)")
    ∷ (txt "getgrgid(", txt "getgrgid_r(", txt "getgrgid\\([^)]+\\)")
    ∷ (txt "getgrnam(", txt "getgrnam_r(", txt "getgrnam\\([^)]+\\)")
    ∷ (txt "getlogin(", txt "getlogin_r(", txt "getlogin\\(\\)")
    ∷ (txt "getpwnam(", txt "getpwnam_r(", txt "getpwnam\\([^)]+\\)")
    ∷ (txt "getpwuid(", txt "getpwuid_r(", txt "getpwuid\\([^)]+\\)")
    ∷ (txt "gmtime(", txt "gmtime_r(", txt "gmtime\\([^)]+\\)")
    ∷ (txt "localtime(", txt "localtime_r(", txt "localtime\\([^)]+\\)")
    ∷ (txt "rand(", txt "rand_r(", txt "rand\\(\\)")
    ∷ (txt "strtok(", txt "strtok_r(", txt "strtok\\([^)]+\\)")
    ∷ (txt "ttyname(", txt "ttyname_r(", txt "ttyname\\([^)]+\\)")
    ∷ []

unfoldable pub threading_loop : Text → ℕ → List (Text × Text × Text) → List Report
unfolding searches
threading_loop line linenum [] = []
threading_loop line linenum ((single_thread_func, multithread_safe_func, pattern) ∷ rest) =
    (if searches (unsafe_func_prefix ++ pattern) line
      then report linenum (txt "runtime/threadsafe_fn") 2 (
          txt "Consider using "
          ++ multithread_safe_func
          ++ txt "...) instead of "
          ++ single_thread_func
          ++ txt "...) for improved thread safety.")
        ∷ []
      else [])
    ++ threading_loop line linenum rest

unfoldable pub check_posix_threading : CleansedLines → ℕ → List Report
unfolding threading_loop
check_posix_threading clean linenum =
    threading_loop (get_or clean.elided linenum []) linenum threading_list

unfoldable pub check_vlog_arguments : CleansedLines → ℕ → List Report
unfolding searches
check_vlog_arguments clean linenum =
    if searches (txt "\\bVLOG\\((INFO|ERROR|WARNING|DFATAL|FATAL)\\)")
      (get_or clean.elided linenum [])
    then report linenum (txt "runtime/vlog") 5 (
        txt "VLOG() should be used with numeric verbosity level.  "
        ++ txt "Use LOG() if you want symbolic severity levels.")
      ∷ []
    else []

-- `_RE_PATTERN_INVALID_INCREMENT`
abbrev pub invalid_increment : Text
invalid_increment = txt "^\\s*\\*\\w+(\\+\\+|--);"

unfoldable pub check_invalid_increment : CleansedLines → ℕ → List Report
unfolding matches
check_invalid_increment clean linenum =
    if matches invalid_increment (get_or clean.elided linenum [])
    then report linenum (txt "runtime/invalid_increment") 5
        (txt "Changing pointer instead of value (or unused value of operator*).")
      ∷ []
    else []

-- `_RE_PATTERN_EXPLICIT_MAKEPAIR`
abbrev pub explicit_makepair : Text
explicit_makepair = txt "\\bmake_pair\\s*<"

unfoldable pub check_make_pair_uses_deduction : CleansedLines → ℕ → List Report
unfolding searches
check_make_pair_uses_deduction clean linenum =
    if searches explicit_makepair (get_or clean.elided linenum [])
    then report linenum (txt "build/explicit_make_pair") 4 (
        txt "For C++11-compatibility, omit template arguments from make_pair"
        ++ txt " OR use pair directly OR if appropriate, construct a pair directly")
      ∷ []
    else []

-- The pattern of an include in the two checks below.
abbrev flagged_include : Text
flagged_include = txt "\\s*#\\s*include\\s+[<\"]([^<\"]+)[\">]"

abbrev unapproved : ℕ → Text → Text → List Report
unapproved linenum category message = report linenum category 5 message ∷ []

-- What `FlagCxx11Features` says of an included header.
unfoldable pub flag_include : ℕ → Text → List Report
unfolding starts_with one_of
flag_include linenum header =
    (if starts_with header (txt "tr1/")
      then unapproved linenum (txt "build/c++tr1")
          (txt "C++ TR1 headers such as <" ++ header ++ txt "> are unapproved.")
      else [])
    ++ (if one_of header (
          txt "cfenv"
          ∷ txt "condition_variable"
          ∷ txt "fenv.h"
          ∷ txt "future"
          ∷ txt "mutex"
          ∷ txt "thread"
          ∷ txt "chrono"
          ∷ txt "ratio"
          ∷ txt "regex"
          ∷ txt "system_error"
          ∷ [])
        then unapproved linenum (txt "build/c++11")
            (txt "<" ++ header ++ txt "> is an unapproved C++11 header.")
        else [])

unfoldable pub flag_names : Text → ℕ → List Text → List Report
unfolding searches
flag_names line linenum [] = []
flag_names line linenum (top_name ∷ names) =
    (if searches (txt "\\bstd::" ++ top_name ++ txt "\\b") line
      then unapproved linenum (txt "build/c++11") (
          txt "std::"
          ++ top_name
          ++ txt " is an unapproved C++11 class or function.  Send c-style "
          ++ txt "an example of where it would make your code more readable, and "
          ++ txt "they may let you use it.")
      else [])
    ++ flag_names line linenum names

unfoldable pub flag_cxx11_features : CleansedLines → ℕ → List Report
unfolding match matches group_text flag_include flag_names
flag_cxx11_features clean linenum =
    let line = get_or clean.elided linenum [] in
    (elim (match flagged_include line) [
      | none ↦ []
      | some m ↦ flag_include linenum (group_text 1 m)
    ])
    ++ (if matches (txt "\\s*#") line && not (matches (txt "\\s*#\\s*define\\b") line)
        then []
        else flag_names line linenum (txt "alignment_of" ∷ txt "aligned_union" ∷ []))

unfoldable pub flag_cxx14_features : CleansedLines → ℕ → List Report
unfolding match group_text one_of
flag_cxx14_features clean linenum = elim (match flagged_include (get_or clean.elided linenum [])) [
  | none ↦ []
  | some m ↦
      if one_of (group_text 1 m) (txt "scoped_allocator" ∷ txt "shared_mutex" ∷ [])
      then unapproved linenum (txt "build/c++14")
          (txt "<" ++ group_text 1 m ++ txt "> is an unapproved C++14 header.")
      else []
]
