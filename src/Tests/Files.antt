-- ===== src/Tests/Files.antt =====
-- The theorems on file names, header guards and included headers, on concrete inputs.
use nwtool.Base.{
  Text, txt, text_eq, starts_with, before_char, ◌≡◌, refl, false, none, some, List, [], ◌∷◌,
}
use nwtool.Nolint.{no_suppressions, is_suppressed}
use nwtool.Nolint.Refinement.{reset_all, comment, call_all, meaning_all, call_all_refines}
use nwtool.Cleanse.{CleansedLines}
use nwtool.Paths.{path_split_to_list}
use nwtool.Paths.Split.{path_split_to_list-total}
use nwtool.FileInfo.{System, Flags}
use nwtool.HeaderGuard.{
  no_guard, guard_scan, any_search, get_header_guard_cpp_variable, check_for_header_guard,
}
use nwtool.HeaderGuard.Scan.{
  first_argument, first_linenum, last_endif, reports_of, IsCommented, guard_scan_lem,
  check_for_header_guard-quiet,
}
use mathlib.Core.List.{flatten}
use nwtool.Regex.{group}
use nwtool.Report.{Report, report}
use nwtool.Actions.{parse_nolint}
use nwtool.Includes.{IncludeState, initial, cpp_section}
use nwtool.Includes.Lines.{check_include_line}
use nwtool.Includes.Lines
use nwtool.Includes.Lines.Unique.{start, line, Reach-Unique}
use nwtool.IncludeWhatYouUse.Missing.{Unique}

call_all_refines_example :
    is_suppressed (call_all no_suppressions (comment (txt "x;  // NOLINT") 3 ∷ reset_all ∷ []))
    ≡ meaning_all (is_suppressed no_suppressions) (comment (txt "x;  // NOLINT") 3 ∷ reset_all ∷ [])
call_all_refines_example =
    call_all_refines no_suppressions (comment (txt "x;  // NOLINT") 3 ∷ reset_all ∷ [])

path_split_to_list-total_example :
    (r : List Text) × (path_split_to_list (txt "/src/net/Buffer.h") ≡ some r)
path_split_to_list-total_example = path_split_to_list-total (txt "/src/net/Buffer.h")

-- A system without any file.
abbrev empty_system : System
empty_system = record { cwd = txt "/src"; exists = λ p. false; contents = λ p. none }

abbrev no_flags : Flags
no_flags = record { root = []; repository = []; hpp_headers = []; valid_extensions = [] }

abbrev header : List Text
header =
    txt "#ifndef _SRC_BUFFER_H_"
    ∷ txt "#define _SRC_BUFFER_H_"
    ∷ txt "int f();"
    ∷ txt "#endif  // _SRC_BUFFER_H_"
    ∷ []

guard_scan_lem_example : guard_scan 0 header no_guard ≡ record {
  ifndef = txt "_SRC_BUFFER_H_";
  ifndef_linenum = 0;
  define = txt "_SRC_BUFFER_H_";
  endif = txt "#endif  // _SRC_BUFFER_H_";
  endif_linenum = 3;
}
unfolding first_argument first_linenum last_endif text_eq starts_with
guard_scan_lem_example = guard_scan_lem header

abbrev vectors : CleansedLines
vectors =
    let lines = txt "std::vector<int> v;" ∷ txt "string s;" ∷ [] in
    record { elided = lines; lines = lines; raw_lines = lines; lines_without_raw_strings = lines }

abbrev string_included : IncludeState
string_included = record nwtool.Includes.initial { include_list = ((txt "string", 1) ∷ []) ∷ [] }

abbrev guarded : CleansedLines
guarded = record {
  elided = header;
  lines = header;
  raw_lines = header;
  lines_without_raw_strings = header;
}

header_has_no_mark : any_search (txt "//\\s*NOLINT\\(build/header_guard\\)") header ≡ false
unfolding any_search
header_has_no_mark = refl

header_has_no_pragma : any_search (txt "^\\s*#pragma\\s+once") header ≡ false
unfolding any_search
header_has_no_pragma = refl

header_variable :
    get_header_guard_cpp_variable empty_system no_flags (txt "Buffer.h")
    ≡ some (txt "_SRC_BUFFER_H_")
unfolding get_header_guard_cpp_variable
header_variable = refl

header_runs :
    check_for_header_guard empty_system no_flags (txt "Buffer.h") guarded
    ≡ some (parse_nolint (txt "#endif  // _SRC_BUFFER_H_") 3 ∷ [])
unfolding check_for_header_guard group
header_runs = refl

check_for_header_guard-quiet_example :
    (first_argument (txt "#ifndef") header ≡ txt "_SRC_BUFFER_H_")
    × (first_argument (txt "#define") header ≡ txt "_SRC_BUFFER_H_")
    × IsCommented (txt "_SRC_BUFFER_H_") (last_endif ([], 0) 0 header).0
unfolding reports_of
check_for_header_guard-quiet_example =
    check_for_header_guard-quiet empty_system no_flags (txt "Buffer.h") guarded
      (parse_nolint (txt "#endif  // _SRC_BUFFER_H_") 3 ∷ []) (txt "_SRC_BUFFER_H_")
      header_has_no_mark header_has_no_pragma header_variable header_runs refl

abbrev including : List Text
including = txt "#include <vector>" ∷ txt "#include <vector>" ∷ []

abbrev including_file : CleansedLines
including_file = record {
  elided = including;
  lines = including;
  raw_lines = including;
  lines_without_raw_strings = including;
}

abbrev one_header : IncludeState
one_header = record {
  include_list = ((txt "vector", 0) ∷ []) ∷ [];
  section = cpp_section;
  last_header = txt "vector";
}

abbrev again : List Report
again = report 1 (txt "build/include") 4 (txt "\"vector\" already included at /src/a.cpp:0") ∷ []

first_line :
    check_include_line empty_system no_flags (txt "/src/a.cpp") including_file 0 initial
    ≡ some (one_header, [])
unfolding check_include_line group before_char
first_line = refl

second_line :
    check_include_line empty_system no_flags (txt "/src/a.cpp") including_file 1 one_header
    ≡ some (one_header, again)
unfolding check_include_line group
second_line = refl

Reach-Unique_example : Lines.Unique.Unique (flatten one_header.include_list)
Reach-Unique_example =
    Reach-Unique
      (line including_file 1 again (line including_file 0 [] start first_line) second_line)
