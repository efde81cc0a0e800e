-- ===== src/HeaderGuard.antt =====
-- Header guards: build_support/cpplint.py, `GetHeaderGuardCPPVariable` and `CheckForHeaderGuard`.
-- The debugging output of the first is left out.
pub mod Scan
use nwtool.Base.{
  if◌then◌else◌, length, get_or, take, drop, Text, txt, text_eq, starts_with, replace, words, upper,
  ℕ, ◌+◌, ◌-◌, Bool, true, false, not, ◌&&◌, ◌||◌, Option, none, some, List, [], ◌∷◌, ◌++◌,
}
use nwtool.Report.{report}
use nwtool.Regex.{match, matches, search_in, searches, replace_all, MatchResult}
use nwtool.Regex
use nwtool.Cleanse.{CleansedLines}
use nwtool.Cleanse.Strings.{group_text}
use nwtool.Actions.{Action, report_error, parse_nolint}
use nwtool.FileInfo.{System, Flags, full_name, repository_name}
use nwtool.Paths.{join_all, abspath, path_split_to_list}

abbrev texts_eq : List Text → List Text → Bool
texts_eq [] [] = true
texts_eq (a ∷ as') (b ∷ bs) = text_eq a b && texts_eq as' bs
texts_eq _ _ = false

-- `StripListPrefix`
unfoldable pub strip_list_prefix : List Text → List Text → Option (List Text)
unfolding text_eq
strip_list_prefix lst prefix =
    if texts_eq (take (length prefix) lst) prefix then some (drop (length prefix) lst) else none

-- The path that is left behind a prefix, where there is one and it leaves something.
unfoldable pub strip_path : Text → Text → Option (Option Text)
unfolding strip_list_prefix path_split_to_list join_all
strip_path path prefix = elim (path_split_to_list path) [
  | none ↦ none
  | some lst ↦ elim (path_split_to_list prefix) [
    | none ↦ none
    | some p ↦ elim (strip_list_prefix lst p) [
      | some (x ∷ xs) ↦ some (some (join_all x xs))
      | some [] ↦ some none
      | none ↦ some none
    ]
  ]
]

-- `re.sub(r'/\.flymake/([^/]*)$', r'/\1', filename)`, which replaces at most one match.
unfoldable pub restore_flymake : Text → Text
unfolding search_in group_text
restore_flymake filename = elim (search_in (txt "/\\.flymake/([^/]*)$") filename) [
  | none ↦ filename
  | some m ↦ take m.start filename ++ (b'/' ∷ (group_text 1 m ++ m.after))
]

module _ (sys : System) (flags : Flags) where
  -- `FixupPathFromRoot`
  unfoldable pub fixup_path_from_root : Text → Text → Option Text
  unfolding strip_path full_name abspath text_eq
  fixup_path_from_root filename file_path_from_root =
      if text_eq flags.root []
      then some file_path_from_root
      else (elim (strip_path file_path_from_root flags.root) [
        | none ↦ none
        | some (some path) ↦ some path
        | some none ↦ elim (strip_path (full_name sys filename) (abspath sys.cwd flags.root)) [
          | none ↦ none
          | some (some path) ↦ some path
          | some none ↦ some file_path_from_root
        ]
      ])

  -- `GetHeaderGuardCPPVariable`; `none` means that a loop on the path does not end.
  unfoldable pub get_header_guard_cpp_variable : Text → Option Text
  unfolding restore_flymake replace_all replace upper repository_name fixup_path_from_root
  get_header_guard_cpp_variable filename =
      let restored = restore_flymake (replace_all (txt "_flymake\\.h$") (txt ".h") filename) in
      let name = replace (replace restored (txt "C++") (txt "cpp")) (txt "c++") (txt "cpp") in
      elim (repository_name sys flags name) [
        | none ↦ none
        | some file_path_from_root ↦ elim (fixup_path_from_root name file_path_from_root) [
          | none ↦ none
          | some path ↦ some (upper (replace_all (txt "[^a-zA-Z0-9]") (txt "_") path) ++ txt "_")
        ]
      ]

-- The variables of the loop over the lines.
pub record Guard : Type 0 where
  pub ifndef : Text
  pub ifndef_linenum : ℕ
  pub define : Text
  pub endif : Text
  pub endif_linenum : ℕ

abbrev pub no_guard : Guard
no_guard = record { ifndef = []; ifndef_linenum = 0; define = []; endif = []; endif_linenum = 0 }

-- The tests on the words of a line.
unfoldable pub take_words : ℕ → List Text → Guard → Guard
unfolding text_eq
take_words linenum (first ∷ second ∷ rest) g =
    let h : Guard =
      if text_eq g.ifndef [] && text_eq first (txt "#ifndef")
      then record g { ifndef = second; ifndef_linenum = linenum }
      else g in
    if text_eq g.define [] && text_eq first (txt "#define") then record h { define = second } else h
take_words linenum _ g = g

unfoldable pub guard_step : ℕ → Text → Guard → Guard
unfolding take_words words starts_with
guard_step linenum line g =
    let h = take_words linenum (words line) g in
    if starts_with line (txt "#endif")
    then record h { endif = line; endif_linenum = linenum }
    else h

unfoldable pub guard_scan : ℕ → List Text → Guard → Guard
unfolding guard_step
guard_scan linenum [] g = g
guard_scan linenum (line ∷ lines) g = guard_scan (linenum + 1) lines (guard_step linenum line g)

abbrev pub single_line_comment : Text
single_line_comment = txt "^(?:(?:'(?:\\.|[^'])*')|(?:\"(?:\\.|[^\"])*\")|[^'\"])*//"

unfoldable pub any_match : Text → List Text → Bool
unfolding matches
any_match pattern [] = false
any_match pattern (l ∷ ls) = matches pattern l || any_match pattern ls

unfoldable pub any_search : Text → List Text → Bool
unfolding searches
any_search pattern [] = false
any_search pattern (l ∷ ls) = searches pattern l || any_search pattern ls

abbrev guard_error : ℕ → ℕ → Text → Action
guard_error linenum confidence message =
    report_error (report linenum (txt "build/header_guard") confidence message)

-- The low severity report on a second underscore, at an `#endif` with the right comment.
unfoldable pub underscore : ℕ → Text → MatchResult → List Action
unfolding group_text text_eq
underscore linenum message m =
    if text_eq (group_text 1 m) (txt "_") then guard_error linenum 0 message ∷ [] else []

-- What follows the test for a comment on the `#endif` line.
unfoldable pub check_endif : List Text → Text → Guard → List Action
unfolding match any_match underscore
check_endif raw_lines cppvar g =
    let slashes = txt "#endif line should be \"#endif  // " ++ cppvar ++ txt "\"" in
    let stars = txt "#endif line should be \"#endif  /* " ++ cppvar ++ txt " */\"" in
    let nothing = guard_error g.endif_linenum 5 slashes ∷ [] in
    elim (match (txt "#endif\\s*//\\s*" ++ cppvar ++ txt "(_)?\\b") g.endif) [
      | some m ↦ underscore g.endif_linenum slashes m
      | none ↦
          if any_match single_line_comment (take (length raw_lines - 2) (drop 1 raw_lines))
          then nothing
          else (elim (match (txt "#endif\\s*/\\*\\s*" ++ cppvar ++ txt "(_)?\\s*\\*/") g.endif) [
            | some m ↦ underscore g.endif_linenum stars m
            | none ↦ nothing
          ])
    ]

-- The test of the guard's name.
unfoldable pub check_ifndef : List Text → Text → Guard → List Action
unfolding text_eq
check_ifndef raw_lines cppvar g =
    if text_eq g.ifndef cppvar
    then []
    else parse_nolint (get_or raw_lines g.ifndef_linenum []) g.ifndef_linenum
      ∷ guard_error g.ifndef_linenum (if text_eq g.ifndef (cppvar ++ txt "_") then 0 else 5)
          (txt "#ifndef header guard has wrong style, please use: " ++ cppvar)
      ∷ []

-- Behind the loop over the lines.
unfoldable pub check_guard : List Text → Text → Guard → List Action
unfolding check_ifndef check_endif text_eq
check_guard raw_lines cppvar g =
    if text_eq g.ifndef [] || text_eq g.define [] || not (text_eq g.ifndef g.define)
    then guard_error 0 5
        (txt "No #ifndef header guard found, suggested CPP variable is: " ++ cppvar)
      ∷ []
    else check_ifndef raw_lines cppvar g
      ++ (parse_nolint (get_or raw_lines g.endif_linenum []) g.endif_linenum
          ∷ check_endif raw_lines cppvar g)

-- `CheckForHeaderGuard`
unfoldable pub check_for_header_guard : System → Flags → Text → CleansedLines → Option (List Action)
unfolding any_search guard_scan check_guard get_header_guard_cpp_variable
check_for_header_guard sys flags filename clean =
    let raw_lines = clean.lines_without_raw_strings in
    if any_search (txt "//\\s*NOLINT\\(build/header_guard\\)") raw_lines
    then some []
    else if any_search (txt "^\\s*#pragma\\s+once") raw_lines
    then some []
    else (elim (get_header_guard_cpp_variable sys flags filename) [
      | none ↦ none
      | some cppvar ↦ some (check_guard raw_lines cppvar (guard_scan 0 raw_lines no_guard))
    ])
