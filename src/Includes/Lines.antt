-- ===== src/Includes/Lines.antt =====
-- `CheckIncludeLine`.
pub mod Unique
use nwtool.Base.{
  if◌then◌else◌, length, get_or, take, last?, Text, txt, text_eq, ends_with, contains, show, ℕ,
  zero, suc, ◌-◌, Bool, true, false, not, ◌||◌, Option, none, some, List, [], ◌∷◌, ◌++◌,
}
use nwtool.Report.{Report, report}
use nwtool.Regex.{match, matches, search_in}
use nwtool.Cleanse.{CleansedLines}
use nwtool.Cleanse.Strings.{group_text, include_line}
use nwtool.Paths.{dirname}
use nwtool.FileInfo.{
  System, Flags, get_header_extensions, get_non_header_extensions, repository_name, split_name,
}
use nwtool.Includes.{
  IncludeState, find_header, check_next_include_order, canonicalize_alphabetical_order,
  is_in_alphabetical_order, set_last_header,
}
use nwtool.Includes.Classify.{classify_include}

-- `_THIRD_PARTY_HEADERS_PATTERN`
abbrev pub third_party_headers : Text
third_party_headers = txt "^(?:[^/]*[A-Z][^/]*\\.h|lua\\.h|lauxlib\\.h|lualib\\.h)$"

-- `include_list[-1].append((include, linenum))`
unfoldable pub append_to_last : Text × ℕ → List (List (Text × ℕ)) → List (List (Text × ℕ))
append_to_last x [] = []
append_to_last x (s ∷ []) = (s ++ x ∷ []) ∷ []
append_to_last x (s ∷ t ∷ ss) = s ∷ append_to_last x (t ∷ ss)

-- `elided[linenum - 1]`, which is the last line for line 0.
unfoldable pub line_before : List Text → ℕ → Text
line_before elided zero = elim (last? elided) [ none ↦ [] | some l ↦ l ]
line_before elided (suc n) = get_or elided n []

-- The test for a header that should be included with its directory.
unfoldable pub check_subdir : Text → ℕ → List Report
unfolding match matches group_text
check_subdir line linenum = elim (match (txt "#include\\s*\"([^/]+\\.h)\"") line) [
  | none ↦ []
  | some m ↦
      if matches third_party_headers (group_text 1 m)
      then []
      else report linenum (txt "build/include_subdir") 4
          (txt "Include the directory when naming .h files")
        ∷ []
]

module _ (sys : System) (flags : Flags) (filename : Text) where
  -- The loop over the extensions of sources: the one for which the file belongs to another package.
  -- Here and below the outer `none` means that `RepositoryName` does not end.
  unfoldable pub other_package : Text → List Text → Option (Option Text)
  unfolding ends_with repository_name dirname text_eq
  other_package include [] = some none
  other_package include (e ∷ es) =
      let rest = other_package include es in
      if ends_with include (b'.' ∷ e)
      then (elim (repository_name sys flags filename) [
        | none ↦ none
        | some name ↦ if text_eq (dirname name) (dirname include) then rest else some (some e)
      ])
      else rest

  -- The loop over the extensions of headers: whether one is the file's own.
  unfoldable pub third_src_header : Text → List Text → Option Bool
  unfolding repository_name split_name contains
  third_src_header include [] = some false
  third_src_header include (e ∷ es) =
      let rest = third_src_header include es in
      elim (repository_name sys flags filename) [
        | none ↦ none
        | some name ↦
            let extension = (split_name name).2 in
            let basefilename = take (length filename - length extension) filename in
            elim (repository_name sys flags (basefilename ++ (b'.' ∷ e))) [
              | none ↦ none
              | some headername ↦
                  if contains include headername || contains headername include
                  then some true
                  else rest
            ]
      ]

  unfoldable pub order_report : Text → Option Text → ℕ → List Report
  unfolding split_name
  order_report name none linenum = []
  order_report name (some message) linenum =
      report linenum (txt "build/include_order") 4 (
        message
        ++ txt ". Should be: "
        ++ (split_name name).1
        ++ txt ".h, c system, c++ system, other.")
      ∷ []

  -- A header that is recorded, and the checks of its place.
  unfoldable pub record_include :
      CleansedLines → ℕ → IncludeState → Text → Text → Bool → IncludeState × List Report
  unfolding append_to_last classify_include check_next_include_order order_report line_before
      canonicalize_alphabetical_order is_in_alphabetical_order set_last_header
  record_include clean linenum s name include is_system =
      let added : IncludeState = record s {
        include_list = append_to_last (include, linenum) s.include_list;
      } in
      let (t, message) =
        check_next_include_order added (classify_include flags name include is_system) in
      let canonical = canonicalize_alphabetical_order include in
      (
        set_last_header t canonical,
        order_report name message linenum
            ++ (if is_in_alphabetical_order t (line_before clean.elided linenum) canonical
                then []
                else report linenum (txt "build/include_alpha") 4
                    (txt "Include \"" ++ include ++ txt "\" not in alphabetical order")
                  ∷ []),
      )

  -- A header that stands in no other package, and is the file's own or not.
  unfoldable pub place_include :
      CleansedLines → ℕ → IncludeState → Text → Bool → Bool → Option (IncludeState × List Report)
  unfolding record_include matches repository_name
  place_include clean linenum s include is_system own =
      if own || not (matches third_party_headers include)
      then (elim (repository_name sys flags filename) [
        | none ↦ none
        | some name ↦ some (record_include clean linenum s name include is_system)
      ])
      else some (s, [])

  -- A header that has not been seen before.
  unfoldable pub new_include :
      CleansedLines → ℕ → IncludeState → Text → Bool → Option (IncludeState × List Report)
  unfolding other_package third_src_header place_include get_header_extensions
      get_non_header_extensions
  new_include clean linenum s include is_system =
      elim (other_package include (get_non_header_extensions flags)) [
        | none ↦ none
        | some (some e) ↦ some (
          s,
          report linenum (txt "build/include") 4
                (txt "Do not include ." ++ e ++ txt " files from other packages")
              ∷ [],
        )
        | some none ↦ elim (third_src_header include (get_header_extensions flags)) [
          | none ↦ none
          | some own ↦ place_include clean linenum s include is_system own
        ]
      ]

  -- What `_RE_PATTERN_INCLUDE` has matched.
  unfoldable pub check_include :
      CleansedLines → ℕ → IncludeState → Text → Bool → Option (IncludeState × List Report)
  unfolding find_header new_include show
  check_include clean linenum s include is_system = elim (find_header include s.include_list) [
    | some duplicate_line ↦ some (
      s,
      report linenum (txt "build/include") 4 (
            txt "\""
            ++ include
            ++ txt "\" already included at "
            ++ filename
            ++ txt ":"
            ++ show duplicate_line)
          ∷ [],
    )
    | none ↦ new_include clean linenum s include is_system
  ]

  unfoldable pub check_include_line :
      CleansedLines → ℕ → IncludeState → Option (IncludeState × List Report)
  unfolding check_subdir search_in group_text check_include text_eq
  check_include_line clean linenum s =
      let line = get_or clean.lines linenum [] in
      elim (search_in include_line line) [
        | none ↦ some (s, check_subdir line linenum)
        | some m ↦
            elim (check_include clean linenum s (group_text 2 m)
              (text_eq (group_text 1 m) (txt "<"))) [
                | none ↦ none
                | some (t, rs) ↦ some (t, check_subdir line linenum ++ rs)
              ]
      ]
