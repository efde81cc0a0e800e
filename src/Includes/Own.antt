-- ===== src/Includes/Own.antt =====
-- `CheckHeaderFileIncluded`: a source file includes its own header.
use nwtool.Base.{
  if◌then◌else◌, length, take, Text, txt, contains, ℕ, ◌-◌, Bool, true, false, ◌||◌, Option, none,
  some, List, [], ◌∷◌, ◌++◌,
}
use nwtool.Report.{Report, report, report_no_line}
use nwtool.Regex.{searches}
use nwtool.FileInfo.{System, Flags, get_header_extensions, repository_name, split_name}
use nwtool.Includes.{IncludeState}

-- `_TEST_FILE_SUFFIX`
abbrev pub test_file_suffix : Text
test_file_suffix = txt "(_test|_regtest|_unittest)$"

-- The loop over a section, and over the sections: whether an include names the header.
abbrev names_header : Text → List (Text × ℕ) → Bool
names_header headername [] = false
names_header headername ((f, line) ∷ fs) =
    contains f headername || contains headername f || names_header headername fs

unfoldable pub includes_header : Text → List (List (Text × ℕ)) → Bool
unfolding contains
includes_header headername [] = false
includes_header headername (section ∷ sections) =
    names_header headername section || includes_header headername sections

unfoldable pub first_include : List (List (Text × ℕ)) → Option ℕ
first_include [] = none
first_include ([] ∷ sections) = first_include sections
first_include (((f, line) ∷ fs) ∷ sections) = some line

unfoldable pub own_header_report : Option ℕ → Text → Text → Report
own_header_report first name headername =
    let message = name ++ txt " should include its header file " ++ headername in
    elim first [
      | some line ↦ report line (txt "build/include") 5 message
      | none ↦ report_no_line (txt "build/include") 5 message
    ]

module _ (sys : System) (flags : Flags) where
  -- The loop over the extensions of headers; `name` is the source's repository name, `base` its path
  -- without the extension. `none` means that a loop on a path does not end.
  unfoldable pub own_headers :
      Text → Text → List (List (Text × ℕ)) → List Text → Option (List Report)
  unfolding repository_name includes_header own_header_report first_include
  own_headers name base includes [] = some []
  own_headers name base includes (ext ∷ exts) =
      let headerfile = base ++ (b'.' ∷ ext) in
      elim (sys.exists headerfile) [
        | false ↦ own_headers name base includes exts
        | true ↦ elim (repository_name sys flags headerfile) [
          | none ↦ none
          | some headername ↦ elim (includes_header headername includes) [
            | true ↦ some []
            | false ↦ elim (own_headers name base includes exts) [
              | none ↦ none
              | some rest ↦ some (own_header_report (first_include includes) name headername ∷ rest)
            ]
          ]
        ]
      ]

  unfoldable pub check_header_file_included : Text → IncludeState → Option (List Report)
  unfolding repository_name split_name searches own_headers get_header_extensions
  check_header_file_included filename s = elim (repository_name sys flags filename) [
    | none ↦ none
    | some name ↦
        let (project, base, extension) = split_name name in
        if searches test_file_suffix base
        then some []
        else own_headers name (take (length filename - length extension) filename) s.include_list
            (get_header_extensions flags)
  ]
