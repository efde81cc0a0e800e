-- ===== src/IncludeWhatYouUse/Reports.antt =====
-- What `CheckForIncludeWhatYouUse` reports.
use mathlib.Core.List.{flatten}
use nwtool.Base.{Text, txt, ℕ, Bool, false, not, ◌&&◌, Option, List, ◌++◌}
use nwtool.Report.{Report, report}
use nwtool.Regex.{replace_all}
use nwtool.Cleanse.{CleansedLines}
use nwtool.FileInfo.{System, Flags, full_name, get_non_header_extensions}
use nwtool.Includes.{IncludeState}
use nwtool.IncludeWhatYouUse.{keys, has_extension, read_headers}

-- The report on a header that a line wants, with the entity for which it does.
abbrev pub wants : Text × ℕ × Text → Report
wants (h, l, t) =
    report l (txt "build/include_what_you_use") 4 (txt "Add #include " ++ h ++ txt " for " ++ t)

module _ (sys : System) (flags : Flags) (filename : Text) (clean : CleansedLines)
    (s : IncludeState) where
  -- The dictionary of the includes of the file and of its own headers, and whether one was read.
  abbrev pub headers_read : Option (List Text × Bool)
  headers_read =
      let included = keys (flatten s.include_list) in
      read_headers sys flags
        (replace_all (txt "_flymake\\.cc$") (txt ".cc") (full_name sys filename)) included
        (included, false)

  -- No header of a source file was found.
  abbrev pub gives_up : Bool → Bool
  gives_up header_found =
      not header_found && has_extension filename (get_non_header_extensions flags)
