-- ===== src/IncludeWhatYouUse.antt =====
-- Missing includes of the standard library: build_support/cpplint.py, `FilesBelongToSameModule`,
-- `UpdateIncludeState` and `CheckForIncludeWhatYouUse`.
pub mod Templates
pub mod Missing
pub mod Reports
use mathlib.Core.List.{flatten}
use nwtool.Base.{
  ltb, ◌==◌, if◌then◌else◌, length, take, Text, txt, text_eq, one_of, text_gt, ends_with, char_in,
  replace, ℕ, ◌+◌, ◌-◌, Bool, true, false, not, ◌&&◌, ◌||◌, Option, none, some, List, [], ◌∷◌, ◌++◌,
  reverse,
}
use nwtool.Report.{Report, report}
use nwtool.Regex.{search_in, searches, replace_all, MatchResult}
use nwtool.Cleanse.{CleansedLines}
use nwtool.Cleanse.Strings.{group_text, cleanse_comments, include_line}
use nwtool.FileInfo.{
  System, Flags, full_name, get_non_header_extensions, is_header_extension, repository_name,
  split_name,
}
use nwtool.Includes.Own.{test_file_suffix}
use nwtool.Includes.{IncludeState}
use Templates.{Pattern, maybe_templates, templates}

-- `text[:-n]`, which is empty for 0.
unfoldable pub drop_end : ℕ → Text → Text
drop_end n s = if n == 0 then [] else take (length s - n) s

-- `extension.lstrip('.')`
unfoldable pub lstrip_dots : Text → Text
lstrip_dots [] = []
lstrip_dots (c ∷ s) = if c == b'.' then lstrip_dots s else c ∷ s

unfoldable pub drop_public : Text → Text
unfolding replace
drop_public s = replace (replace s (txt "/public/") (txt "/")) (txt "/internal/") (txt "/")

-- The name of a source without its extension and its suffix as a test.
unfoldable pub source_stem : Text → Text → Text → Text
unfolding drop_end search_in group_text drop_public
source_stem filename base extension =
    let stem = drop_end (length extension) filename in
    drop_public (elim (search_in test_file_suffix base) [
      | none ↦ stem
      | some m ↦ drop_end (length (group_text 1 m)) stem
    ])

unfoldable pub header_stem : Text → Text → Text
unfolding drop_end ends_with drop_public
header_stem filename extension =
    let stem = drop_end (length extension) filename in
    drop_public (if ends_with stem (txt "-inl") then drop_end 4 stem else stem)

module _ (sys : System) (flags : Flags) where
  -- `FilesBelongToSameModule`; here and below `none` means that `RepositoryName` does not end.
  unfoldable pub files_belong_to_same_module : Text → Text → Option (Bool × Text)
  unfolding repository_name split_name lstrip_dots get_non_header_extensions is_header_extension
      source_stem header_stem ends_with drop_end one_of
  files_belong_to_same_module filename_cc filename_h =
      elim (repository_name sys flags filename_cc) [
        | none ↦ none
        | some name_cc ↦
            let (dir_cc, base_cc, extension_cc) = split_name name_cc in
            if not (one_of (lstrip_dots extension_cc) (get_non_header_extensions flags))
            then some (false, [])
            else (elim (repository_name sys flags filename_h) [
              | none ↦ none
              | some name_h ↦
                  let (dir_h, base_h, extension_h) = split_name name_h in
                  let cc = source_stem filename_cc base_cc extension_cc in
                  let h = header_stem filename_h extension_h in
                  if not (is_header_extension flags (lstrip_dots extension_h))
                  then some (false, [])
                  else if ends_with cc h
                  then some (true, drop_end (length h) cc)
                  else some (false, [])
            ])
      ]

-- `setdefault`; only the keys of the dictionary of includes are ever read.
unfoldable pub set_default : Text → List Text → List Text
unfolding one_of
set_default include dict = if one_of include dict then dict else dict ++ include ∷ []

-- The loop of `UpdateIncludeState` over a header's lines.
unfoldable pub add_includes : List Text → List Text → List Text
unfolding search_in cleanse_comments group_text set_default
add_includes [] dict = dict
add_includes (line ∷ lines) dict =
    add_includes lines (elim (search_in include_line (cleanse_comments line)) [
      | none ↦ dict
      | some m ↦ set_default (group_text 2 m) dict
    ])

-- `UpdateIncludeState`
unfoldable pub update_include_state : System → Text → List Text → List Text × Bool
unfolding add_includes
update_include_state sys filename dict = elim (sys.contents filename) [
  | none ↦ (dict, false)
  | some lines ↦ (add_includes lines dict, true)
]

-- The loop over the keys: the dictionary, and whether a header of the file was read.
unfoldable pub read_headers :
    System → Flags → Text → List Text → List Text × Bool → Option (List Text × Bool)
unfolding files_belong_to_same_module update_include_state
read_headers sys flags abs_filename [] found = some found
read_headers sys flags abs_filename (header ∷ headers) (dict, found) =
    elim (files_belong_to_same_module sys flags abs_filename header) [
      | none ↦ none
      | some (same_module, common_path) ↦
          let (dict', loaded) = update_include_state sys (common_path ++ header) dict in
          read_headers sys flags abs_filename headers
            (if same_module then (dict', found || loaded) else (dict, found))
    ]

-- A use of a name counts unless it stands in a namespace other than `std`.
unfoldable pub is_std : Text → MatchResult → Bool
unfolding ends_with
is_std line m =
    let prefix = take m.start line in
    ends_with prefix (txt "std::") || not (ends_with prefix (txt "::"))

unfoldable pub string_reason : Text → List (Text × Text)
unfolding search_in is_std
string_reason line = elim (search_in (txt "\\bstring\\b") line) [
  | none ↦ []
  | some m ↦ if is_std line m then (txt "<string>", txt "string") ∷ [] else []
]

unfoldable pub maybe_reasons : Text → List Pattern → List (Text × Text)
unfolding searches
maybe_reasons line [] = []
maybe_reasons line (p ∷ ps) =
    (if searches p.pattern line then (p.header, p.template) ∷ [] else []) ++ maybe_reasons line ps

unfoldable pub template_reasons : Text → List Pattern → List (Text × Text)
unfolding search_in is_std
template_reasons line [] = []
template_reasons line (p ∷ ps) =
    (elim (search_in p.pattern line) [
      | none ↦ []
      | some m ↦ if is_std line m then (p.header, p.template) ∷ [] else []
    ])
    ++ template_reasons line ps

-- The assignments to `required` for a line: a header and the entity that wants it, in order.
unfoldable pub reasons : Text → List (Text × Text)
unfolding string_reason maybe_reasons template_reasons char_in maybe_templates templates
reasons line =
    if text_eq (take 1 line) [] || text_eq (take 1 line) (txt "#")
    then []
    else string_reason line
      ++ (maybe_reasons line maybe_templates
          ++ (if char_in b'<' line then template_reasons line templates else []))

-- A header, with the line and the entity that want it.
abbrev pub Required : Type 0
Required = List (Text × ℕ × Text)

-- `required[header] = (linenum, template)`
unfoldable pub require : Text → ℕ × Text → Required → Required
unfolding text_eq
require h r [] = (h, r.0, r.1) ∷ []
require h r ((k, l, t) ∷ m) = if text_eq k h then (k, r.0, r.1) ∷ m else (k, l, t) ∷ require h r m

unfoldable pub require_all : ℕ → List (Text × Text) → Required → Required
unfolding require
require_all linenum [] m = m
require_all linenum ((h, t) ∷ rs) m = require_all linenum rs (require h (linenum, t) m)

-- The loop over the lines.
unfoldable pub required_by : ℕ → List Text → Required → Required
unfolding require_all reasons
required_by linenum [] m = m
required_by linenum (line ∷ lines) m =
    required_by (linenum + 1) lines (require_all linenum (reasons line) m)

-- The order of the values of `required`.
unfoldable pub is_before : ℕ × Text → ℕ × Text → Bool
unfolding text_gt
is_before (l, t) (k, u) = ltb l k || (l == k && text_gt u t)

-- `sorted(required, key=required.__getitem__)`, which is stable.
unfoldable pub insert_sorted : Text × ℕ × Text → Required → Required
unfolding is_before
insert_sorted (h, l, t) [] = (h, l, t) ∷ []
insert_sorted (h, l, t) ((k, m, u) ∷ xs) =
    if is_before (m, u) (l, t)
    then (k, m, u) ∷ insert_sorted (h, l, t) xs
    else (h, l, t) ∷ (k, m, u) ∷ xs

unfoldable pub sort_required : Required → Required
unfolding insert_sorted
sort_required [] = []
sort_required (x ∷ xs) = insert_sorted x (sort_required xs)

-- `header.strip('<>"')`
abbrev is_mark : ℕ → Bool
is_mark c = c == b'<' || c == b'>' || c == b'"'

abbrev lstrip_marks : Text → Text
lstrip_marks [] = []
lstrip_marks (c ∷ s) = if is_mark c then lstrip_marks s else c ∷ s

unfoldable pub strip_marks : Text → Text
strip_marks s = reverse (lstrip_marks (reverse (lstrip_marks s)))

-- The required headers that are not in the dictionary.
unfoldable pub missing : List Text → Required → Required
unfolding strip_marks one_of
missing dict [] = []
missing dict ((h, l, t) ∷ xs) =
    (if one_of (strip_marks h) dict then [] else (h, l, t) ∷ []) ++ missing dict xs

unfoldable pub missing_reports : Required → List Report
missing_reports [] = []
missing_reports ((h, l, t) ∷ xs) =
    report l (txt "build/include_what_you_use") 4 (txt "Add #include " ++ h ++ txt " for " ++ t)
    ∷ missing_reports xs

abbrev pub keys : List (Text × ℕ) → List Text
keys [] = []
keys ((h, n) ∷ xs) = h ∷ keys xs

abbrev pub has_extension : Text → List Text → Bool
has_extension filename [] = false
has_extension filename (e ∷ es) = ends_with filename (b'.' ∷ e) || has_extension filename es

-- `CheckForIncludeWhatYouUse`
unfoldable pub check_for_include_what_you_use :
    System → Flags → Text → CleansedLines → IncludeState → Option (List Report)
unfolding flatten set_default read_headers replace_all full_name get_non_header_extensions ends_with
    required_by sort_required missing missing_reports
check_for_include_what_you_use sys flags filename clean s =
    let included = keys (flatten s.include_list) in
    let abs_filename = replace_all (txt "_flymake\\.cc$") (txt ".cc") (full_name sys filename) in
    elim (read_headers sys flags abs_filename included (included, false)) [
      | none ↦ none
      | some (dict, header_found) ↦
          if not header_found && has_extension filename (get_non_header_extensions flags)
          then some []
          else some (missing_reports (missing dict (sort_required (required_by 0 clean.elided []))))
    ]
