-- ===== src/Includes.antt =====
-- The order of `#include` lines: build_support/cpplint.py, class `_IncludeState`. Sections are the
-- numbers of the source, `_INITIAL_SECTION` 0 up to `_OTHER_H_SECTION` 4.
pub mod Order
pub mod Headers
mod CppHeaders
pub mod Classify
pub mod Lines
pub mod Own
use nwtool.Base.{
  leb, ◌==◌, if◌then◌else◌, Text, txt, text_eq, one_of, text_gt, replace, lower, ℕ, Bool, not, ◌&&◌,
  Option, none, some, List, [], ◌∷◌, ◌++◌,
}
use nwtool.Regex.{matches}

-- `_C_SYS_HEADER` to `_OTHER_HEADER`.
pub data HeaderType : Type 0 where
  c_sys_header cpp_sys_header likely_my_header possible_my_header other_header : HeaderType

abbrev pub initial_section : ℕ
initial_section = 0

abbrev pub my_h_section : ℕ
my_h_section = 1

abbrev pub c_section : ℕ
c_section = 2

abbrev pub cpp_section : ℕ
cpp_section = 3

abbrev pub other_h_section : ℕ
other_h_section = 4

pub type_name : HeaderType → Text
type_name c_sys_header = txt "C system header"
type_name cpp_sys_header = txt "C++ system header"
type_name likely_my_header = txt "header this file implements"
type_name possible_my_header = txt "header this file may implement"
type_name other_header = txt "other header"

-- `_SECTION_NAMES`; no other section occurs.
pub section_name : ℕ → Text
section_name s =
    if s == initial_section
    then txt "... nothing. (This can't be an error.)"
    else if s == my_h_section
    then txt "a header this file implements"
    else if s == c_section
    then txt "C system header"
    else if s == cpp_section
    then txt "C++ system header"
    else txt "other header"

pub record IncludeState : Type 0 where
  pub include_list : List (List (Text × ℕ))
  pub section : ℕ
  pub last_header : Text

-- `__init__`
abbrev pub initial : IncludeState
initial = record { include_list = [] ∷ []; section = initial_section; last_header = [] }

unfoldable pub find_in_section : Text → List (Text × ℕ) → Option ℕ
find_in_section header [] = none
find_in_section header ((f, line) ∷ fs) =
    if text_eq f header then some line else find_in_section header fs

-- `FindHeader`, with `none` for -1.
unfoldable pub find_header : Text → List (List (Text × ℕ)) → Option ℕ
unfolding find_in_section
find_header header [] = none
find_header header (section ∷ sections) = elim (find_in_section header section) [
  | some line ↦ some line
  | none ↦ find_header header sections
]

-- `l[-1] = []`
unfoldable pub clear_last : List (List (Text × ℕ)) → List (List (Text × ℕ))
clear_last [] = []
clear_last (x ∷ []) = [] ∷ []
clear_last (x ∷ y ∷ xs) = x ∷ clear_last (y ∷ xs)

unfoldable pub reset_section : IncludeState → Text → IncludeState
unfolding one_of clear_last
reset_section s directive = record {
  section = initial_section;
  last_header = [];
  include_list =
      if one_of directive (txt "if" ∷ txt "ifdef" ∷ txt "ifndef" ∷ [])
      then s.include_list ++ [] ∷ []
      else if one_of directive (txt "else" ∷ txt "elif" ∷ [])
      then clear_last s.include_list
      else s.include_list;
}

unfoldable pub set_last_header : IncludeState → Text → IncludeState
set_last_header s path = record s { last_header = path }

unfoldable pub canonicalize_alphabetical_order : Text → Text
unfolding replace lower
canonicalize_alphabetical_order path =
    lower (replace (replace path (txt "-inl.h") (txt ".h")) (txt "-") (txt "_"))

-- `IsInAlphabeticalOrder`, given the cleansed line before the header's.
unfoldable pub is_in_alphabetical_order : IncludeState → Text → Text → Bool
unfolding text_gt matches
is_in_alphabetical_order s previous_line path =
    not (text_gt s.last_header path && matches (txt "^\\s*#\\s*include\\b") previous_line)

-- The end of `CheckNextIncludeOrder`, in the new section.
abbrev moved_to : IncludeState → ℕ → IncludeState × Option Text
moved_to s section = (
  record s { section = section; last_header = if s.section == section then s.last_header else [] },
  none,
)

abbrev out_of_order : IncludeState → HeaderType → IncludeState × Option Text
out_of_order s t = (
  record s { last_header = [] },
  some (txt "Found " ++ type_name t ++ txt " after " ++ section_name s.section),
)

-- `CheckNextIncludeOrder`, with `none` for the empty message.
unfoldable pub check_next_include_order : IncludeState → HeaderType → IncludeState × Option Text
check_next_include_order s c_sys_header =
    if leb s.section c_section then moved_to s c_section else out_of_order s c_sys_header
check_next_include_order s cpp_sys_header =
    if leb s.section cpp_section then moved_to s cpp_section else out_of_order s cpp_sys_header
check_next_include_order s likely_my_header =
    moved_to s (if leb s.section my_h_section then my_h_section else other_h_section)
check_next_include_order s possible_my_header =
    moved_to s (if leb s.section my_h_section then my_h_section else other_h_section)
check_next_include_order s other_header = moved_to s other_h_section
