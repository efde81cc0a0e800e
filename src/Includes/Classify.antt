-- ===== src/Includes/Classify.antt =====
-- The kind of a header: `_DropCommonSuffixes` and `_ClassifyInclude`.
use nwtool.Base.{
  ltb, ◌==◌, if◌then◌else◌, length, get_or, take, Text, txt, text_eq, one_of, ends_with, replace,
  ◌-◌, Bool, false, not, ◌&&◌, ◌||◌, none, some, List, [], ◌∷◌, ◌++◌,
}
use nwtool.Regex.{match}
use nwtool.Paths.{path_split, splitext, normpath}
use nwtool.FileInfo.{Flags, get_header_extensions, get_non_header_extensions}
use nwtool.Includes.{
  HeaderType, c_sys_header, cpp_sys_header, likely_my_header, possible_my_header, other_header,
}
use nwtool.Includes.CppHeaders.{cpp_headers}

-- `'%s.%s' % (a, b)` for every pair, the first in the outer loop.
abbrev with_extensions : Text → List Text → List Text
with_extensions a [] = []
with_extensions a (e ∷ es) = (a ++ (b'.' ∷ e)) ∷ with_extensions a es

abbrev pairs : List Text → List Text → List Text
pairs [] es = []
pairs (a ∷ as') es = with_extensions a es ++ pairs as' es

unfoldable pub common_suffixes : Flags → List Text
unfolding get_header_extensions get_non_header_extensions
common_suffixes flags =
    pairs (txt "test" ∷ txt "regtest" ∷ txt "unittest" ∷ []) (get_non_header_extensions flags)
    ++ pairs (txt "inl" ∷ txt "imp" ∷ txt "internal" ∷ []) (get_header_extensions flags)

-- `filename[-len(suffix) - 1] in ('-', '_')`, where the file's name is longer than the suffix.
unfoldable pub is_set_off : Text → Text → Bool
is_set_off filename suffix =
    let c = get_or filename (length filename - length suffix - 1) 0 in c == b'-' || c == b'_'

unfoldable pub drop_suffixes : Text → List Text → Text
unfolding ends_with splitext is_set_off
drop_suffixes filename [] = (splitext filename).0
drop_suffixes filename (s ∷ ss) =
    let rest = drop_suffixes filename ss in
    if ends_with filename s && ltb (length s) (length filename) && is_set_off filename s
    then take (length filename - length s - 1) filename
    else rest

-- `_DropCommonSuffixes`
unfoldable pub drop_common_suffixes : Flags → Text → Text
unfolding drop_suffixes common_suffixes
drop_common_suffixes flags filename = drop_suffixes filename (common_suffixes flags)

-- `_RE_FIRST_COMPONENT`
abbrev pub first_component : Text
first_component = txt "^[^-_.]+"

unfoldable pub same_component : Text → Text → Bool
unfolding match text_eq
same_component a b = elim (match first_component a) [
  | none ↦ false
  | some m ↦ elim (match first_component b) [ none ↦ false | some n ↦ text_eq m.whole n.whole ]
]

unfoldable pub is_cpp_extension : Text → Bool
unfolding one_of
is_cpp_extension e = one_of e (txt ".hpp" ∷ txt ".hxx" ∷ txt ".h++" ∷ [])

-- `_ClassifyInclude`, for a file with this repository name.
unfoldable pub classify_include : Flags → Text → Text → Bool → HeaderType
unfolding drop_common_suffixes path_split normpath same_component is_cpp_extension one_of splitext
    text_eq replace
classify_include flags repository_name include is_system =
    let (target_dir, target_base) = path_split (drop_common_suffixes flags repository_name) in
    let (include_dir, include_base) = path_split (drop_common_suffixes flags include) in
    let target_dir_pub = replace (normpath (target_dir ++ txt "/../public")) (txt "\\") (txt "/") in
    if is_system && not (is_cpp_extension (splitext include).1)
    then if one_of include cpp_headers then cpp_sys_header else c_sys_header
    else if text_eq target_base include_base
        && (text_eq include_dir target_dir || text_eq include_dir target_dir_pub)
    then likely_my_header
    else if same_component target_base include_base
    then possible_my_header
    else other_header
