-- ===== src/Language/References.antt =====
-- `CheckForNonConstReference`.
use nwtool.Base.{
  ltb, leb, if◌then◌else◌, get_or, Text, txt, char_in, lstrip, strip, rfind, ℕ, zero, suc, ◌+◌, ◌-◌,
  Bool, true, false, not, ◌&&◌, ◌||◌, Option, none, some, List, [], ◌∷◌, ◌++◌,
}
use nwtool.Report.{Report, report}
use nwtool.Regex.{matches, search_in, searches, replace_all, find_all, MatchResult}
use nwtool.Cleanse.{CleansedLines}
use nwtool.Cleanse.Strings.{group_text}
use nwtool.Brackets.{reverse_close_expression}
use nwtool.Nesting.Blocks.{Block, NestingState, is_class, is_namespace}
use nwtool.Language.{is_derived_function, is_out_of_line_method_definition, is_initializer_list}

-- `_RE_PATTERN_IDENT`
abbrev pub ident : Text
ident = txt "[_a-zA-Z]\\w*"

-- `_RE_PATTERN_TYPE`
abbrev pub type_pattern : Text
type_pattern =
    txt "(?:const\\s+)?(?:typename\\s+|class\\s+|struct\\s+|union\\s+|enum\\s+)?"
    ++ txt "(?:\\w|"
    ++ txt "\\s*<(?:<(?:<[^<>]*>|[^<>])*>|[^<>])*>|"
    ++ txt "::)+"

-- `_RE_PATTERN_REF_PARAM`
abbrev pub ref_param : Text
ref_param =
    txt "("
    ++ type_pattern
    ++ txt "(?:\\s*(?:\\bconst\\b|[*]))*\\s*"
    ++ txt "&\\s*"
    ++ ident
    ++ txt ")\\s*(?:=[^,()]+)?[,)]"

-- `_RE_PATTERN_CONST_REF_PARAM`
abbrev pub const_ref_param : Text
const_ref_param =
    txt "(?:.*\\s*\\bconst\\s*&\\s*"
    ++ ident
    ++ txt "|const\\s+"
    ++ type_pattern
    ++ txt "\\s*&\\s*"
    ++ ident
    ++ txt ")"

-- `_RE_PATTERN_REF_STREAM_PARAM`
abbrev pub ref_stream_param : Text
ref_stream_param = txt "(?:.*stream\\s*&\\s*" ++ ident ++ txt ")"

-- The stripped lines, `k` of them from line `i` on, as one.
unfoldable pub strip_lines : List Text → ℕ → ℕ → Text
unfolding strip
strip_lines elided i zero = []
strip_lines elided i (suc k) = strip (get_or elided i []) ++ strip_lines elided (i + 1) k

-- A template's parameters that began on an earlier line are joined with it.
unfoldable pub join_template : List Text → ℕ → Text
unfolding rfind reverse_close_expression strip_lines
join_template elided linenum =
    let line = get_or elided linenum [] in
    elim (rfind line b'>') [
      | none ↦ line
      | some endpos ↦ elim (reverse_close_expression elided linenum endpos) [
        | none ↦ line
        | some p ↦
            if ltb p.linenum linenum
            then strip_lines elided p.linenum (linenum + 1 - p.linenum)
            else line
      ]
    ]

-- The part of a type's name on the line before.
unfoldable pub previous_part : Text → Text → Option MatchResult
unfolding matches search_in
previous_part line previous =
    if matches (txt "\\s*::(?:[\\w<>]|::)+\\s*&\\s*\\S") line
    then search_in (txt "\\b((?:const\\s*)?(?:[\\w<>]|::)+[\\w<>])\\s*$") previous
    else if matches (txt "\\s*[a-zA-Z_]([\\w<>]|::)+\\s*&\\s*\\S") line
    then search_in (txt "\\b((?:const\\s*)?(?:[\\w<>]|::)+::)\\s*$") previous
    else none

-- The line, joined with what belongs to it.
unfoldable pub joined_line : List Text → ℕ → Text
unfolding previous_part group_text lstrip join_template
joined_line elided linenum =
    let line = get_or elided linenum [] in
    if leb linenum 1 then line else (elim (previous_part line (get_or elided (linenum - 1) [])) [
      | some m ↦ group_text 1 m ++ lstrip line
      | none ↦ join_template elided linenum
    ])

abbrev in_function : Option Block → Bool
in_function none = false
in_function (some b) = not (is_class b.kind || is_namespace b.kind)

-- The loop back over `k` lines, the first of which has the number given: an initializer list.
unfoldable pub in_initializers : List Text → ℕ → ℕ → Bool
unfolding searches matches
in_initializers elided i zero = false
in_initializers elided i (suc k) =
    let previous_line = get_or elided i [] in
    let rest = in_initializers elided (i - 1) k in
    if not (searches (txt "[),]\\s*$") previous_line)
    then false
    else if matches (txt "^\\s*:\\s+\\S") previous_line
    then true
    else rest

abbrev pub whitelisted_functions : Text
whitelisted_functions =
    txt "(?:[sS]wap(?:<\\w:+>)?|"
    ++ txt "operator\\s*[<>][<>]|"
    ++ txt "static_assert|COMPILE_ASSERT"
    ++ txt ")\\s*\\("

unfoldable pub is_whitelisted : List Text → ℕ → Text → Bool
unfolding searches
is_whitelisted elided linenum line =
    let before =
      λ (i : ℕ). leb i linenum && searches whitelisted_functions (get_or elided (linenum - i) []) in
    searches whitelisted_functions line
    || (not (searches (txt "\\S+\\([^)]*$") line) && (before 1 || before 2))

-- The functions that the check leaves out.
unfoldable pub is_exempt : CleansedLines → ℕ → NestingState → Text → Bool
unfolding in_initializers searches is_initializer_list is_whitelisted
is_exempt clean linenum s line =
    in_function s.previous_stack_top
    || in_initializers clean.elided (linenum - 1) (if leb 10 linenum then 9 else linenum - 1)
    || searches (txt "\\\\\\s*$") line
    || is_initializer_list clean linenum
    || is_whitelisted clean.elided linenum line

unfoldable pub reference_reports : ℕ → List MatchResult → List Report
unfolding group_text matches replace_all
reference_reports linenum [] = []
reference_reports linenum (m ∷ ms) =
    let parameter = group_text 1 m in
    (if matches const_ref_param parameter || matches ref_stream_param parameter
      then []
      else report linenum (txt "runtime/references") 2 (
          txt "Is this a non-const reference? "
          ++ txt "If so, make const or use a pointer: "
          ++ replace_all (txt " *<") (txt "<") parameter)
        ∷ [])
    ++ reference_reports linenum ms

unfoldable pub check_for_non_const_reference : CleansedLines → ℕ → NestingState → List Report
unfolding char_in is_derived_function is_out_of_line_method_definition joined_line is_exempt
    replace_all find_all reference_reports
check_for_non_const_reference clean linenum s =
    let line = joined_line clean.elided linenum in
    if not (char_in b'&' (get_or clean.elided linenum []))
      || is_derived_function clean linenum
      || is_out_of_line_method_definition clean linenum
      || is_exempt clean linenum s line
    then []
    else reference_reports linenum (find_all ref_param (replace_all (txt "{[^}]*}") (txt " ") line))
