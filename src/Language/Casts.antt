-- ===== src/Language/Casts.antt =====
-- `CheckCasts` and `CheckCStyleCast`.
use nwtool.Base.{
  ltb, ◌==◌, if◌then◌else◌, length, get_or, take, drop, Text, txt, starts_with, ends_with, ℕ, zero,
  suc, ◌+◌, Bool, true, false, ◌||◌, Option, none, some, List, [], ◌∷◌, ◌++◌,
}
use nwtool.Report.{Report, report}
use nwtool.Regex.{match, matches, search_in, searches, group, MatchResult}
use nwtool.Cleanse.{CleansedLines}
use nwtool.Cleanse.Strings.{group_text}
use nwtool.Brackets.{close_expression, Place}
use nwtool.Language.{expecting_function_args}

abbrev casting : ℕ → Text → List Report
casting linenum message = report linenum (txt "readability/casting") 4 message ∷ []

-- The lines before a line, `k` at most and none before line 1, and then a text.
unfoldable pub context_from : List Text → ℕ → ℕ → Text → Text
context_from elided zero k text = text
context_from elided (suc zero) k text = text
context_from elided (suc (suc i)) zero text = text
context_from elided (suc (suc i)) (suc k) text =
    context_from elided (suc i) k (get_or elided (suc i) [] ++ text)

-- What the match of a C style cast may be besides: an operand of `sizeof` and the like, an argument
-- of a macro, a parameter without a name.
unfoldable pub is_no_cast : List Text → ℕ → MatchResult → Bool
unfolding matches context_from ends_with
is_no_cast elided linenum m =
    let before = take m.start (get_or elided linenum []) in
    let context = context_from elided linenum 4 before in
    matches (txt ".*\\b(?:sizeof|alignof|alignas|[_A-Z][_A-Z0-9]*)\\s*$") before
    || matches (txt ".*\\b[_A-Z][_A-Z0-9]*\\s*\\((?:\\([^()]*\\)|[^()])*$") context
    || ends_with context (txt " operator++")
    || ends_with context (txt " operator--")
    || matches (txt "^\\s*(?:;|const\\b|throw\\b|final\\b|override\\b|[=>{),]|->)") m.after

-- `CheckCStyleCast`, for a pattern that begins with a parenthesis and then its first group. It
-- returns whether it reports.
unfoldable pub check_c_style_cast : CleansedLines → ℕ → Text → Text → List Report × Bool
unfolding search_in is_no_cast group_text
check_c_style_cast clean linenum cast_type pattern =
    elim (search_in pattern (get_or clean.elided linenum [])) [
      | none ↦ ([], false)
      | some m ↦ if is_no_cast clean.elided linenum m then ([], false) else (
        casting linenum (
            txt "Using C-style cast.  Use "
            ++ cast_type
            ++ txt "<"
            ++ group_text 1 m
            ++ txt ">(...) instead"),
        true,
      )
    ]

-- What makes the match of a function style cast something else.
unfoldable pub is_no_function_cast : Text → MatchResult → Bool
unfolding group group_text matches searches starts_with
is_no_function_cast line m =
    let matched_type = group_text 2 m in
    let matched_funcptr = group_text 3 m in
    (elim (group 1 m) [ none ↦ false | some t ↦ true ])
    || matches (txt "\\((?:[^() ]+::\\s*\\*\\s*)?[^() ]+\\)\\s*\\(") matched_funcptr
    || starts_with matched_funcptr (txt "(*)")
    || matches (txt "\\s*using\\s+\\S+\\s*=\\s*" ++ matched_type) line
    || searches (txt "new\\(\\S+\\)\\s*" ++ matched_type) line

abbrev function_cast : Text
function_cast =
    txt "(\\bnew\\s+(?:const\\s+)?|\\S<\\s*(?:const\\s+)?)?\\b"
    ++ txt "(int|float|double|bool|char|int32|uint32|int64|uint64)"
    ++ txt "(\\([^)].*)"

-- The part on conversion functions; `none` is its return from the whole check.
unfoldable pub check_function_cast : Text → ℕ → Option (List Report)
unfolding search_in matches group_text is_no_function_cast
check_function_cast line linenum = elim (search_in function_cast line) [
  | none ↦ some []
  | some m ↦
      if matches (txt "\\([^()]+\\)\\s*\\[") (group_text 3 m)
      then none
      else if is_no_function_cast line m
      then some []
      else some (
          casting linenum (
            txt "Using deprecated casting style.  Use static_cast<"
            ++ group_text 2 m
            ++ txt ">(...) instead"))
]

-- What follows the cast and its operand, up to the end of the next line.
abbrev extended_line : List Text → Place → Text
extended_line elided p = drop p.pos (get_or elided p.linenum []) ++ get_or elided (p.linenum + 1) []

abbrev operand_end : List Text → Option Place → Option Place
operand_end elided none = none
operand_end elided (some p) =
    if get_or (get_or elided p.linenum []) p.pos 0 == b'('
    then close_expression elided p.linenum p.pos
    else none

abbrev dereferences : List Text → Option Place → Bool
dereferences elided none = false
dereferences elided (some p) = matches (txt "\\s*(?:->|\\[)") (extended_line elided p)

-- `parenthesis_error`. Where nothing stands behind the closing `>`, the code raises an IndexError,
-- which is `none`.
unfoldable pub parenthesis_error : List Text → ℕ → Option Bool
unfolding match group_text close_expression matches
parenthesis_error elided linenum =
    elim (match (txt "^(.*&(?:static|dynamic|down|reinterpret)_cast\\b)<")
      (get_or elided linenum [])) [
        | none ↦ some false
        | some m ↦
            let past = close_expression elided linenum (length (group_text 1 m)) in
            let result : Option Bool = some (dereferences elided (operand_end elided past)) in
            elim past [
              | none ↦ result
              | some p ↦ if ltb p.pos (length (get_or elided p.linenum [])) then result else none
            ]
      ]

-- The part on the address of a cast.
unfoldable pub check_address : List Text → ℕ → Option (List Report)
unfolding searches parenthesis_error
check_address elided linenum =
    if searches
      (txt "(?:[^\\w]&\\(([^)*][^)]*)\\)[\\w(])|"
        ++ txt "(?:[^\\w]&(static|dynamic|down|reinterpret)_cast\\b)")
      (get_or elided linenum [])
    then (elim (parenthesis_error elided linenum) [
      | none ↦ none
      | some true ↦ some (
          casting linenum (
            txt "Are you taking an address of something dereferenced "
            ++ txt "from a cast?  Wrapping the dereferenced expression in "
            ++ txt "parentheses will make the binding more obvious"))
      | some false ↦ some (
          report linenum (txt "runtime/casting") 4 (
            txt "Are you taking an address of a cast?  "
            ++ txt "This is dangerous: could be a temp var.  "
            ++ txt "Take the address before doing the cast, rather than after")
          ∷ [])
    ])
    else some []

-- The part on C style casts.
unfoldable pub check_c_style_casts : CleansedLines → ℕ → Bool → List Report
unfolding check_c_style_cast
check_c_style_casts clean linenum expecting_function =
    let (strings, on_string) =
      check_c_style_cast clean linenum (txt "const_cast") (txt "\\((char\\s?\\*+\\s?)\\)\\s*\"") in
    (if expecting_function
      then []
      else (check_c_style_cast clean linenum (txt "static_cast")
          (txt "\\((int|float|double|bool|char|u?int(16|32|64))\\)")).0)
    ++ strings
    ++ (if on_string
        then []
        else (check_c_style_cast clean linenum (txt "reinterpret_cast")
            (txt "\\((\\w+\\s?\\*+\\s?)\\)")).0)

-- `CheckCasts`; `none` is an IndexError.
unfoldable pub check_casts : CleansedLines → ℕ → Option (List Report)
unfolding expecting_function_args check_function_cast check_c_style_casts check_address
check_casts clean linenum =
    let expecting_function = expecting_function_args clean linenum in
    let functional : Option (List Report) =
      if expecting_function
      then some []
      else check_function_cast (get_or clean.elided linenum []) linenum in
    elim functional [
      | none ↦ some []
      | some first ↦ elim (check_address clean.elided linenum) [
        | none ↦ none
        | some last ↦ some (first ++ check_c_style_casts clean linenum expecting_function ++ last)
      ]
    ]
