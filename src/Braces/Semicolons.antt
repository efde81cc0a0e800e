-- ===== src/Braces/Semicolons.antt =====
-- `CheckTrailingSemicolon`.
use nwtool.Base.{
  ltb, if◌then◌else◌, length, get_or, take, drop, Text, txt, one_of, rfind, ℕ, ◌-◌, Bool, false,
  not, ◌&&◌, ◌||◌, Option, none, some, List, [], ◌∷◌,
}
use nwtool.Report.{report}
use nwtool.Regex.{match, matches, search_in, searches}
use nwtool.Cleanse.{CleansedLines}
use nwtool.Cleanse.Strings.{group_text}
use nwtool.Actions.{Action, report_error, parse_nolint}
use nwtool.Brackets.{close_expression, reverse_close_expression}
use nwtool.Spacing.Lines.{get_previous_non_blank_line}

abbrev safe_macros : List Text
safe_macros =
    txt "TEST"
    ∷ txt "TEST_F"
    ∷ txt "MATCHER"
    ∷ txt "MATCHER_P"
    ∷ txt "TYPED_TEST"
    ∷ txt "EXCLUSIVE_LOCKS_REQUIRED"
    ∷ txt "SHARED_LOCKS_REQUIRED"
    ∷ txt "LOCKS_EXCLUDED"
    ∷ txt "INTERFACE_DEF"
    ∷ []

-- What stands before the parenthesis is a macro, a lambda or a compound literal.
unfoldable pub is_exempt_prefix : Text → Bool
unfolding search_in match searches group_text one_of
is_exempt_prefix line_prefix =
    (elim (search_in (txt "\\b([A-Z_][A-Z0-9_]*)\\s*$") line_prefix) [
      | none ↦ false
      | some macro ↦ not (one_of (group_text 1 macro) safe_macros)
    ])
    || (elim (match (txt "^(.*\\])\\s*$") line_prefix) [
      | none ↦ false
      | some func ↦ not (searches (txt "\\boperator\\s*\\[\\s*\\]") (group_text 1 func))
    ])
    || searches (txt "\\b(?:struct|union)\\s+alignas\\s*$") line_prefix
    || searches (txt "\\bdecltype$") line_prefix
    || searches (txt "\\s+=\\s*$") line_prefix

-- Whether a block behind a closing parenthesis is left out. Where `ReverseCloseExpression` finds no
-- opening parenthesis its line is 0 and no test is made.
unfoldable pub is_exempt_block : List Text → ℕ → Text → Bool
unfolding rfind reverse_close_expression is_exempt_prefix searches
is_exempt_block elided linenum before_brace = elim (rfind before_brace b')') [
  | none ↦ false
  | some closing_brace_pos ↦ elim (reverse_close_expression elided linenum closing_brace_pos) [
    | none ↦ false
    | some p ↦
        is_exempt_prefix (take p.pos (get_or elided p.linenum []))
        || (ltb 1 p.linenum && searches (txt "\\]\\s*$") (get_or elided (p.linenum - 1) []))
  ]
]

-- The position of the brace that opens a block in cases 4 to 6.
unfoldable pub block_after_line : List Text → ℕ → Text → Option ℕ
unfolding get_previous_non_blank_line searches match group_text
block_after_line elided linenum line = elim (get_previous_non_blank_line elided linenum) [
  | none ↦ none
  | some (prevline, n) ↦
      if searches (txt "[;{}]\\s*$") prevline
      then (elim (match (txt "^(\\s*)\\{") line) [
        | none ↦ none
        | some m ↦ some (length (group_text 1 m))
      ])
      else none
]

-- The position of the brace, in all cases.
unfoldable pub block_start : List Text → ℕ → Option ℕ
unfolding match group_text is_exempt_block block_after_line
block_start elided linenum =
    let line = get_or elided linenum [] in
    elim (match (txt "^(.*\\)\\s*)\\{") line) [
      | some m ↦
          if is_exempt_block elided linenum (group_text 1 m)
          then none
          else some (length (group_text 1 m))
      | none ↦ elim (match (txt "^(.*(?:else|\\)\\s*const)\\s*)\\{") line) [
        | some m ↦ some (length (group_text 1 m))
        | none ↦ block_after_line elided linenum line
      ]
    ]

-- `CheckTrailingSemicolon`, for a block that ends behind line 0, which is the first marker.
unfoldable pub check_trailing_semicolon : CleansedLines → ℕ → List Action
unfolding block_start close_expression matches
check_trailing_semicolon clean linenum = elim (block_start clean.elided linenum) [
  | none ↦ []
  | some pos ↦ elim (close_expression clean.elided linenum pos) [
    | none ↦ []
    | some p ↦
        let n = p.linenum in
        if matches (txt "^\\s*;") (drop p.pos (get_or clean.elided n []))
        then parse_nolint (get_or clean.raw_lines (n - 1) []) (n - 1)
          ∷ parse_nolint (get_or clean.raw_lines n []) n
          ∷ report_error
              (report n (txt "readability/braces") 4 (txt "You don't need a ; after a }"))
          ∷ []
        else []
  ]
]
