-- ===== src/CheckMacros/Expression.antt =====
-- The loop of `CheckCheck` over the expression between the parentheses.
pub mod Total
use nwtool.Base.{
  if◌then◌else◌, length, take, drop, Text, txt, text_eq, one_of, ℕ, zero, suc, ◌||◌, Option, none,
  some, [], ◌∷◌, ◌++◌,
}
use nwtool.Regex.{match, MatchResult}
use nwtool.Cleanse.Strings.{group_text}
use nwtool.Brackets.{found, lost, open_stack, find_end_of_expression_in_line}

-- What a round finds: no comparison, the operator with the right side, or a part of the left side
-- with what is left.
pub data Parsed : Type 0 where
  no_relation : Parsed
  relation : Text → Text → Parsed
  operand : Text → Text → Parsed

abbrev pub token_pattern : Text
token_pattern = txt "^\\s*(<<|<<=|>>|>>=|->\\*|->|&&|\\|\\||" ++ txt "==|!=|>=|>|<=|<|\\()(.*)$"

abbrev pub operand_pattern : Text
operand_pattern = txt "^([^-=!<>()&|]+)(.*)$"

abbrev pub character_pattern : Text
character_pattern = txt "^(\\s*\\S)(.*)$"

-- A round that finds a token; `lost` and an open stack are the position -1.
unfoldable pub token_step : MatchResult → Parsed
unfolding group_text text_eq one_of find_end_of_expression_in_line
token_step m =
    let token = group_text 1 m in
    let rest = group_text 2 m in
    if text_eq token (txt "(")
    then (elim (find_end_of_expression_in_line rest 0 (b'(' ∷ [])) [
      | found end ↦ operand (b'(' ∷ take end rest) (drop end rest)
      | lost ↦ no_relation
      | open_stack stack ↦ no_relation
    ])
    else if text_eq token (txt "&&") || text_eq token (txt "||")
    then no_relation
    else if one_of token (txt "<<" ∷ txt "<<=" ∷ txt ">>" ∷ txt ">>=" ∷ txt "->*" ∷ txt "->" ∷ [])
    then operand token rest
    else relation token rest

-- A round without a token.
unfoldable pub operand_step : Text → Parsed
unfolding match group_text
operand_step expression = elim (match operand_pattern expression) [
  | some m ↦ operand (group_text 1 m) (group_text 2 m)
  | none ↦ elim (match character_pattern expression) [
    | some m ↦ operand (group_text 1 m) (group_text 2 m)
    | none ↦ no_relation
  ]
]

unfoldable pub expression_step : Text → Parsed
unfolding match token_step operand_step
expression_step expression = elim (match token_pattern expression) [
  | some m ↦ token_step m
  | none ↦ operand_step expression
]

-- The loop, with a bound on its rounds: the left side, the operator and the right side, if there is
-- a comparison. The outer `none` means that the bound was too small.
unfoldable pub expression_loop : ℕ → Text → Text → Option (Option (Text × Text × Text))
unfolding expression_step
expression_loop f lhs [] = some none
expression_loop zero lhs (c ∷ e) = none
expression_loop (suc f) lhs (c ∷ e) = elim (expression_step (c ∷ e)) [
  | no_relation ↦ some none
  | relation operator rhs ↦ some (some (lhs, operator, rhs))
  | operand part rest ↦ expression_loop f (lhs ++ part) rest
]

unfoldable pub parse_expression : Text → Option (Option (Text × Text × Text))
unfolding expression_loop
parse_expression expression = expression_loop (length expression) [] expression
