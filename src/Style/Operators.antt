-- ===== src/Style/Operators.antt =====
-- `CheckOperatorSpacing`.
use nwtool.Base.{
  leb, if◌then◌else◌, length, get_or, Text, txt, text_eq, ℕ, zero, suc, ◌+◌, Bool, true, false, not,
  ◌&&◌, ◌||◌, Option, none, some, List, [], ◌∷◌, ◌++◌,
}
use nwtool.Report.{Report, report}
use nwtool.Regex.{match, matches, search_in, searches}
use nwtool.Cleanse.{CleansedLines}
use nwtool.Cleanse.Strings.{group_text}
use nwtool.Brackets.{close_expression, reverse_close_expression}

abbrev pub operator_method : Text
operator_method = txt "^(.*\\boperator\\b)(\\S+)(\\s*\\(.*)$"

-- `'_' * n`
abbrev pub underscores : ℕ → Text
underscores zero = []
underscores (suc n) = b'_' ∷ underscores n

-- The loop that hides the names of operator methods, with a bound on its rounds; `none` means that
-- the bound was too small.
unfoldable pub mask_operators : ℕ → Text → Option Text
unfolding match group_text
mask_operators zero line = none
mask_operators (suc f) line = elim (match operator_method line) [
  | none ↦ some line
  | some m ↦
      mask_operators f (group_text 1 m ++ underscores (length (group_text 2 m)) ++ group_text 3 m)
]

abbrev operators : ℕ → ℕ → Text → List Report
operators linenum confidence message =
    report linenum (txt "whitespace/operators") confidence message ∷ []

unfoldable pub check_assignment : Text → ℕ → List Report
unfolding searches
check_assignment line linenum =
    if (searches (txt "[\\w.]=") line || searches (txt "=[\\w.]") line)
      && not (searches (txt "\\b(if|while|for) ") line)
      && not (searches (txt "(>=|<=|==|!=|&=|\\^=|\\|=|\\+=|\\*=|\\/=|\\%=)") line)
      && not (searches (txt "operator=") line)
    then operators linenum 4 (txt "Missing spaces around =")
    else []

abbrev is_none {ℓ} : {A : Type ℓ} → Option A → Bool
is_none none = true
is_none (some _) = false

-- A `<` without spaces that nothing closes, on the masked line; the brackets are matched on the
-- line as it is.
unfoldable pub check_less : CleansedLines → Text → ℕ → List Report
unfolding match group_text close_expression
check_less clean line linenum = elim (match (txt "^(.*[^\\s<])<[^\\s=<,]") line) [
  | none ↦ []
  | some m ↦
      if is_none (close_expression clean.elided linenum (length (group_text 1 m)))
      then operators linenum 3 (txt "Missing spaces around <")
      else []
]

unfoldable pub check_greater : CleansedLines → Text → ℕ → List Report
unfolding match group_text reverse_close_expression
check_greater clean line linenum = elim (match (txt "^(.*[^-\\s>])>[^\\s=>,]") line) [
  | none ↦ []
  | some m ↦
      if is_none (reverse_close_expression clean.elided linenum (length (group_text 1 m)))
      then operators linenum 3 (txt "Missing spaces around >")
      else []
]

unfoldable pub check_comparison : CleansedLines → Text → ℕ → List Report
unfolding search_in matches group_text check_less check_greater
check_comparison clean line linenum =
    elim (search_in (txt "[^<>=!\\s](==|!=|<=|>=|\\|\\|)[^<>=!\\s,;\\)]") line) [
      | some m ↦ operators linenum 3 (txt "Missing spaces around " ++ group_text 1 m)
      | none ↦
          if matches (txt "#.*include") line
          then []
          else check_less clean line linenum ++ check_greater clean line linenum
    ]

-- `isdigit`, on ASCII.
abbrev is_digits : Text → Bool
is_digits [] = false
is_digits (c ∷ []) = leb b'0' c && leb c b'9'
is_digits (c ∷ d ∷ s) = leb b'0' c && leb c b'9' && is_digits (d ∷ s)

unfoldable pub check_left_shift : Text → ℕ → List Report
unfolding search_in group_text text_eq
check_left_shift line linenum =
    elim (search_in (txt "(operator|[^\\s(<])(?:L|UL|LL|ULL|l|ul|ll|ull)?<<([^\\s,=<])") line) [
      | none ↦ []
      | some m ↦
          if not (is_digits (group_text 1 m) && is_digits (group_text 2 m))
            && not (text_eq (group_text 1 m) (txt "operator") && text_eq (group_text 2 m) (txt ";"))
          then operators linenum 3 (txt "Missing spaces around <<")
          else []
    ]

unfoldable pub check_unary : Text → ℕ → List Report
unfolding search_in group_text
check_unary line linenum =
    elim (search_in (txt "(!\\s|~\\s|[\\s]--[\\s;]|[\\s]\\+\\+[\\s;])") line) [
      | none ↦ []
      | some m ↦ operators linenum 4 (txt "Extra space for operator " ++ group_text 1 m)
    ]

-- The checks of the masked line.
unfoldable pub check_operators : CleansedLines → Text → ℕ → List Report
unfolding check_assignment check_comparison check_left_shift searches check_unary
check_operators clean line linenum =
    check_assignment line linenum
    ++ check_comparison clean line linenum
    ++ check_left_shift line linenum
    ++ (if searches (txt ">>[a-zA-Z_]") line
        then operators linenum 3 (txt "Missing spaces around >>")
        else [])
    ++ check_unary line linenum

unfoldable pub check_operator_spacing : CleansedLines → ℕ → Option (List Report)
unfolding mask_operators check_operators
check_operator_spacing clean linenum =
    let line = get_or clean.elided linenum [] in
    elim (mask_operators (length line + 1) line) [
      | none ↦ none
      | some masked ↦ some (check_operators clean masked linenum)
    ]
