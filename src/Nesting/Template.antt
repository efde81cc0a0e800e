-- ===== src/Nesting/Template.antt =====
-- `InTemplateArgumentList`.
pub mod Total
use nwtool.Base.{
  leb, if◌then◌else◌, length, get_or, drop, Text, txt, text_eq, one_of, ℕ, zero, suc, ◌+◌, ◌-◌,
  Bool, true, false, not, Option, none, some, List, [], ◌∷◌,
}
use nwtool.Regex.{match}
use nwtool.Cleanse.Strings.{group_text}
use nwtool.Brackets.{close_expression}

abbrev pub argument_token : Text
argument_token = txt "^[^{};=\\[\\]\\.<>]*(.)"

-- One round at a place: the answer, or the place at which to go on.
pub data Round : Type 0 where
  answer : Bool → Round
  go_on : ℕ → ℕ → Round

-- What the token at position `pos - 1` says.
unfoldable pub argument_step : List Text → ℕ → ℕ → Text → Round
unfolding one_of close_expression
argument_step elided linenum pos token =
    let line = get_or elided linenum [] in
    if one_of token (txt "{" ∷ txt "}" ∷ txt ";" ∷ [])
    then answer false
    else if one_of token (txt ">" ∷ txt "=" ∷ txt "[" ∷ txt "]" ∷ txt "." ∷ [])
    then answer true
    else if not (text_eq token (txt "<"))
    then if leb (length line) (pos + 1) then go_on (linenum + 1) 0 else go_on linenum (pos + 1)
    else (elim (close_expression elided linenum (pos - 1)) [
      | none ↦ answer false
      | some p ↦ go_on p.linenum p.pos
    ])

unfoldable pub argument_round : List Text → ℕ → ℕ → Round
unfolding match group_text argument_step
argument_round elided linenum pos =
    elim (match argument_token (drop pos (get_or elided linenum []))) [
      | none ↦ go_on (linenum + 1) 0
      | some m ↦ argument_step elided linenum (pos + length m.whole) (group_text 1 m)
    ]

-- The loop, with a bound on its rounds; `none` means that the bound was too small.
unfoldable pub argument_loop : ℕ → List Text → ℕ → ℕ → Option Bool
argument_loop zero elided linenum pos = none
argument_loop (suc f) elided linenum pos =
    if leb (length elided) linenum then some false else (elim (argument_round elided linenum pos) [
      | answer b ↦ some b
      | go_on l p ↦ argument_loop f elided l p
    ])

-- The number of characters of the lines, and one more for each line.
unfoldable pub size : List Text → ℕ
size [] = 0
size (l ∷ ls) = length l + 1 + size ls

unfoldable pub in_template_argument_list : List Text → ℕ → ℕ → Option Bool
unfolding argument_loop size
in_template_argument_list elided linenum pos = argument_loop (size elided + 2) elided linenum pos
