-- ===== src/CheckMacros/Expression/Total.antt =====
-- The loop over the expression ends.
use nwtool.Base.{
  Bool-cases, Option-cases, length, take, drop, length-drop, Text, txt, text_eq, one_of, ℕ, zero,
  suc, ◌≤◌, ◌<◌, ◌≡◌, refl, inl, inr, ◌||◌, Option, none, some, [], ◌∷◌, ◌++◌, arith,
}
use nwtool.Regex.{match, MatchResult}
use nwtool.Regex.Lengths.{tree, match-last_group}
use nwtool.Cleanse.Strings.{group_text, group_text-some}
use nwtool.Brackets.{Outcome, found, lost, open_stack, find_end_of_expression_in_line}
use nwtool.CheckMacros.Expression.{
  Parsed, no_relation, relation, operand, token_pattern, operand_pattern, character_pattern,
  token_step, operand_step, expression_step, expression_loop, parse_expression,
}

token_group :
    (e : Text) (m : MatchResult)
    → match token_pattern e ≡ some m
    → length (group_text 2 m) < length e
unfolding tree
token_group e m h =
    let (g, is, short) = match-last_group token_pattern e 3 2 m refl refl h in
    rw (group_text-some 2 m g is) (omega (arith, short))

operand_group :
    (e : Text) (m : MatchResult)
    → match operand_pattern e ≡ some m
    → length (group_text 2 m) < length e
unfolding tree
operand_group e m h =
    let (g, is, short) = match-last_group operand_pattern e 2 2 m refl refl h in
    rw (group_text-some 2 m g is) (omega (arith, short))

character_group :
    (e : Text) (m : MatchResult)
    → match character_pattern e ≡ some m
    → length (group_text 2 m) < length e
unfolding tree
character_group e m h =
    let (g, is, short) = match-last_group character_pattern e 2 2 m refl refl h in
    rw (group_text-some 2 m g is) (omega (arith, short))

-- A round that goes on leaves a text that is shorter than `n`.
abbrev Shorter : ℕ → Parsed → Type 0
Shorter n no_relation = Unit {0}
Shorter n (relation operator rhs) = Unit {0}
Shorter n (operand part rest) = length rest < n

parenthesis-Shorter :
    (n : ℕ) (rest : Text) (o : Outcome)
    → length rest < n
    → Shorter n (elim o [
      | found end ↦ operand (b'(' ∷ take end rest) (drop end rest)
      | lost ↦ no_relation
      | open_stack stack ↦ no_relation
    ])
parenthesis-Shorter n rest (found end) h = omega (arith, length-drop end rest)
parenthesis-Shorter n rest lost h = tt
parenthesis-Shorter n rest (open_stack stack) h = tt

token_step-Shorter :
    (n : ℕ) (m : MatchResult) → length (group_text 2 m) < n → Shorter n (token_step m)
unfolding token_step
token_step-Shorter n m h =
    let token = group_text 1 m in
    let others = txt "<<" ∷ txt "<<=" ∷ txt ">>" ∷ txt ">>=" ∷ txt "->*" ∷ txt "->" ∷ [] in
    elim (Bool-cases (text_eq token (txt "("))) [
      | inl e ↦
          rw (e, token_step)
            (parenthesis-Shorter n (group_text 2 m)
              (find_end_of_expression_in_line (group_text 2 m) 0 (b'(' ∷ [])) h)
      | inr e ↦ elim (Bool-cases (text_eq token (txt "&&") || text_eq token (txt "||"))) [
        | inl e' ↦ rw (e, e', token_step) tt
        | inr e' ↦ elim (Bool-cases (one_of token others)) [
          | inl e'' ↦ rw (e, e', e'', token_step) h
          | inr e'' ↦ rw (e, e', e'', token_step) tt
        ]
      ]
    ]

expression_step-Shorter : (e : Text) → Shorter (length e) (expression_step e)
unfolding expression_step operand_step
expression_step-Shorter e = elim (Option-cases (match token_pattern e)) [
  | inr (m, h) ↦ rw (h, expression_step) (token_step-Shorter (length e) m (token_group e m h))
  | inl h ↦ elim (Option-cases (match operand_pattern e)) [
    | inr (m, h') ↦ rw (h, h', expression_step) (operand_group e m h')
    | inl h' ↦ elim (Option-cases (match character_pattern e)) [
      | inr (m, h'') ↦ rw (h, h', h'', expression_step) (character_group e m h'')
      | inl h'' ↦ rw (h, h', h'', expression_step) tt
    ]
  ]
]

abbrev Ends : ℕ → Text → Text → Type 0
Ends f lhs e = (r : Option (Text × Text × Text)) × (expression_loop f lhs e ≡ some r)

-- A round is followed by the rest of the loop.
round-Ends :
    (f n : ℕ) (lhs : Text) (p : Parsed)
    → n ≤ suc f
    → Shorter n p
    → ((l rest : Text) → length rest ≤ f → Ends f l rest)
    → (r : Option (Text × Text × Text)) × (elim p [
      | no_relation ↦ some none
      | relation operator rhs ↦ some (some (lhs, operator, rhs))
      | operand part rest ↦ expression_loop f (lhs ++ part) rest
    ]
        ≡ some r)
round-Ends f n lhs no_relation b h later = (none, refl)
round-Ends f n lhs (relation operator rhs) b h later = (some (lhs, operator, rhs), refl)
round-Ends f n lhs (operand part rest) b h later = later (lhs ++ part) rest (omega arith)

expression_loop-total : (f : ℕ) (lhs e : Text) → length e ≤ f → Ends f lhs e
unfolding expression_loop
expression_loop-total f lhs [] h = (none, refl)
expression_loop-total zero lhs (c ∷ e) h = absurd (omega arith)
expression_loop-total (suc f) lhs (c ∷ e) h =
    round-Ends f (length (c ∷ e)) lhs (expression_step (c ∷ e)) h (expression_step-Shorter (c ∷ e))
      (expression_loop-total f)

pub parse_expression-total :
    (expression : Text) → (r : Option (Text × Text × Text)) × (parse_expression expression ≡ some r)
unfolding parse_expression
parse_expression-total expression =
    expression_loop-total (length expression) [] expression (omega arith)
