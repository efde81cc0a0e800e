-- ===== src/Brackets.antt =====
-- Matching of brackets: build_support/cpplint.py, `FindEndOfExpressionInLine`, `CloseExpression`,
-- `FindStartOfExpressionInLine` and `ReverseCloseExpression`, with `none` for the position -1.
-- The last entry of the source's stack is the head of the list here.
pub mod Scan
pub mod Balanced
pub mod Forward
pub mod Backward
use nwtool.Base.{
  ltb, ◌==◌, if◌then◌else◌, length, get_or, take, drop, Text, txt, char_in, ℕ, zero, suc, ◌+◌, ◌-◌,
  Bool, false, not, ◌&&◌, ◌||◌, Option, none, some, List, [], ◌∷◌,
}
use nwtool.Regex.{matches, searches}

-- What a scan of a line returns: a position past or at the match, nothing, or the stack with which
-- to go on in another line.
pub data Outcome : Type 0 where
  found : ℕ → Outcome
  lost : Outcome
  open_stack : List ℕ → Outcome

-- What one character does: the scan goes on with a stack, or ends.
pub data Move : Type 0 where
  go : List ℕ → Move
  back_two : List ℕ → Move
  stop : Outcome → Move

abbrev pub operator_end : Text
operator_end = txt "\\boperator\\s*$"

-- `while stack and stack[-1] == c: stack.pop()`
unfoldable pub drop_pending : ℕ → List ℕ → List ℕ
drop_pending c [] = []
drop_pending c (x ∷ xs) = if x == c then drop_pending c xs else x ∷ xs

-- `stack.pop()`, and the end of the scan if the stack is empty then.
unfoldable pub pop_or : Outcome → List ℕ → Move
pop_or o [] = stop o
pop_or o (x ∷ []) = stop o
pop_or o (x ∷ y ∷ xs) = go (y ∷ xs)

-- `stack and stack[-1] == c`
unfoldable pub top_is : ℕ → List ℕ → Bool
top_is c [] = false
top_is c (x ∷ xs) = x == c

unfoldable pub is_pair : ℕ → ℕ → Bool
is_pair a b = (a == b'(' && b == b')') || (a == b'[' && b == b']') || (a == b'{' && b == b'}')

-- At a closing bracket, once the pending `<` are gone.
unfoldable pub close_with : ℕ → ℕ → List ℕ → Move
unfolding is_pair pop_or
close_with c i [] = stop lost
close_with c i (x ∷ xs) = if is_pair x c then pop_or (found (i + 1)) (x ∷ xs) else stop lost

-- `line[i - 1] == c`, for `i > 0`.
unfoldable pub before_is : Text → ℕ → ℕ → Bool
before_is line i c = ltb 0 i && get_or line (i - 1) 0 == c

-- The body of the loop of `FindEndOfExpressionInLine`, at position `i` with the character `c`.
unfoldable pub end_step : Text → ℕ → ℕ → List ℕ → Move
unfolding drop_pending pop_or top_is close_with before_is char_in searches
end_step line i c stack =
    if char_in c (txt "([{")
    then go (c ∷ stack)
    else if c == b'<'
    then if before_is line i b'<'
      then if top_is b'<' stack then pop_or lost stack else go stack
      else if ltb 0 i && searches operator_end (take i line)
      then go stack
      else go (b'<' ∷ stack)
    else if char_in c (txt ")]}")
    then close_with c i (drop_pending b'<' stack)
    else if c == b'>'
    then if ltb 0 i && (before_is line i b'-' || searches operator_end (take (i - 1) line))
      then go stack
      else if top_is b'<' stack
      then pop_or (found (i + 1)) stack
      else go stack
    else if c == b';'
    then (elim (drop_pending b'<' stack) [ [] ↦ stop lost | x ∷ xs ↦ go (x ∷ xs) ])
    else go stack

-- Go on, one step or two, or stop.
abbrev pub proceed : Move → (List ℕ → Outcome) → (List ℕ → Outcome) → Outcome
proceed (go stack) one two = one stack
proceed (back_two stack) one two = two stack
proceed (stop o) one two = o

-- The loop from position `i`, over the rest of the line.
unfoldable pub end_loop : Text → ℕ → Text → List ℕ → Outcome
end_loop line i [] stack = open_stack stack
end_loop line i (c ∷ cs) stack =
    proceed (end_step line i c stack) (end_loop line (i + 1) cs) (end_loop line (i + 1) cs)

unfoldable pub find_end_of_expression_in_line : Text → ℕ → List ℕ → Outcome
find_end_of_expression_in_line line startpos stack =
    end_loop line startpos (drop startpos line) stack

-- A place in the file: the line's number and the position on it.
pub record Place : Type 0 where
  pub linenum : ℕ
  pub pos : ℕ

-- The scan forward through the later lines, the first of which has the number given.
unfoldable pub close_later : List Text → ℕ → List ℕ → Option Place
close_later [] n stack = none
close_later lines n [] = none
close_later (line ∷ lines) n (x ∷ xs) = elim (find_end_of_expression_in_line line 0 (x ∷ xs)) [
  | found e ↦ some (record { linenum = n; pos = e })
  | lost ↦ none
  | open_stack stack ↦ close_later lines (n + 1) stack
]

-- `CloseExpression` on the cleansed lines; `none` is the result with position -1.
unfoldable pub close_expression : List Text → ℕ → ℕ → Option Place
unfolding char_in
close_expression elided linenum pos =
    let line = get_or elided linenum [] in
    if not (char_in (get_or line pos 0) (txt "({[<")) || matches (txt "<[<=]") (drop pos line)
    then none
    else (elim (find_end_of_expression_in_line line pos []) [
      | found e ↦ some (record { linenum = linenum; pos = e })
      | lost ↦ none
      | open_stack stack ↦ close_later (drop (linenum + 1) elided) (linenum + 1) stack
    ])

-- At an opening bracket, once the pending `>` are gone.
unfoldable pub open_with : ℕ → ℕ → List ℕ → Move
unfolding is_pair pop_or
open_with c i [] = stop lost
open_with c i (x ∷ xs) = if is_pair c x then pop_or (found i) (x ∷ xs) else stop lost

-- The body of the loop of `FindStartOfExpressionInLine`; `back_two` is its extra `i -= 1`.
unfoldable pub start_step : Text → ℕ → ℕ → List ℕ → Move
unfolding drop_pending pop_or top_is open_with before_is char_in searches matches
start_step line i c stack =
    if char_in c (txt ")]}")
    then go (c ∷ stack)
    else if c == b'>'
    then if ltb 0 i
        && (before_is line i b'-'
            || matches (txt "\\s>=\\s") (drop (i - 1) line)
            || searches operator_end (take i line))
      then back_two stack
      else go (b'>' ∷ stack)
    else if c == b'<'
    then if before_is line i b'<'
      then back_two stack
      else if top_is b'>' stack
      then pop_or (found i) stack
      else go stack
    else if char_in c (txt "([{")
    then open_with c i (drop_pending b'>' stack)
    else if c == b';'
    then (elim (drop_pending b'>' stack) [ [] ↦ stop lost | x ∷ xs ↦ go (x ∷ xs) ])
    else go stack

-- The loop downwards: `n` positions, from `n - 1` to 0, are left.
unfoldable pub start_loop : Text → ℕ → List ℕ → Outcome
start_loop line zero stack = open_stack stack
start_loop line (suc zero) stack =
    proceed (start_step line 0 (get_or line 0 0) stack) open_stack open_stack
start_loop line (suc (suc n)) stack =
    proceed (start_step line (suc n) (get_or line (suc n) 0) stack) (start_loop line (suc n))
      (start_loop line n)

-- From position `endpos` on the line, with `endpos + 1` positions to look at.
unfoldable pub find_start_of_expression_in_line : Text → ℕ → List ℕ → Outcome
find_start_of_expression_in_line line positions stack = start_loop line positions stack

-- The scan backward through the first `n` lines.
unfoldable pub open_earlier : List Text → ℕ → List ℕ → Option Place
open_earlier elided zero stack = none
open_earlier elided (suc n) [] = none
open_earlier elided (suc n) (x ∷ xs) =
    let line = get_or elided n [] in
    elim (find_start_of_expression_in_line line (length line) (x ∷ xs)) [
      | found e ↦ some (record { linenum = n; pos = e })
      | lost ↦ none
      | open_stack stack ↦ open_earlier elided n stack
    ]

-- `ReverseCloseExpression`
unfoldable pub reverse_close_expression : List Text → ℕ → ℕ → Option Place
unfolding char_in
reverse_close_expression elided linenum pos =
    let line = get_or elided linenum [] in
    if not (char_in (get_or line pos 0) (txt ")}]>"))
    then none
    else (elim (find_start_of_expression_in_line line (pos + 1) []) [
      | found e ↦ some (record { linenum = linenum; pos = e })
      | lost ↦ none
      | open_stack stack ↦ open_earlier elided linenum stack
    ])
