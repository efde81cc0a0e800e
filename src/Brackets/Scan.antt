-- ===== src/Brackets/Scan.antt =====
-- Where a scan of one line can stop.
use nwtool.Base.{
  length, get_or, drop, length-drop, Text, ℕ, zero, suc, ◌+◌, ◌-◌, ◌≤◌, ◌<◌, ◌≡◌, refl, ◌⊎◌, inr,
  some, List, [], ◌∷◌, arith,
}
use nwtool.Brackets.{
  Place, close_later, close_expression, Outcome, found, lost, open_stack, Move, go, back_two, stop,
  drop_pending, pop_or, close_with, open_with, proceed, end_step, end_loop,
  find_end_of_expression_in_line, start_step, start_loop, find_start_of_expression_in_line,
}

-- A stop with a match is at this position; a stack that goes on holds opening brackets if the
-- stack before it did.
abbrev StopsAt : ℕ → Move → Type 0
StopsAt e (go s) = Unit {0}
StopsAt e (back_two s) = Unit {0}
StopsAt e (stop (found n)) = n ≡ e
StopsAt e (stop lost) = Unit {0}
StopsAt e (stop (open_stack s)) = ⊥

pop_or-StopsAt : (e : ℕ) (s : List ℕ) → StopsAt e (pop_or (found e) s) × StopsAt e (pop_or lost s)
unfolding pop_or
pop_or-StopsAt e [] = (refl, tt)
pop_or-StopsAt e (x ∷ []) = (refl, tt)
pop_or-StopsAt e (x ∷ y ∷ xs) = (tt, tt)

close_with-StopsAt : (c i : ℕ) (s : List ℕ) → StopsAt (i + 1) (close_with c i s)
unfolding close_with
close_with-StopsAt c i [] = tt
close_with-StopsAt c i (x ∷ xs) = ground (arith, pop_or-StopsAt (i + 1) (x ∷ xs))

open_with-StopsAt : (c i : ℕ) (s : List ℕ) → StopsAt i (open_with c i s)
unfolding open_with
open_with-StopsAt c i [] = tt
open_with-StopsAt c i (x ∷ xs) = ground (arith, pop_or-StopsAt i (x ∷ xs))

end_step-StopsAt : (line : Text) (i c : ℕ) (s : List ℕ) → StopsAt (i + 1) (end_step line i c s)
unfolding end_step
end_step-StopsAt line i c s =
    ground (arith, pop_or-StopsAt (i + 1) s, close_with-StopsAt c i (drop_pending b'<' s))

start_step-StopsAt : (line : Text) (i c : ℕ) (s : List ℕ) → StopsAt i (start_step line i c s)
unfolding start_step
start_step-StopsAt line i c s =
    ground (arith, pop_or-StopsAt i s, open_with-StopsAt c i (drop_pending b'>' s))

abbrev pub Within : ℕ → ℕ → Outcome → Type 0
Within lo hi (found e) = (lo ≤ e) × (e ≤ hi)
Within lo hi lost = Unit {0}
Within lo hi (open_stack s) = Unit {0}

proceed-Within :
    (lo hi e : ℕ) (m : Move) (one two : List ℕ → Outcome)
    → lo ≤ e
    → e ≤ hi
    → StopsAt e m
    → ((s : List ℕ) → Within lo hi (one s) × Within lo hi (two s))
    → Within lo hi (proceed m one two)
proceed-Within lo hi e (go s) one two h k a ih = (ih s).0
proceed-Within lo hi e (back_two s) one two h k a ih = (ih s).1
proceed-Within lo hi e (stop (found n)) one two h k a ih = (omega arith, omega arith)
proceed-Within lo hi e (stop lost) one two h k a ih = tt
proceed-Within lo hi e (stop (open_stack s)) one two h k a ih = absurd a

Within-mono :
    (lo hi lo' hi' : ℕ) (o : Outcome) → lo' ≤ lo → hi ≤ hi' → Within lo hi o → Within lo' hi' o
Within-mono lo hi lo' hi' (found e) h k w = omega arith
Within-mono lo hi lo' hi' lost h k w = tt
Within-mono lo hi lo' hi' (open_stack s) h k w = tt

end_loop-Within :
    (line : Text) (i : ℕ) (cs : Text) (s : List ℕ)
    → Within (i + 1) (i + length cs) (end_loop line i cs s)
unfolding end_loop
end_loop-Within line i [] s = tt
end_loop-Within line i (c ∷ cs) s =
    proceed-Within (i + 1) (i + suc (length cs)) (i + 1) (end_step line i c s) _ _ (omega arith)
      (omega arith) (end_step-StopsAt line i c s) (later (end_loop-Within line (i + 1) cs))
  where
    later :
        ((t : List ℕ) → Within (i + 1 + 1) (i + 1 + length cs) (end_loop line (i + 1) cs t))
        → (t : List ℕ)
        → Within (i + 1) (i + suc (length cs)) (end_loop line (i + 1) cs t)
          × Within (i + 1) (i + suc (length cs)) (end_loop line (i + 1) cs t)
    later ih t =
        let w =
          Within-mono (i + 1 + 1) (i + 1 + length cs) (i + 1) (i + suc (length cs))
            (end_loop line (i + 1) cs t) (omega arith) (omega arith) (ih t) in
        (w, w)

start_loop-Within : (line : Text) (n : ℕ) (s : List ℕ) → Within 0 (n - 1) (start_loop line n s)
unfolding start_loop
start_loop-Within line zero s = tt
start_loop-Within line (suc zero) s =
    proceed-Within 0 0 0 (start_step line 0 (get_or line 0 0) s) _ _ (omega arith) (omega arith)
      (start_step-StopsAt line 0 (get_or line 0 0) s) (λ t. (tt, tt))
start_loop-Within line (suc (suc n)) s =
    proceed-Within 0 (suc (suc n) - 1) (suc n) (start_step line (suc n) (get_or line (suc n) 0) s) _
      _ (omega arith) (omega arith) (start_step-StopsAt line (suc n) (get_or line (suc n) 0) s)
      (λ t. (
        Within-mono 0 (suc n - 1) 0 (suc (suc n) - 1) (start_loop line (suc n) t) (omega arith)
            (omega arith) (start_loop-Within line (suc n) t),
        Within-mono 0 (n - 1) 0 (suc (suc n) - 1) (start_loop line n t) (omega arith) (omega arith)
            (start_loop-Within line n t),
      ))

-- From a start not behind the end of the line, a match that `FindEndOfExpressionInLine` reports
-- lies behind the start and not behind the end of the line.
find_end_of_expression_in_line-Within :
    (line : Text) (startpos : ℕ) (stack : List ℕ)
    → startpos ≤ length line
    → Within (startpos + 1) (length line) (find_end_of_expression_in_line line startpos stack)
unfolding find_end_of_expression_in_line
find_end_of_expression_in_line-Within line startpos stack h =
    Within-mono (startpos + 1) (startpos + length (drop startpos line)) (startpos + 1) (length line)
      (end_loop line startpos (drop startpos line) stack) (omega arith)
      (omega (arith, length-drop startpos line))
      (end_loop-Within line startpos (drop startpos line) stack)

-- A match that `FindStartOfExpressionInLine` reports is at one of the positions it looks at.
find_start_of_expression_in_line-Within :
    (line : Text) (positions : ℕ) (stack : List ℕ)
    → Within 0 (positions - 1) (find_start_of_expression_in_line line positions stack)
unfolding find_start_of_expression_in_line
find_start_of_expression_in_line-Within = start_loop-Within

close_later-linenum :
    (lines : List Text) (n : ℕ) (s : List ℕ) (p : Place)
    → close_later lines n s ≡ some p
    → (n ≤ p.linenum) × (p.linenum < n + length lines)
unfolding close_later
close_later-linenum [] n s p h = cc
close_later-linenum (l ∷ ls) n [] p h = cc
close_later-linenum (l ∷ ls) n (x ∷ xs) p h =
    outcome (find_end_of_expression_in_line l 0 (x ∷ xs)) refl
      (λ s. close_later-linenum ls (n + 1) s p)
  where
    outcome :
        (o : Outcome)
        → find_end_of_expression_in_line l 0 (x ∷ xs) ≡ o
        → ((s : List ℕ)
            → close_later ls (n + 1) s ≡ some p
            → (n + 1 ≤ p.linenum) × (p.linenum < n + 1 + length ls))
        → (n ≤ p.linenum) × (p.linenum < n + suc (length ls))
    outcome (found e) is ih = ground (arith, h, is)
    outcome lost is ih = ground (arith, h, is)
    outcome (open_stack s) is ih = omega (arith, ih s (ground (arith, h, is)))

-- Where `CloseExpression`, from a position of a line or its end, finds a match, it ends behind that
-- position on the same line and not behind that line's end, or on a later line of the file.
pub close_expression_bounds :
    (elided : List Text) (n pos : ℕ) (p : Place)
    → pos ≤ length (get_or elided n [])
    → close_expression elided n pos ≡ some p
    → ((p.linenum ≡ n) × (pos < p.pos) × (p.pos ≤ length (get_or elided n [])))
      ⊎ ((n < p.linenum) × (p.linenum < length elided))
unfolding close_expression
close_expression_bounds elided n pos p h e =
    outcome (find_end_of_expression_in_line (get_or elided n []) pos []) refl
      (find_end_of_expression_in_line-Within (get_or elided n []) pos [] h)
  where
    outcome :
        (o : Outcome)
        → find_end_of_expression_in_line (get_or elided n []) pos [] ≡ o
        → Within
            (pos + 1)
            (length (get_or elided n []))
            (find_end_of_expression_in_line (get_or elided n []) pos [])
        → ((p.linenum ≡ n) × (pos < p.pos) × (p.pos ≤ length (get_or elided n [])))
          ⊎ ((n < p.linenum) × (p.linenum < length elided))
    outcome (found f) is w = let w' = rw is at w in ground (arith, e, is, w')
    outcome lost is w = ground (arith, e, is)
    outcome (open_stack s) is w =
        let later : close_later (drop (n + 1) elided) (n + 1) s ≡ some p = ground (arith, e, is) in
        inr (
          omega (
            arith,
            close_later-linenum (drop (n + 1) elided) (n + 1) s p later,
            length-drop (n + 1) elided,
          ))
