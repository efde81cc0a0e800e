-- ===== src/Nesting/Template/Total.antt =====
-- `InTemplateArgumentList` ends.
use nwtool.Base.{
  leb, Bool-cases, Option-cases, length, get_or, drop, length-drop, Text, ℕ, zero, suc, ◌+◌, ◌-◌,
  ◌≤◌, ◌<◌, ◌≡◌, refl, inl, inr, Bool, false, Option, none, some, List, [], ◌∷◌, arith,
}
use nwtool.Regex.{match, MatchResult}
use nwtool.Regex.Lengths.{tree, match-whole}
use nwtool.Cleanse.Strings.{group_text}
use nwtool.Brackets.Scan.{close_expression_bounds}
use nwtool.Brackets.{Place, close_expression}
use nwtool.Nesting.Template.{
  argument_token, Round, answer, go_on, argument_step, argument_round, argument_loop, size,
  in_template_argument_list,
}

-- The characters and line ends that are left at a place.
abbrev measure : List Text → ℕ → ℕ → ℕ
measure elided l p =
    (length (get_or elided l []) - p) + (size (drop l elided) - length (get_or elided l []))

argument_token_whole :
    (line : Text) (m : MatchResult)
    → match argument_token line ≡ some m
    → (1 ≤ length m.whole) × (length m.whole ≤ length line)
unfolding tree
argument_token_whole line m h = match-whole argument_token line m refl h

size_next :
    (ls : List Text) (l : ℕ)
    → l < length ls
    → size (drop l ls) ≡ length (get_or ls l []) + 1 + size (drop (suc l) ls)
unfolding size
size_next [] l h = absurd (omega arith)
size_next (x ∷ ls) zero h = refl
size_next (x ∷ ls) (suc l) h = size_next ls l (omega arith)

size_later : (ls : List Text) (l k : ℕ) → l ≤ k → size (drop k ls) ≤ size (drop l ls)
unfolding size
size_later ls zero zero h = omega arith
size_later ls (suc l) zero h = absurd (omega arith)
size_later [] zero (suc k) h = omega arith
size_later [] (suc l) (suc k) h = omega arith
size_later (x ∷ ls) zero (suc k) h = omega (arith, size_later ls zero k (omega arith))
size_later (x ∷ ls) (suc l) (suc k) h = size_later ls l k (omega arith)

size_line : (ls : List Text) (l : ℕ) → length (get_or ls l []) ≤ size (drop l ls)
unfolding size
size_line [] zero = omega arith
size_line [] (suc l) = omega arith
size_line (x ∷ ls) zero = omega arith
size_line (x ∷ ls) (suc l) = size_line ls l

-- Every place on a later line has less before it.
later_line :
    (elided : List Text) (l p l' p' : ℕ)
    → l < length elided
    → l < l'
    → measure elided l' p' < measure elided l p
later_line elided l p l' p' h later =
    omega
      (arith, size_next elided l h, size_later elided (suc l) l' (omega arith), size_line elided l')

-- A place behind on the same line has less before it.
same_line :
    (elided : List Text) (l p p' : ℕ)
    → p < p'
    → p < length (get_or elided l [])
    → measure elided l p' < measure elided l p
same_line elided l p p' h inside = omega arith

argument_step-later :
    (elided : List Text) (l p q : ℕ) (token : Text) (l' p' : ℕ)
    → l < length elided
    → p < q
    → q ≤ length (get_or elided l [])
    → argument_step elided l q token ≡ go_on l' p'
    → measure elided l' p' < measure elided l p
unfolding argument_step
argument_step-later elided l p q token l' p' h behind inside e =
    outcome (close_expression elided l (q - 1)) refl
  where
    outcome :
        (o : Option Place)
        → close_expression elided l (q - 1) ≡ o
        → measure elided l' p' < measure elided l p
    outcome none is = ground (arith, e, is, later_line elided l p l' p' h, same_line elided l p p')
    outcome (some place) is = ground (
      arith,
      e,
      is,
      later_line elided l p l' p' h,
      same_line elided l p p',
      close_expression_bounds elided l (q - 1) place (omega arith) is,
    )

argument_round-later :
    (elided : List Text) (l p l' p' : ℕ)
    → l < length elided
    → argument_round elided l p ≡ go_on l' p'
    → measure elided l' p' < measure elided l p
unfolding argument_round
argument_round-later elided l p l' p' h e =
    elim (Option-cases (match argument_token (drop p (get_or elided l [])))) [
      | inl none_is ↦ later_line elided l p l' p' h (ground (arith, e, none_is))
      | inr (m, is) ↦
          let bounds = argument_token_whole (drop p (get_or elided l [])) m is in
          let whole_is = length-drop p (get_or elided l []) in
          argument_step-later elided l p (p + length m.whole) (group_text 1 m) l' p' h
            (omega (arith, bounds)) (omega (arith, bounds, whole_is)) (ground (arith, e, is))
    ]

pub argument_loop-total :
    (f : ℕ) (elided : List Text) (l p : ℕ)
    → measure elided l p < f
    → (b : Bool) × (argument_loop f elided l p ≡ some b)
unfolding argument_loop
argument_loop-total zero elided l p h = absurd (omega arith)
argument_loop-total (suc f) elided l p h = elim (Bool-cases (leb (length elided) l)) [
  | inl outside ↦ (false, rw (outside, argument_loop))
  | inr inside ↦
      outcome (argument_round elided l p) refl inside (ground (arith, inside))
        (argument_loop-total f elided)
]
  where
    outcome :
        (r : Round)
        → argument_round elided l p ≡ r
        → leb (length elided) l ≡ false
        → l < length elided
        → ((l' p' : ℕ)
            → measure elided l' p' < f
            → (b : Bool) × (argument_loop f elided l' p' ≡ some b))
        → (b : Bool) × (argument_loop (suc f) elided l p ≡ some b)
    outcome (answer b) is test inside ih = (b, rw (test, is, argument_loop))
    outcome (go_on l' p') is test inside ih =
        let (b, runs) = ih l' p' (omega (arith, argument_round-later elided l p l' p' inside is)) in
        (b, rw (test, is, argument_loop, runs))

-- `InTemplateArgumentList` ends with an answer, from every position of every line, also one behind
-- the line's end.
pub in_template_argument_list-total :
    (elided : List Text) (linenum pos : ℕ)
    → (b : Bool) × (in_template_argument_list elided linenum pos ≡ some b)
unfolding in_template_argument_list
in_template_argument_list-total elided linenum pos =
    argument_loop-total (size elided + 2) elided linenum pos
      (omega (arith, size_line elided linenum, size_later elided 0 linenum (omega arith)))
