-- ===== src/Brackets/Backward.antt =====
-- `ReverseCloseExpression` finds the bracket that opens an expression.
use mathlib.Core.List.{append_assoc}
use nwtool.Base.{
  length, get_or, drop, All, length-append, drop-append, drop_next, drop-drop, Text, txt, char_in,
  ℕ, zero, suc, ◌+◌, ◌≡◌, refl, ap, ◌∙◌, true, Option, none, some, List, [], ◌∷◌, ◌++◌, arith,
}
use nwtool.Brackets.Balanced.{is_close, is_plain, Balanced, nil, plain, block}
use nwtool.Brackets.{
  Outcome, found, lost, open_stack, go, stop, drop_pending, pop_or, start_step, start_loop,
  find_start_of_expression_in_line, reverse_close_expression, open_earlier, Place, is_pair,
}

-- No pending `>`.
abbrev Solid : List ℕ → Type 0
Solid s = All (λ x. is_close x ≡ true) s

drop_pending-Solid : (s : List ℕ) → Solid s → drop_pending b'>' s ≡ s
unfolding drop_pending is_close
drop_pending-Solid [] h = refl
drop_pending-Solid (x ∷ xs) h = ground arith

start_step-plain :
    (line : Text) (i c x : ℕ) (s : List ℕ)
    → is_plain c ≡ true
    → Solid (x ∷ s)
    → start_step line i c (x ∷ s) ≡ go (x ∷ s)
unfolding start_step is_plain
start_step-plain line i c x s h k = ground (arith, drop_pending-Solid (x ∷ s) k)

start_step-close :
    (line : Text) (i c : ℕ) (s : List ℕ) → is_close c ≡ true → start_step line i c s ≡ go (c ∷ s)
unfolding start_step is_close
start_step-close line i c s h = ground arith

start_step-open :
    (line : Text) (i o c : ℕ) (s : List ℕ)
    → is_pair o c ≡ true
    → Solid (c ∷ s)
    → start_step line i o (c ∷ s) ≡ pop_or (found i) (c ∷ s)
unfolding start_step is_pair
start_step-open line i o c s h k = ground (arith, drop_pending-Solid (c ∷ s) k)

start_loop-go :
    (line : Text) (i c : ℕ) (s t : List ℕ)
    → get_or line i 0 ≡ c
    → start_step line i c s ≡ go t
    → start_loop line (suc i) s ≡ start_loop line i t
unfolding start_loop
start_loop-go line zero c s t g e = rw (g, e)
start_loop-go line (suc i) c s t g e = rw (g, e)

start_loop-stop :
    (line : Text) (i c : ℕ) (s : List ℕ) (o : Outcome)
    → get_or line i 0 ≡ c
    → start_step line i c s ≡ stop o
    → start_loop line (suc i) s ≡ o
unfolding start_loop
start_loop-stop line zero c s o g e = rw (g, e)
start_loop-stop line (suc i) c s o g e = rw (g, e)

is_pair-is_close : (o c : ℕ) → is_pair o c ≡ true → is_close c ≡ true
unfolding is_pair is_close
is_pair-is_close o c h = ground arith

pop_or-more : (r : Outcome) (o x : ℕ) (s : List ℕ) → pop_or r (o ∷ x ∷ s) ≡ go (x ∷ s)
unfolding pop_or
pop_or-more r o x s = refl

pop_or-last : (r : Outcome) (o : ℕ) → pop_or r (o ∷ []) ≡ stop r
unfolding pop_or
pop_or-last r o = refl

-- Over well-nested text the scan comes back to the stack with which it began.
start_loop-Balanced :
    {u : Text} (line : Text) (b j x : ℕ) (rest : Text) (s : List ℕ)
    → Balanced u
    → drop b line ≡ u ++ rest
    → Solid (x ∷ s)
    → j ≡ b + length u
    → start_loop line j (x ∷ s) ≡ start_loop line b (x ∷ s)
start_loop-Balanced line b j x rest s nil e h j_is = let same : j ≡ b = omega arith in rw same
start_loop-Balanced line b j x rest s (plain {c} {cs} p q) e h j_is =
    let (c_is, rest_is) = drop_next line b 0 c (cs ++ rest) e in
    start_loop-Balanced line (suc b) j x rest s q rest_is h (omega arith)
    ∙ start_loop-go line b c (x ∷ s) (x ∷ s) c_is (start_step-plain line b c x s p h)
start_loop-Balanced {u} line b j x rest s (block o c inner cs u_is pair p q) e h j_is =
    let (o_is, inner_is) =
      drop_next line b 0 o (inner ++ c ∷ (cs ++ rest))
        (e ∙ rw u_is (ap (◌∷◌ o) (append_assoc inner (c ∷ cs) rest))) in
    let k = suc b + length inner in
    let (c_is, cs_is) =
      drop_next line k 0 c (cs ++ rest)
        (drop-drop inner (c ∷ (cs ++ rest)) line (suc b) inner_is) in
    start_loop-Balanced line (suc k) j x rest s q cs_is h
      (omega (arith, j_is, ap length u_is, length-append inner (c ∷ cs)))
    ∙ start_loop-go line k c (x ∷ s) (c ∷ x ∷ s) c_is
        (start_step-close line k c (x ∷ s) (is_pair-is_close o c pair))
    ∙ start_loop-Balanced line (suc b) k c (c ∷ (cs ++ rest)) (x ∷ s) p inner_is
        (is_pair-is_close o c pair, h) refl
    ∙ start_loop-go line b o (c ∷ x ∷ s) (x ∷ s) o_is (
        start_step-open line b o c (x ∷ s) pair (is_pair-is_close o c pair, h)
        ∙ pop_or-more _ c x s)

is_close-char_in : (c : ℕ) → is_close c ≡ true → char_in c (txt ")}]>") ≡ true
unfolding is_close char_in
is_close-char_in c h = ground arith

abbrev resume : List Text → ℕ → Outcome → Option Place
resume elided n (found e) = some (record { linenum = n; pos = e })
resume elided n lost = none
resume elided n (open_stack stack) = open_earlier elided n stack

-- From the closing bracket of a well-nested expression on one line, `ReverseCloseExpression`
-- returns its opening bracket, whatever stands before and behind the expression. The text in
-- between holds no `<` and no `>`.
pub reverse_close_expression-Balanced :
    (elided : List Text) (n o c : ℕ) (before inner after : Text) (more : List Text)
    → drop n elided ≡ (before ++ o ∷ (inner ++ c ∷ after)) ∷ more
    → is_pair o c ≡ true
    → Balanced inner
    → reverse_close_expression elided n (length before + length inner + 1)
      ≡ some (record { linenum = n; pos = length before })
unfolding reverse_close_expression find_start_of_expression_in_line
reverse_close_expression-Balanced elided n o c before inner after more e pair b =
    let line = before ++ o ∷ (inner ++ c ∷ after) in
    let lb = length before in
    let (line_is, _) = drop_next elided n [] line more e in
    let (o_is, inner_is) = drop_next line lb 0 o (inner ++ c ∷ after) (drop-append before _) in
    let k = suc lb + length inner in
    let (c_is, _) =
      drop_next line k 0 c after (drop-drop inner (c ∷ after) line (suc lb) inner_is) in
    let at_c : lb + length inner + 1 ≡ k = omega arith in
    let next : k + 1 ≡ suc k = omega arith in
    let shut = is_pair-is_close o c pair in
    let scanned : start_loop line (suc k) [] ≡ found lb =
      start_loop-go line k c [] (c ∷ []) c_is (start_step-close line k c [] shut)
      ∙ start_loop-Balanced line (suc lb) k c (c ∷ after) [] b inner_is (shut, tt) refl
      ∙ start_loop-stop line lb o (c ∷ []) (found lb) o_is
          (start_step-open line lb o c [] pair (shut, tt) ∙ pop_or-last _ c) in
    rw (at_c, line_is, c_is, is_close-char_in c shut, next) (ap (resume elided n) scanned)
