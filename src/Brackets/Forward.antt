-- ===== src/Brackets/Forward.antt =====
-- `CloseExpression` finds the bracket that closes an expression.
use mathlib.Core.List.{append-nil}
use nwtool.Base.{
  length, drop, All, drop-append, get_or-append, drop_next, Text, txt, char_in, ℕ, zero, suc, ◌+◌,
  ◌≡◌, refl, sym, ap, ◌∙◌, ◌≢◌, true, false, Option, none, some, List, [], ◌∷◌, ◌++◌, arith,
}
use nwtool.Regex.{matches}
use nwtool.Brackets.Balanced.{
  is_open, is_plain, Tracks, nil, plain, enter, leave, Balanced, Balanced-Tracks, is_pair-is_open,
  Closes, here, later,
}
use nwtool.Brackets.{
  Outcome, found, lost, open_stack, go, stop, drop_pending, pop_or, end_step, end_loop,
  find_end_of_expression_in_line, close_later, close_expression, Place, is_pair,
}

-- No pending `<`.
abbrev pub Solid : List ℕ → Type 0
Solid s = All (λ x. is_open x ≡ true) s

drop_pending-Solid : (s : List ℕ) → Solid s → drop_pending b'<' s ≡ s
unfolding drop_pending is_open
drop_pending-Solid [] h = refl
drop_pending-Solid (x ∷ xs) h = ground arith

end_step-plain :
    (line : Text) (i c : ℕ) (s : List ℕ)
    → is_plain c ≡ true
    → s ≢ []
    → Solid s
    → end_step line i c s ≡ go s
unfolding end_step is_plain
end_step-plain line i c [] h ne k = absurd (ne refl)
end_step-plain line i c (x ∷ s) h ne k = ground (arith, drop_pending-Solid (x ∷ s) k)

end_step-open :
    (line : Text) (i c : ℕ) (s : List ℕ) → is_open c ≡ true → end_step line i c s ≡ go (c ∷ s)
unfolding end_step is_open
end_step-open line i c s h = ground arith

end_step-close :
    (line : Text) (i o c : ℕ) (s : List ℕ)
    → is_pair o c ≡ true
    → Solid (o ∷ s)
    → end_step line i c (o ∷ s) ≡ pop_or (found (i + 1)) (o ∷ s)
unfolding end_step is_pair
end_step-close line i o c s h k = ground (arith, drop_pending-Solid (o ∷ s) k)

cons-ne : (x : ℕ) (s : List ℕ) → x ∷ s ≢ []
cons-ne x s e = cc

end_loop-go :
    (line : Text) (i c : ℕ) (cs : Text) (s t : List ℕ)
    → end_step line i c s ≡ go t
    → end_loop line i (c ∷ cs) s ≡ end_loop line (i + 1) cs t
unfolding end_loop
end_loop-go line i c cs s t e = rw e

end_loop-stop :
    (line : Text) (i c : ℕ) (cs : Text) (s : List ℕ) (o : Outcome)
    → end_step line i c s ≡ stop o
    → end_loop line i (c ∷ cs) s ≡ o
unfolding end_loop
end_loop-stop line i c cs s o e = rw e

pop_or-more : (r : Outcome) (o x : ℕ) (s : List ℕ) → pop_or r (o ∷ x ∷ s) ≡ go (x ∷ s)
unfolding pop_or
pop_or-more r o x s = refl

pop_or-last : (r : Outcome) (o : ℕ) → pop_or r (o ∷ []) ≡ stop r
unfolding pop_or
pop_or-last r o = refl

end_loop-nil : (line : Text) (i : ℕ) (s : List ℕ) → end_loop line i [] s ≡ open_stack s
unfolding end_loop
end_loop-nil line i s = refl

-- The scan keeps the stack of the open brackets.
end_loop-Tracks :
    {w : Text} {s t : List ℕ} (line : Text) (i j : ℕ) (rest : Text)
    → Tracks w s t
    → s ≢ []
    → Solid s
    → i + length w ≡ j
    → (end_loop line i (w ++ rest) s ≡ end_loop line j rest t) × Solid t × (t ≢ [])
end_loop-Tracks line i j rest (nil {s}) ne h e =
    let e' : i ≡ j = omega arith in (ap (λ k. end_loop line k rest s) e', h, ne)
end_loop-Tracks line i j rest (plain {c} {cs} {s} p q) ne h e =
    let ih = end_loop-Tracks line (i + 1) j rest q ne h (omega arith) in
    (end_loop-go line i c _ s s (end_step-plain line i c s p ne h) ∙ ih.0, ih.1, ih.2)
end_loop-Tracks line i j rest (enter {c} {cs} {s} p q) ne h e =
    let ih = end_loop-Tracks line (i + 1) j rest q (cons-ne c s) (p, h) (omega arith) in
    (end_loop-go line i c _ s (c ∷ s) (end_step-open line i c s p) ∙ ih.0, ih.1, ih.2)
end_loop-Tracks line i j rest (leave {c} {o} {x} {cs} {s} p q) ne h e =
    let ih = end_loop-Tracks line (i + 1) j rest q (cons-ne x s) h.1 (omega arith) in
    (
      end_loop-go line i c _ (o ∷ x ∷ s) (x ∷ s)
            (end_step-close line i o c (x ∷ s) p h ∙ pop_or-more _ o x s)
          ∙ ih.0,
      ih.1,
      ih.2,
    )

-- The character that closes the last open bracket ends the scan behind it.
end_loop-closes :
    {w : Text} {s : List ℕ} {o : ℕ} (line : Text) (i c : ℕ) (rest : Text)
    → Tracks w s (o ∷ [])
    → s ≢ []
    → Solid s
    → is_pair o c ≡ true
    → end_loop line i (w ++ c ∷ rest) s ≡ found (i + length w + 1)
end_loop-closes {w} {s} {o} line i c rest q ne h p =
    let (run, solid, _) = end_loop-Tracks line i (i + length w) (c ∷ rest) q ne h refl in
    run
    ∙ end_loop-stop line (i + length w) c rest (o ∷ []) _
        (end_step-close line (i + length w) o c [] p solid ∙ pop_or-last _ o)

close_later-found :
    (line : Text) (more : List Text) (k e y : ℕ) (s : List ℕ)
    → find_end_of_expression_in_line line 0 (y ∷ s) ≡ found e
    → close_later (line ∷ more) k (y ∷ s) ≡ some (record { linenum = k; pos = e })
unfolding close_later
close_later-found line more k e y s h = rw (h, close_later)

close_later-open :
    (line : Text) (more : List Text) (k y : ℕ) (s t : List ℕ)
    → find_end_of_expression_in_line line 0 (y ∷ s) ≡ open_stack t
    → close_later (line ∷ more) k (y ∷ s) ≡ close_later more (k + 1) t
unfolding close_later
close_later-open line more k y s t h = rw (h, close_later)

find_end-Tracks :
    {w : Text} {s t : List ℕ}
    → Tracks w s t
    → s ≢ []
    → Solid s
    → (find_end_of_expression_in_line w 0 s ≡ open_stack t) × Solid t × (t ≢ [])
unfolding find_end_of_expression_in_line end_loop
find_end-Tracks {w} {s} {t} q ne h =
    let (run, solid, ne') = end_loop-Tracks w 0 (0 + length w) [] q ne h refl in
    (ap (λ v. end_loop w 0 v s) (sym (append-nil w)) ∙ run, solid, ne')

close_later-Closes :
    {lines : List Text} {s : List ℕ} {n p : ℕ} (k m : ℕ)
    → Closes lines s n p
    → s ≢ []
    → Solid s
    → k + n ≡ m
    → close_later lines k s ≡ some (record { linenum = m; pos = p })
close_later-Closes {s = []} k m r ne h e = absurd (ne refl)
close_later-Closes {s = y ∷ s} k m (here {line} {more} {p = pos} w rest o c e' ep q p) ne h e =
    let e0 : k ≡ m = omega arith in
    let at_end = end_loop-closes line 0 c rest q ne h p ∙ ap found (sym (ep ∙ omega arith)) in
    close_later-found line more k pos y s
      (unfold find_end_of_expression_in_line in ap (λ v. end_loop line 0 v (y ∷ s)) e' ∙ at_end)
    ∙ rw e0
close_later-Closes {s = y ∷ s} k m (later {w} {more} x t q r) ne h e =
    let (run, solid, ne') = find_end-Tracks q ne h in
    close_later-open w more k y s (x ∷ t) run
    ∙ close_later-Closes (k + 1) m r ne' solid (omega arith)

not_shift : (o : ℕ) (rest : Text) → is_open o ≡ true → matches (txt "<[<=]") (o ∷ rest) ≡ false
unfolding matches is_open
not_shift o rest h = ground arith

is_open-char_in : (o : ℕ) → is_open o ≡ true → char_in o (txt "({[<") ≡ true
unfolding is_open char_in
is_open-char_in o h = ground arith

abbrev resume : ℕ → List Text → Outcome → Option Place
resume n more (found e) = some (record { linenum = n; pos = e })
resume n more lost = none
resume n more (open_stack stack) = close_later more (n + 1) stack

-- What follows the opening bracket is scanned on its line, and then on the later lines.
close_expression_start :
    (elided : List Text) (n o : ℕ) (before rest : Text) (more : List Text)
    → drop n elided ≡ (before ++ o ∷ rest) ∷ more
    → is_open o ≡ true
    → close_expression elided n (length before)
      ≡ resume n more (end_loop (before ++ o ∷ rest) (length before + 1) rest (o ∷ []))
unfolding close_expression find_end_of_expression_in_line
close_expression_start elided n o before rest more e h =
    let (line_is, more_is) = drop_next elided n [] (before ++ o ∷ rest) more e in
    let next : n + 1 ≡ suc n = omega arith in
    let later_lines : drop (n + 1) elided ≡ more = rw next more_is in
    rw
      (
        line_is,
        get_or-append before rest o 0,
        is_open-char_in o h,
        drop-append before (o ∷ rest),
        not_shift o rest h,
        end_loop-go (before ++ o ∷ rest) (length before) o rest [] (o ∷ [])
            (end_step-open (before ++ o ∷ rest) (length before) o [] h),
      )
      (ap (λ ls. resume n ls (end_loop (before ++ o ∷ rest) (length before + 1) rest (o ∷ [])))
        later_lines)

-- The position of the end, for an end in the line of the beginning.
abbrev pub shifted : ℕ → ℕ → ℕ → ℕ
shifted zero b p = b + 1 + p
shifted (suc k) b p = p

-- Where the brackets of the text behind an opening bracket close it, by their own structure and
-- over any number of lines, `CloseExpression` returns that line and the position behind the
-- closing bracket, whatever follows there. The text in between holds no `<` and no `>`.
pub close_expression-Closes :
    (elided : List Text) (n o k p : ℕ) (before rest : Text) (more : List Text)
    → drop n elided ≡ (before ++ o ∷ rest) ∷ more
    → is_open o ≡ true
    → Closes (rest ∷ more) (o ∷ []) k p
    → close_expression elided n (length before)
      ≡ some (record { linenum = n + k; pos = shifted k (length before) p })
close_expression-Closes elided n o zero p before rest more e h (here w after o' c e' ep q pair) =
    let line = before ++ o ∷ rest in
    let end = end_loop-closes line (length before + 1) c after q (cons-ne o []) (h, tt) pair in
    let n0 : n + 0 ≡ n = omega arith in
    let at_p : length before + 1 + length w + 1 ≡ length before + 1 + p = omega arith in
    close_expression_start elided n o before rest more e h
    ∙ ap (resume n more) (ap (λ v. end_loop line (length before + 1) v (o ∷ [])) e' ∙ end)
    ∙ rw (n0, at_p)
close_expression-Closes elided n o (suc k) p before rest more e h (later x t q r) =
    let line = before ++ o ∷ rest in
    let i = length before + 1 in
    let (run, solid, ne) =
      end_loop-Tracks line i (i + length rest) [] q (cons-ne o []) (h, tt) refl in
    close_expression_start elided n o before rest more e h
    ∙ ap (resume n more)
        (ap (λ v. end_loop line i v (o ∷ [])) (sym (append-nil rest)) ∙ run ∙ end_loop-nil line _ _)
    ∙ close_later-Closes (n + 1) (n + suc k) r ne solid (omega arith)

-- From the opening bracket of a well-nested expression on one line, `CloseExpression` returns the
-- position behind its closing bracket, whatever stands before and behind the expression. The text in
-- between holds no `<` and no `>`.
close_expression-Balanced :
    (elided : List Text) (n o c : ℕ) (before inner after : Text) (more : List Text)
    → drop n elided ≡ (before ++ o ∷ (inner ++ c ∷ after)) ∷ more
    → is_pair o c ≡ true
    → Balanced inner
    → close_expression elided n (length before)
      ≡ some (record { linenum = n; pos = length before + length inner + 2 })
close_expression-Balanced elided n o c before inner after more e pair b =
    let n0 : n + 0 ≡ n = omega arith in
    let at_p : length before + 1 + (length inner + 1) ≡ length before + length inner + 2 =
      omega arith in
    close_expression-Closes elided n o zero (length inner + 1) before (inner ++ c ∷ after) more e
      (is_pair-is_open o c pair) (here inner after o c refl refl (Balanced-Tracks o [] b) pair)
    ∙ rw (n0, at_p)
