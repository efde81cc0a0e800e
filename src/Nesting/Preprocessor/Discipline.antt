-- ===== src/Nesting/Preprocessor/Discipline.antt =====
-- What is left of the stack behind a whole `#if` … `#endif`.
use nwtool.Base.{if◌then◌else◌, Text, ◌≡◌, refl, ap, ◌∙◌, true, false, List, [], ◌∷◌, ◌++◌, arith}
use nwtool.Nesting.Blocks.{Block, NestingState, PreprocessorInfo}
use nwtool.Nesting.Preprocessor.{
  opens, alternates, closes, other, directive, apply_directive, update_preprocessor,
}

-- A step of the parser: a line for the preprocessor, or any change of the stack by other text.
pub data Event : Type 0 where
  line : Text → Event
  change : (List Block → List Block) → Event

pub step : NestingState → Event → NestingState
step s (line l) = update_preprocessor s l
step s (change f) = record s { stack = f s.stack }

pub run : NestingState → List Event → NestingState
run s [] = s
run s (e ∷ es) = run (step s e) es

run-append : (s : NestingState) (xs ys : List Event) → run s (xs ++ ys) ≡ run (run s xs) ys
unfolding run
run-append s [] ys = refl
run-append s (x ∷ xs) ys = run-append (step s x) xs ys

mutual
  -- Steps in which every `#if` has its `#endif`, and no `#else` stands outside of one.
  pub data Nested : List Event → Type 0 where
    done : Nested []
    plain : {es : List Event} (l : Text) → directive l ≡ other → Nested es → Nested (line l ∷ es)
    moves : {es : List Event} (f : List Block → List Block) → Nested es → Nested (change f ∷ es)
    conditional :
        {all es body : List Event} (l : Text)
        → directive l ≡ opens
        → Branches body
        → all ≡ line l ∷ (body ++ es)
        → Nested es
        → Nested all

  -- The branches of a conditional, from behind its `#if` to its `#endif`.
  pub data Branches : List Event → Type 0 where
    last :
        {all es : List Event} (l : Text)
        → directive l ≡ closes
        → Nested es
        → all ≡ es ++ line l ∷ []
        → Branches all
    more :
        {all es body : List Event} (l : Text)
        → directive l ≡ alternates
        → Nested es
        → Branches body
        → all ≡ es ++ line l ∷ body
        → Branches all

unfoldable mutual
  -- The change of the stack by the text that is outside of conditionals or in a first branch.
  pub effect : {es : List Event} → Nested es → List Block → List Block
  effect done s = s
  effect (plain l h n) s = effect n s
  effect (moves f n) s = effect n (f s)
  effect (conditional l h b e n) s = effect n (first_branch b s)

  pub first_branch : {es : List Event} → Branches es → List Block → List Block
  first_branch (last l h n e) s = effect n s
  first_branch (more l h n b e) s = effect n s

abbrev in_branch :
    PreprocessorInfo → List PreprocessorInfo → NestingState → List Block → NestingState
in_branch p ps s k = record s { stack = k; pp_stack = p ∷ ps }

abbrev with_else : PreprocessorInfo → List Block → PreprocessorInfo
with_else p k = if p.seen_else then p else record p { seen_else = true; stack_before_else = k }

-- The stack behind the conditional whose branches begin with the stack `k`.
abbrev result : PreprocessorInfo → List Block → List Block
result p k = if p.seen_else then p.stack_before_else else k

step-alternates :
    (p : PreprocessorInfo) (ps : List PreprocessorInfo) (s : NestingState) (k : List Block)
    (l : Text)
    → directive l ≡ alternates
    → step (in_branch p ps s k) (line l) ≡ in_branch (with_else p k) ps s p.stack_before_if
unfolding step update_preprocessor apply_directive
step-alternates p ps s k l h = rw h

step-closes :
    (p : PreprocessorInfo) (ps : List PreprocessorInfo) (s : NestingState) (k : List Block)
    (l : Text)
    → directive l ≡ closes
    → step (in_branch p ps s k) (line l) ≡ record s { stack = result p k; pp_stack = ps }
unfolding step update_preprocessor apply_directive
step-closes p ps s k l h = rw h

result-with_else : (p : PreprocessorInfo) (k j : List Block) → result (with_else p k) j ≡ result p k
result-with_else p k j = ground arith

abbrev opened : NestingState → PreprocessorInfo
opened s = record { stack_before_if = s.stack; stack_before_else = []; seen_else = false }

step-opens :
    (s : NestingState) (l : Text)
    → directive l ≡ opens
    → step s (line l) ≡ in_branch (opened s) s.pp_stack s s.stack
unfolding step update_preprocessor apply_directive
step-opens s l h = rw h

step-other : (s : NestingState) (l : Text) → directive l ≡ other → step s (line l) ≡ s
unfolding step update_preprocessor apply_directive
step-other s l h = rw h

step-change :
    (s : NestingState) (f : List Block → List Block)
    → step s (change f) ≡ record s { stack = f s.stack }
unfolding step
step-change s f = refl

mutual
  unfolding run effect first_branch

  run-effect :
      {es : List Event} (d : Nested es) (s : NestingState)
      → run s es ≡ record s { stack = effect d s.stack }
  run-effect done s = refl
  run-effect (plain {es} l h n) s = ap (λ u. run u es) (step-other s l h) ∙ run-effect n s
  run-effect (moves {es} f n) s =
      ap (λ u. run u es) (step-change s f) ∙ run-effect n (record s { stack = f s.stack })
  run-effect (conditional {es = es} {body = body} l h b e n) s =
      ap (run s) e
      ∙ ap (λ u. run u (body ++ es)) (step-opens s l h)
      ∙ run-append (in_branch (opened s) s.pp_stack s s.stack) body es
      ∙ ap (λ u. run u es) (run-first_branch b (opened s) s.pp_stack s s.stack)
      ∙ run-effect n (record s { stack = first_branch b s.stack })

  run-first_branch :
      {es : List Event} (b : Branches es) (p : PreprocessorInfo) (ps : List PreprocessorInfo)
      (s : NestingState) (k : List Block)
      → run (in_branch p ps s k) es
        ≡ record s { stack = result p (first_branch b k); pp_stack = ps }
  run-first_branch (last {es = es} l h n e) p ps s k =
      ap (run (in_branch p ps s k)) e
      ∙ run-append (in_branch p ps s k) es (line l ∷ [])
      ∙ ap (λ u. run u (line l ∷ [])) (run-effect n (in_branch p ps s k))
      ∙ step-closes p ps s (effect n k) l h
  run-first_branch (more {es = es} {body = body} l h n b e) p ps s k =
      ap (run (in_branch p ps s k)) e
      ∙ run-append (in_branch p ps s k) es (line l ∷ body)
      ∙ ap (λ u. run (step u (line l)) body) (run-effect n (in_branch p ps s k))
      ∙ ap (λ u. run u body) (step-alternates p ps s (effect n k) l h)
      ∙ run-first_branch b (with_else p (effect n k)) ps s p.stack_before_if
      ∙ ap (λ r. record s { stack = r; pp_stack = ps })
          (result-with_else p (effect n k) (first_branch b p.stack_before_if))

-- Over text whose `#if`, `#else` and `#endif` lines are well nested, to any depth, the parser's
-- stack changes as if only the first branch of every conditional stood there, and the stack of open
-- conditionals is as before: what the other branches open or close leaves no trace.
pub run-Nested :
    {es : List Event} (d : Nested es) (s : NestingState)
    → run s es ≡ record s { stack = effect d s.stack }
run-Nested d s = run-effect d s
