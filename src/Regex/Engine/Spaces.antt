-- ===== src/Regex/Engine/Spaces.antt =====
-- `^(\s*)\S` matches every text that has a character other than white space.
use nwtool.Base.{
  ltb, if◌then◌else◌, Bool-cases, Option-cases, is_some, length, take, Text, is_space, ℕ, zero, suc,
  ◌+◌, ◌-◌, ◌<◌, ◌≡◌, refl, ap, ◌∙◌, inl, inr, Bool, true, false, not, ◌||◌, none, some, List, [],
  ◌∷◌, arith,
}
use nwtool.Regex.Syntax.{
  Item, space, not_space, Regex, empty, class, seq, star, capture, begin_text, in_item,
}
use nwtool.Regex.Engine.{
  Place, Next, run, rounds, in_class, step_class, match_place, match_regex, place,
}

abbrev pub has_ink : Text → Bool
has_ink [] = false
has_ink (c ∷ cs) = not (is_space c) || has_ink cs

abbrev pub spaces : Regex
spaces = class false (space ∷ [])

moved : Place → ℕ → Text → Place
moved s c cs = record s { at = s.at + 1; prev = some c; rest = cs }

run-class :
    (neg : Bool) (items : List Item) (k : Next) (s : Place) (c : ℕ) (cs : Text)
    → s.rest ≡ c ∷ cs
    → (if neg then not (in_class items c) else in_class items c) ≡ true
    → run (class neg items) k s ≡ k (moved s c cs)
unfolding run moved
run-class neg items k s c cs e h =
    ap (step_class neg items k s) e ∙ ap (λ (b : Bool). if b then k (moved s c cs) else none) h

abbrev guarded : ℕ → (Next → Next) → Next → Place → Next
guarded f go k s s' = elim (ltb s.at s'.at) [ true ↦ rounds true f go k s' | false ↦ none ]

rounds-more :
    (f : ℕ) (go : Next → Next) (k : Next) (s : Place)
    → is_some (go (guarded f go k s) s) ≡ true
    → is_some (rounds true (suc f) go k s) ≡ true
unfolding rounds
rounds-more f go k s h = elim (Option-cases (go (guarded f go k s) s)) [
  | inl e ↦ absurd (ground (arith, e))
  | inr (r, e) ↦ rw (e, rounds)
]

rounds-stop :
    (f : ℕ) (go : Next → Next) (k : Next) (s : Place)
    → is_some (k s) ≡ true
    → is_some (rounds true (suc f) go k s) ≡ true
unfolding rounds
rounds-stop f go k s h = elim (Option-cases (go (guarded f go k s) s)) [
  | inl e ↦ rw (e, rounds) h
  | inr (r, e) ↦ rw (e, rounds)
]

guarded-moved :
    (f : ℕ) (go : Next → Next) (k : Next) (s : Place) (c : ℕ) (cs : Text)
    → guarded f go k s (moved s c cs) ≡ rounds true f go k (moved s c cs)
unfolding moved
guarded-moved f go k s c cs = ground arith

skip_spaces :
    (f : ℕ) (k : Next)
    → ((u : Place) (c : ℕ) (cs : Text)
        → u.rest ≡ c ∷ cs
        → is_space c ≡ false
        → is_some (k u) ≡ true)
    → (s : Place) (rest : Text) → s.rest ≡ rest
    → has_ink rest ≡ true
    → length rest < f
    → is_some (rounds true f (run spaces) k s) ≡ true
skip_spaces zero k ink s rest e h l = absurd (omega arith)
skip_spaces (suc f) k ink s [] e h l = cc
skip_spaces (suc f) k ink s (c ∷ cs) e h l = elim (Bool-cases (is_space c)) [
  | inl blank ↦ rounds-more f (run spaces) k s (
      rw
        (
          run-class false (space ∷ []) (guarded f (run spaces) k s) s c cs e (in_spaces c blank),
          guarded-moved f (run spaces) k s c cs,
        )
        (skip_spaces f k ink (moved s c cs) cs (rest_moved s c cs) (ground arith) (omega arith)))
  | inr dark ↦ rounds-stop f (run spaces) k s (ink s c cs e dark)
]
  where
    in_spaces : (d : ℕ) → is_space d ≡ true → in_class (space ∷ []) d ≡ true
    in_spaces d b = unfold in_class in_item in rw b

    rest_moved : (t : Place) (d : ℕ) (ds : Text) → (moved t d ds).rest ≡ ds
    rest_moved t d ds = unfold moved in refl

abbrev pub leading_space : Regex
leading_space =
    seq begin_text
      (seq (capture 1 (seq (star true spaces) empty)) (seq (class false (not_space ∷ [])) empty))

abbrev finish_leading : Place → Next
finish_leading s u =
    run (seq (class false (not_space ∷ [])) empty) some
      (record u { groups = (1, take (u.at - s.at) s.rest) ∷ u.groups })

finish_leading-ink :
    (s u : Place) (c : ℕ) (cs : Text)
    → u.rest ≡ c ∷ cs
    → is_space c ≡ false
    → is_some (finish_leading s u) ≡ true
unfolding run in_class in_item
finish_leading-ink s u c cs e dark =
    ap
      (λ (r : Text). is_some (
        step_class false (not_space ∷ []) some
          (record u { groups = (1, take (u.at - s.at) s.rest) ∷ u.groups }) r))
      e
    ∙ rw dark

run-leading_space :
    (s : Text) → has_ink s ≡ true → is_some (run leading_space some (place 0 none s)) ≡ true
unfolding run
run-leading_space s h =
    skip_spaces (length s + 1) (finish_leading (place 0 none s))
      (finish_leading-ink (place 0 none s)) (place 0 none s) s refl h (omega arith)

-- A text that is not all white space has a leading space in the sense of `^(\s*)\S`.
pub match_leading_space :
    (s : Text) → has_ink s ≡ true → is_some (match_regex leading_space s) ≡ true
unfolding match_regex match_place
match_leading_space s h = elim (Option-cases (run leading_space some (place 0 none s))) [
  | inl e ↦ absurd (ground (arith, e, run-leading_space s h))
  | inr (r, e) ↦ ground (arith, e)
]
