-- ===== src/Regex/Lengths.antt =====
-- Bounds on the groups of `Match`, for a pattern given by its text.
use nwtool.Base.{
  length, take, length-append, length-take, Text, ℕ, zero, suc, ◌+◌, ◌-◌, ◌≤◌, ◌≡◌, ap, ◌∙◌, none,
  some, List, [], ◌∷◌, arith,
}
use nwtool.Regex.Syntax.{Regex, empty, seq, capture, begin_text, end_text}
use nwtool.Regex.Engine.Sound.{Reads, match_regex-Reads, Reads-moves}
use nwtool.Regex.Engine.Groups.{
  spine, row_width, Avoids, Reads-last_group, Reads-ends_groups, min_width, Reads-min_width,
}
use nwtool.Regex.Engine.{MatchResult, lookup_group, place, Place, group}
use nwtool.Regex.{compile, match}

-- The tree of a pattern that can be read.
unfoldable pub tree : Text → Regex
unfolding compile
tree p = elim (compile p) [ none ↦ empty | some r ↦ r ]

-- The first `k` parts of a pattern, and what follows them.
abbrev pub row : ℕ → Regex → List Regex
row zero r = []
row (suc k) (seq a b) = a ∷ row k b
row (suc k) _ = []

abbrev pub after : ℕ → Regex → Regex
after zero r = r
after (suc k) (seq a b) = after k b
after (suc k) r = r

abbrev pub inner : Regex → Regex
inner (seq (capture _ r) _) = r
inner r = r

match-Reads :
    (p s : Text) (m : MatchResult)
    → compile p ≡ some (tree p)
    → match p s ≡ some m
    → (t : Place) × Reads (tree p) (place 0 none s) t
      × (m.groups ≡ t.groups)
      × (m.whole ≡ take (t.at - 0) s)
unfolding match
match-Reads p s m c h = match_regex-Reads (tree p) s m (rw c at h)

-- A last group `(…)$` behind `k` parts, which take at least `row_width` characters.
pub match-last_group :
    (p s : Text) (k n : ℕ) (m : MatchResult)
    → compile p ≡ some (tree p)
    → tree p
      ≡ spine (row k (tree p)) (seq (capture n (inner (after k (tree p)))) (seq end_text empty))
    → match p s ≡ some m
    → (g : Text) × (group n m ≡ some g) × (length g + row_width (row k (tree p)) ≤ length s)
unfolding group
match-last_group p s k n m c shape h =
    let (t, reads, same, _) = match-Reads p s m c h in
    let (g, is, short) =
      Reads-last_group (row k (tree p)) n (inner (after k (tree p))) (place 0 none s) t
        (rw shape at reads) in
    (g, ap (lookup_group n) same ∙ is, short)

-- A first group `^(…)` besides.
pub match-ends_groups :
    (p s : Text) (k n : ℕ) (m : MatchResult)
    → let parts = row k (after 2 (tree p)) in
      let last = seq (capture n (inner (after (suc (suc k)) (tree p)))) (seq end_text empty) in
      compile p ≡ some (tree p)
      → tree p ≡ seq begin_text (seq (capture 1 (inner (after 1 (tree p)))) (spine parts last))
      → Avoids 1 (spine parts last)
      → match p s ≡ some m
      → (f g : Text) × (group 1 m ≡ some f)
        × (group n m ≡ some g)
        × (length f + length g + row_width parts ≤ length s)
unfolding group
match-ends_groups p s k n m c shape av h =
    let parts = row k (after 2 (tree p)) in
    let (t, reads, same, _) = match-Reads p s m c h in
    let (f, g, first_is, last_is, short) =
      Reads-ends_groups (inner (after 1 (tree p))) parts n (inner (after (suc (suc k)) (tree p)))
        (place 0 none s) t av (rw shape at reads) in
    (f, g, ap (lookup_group 1) same ∙ first_is, ap (lookup_group n) same ∙ last_is, short)

-- The whole match is a piece of the text, and takes what every match of the pattern takes.
pub match-whole :
    (p s : Text) (m : MatchResult)
    → compile p ≡ some (tree p)
    → match p s ≡ some m
    → (min_width (tree p) ≤ length m.whole) × (length m.whole ≤ length s)
match-whole p s m c h =
    let (t, reads, _, whole_is) = match-Reads p s m c h in
    let (x, moved, at_is) = Reads-moves reads in
    let whole_length : length m.whole ≡ length x = omega (
      arith,
      ap length whole_is,
      length-take (t.at - 0) s,
      at_is,
      ap length moved,
      length-append x t.rest,
    ) in
    (
      omega (arith, Reads-min_width reads, at_is),
      omega (arith, ap length moved, length-append x t.rest),
    )
