-- ===== src/Regex/Engine/Groups.antt =====
-- How long the groups of a match can be.
use nwtool.Base.{
  leb, if◌then◌else◌, length, take, length-append, length-take, Text, ℕ, ◌+◌, ◌-◌, ◌≤◌, ◌≡◌, refl,
  ap, ◌∙◌, ◌≢◌, some, List, [], ◌∷◌, arith,
}
use nwtool.Regex.Syntax.{Regex, empty, class, seq, alt, star, capture, begin_text, end_text, ahead}
use nwtool.Regex.Engine.Sound.{
  Reads, nothing, one, both, left, right, stop, round, group, begins, ends, between, looks, again,
  Reads-moves,
}
use nwtool.Regex.Engine.{Place, lookup_group}

-- The least number of characters that a pattern takes.
abbrev pub min_width : Regex → ℕ
min_width (class _ _) = 1
min_width (seq a b) = min_width a + min_width b
min_width (alt a b) = if leb (min_width a) (min_width b) then min_width a else min_width b
min_width (capture _ r) = min_width r
min_width _ = 0

pub Reads-min_width : {r : Regex} {s t : Place} → Reads r s t → s.at + min_width r ≤ t.at
Reads-min_width nothing = omega arith
Reads-min_width (one c cs r a e) = ground arith
Reads-min_width (both u p q) = omega (arith, Reads-min_width p, Reads-min_width q)
Reads-min_width (left p) = ground (arith, Reads-min_width p)
Reads-min_width (right p) = ground (arith, Reads-min_width p)
Reads-min_width stop = omega arith
Reads-min_width (round u p q) = omega (arith, Reads-min_width p, Reads-min_width q)
Reads-min_width (group u p e) = ground (arith, Reads-min_width p)
Reads-min_width begins = omega arith
Reads-min_width ends = omega arith
Reads-min_width between = omega arith
Reads-min_width (looks gs e) = ground arith
Reads-min_width (again u v e m) = ground arith

-- The pattern does not touch group `n`.
abbrev pub Avoids : ℕ → Regex → Type 0
Avoids n (seq a b) = Avoids n a × Avoids n b
Avoids n (alt a b) = Avoids n a × Avoids n b
Avoids n (star _ r) = Avoids n r
Avoids n (capture m r) = (m ≢ n) × Avoids n r
Avoids n (ahead _ _) = ⊥
Avoids n _ = Unit {0}

lookup_group-ne :
    (n m : ℕ) (x : Text) (gs : List (ℕ × Text))
    → m ≢ n
    → lookup_group n ((m, x) ∷ gs) ≡ lookup_group n gs
unfolding lookup_group
lookup_group-ne n m x gs h = ground arith

lookup_group_self :
    (n : ℕ) (x : Text) (gs : List (ℕ × Text)) → lookup_group n ((n, x) ∷ gs) ≡ some x
unfolding lookup_group
lookup_group_self n x gs = ground arith

pub Reads-lookup :
    {r : Regex} {s t : Place} (n : ℕ)
    → Reads r s t
    → Avoids n r
    → lookup_group n t.groups ≡ lookup_group n s.groups
Reads-lookup n nothing a = refl
Reads-lookup n (one c cs r k e) a = ap (λ (p : Place). lookup_group n p.groups) e
Reads-lookup n (both u p q) a = Reads-lookup n q a.1 ∙ Reads-lookup n p a.0
Reads-lookup n (left p) a = Reads-lookup n p a.0
Reads-lookup n (right p) a = Reads-lookup n p a.1
Reads-lookup n stop a = refl
Reads-lookup n (round u p q) a = Reads-lookup n q a ∙ Reads-lookup n p a
Reads-lookup n (group u p e) a =
    ap (λ (p : Place). lookup_group n p.groups) e
    ∙ lookup_group-ne n _ _ _ a.0
    ∙ Reads-lookup n p a.1
Reads-lookup n begins a = refl
Reads-lookup n ends a = refl
Reads-lookup n between a = refl
Reads-lookup n (looks gs e) a = absurd a
Reads-lookup n (again u v e m) a = ap (λ (p : Place). lookup_group n p.groups) m

-- Patterns in a row.
abbrev pub spine : List Regex → Regex → Regex
spine [] r = r
spine (p ∷ ps) r = seq p (spine ps r)

abbrev pub row_width : List Regex → ℕ
row_width [] = 0
row_width (p ∷ ps) = min_width p + row_width ps

Reads-spine :
    (ps : List Regex) (r : Regex) (s t : Place)
    → Reads (spine ps r) s t
    → (u : Place) × (s.at + row_width ps ≤ u.at)
      × Reads r u t
      × (u.at + length u.rest ≡ s.at + length s.rest)
Reads-spine [] r s t p = (s, omega arith, p, refl)
Reads-spine (q ∷ ps) r s t (both u p rest) =
    let (v, far, reads, same) = Reads-spine ps r u t rest in
    let (x, xr, xa) = Reads-moves p in
    (
      v,
      omega (arith, Reads-min_width p, far),
      reads,
      omega (arith, same, xa, ap length xr, length-append x u.rest),
    )

Reads-capture :
    (n : ℕ) (r : Regex) (s t : Place)
    → Reads (capture n r) s t
    → (lookup_group n t.groups ≡ some (take (t.at - s.at) s.rest))
unfolding lookup_group
Reads-capture n r s t (group u p e) = ground arith

-- The last group, `(…)$` at the end of the pattern, leaves out what the patterns before it take.
pub Reads-last_group :
    (ps : List Regex) (n : ℕ) (r : Regex) (s t : Place)
    → Reads (spine ps (seq (capture n r) (seq end_text empty))) s t
    → (g : Text) × (lookup_group n t.groups ≡ some g) × (length g + row_width ps ≤ length s.rest)
Reads-last_group ps n r s t p =
    let (u, far, reads, same) = Reads-spine ps (seq (capture n r) (seq end_text empty)) s t p in
    let (g, is, short) = last u reads in (g, is, omega arith)
  where
    last :
        (u : Place)
        → Reads (seq (capture n r) (seq end_text empty)) u t
        → (g : Text) × (lookup_group n t.groups ≡ some g) × (length g ≤ length u.rest)
    last u (both v q (both w ends nothing)) = (
      take (v.at - u.at) u.rest,
      Reads-capture n r u v q,
      omega (arith, length-take (v.at - u.at) u.rest),
    )

-- A pattern `^(…)` that a row of patterns and a last group follow: the first and the last group,
-- which no other part touches, leave out what the row takes.
pub Reads-ends_groups :
    (a : Regex) (ps : List Regex) (n : ℕ) (r : Regex) (s t : Place)
    → Avoids 1 (spine ps (seq (capture n r) (seq end_text empty)))
    → Reads
        (seq begin_text (seq (capture 1 a) (spine ps (seq (capture n r) (seq end_text empty)))))
        s
        t
    → (f g : Text) × (lookup_group 1 t.groups ≡ some f)
      × (lookup_group n t.groups ≡ some g)
      × (length f + length g + row_width ps ≤ length s.rest)
Reads-ends_groups a ps n r s t av (both u begins (both v p q)) =
    let (g, is, short) = Reads-last_group ps n r v t q in
    let (x, xr, xa) = Reads-moves p in
    (
      take (v.at - s.at) s.rest,
      g,
      Reads-lookup 1 q av ∙ Reads-capture 1 a s v p,
      is,
      omega (arith, length-take (v.at - s.at) s.rest, ap length xr, length-append x v.rest),
    )
