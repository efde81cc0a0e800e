-- ===== src/Regex/Engine/Sound.antt =====
-- What a match says of the text: the matcher's result is a reading of the text by the pattern.
use mathlib.Core.List.{append_assoc}
use nwtool.Base.{
  ltb, if◌then◌else◌, Bool-cases, Option-cases, length, take, drop, length-append, Text,
  starts_with, ℕ, zero, suc, ◌+◌, ◌-◌, ◌≡◌, refl, sym, ap, ◌∙◌, ◌⊎◌, inl, inr, Bool, true, false,
  not, Option, none, some, List, [], ◌∷◌, ◌++◌, arith,
}
use nwtool.Regex.Syntax.{Item, Regex}
use nwtool.Regex.Engine.{
  Place, Next, run, rounds, in_class, step_class, MatchResult, match_place, match_regex, place,
  behind, lookup_group,
}

-- A reading of a piece of the text by a pattern, from one place to a later one. Of `^`, `$`, `\b`
-- and look-ahead it keeps only that they consume nothing.
pub data Reads : Regex → Place → Place → Type 0 where
  nothing : {s : Place} → Reads Regex.empty s s
  one :
      {neg : Bool} {items : List Item} {s t : Place} (c : ℕ) (cs : Text)
      → s.rest ≡ c ∷ cs
      → (if neg then not (in_class items c) else in_class items c) ≡ true
      → t ≡ record s { at = s.at + 1; prev = some c; rest = cs }
      → Reads (Regex.class neg items) s t
  both :
      {a b : Regex} {s t : Place} (u : Place)
      → Reads a s u
      → Reads b u t
      → Reads (Regex.seq a b) s t
  left : {a b : Regex} {s t : Place} → Reads a s t → Reads (Regex.alt a b) s t
  right : {a b : Regex} {s t : Place} → Reads b s t → Reads (Regex.alt a b) s t
  stop : {g : Bool} {r : Regex} {s : Place} → Reads (Regex.star g r) s s
  round :
      {g : Bool} {r : Regex} {s t : Place} (u : Place)
      → Reads r s u
      → Reads (Regex.star g r) u t
      → Reads (Regex.star g r) s t
  group :
      {n : ℕ} {r : Regex} {s t : Place} (u : Place)
      → Reads r s u
      → t ≡ record u { groups = (n, take (u.at - s.at) s.rest) ∷ u.groups }
      → Reads (Regex.capture n r) s t
  begins : {s : Place} → Reads Regex.begin_text s s
  ends : {s : Place} → Reads Regex.end_text s s
  between : {s : Place} → Reads Regex.boundary s s
  looks :
      {b : Bool} {r : Regex} {s t : Place} (gs : List (ℕ × Text))
      → t ≡ record s { groups = gs }
      → Reads (Regex.ahead b r) s t
  again :
      {n : ℕ} {s t : Place} (u v : Text)
      → s.rest ≡ u ++ v
      → t ≡ record (behind s u) { rest = v }
      → Reads (Regex.back n) s t

-- A continuation that succeeded, behind a reading.
abbrev Ends : Regex → Next → Place → Place → Type 0
Ends r k s e = (t : Place) × Reads r s t × (k t ≡ some e)

abbrev Sound : Regex → (Next → Next) → Type 0
Sound r go = (k : Next) (s e : Place) → go k s ≡ some e → Ends r k s e

or_else-some :
    (o d : Option Place) {e : Place}
    → (elim o [ some r ↦ some r | none ↦ d ]) ≡ some e
    → (o ≡ some e) ⊎ (d ≡ some e)
or_else-some none d h = inr h
or_else-some (some r) d h = inl h

when-some :
    (b : Bool) (o : Option Place) {e : Place}
    → (elim b [ true ↦ o | false ↦ none ]) ≡ some e
    → (b ≡ true) × (o ≡ some e)
when-some true o h = (refl, h)
when-some false o h = cc

rounds-Sound :
    (g : Bool) (f : ℕ) (r : Regex) (go : Next → Next)
    → Sound r go
    → Sound (Regex.star g r) (rounds g f go)
unfolding rounds
rounds-Sound g zero r go sound k s e h = (s, stop, h)
rounds-Sound true (suc f) r go sound k s e h = elim (or_else-some (go _ s) (k s) h) [
  | inr done ↦ (s, stop, done)
  | inl more ↦
      let (t, reads, next) = sound _ s e more in
      let (_, later) = when-some (ltb s.at t.at) (rounds true f go k t) next in
      let (u, rest, end) = rounds-Sound true f r go sound k t e later in
      (u, round t reads rest, end)
]
rounds-Sound false (suc f) r go sound k s e h = elim (or_else-some (k s) (go _ s) h) [
  | inl done ↦ (s, stop, done)
  | inr more ↦
      let (t, reads, next) = sound _ s e more in
      let (_, later) = when-some (ltb s.at t.at) (rounds false f go k t) next in
      let (u, rest, end) = rounds-Sound false f r go sound k t e later in
      (u, round t reads rest, end)
]

starts_with-drop : (s t : Text) → starts_with s t ≡ true → s ≡ t ++ drop (length t) s
unfolding starts_with
starts_with-drop s [] h = refl
starts_with-drop [] (c ∷ t) h = cc
starts_with-drop (d ∷ s) (c ∷ t) h = ground (arith, starts_with-drop s t)

step_class-Sound :
    (neg : Bool) (items : List Item) (k : Next) (s e : Place) (rest : Text)
    → s.rest ≡ rest
    → step_class neg items k s rest ≡ some e
    → Ends (Regex.class neg items) k s e
step_class-Sound neg items k s e [] r h = absurd (cc)
step_class-Sound neg items k s e (c ∷ cs) r h =
    elim (Bool-cases (if neg then not (in_class items c) else in_class items c)) [
      | inl yes_in ↦ (
        record s { at = s.at + 1; prev = some c; rest = cs },
        one c cs r yes_in refl,
        ground (arith, yes_in),
      )
      | inr not_in ↦ absurd (ground (arith, not_in))
    ]

pub run-Sound : (r : Regex) → Sound r (run r)
unfolding run
run-Sound Regex.empty k s e h = (s, nothing, h)
run-Sound (Regex.class neg items) k s e h = step_class-Sound neg items k s e s.rest refl h
run-Sound (Regex.seq a b) k s e h =
    let (u, first_part, next) = run-Sound a (run b k) s e h in
    let (t, second_part, end) = run-Sound b k u e next in (t, both u first_part second_part, end)
run-Sound (Regex.alt a b) k s e h = elim (or_else-some (run a k s) (run b k s) h) [
  | inl in_a ↦ let (t, reads, end) = run-Sound a k s e in_a in (t, left reads, end)
  | inr in_b ↦ let (t, reads, end) = run-Sound b k s e in_b in (t, right reads, end)
]
run-Sound (Regex.star g r) k s e h =
    rounds-Sound g (length s.rest + 1) r (run r) (run-Sound r) k s e h
run-Sound (Regex.capture n r) k s e h =
    let (u, reads, end) = run-Sound r _ s e h in
    (record u { groups = (n, take (u.at - s.at) s.rest) ∷ u.groups }, group u reads refl, end)
run-Sound Regex.begin_text k s e h = (s, begins, (when-some _ (k s) h).1)
run-Sound Regex.end_text k s e h = (s, ends, (when-some _ (k s) h).1)
run-Sound Regex.boundary k s e h = (s, between, (when-some _ (k s) h).1)
run-Sound (Regex.ahead true r) k s e h = elim (Option-cases (run r some s)) [
  | inl fails ↦ absurd (ground (arith, fails))
  | inr (t, e') ↦ (record s { groups = t.groups }, looks t.groups refl, ground (arith, e'))
]
run-Sound (Regex.ahead false r) k s e h = elim (Option-cases (run r some s)) [
  | inl fails ↦ (s, looks s.groups refl, ground (arith, fails))
  | inr (t, e') ↦ absurd (ground (arith, e'))
]
run-Sound (Regex.back n) k s e h = elim (Option-cases (lookup_group n s.groups)) [
  | inl fails ↦ absurd (ground (arith, fails))
  | inr (t, found) ↦
      let (here, goes) =
        when-some (starts_with s.rest t) (k (behind s t)) (ground (arith, found)) in
      (behind s t, again t (drop (length t) s.rest) (starts_with-drop s.rest t here) refl, goes)
]

-- A reading moves over a piece of the text.
pub Reads-moves :
    {r : Regex} {s t : Place}
    → Reads r s t
    → (u : Text) × (s.rest ≡ u ++ t.rest) × (t.at ≡ s.at + length u)
Reads-moves nothing = ([], refl, omega arith)
Reads-moves (one c cs r a e) = (c ∷ [], ground arith, ground arith)
Reads-moves (both u p q) =
    let (x, xr, xa) = Reads-moves p in
    let (y, yr, ya) = Reads-moves q in
    (
      x ++ y,
      xr ∙ ap (λ v. x ++ v) yr ∙ sym (append_assoc x y _),
      omega (arith, xa, ya, length-append x y),
    )
Reads-moves (left p) = Reads-moves p
Reads-moves (right p) = Reads-moves p
Reads-moves stop = ([], refl, omega arith)
Reads-moves (round u p q) =
    let (x, xr, xa) = Reads-moves p in
    let (y, yr, ya) = Reads-moves q in
    (
      x ++ y,
      xr ∙ ap (λ v. x ++ v) yr ∙ sym (append_assoc x y _),
      omega (arith, xa, ya, length-append x y),
    )
Reads-moves (group u p e) =
    let (x, xr, xa) = Reads-moves p in (x, ground (arith, xr), ground (arith, xa))
Reads-moves begins = ([], refl, omega arith)
Reads-moves ends = ([], refl, omega arith)
Reads-moves between = ([], refl, omega arith)
Reads-moves (looks gs e) = ([], ground arith, ground arith)
Reads-moves (again u v e m) = (u, ground (arith, e), ground arith)

-- A match from the beginning of a text.
pub match_regex-Reads :
    (r : Regex) (s : Text) (m : MatchResult)
    → match_regex r s ≡ some m
    → (t : Place) × Reads r (place 0 none s) t
      × (m.groups ≡ t.groups)
      × (m.whole ≡ take (t.at - 0) s)
unfolding match_regex match_place
match_regex-Reads r s m h = elim (Option-cases (run r some (place 0 none s))) [
  | inl fails ↦ absurd (ground (arith, fails))
  | inr (t, e) ↦
      let (u, reads, same) = run-Sound r some (place 0 none s) t e in
      (u, reads, ground (arith, e), ground (arith, e))
]
