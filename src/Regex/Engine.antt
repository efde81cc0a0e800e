-- ===== src/Regex/Engine.antt =====
-- The backtracking matcher: `run r k s` matches `r` at `s`, then asks `k` to match the rest.
pub mod Sound
pub mod Groups
pub mod Spaces
use nwtool.Base.{
  ltb, ◌==◌, if◌then◌else◌, is_some, length, take, drop, last?, Text, starts_with, ℕ, zero, suc,
  ◌+◌, ◌-◌, Bool, true, false, not, ◌||◌, Option, none, some, List, [], ◌∷◌, ◌++◌,
}
use nwtool.Regex.Syntax.{
  Item, Regex, empty, class, seq, alt, star, capture, begin_text, end_text, boundary, ahead, back,
  is_word, in_item,
}

-- A place in the text: what stands before and behind, and the groups matched so far, last first.
pub record Place : Type 0 where
  pub at : ℕ
  pub prev : Option ℕ
  pub rest : Text
  pub groups : List (ℕ × Text)

abbrev pub Next : Type 0
Next = Place → Option Place

unfoldable pub in_class : List Item → ℕ → Bool
unfolding in_item
in_class [] c = false
in_class (i ∷ is) c = in_item c i || in_class is c

abbrev step_class : Bool → List Item → Next → Place → Text → Option Place
step_class neg items k s [] = none
step_class neg items k s (c ∷ cs) =
    let go = k (record s { at = s.at + 1; prev = some c; rest = cs }) in
    let inside = in_class items c in if (if neg then not inside else inside) then go else none

word_at : Option ℕ → Bool
unfolding is_word
word_at none = false
word_at (some c) = is_word c

first : Text → Option ℕ
first [] = none
first (c ∷ cs) = some c

-- `$` without MULTILINE: at the end, or before a last newline.
at_end : Text → Bool
at_end [] = true
at_end (c ∷ []) = c == 10
at_end _ = false

-- Rounds of a star. A round that consumes nothing ends the repetition.
rounds : Bool → ℕ → (Next → Next) → Next → Next
rounds greedy zero body k s = k s
rounds true (suc f) body k s =
    elim (body (λ s'. elim (ltb s.at s'.at) [ true ↦ rounds true f body k s' | false ↦ none ]) s) [
      | some r ↦ some r
      | none ↦ k s
    ]
rounds false (suc f) body k s = elim (k s) [
  | some r ↦ some r
  | none ↦ body (λ s'. elim (ltb s.at s'.at) [ true ↦ rounds false f body k s' | false ↦ none ]) s
]

-- The group `n` of a place or of a match.
unfoldable pub lookup_group : ℕ → List (ℕ × Text) → Option Text
lookup_group n [] = none
lookup_group n ((m, t) ∷ gs) = if m == n then some t else lookup_group n gs

-- The place behind a text that stands at a place.
abbrev pub behind : Place → Text → Place
behind s t = record s {
  at = s.at + length t;
  prev = elim (last? t) [ none ↦ s.prev | some c ↦ some c ];
  rest = drop (length t) s.rest;
}

pub run : Regex → Next → Next
unfolding in_class word_at first at_end rounds lookup_group starts_with
run empty k s = k s
run (class neg items) k s = step_class neg items k s s.rest
run (seq a b) k s = run a (run b k) s
run (alt a b) k s = elim (run a k s) [ some r ↦ some r | none ↦ run b k s ]
run (star greedy r) k s = rounds greedy (length s.rest + 1) (run r) k s
run (capture n r) k s =
    run r (λ s'. k (record s' { groups = (n, take (s'.at - s.at) s.rest) ∷ s'.groups })) s
run begin_text k s = elim (s.at == 0) [ true ↦ k s | false ↦ none ]
run end_text k s = elim (at_end s.rest) [ true ↦ k s | false ↦ none ]
run boundary k s =
    let here = word_at (first s.rest) in
    elim (if word_at s.prev then not here else here) [ true ↦ k s | false ↦ none ]
run (ahead true r) k s = elim (run r some s) [
  | some s' ↦ k (record s { groups = s'.groups })
  | none ↦ none
]
run (ahead false r) k s = elim (run r some s) [ some _ ↦ none | none ↦ k s ]
run (back n) k s = elim (lookup_group n s.groups) [
  | none ↦ none
  | some t ↦ elim (starts_with s.rest t) [ true ↦ k (behind s t) | false ↦ none ]
]

-- A match object: where it starts and stops, its text, what follows, and its groups.
pub record MatchResult : Type 0 where
  pub start : ℕ
  pub stop : ℕ
  pub whole : Text
  pub after : Text
  pub groups : List (ℕ × Text)

-- `match.group(n)`, for n from 1; `none` is `None`.
unfoldable pub group : ℕ → MatchResult → Option Text
unfolding lookup_group
group n m = lookup_group n m.groups

match_place : Regex → Place → Option MatchResult
unfolding run
match_place r s = elim (run r some s) [
  | none ↦ none
  | some e ↦ some (record {
    start = s.at;
    stop = e.at;
    whole = take (e.at - s.at) s.rest;
    after = e.rest;
    groups = e.groups;
  })
]

abbrev pub place : ℕ → Option ℕ → Text → Place
place at prev rest = record { at = at; prev = prev; rest = rest; groups = [] }

unfoldable pub match_regex : Regex → Text → Option MatchResult
unfolding match_place
match_regex r s = match_place r (place 0 none s)

search_from : Regex → ℕ → Option ℕ → Text → Option MatchResult
unfolding match_place
search_from r at prev [] = match_place r (place at prev [])
search_from r at prev (c ∷ cs) = elim (match_place r (place at prev (c ∷ cs))) [
  | some m ↦ some m
  | none ↦ search_from r (at + 1) (some c) cs
]

unfoldable pub search_regex : Regex → Text → Option MatchResult
unfolding search_from
search_regex r s = search_from r 0 none s

-- `re.sub`: the number says how many characters the last match still covers.
sub_from : Regex → Text → ℕ → ℕ → Option ℕ → Text → Text
unfolding match_place
sub_from r rep at skip prev [] = elim skip [
  | suc _ ↦ []
  | zero ↦ if is_some (match_place r (place at prev [])) then rep else []
]
sub_from r rep at (suc skip) prev (c ∷ cs) = sub_from r rep (at + 1) skip (some c) cs
sub_from r rep at zero prev (c ∷ cs) = elim (match_place r (place at prev (c ∷ cs))) [
  | none ↦ c ∷ sub_from r rep (at + 1) 0 (some c) cs
  | some m ↦ elim (m.stop - m.start) [
    | zero ↦ rep ++ (c ∷ sub_from r rep (at + 1) 0 (some c) cs)
    | suc n ↦ rep ++ sub_from r rep (at + 1) n (some c) cs
  ]
]

unfoldable pub sub_regex : Regex → Text → Text → Text
unfolding sub_from
sub_regex r rep s = sub_from r rep 0 0 none s

-- `re.finditer`, in the same way, for a pattern that matches no empty text.
find_all_from : Regex → ℕ → ℕ → Option ℕ → Text → List MatchResult
unfolding match_place
find_all_from r at skip prev [] = []
find_all_from r at (suc skip) prev (c ∷ cs) = find_all_from r (at + 1) skip (some c) cs
find_all_from r at zero prev (c ∷ cs) = elim (match_place r (place at prev (c ∷ cs))) [
  | none ↦ find_all_from r (at + 1) 0 (some c) cs
  | some m ↦ m ∷ find_all_from r (at + 1) (m.stop - m.start - 1) (some c) cs
]

unfoldable pub find_all_regex : Regex → Text → List MatchResult
unfolding find_all_from
find_all_regex r s = find_all_from r 0 0 none s
