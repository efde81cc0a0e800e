-- ===== src/Base/Strings.antt =====
-- Python's `str` as a list of code points: the methods that the tools call.
use Prim.Native.Nat.{ℕ, zero, suc, ◌+◌, ◌-◌}
use Prim.Native.Char.{code}
use Prim.Native.String.{String}
use mathlib.Core.Path.{◌≡◌}
use mathlib.Core.Logic.{◌↔◌}
use mathlib.Core.Bool.{Bool, true, false, ◌&&◌, ◌||◌}
use mathlib.Core.Option.{Option, none, some}
use mathlib.Core.Option
use mathlib.Core.List.{List, [], ◌∷◌, ◌++◌, map, reverse}
use native.Mathlib.Omega.{arith}
use nwtool.Base.Tests.{ltb, leb, ◌==◌, if◌then◌else◌}
use nwtool.Base.Lists.{length}

abbrev pub Text : Type 0
Text = List ℕ

-- A literal.
abbrev pub txt : String → Text
txt String.[] = []
txt (String.◌∷◌ c s) = code c ∷ txt s

-- `a == b` on strings.
unfoldable pub text_eq : Text → Text → Bool
text_eq [] [] = true
text_eq (x ∷ xs) (y ∷ ys) = x == y && text_eq xs ys
text_eq _ _ = false

pub text_eq_iff : (a b : Text) → (text_eq a b ≡ true) ↔ (a ≡ b)
unfolding text_eq
text_eq_iff (x ∷ a) (y ∷ b) = ground (arith, text_eq_iff a b)
text_eq_iff _ _ = ground arith

-- `s in (a, b, …)` on strings.
unfoldable pub one_of : Text → List Text → Bool
unfolding text_eq
one_of s [] = false
one_of s (x ∷ xs) = text_eq x s || one_of s xs

-- `a > b` on strings, by code points.
unfoldable pub text_gt : Text → Text → Bool
text_gt [] b = false
text_gt (x ∷ a) [] = true
text_gt (x ∷ a) (y ∷ b) = ltb y x || (x == y && text_gt a b)

unfoldable pub starts_with : Text → Text → Bool
starts_with s [] = true
starts_with [] (p ∷ ps) = false
starts_with (c ∷ s) (p ∷ ps) = c == p && starts_with s ps

unfoldable pub ends_with : Text → Text → Bool
unfolding starts_with
ends_with s p = starts_with (reverse s) (reverse p)

-- `c in 'abc'` for a character.
unfoldable pub char_in : ℕ → Text → Bool
char_in c [] = false
char_in c (x ∷ xs) = c == x || char_in c xs

-- `s.find(p)`, with `none` for -1.
unfoldable pub find : Text → Text → Option ℕ
unfolding starts_with
find [] p = if starts_with [] p then some 0 else none
find (c ∷ s) p = if starts_with (c ∷ s) p then some 0 else Option.map suc (find s p)

-- `s.count(p)` for a text `p` that is not empty; the number says how much to skip.
count_from : ℕ → Text → Text → ℕ
unfolding starts_with
count_from skip [] p = 0
count_from (suc skip) (c ∷ s) p = count_from skip s p
count_from zero (c ∷ s) p =
    let here = starts_with (c ∷ s) p in
    (if here then 1 else 0) + count_from (if here then length p - 1 else 0) s p

unfoldable pub count : Text → Text → ℕ
unfolding count_from
count = count_from 0

-- `s.replace(p, r)` for a text `p` that is not empty.
replace_from : ℕ → Text → Text → Text → Text
unfolding starts_with
replace_from skip [] p r = []
replace_from (suc skip) (c ∷ s) p r = replace_from skip s p r
replace_from zero (c ∷ s) p r =
    let here = starts_with (c ∷ s) p in
    (if here then r else c ∷ []) ++ replace_from (if here then length p - 1 else 0) s p r

unfoldable pub replace : Text → Text → Text → Text
unfolding replace_from
replace = replace_from 0

-- `str.isspace` of one character.
unfoldable pub is_space : ℕ → Bool
is_space c =
    (leb 9 c && leb c 13)
    || (leb 28 c && leb c 32)
    || c == 0x85
    || c == 0xa0
    || c == 0x1680
    || (leb 0x2000 c && leb c 0x200a)
    || c == 0x2028
    || c == 0x2029
    || c == 0x202f
    || c == 0x205f
    || c == 0x3000

unfoldable pub lstrip : Text → Text
unfolding is_space
lstrip [] = []
lstrip (c ∷ s) = if is_space c then lstrip s else c ∷ s

unfoldable pub rstrip : Text → Text
unfolding lstrip
rstrip s = reverse (lstrip (reverse s))

unfoldable pub strip : Text → Text
unfolding lstrip rstrip
strip s = rstrip (lstrip s)

add_to_first : ℕ → List Text → List Text
add_to_first c [] = (c ∷ []) ∷ []
add_to_first c (w ∷ ws) = (c ∷ w) ∷ ws

-- `s.split(d)` for a separator of one character.
unfoldable pub split : ℕ → Text → List Text
unfolding add_to_first
split d [] = [] ∷ []
split d (c ∷ s) = let rest = split d s in if c == d then [] ∷ rest else add_to_first c rest

-- `s.split(d)[0]`.
unfoldable pub before_char : ℕ → Text → Text
before_char d [] = []
before_char d (c ∷ s) = if c == d then [] else c ∷ before_char d s

-- `s.lower()`, on ASCII letters.
unfoldable pub lower : Text → Text
lower = map (λ c. if leb b'A' c && leb c b'Z' then c + 32 else c)

-- `s.split()`: the words, with what is read of the current one, last character first.
unfoldable pub words_from : Text → Text → List Text
unfolding is_space
words_from [] [] = []
words_from (c ∷ w) [] = reverse (c ∷ w) ∷ []
words_from w (c ∷ s) = elim (is_space c) [
  | false ↦ words_from (c ∷ w) s
  | true ↦ elim w [ [] ↦ words_from [] s | d ∷ v ↦ reverse (d ∷ v) ∷ words_from [] s ]
]

unfoldable pub words : Text → List Text
unfolding words_from
words s = words_from [] s

-- `d.join(ws)` for a separator of one character.
unfoldable pub join_with : ℕ → List Text → Text
join_with d [] = []
join_with d (w ∷ []) = w
join_with d (w ∷ v ∷ ws) = w ++ (d ∷ join_with d (v ∷ ws))

-- `s.upper()`, on ASCII letters.
unfoldable pub upper : Text → Text
upper = map (λ c. if leb b'a' c && leb c b'z' then c - 32 else c)

-- `p in s` on strings.
unfoldable pub contains : Text → Text → Bool
unfolding find
contains s p = elim (find s p) [ none ↦ false | some i ↦ true ]

-- `s.rfind(c)` for one character, with `none` for -1.
unfoldable pub rfind : Text → ℕ → Option ℕ
rfind [] c = none
rfind (x ∷ s) c = elim (rfind s c) [
  | some i ↦ some (suc i)
  | none ↦ if x == c then some 0 else none
]
