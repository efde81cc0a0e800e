-- ===== src/Language/Inside.antt =====
-- `_GetTextInside`, from behind the match of its pattern: the loop over the positions.
pub mod Nested
use nwtool.Base.{◌==◌, if◌then◌else◌, Text, txt, char_in, ℕ, Option, none, some, List, [], ◌∷◌}

-- `matching_punctuation`
unfoldable pub matching_punctuation : ℕ → ℕ
matching_punctuation c = if c == b'(' then b')' else if c == b'{' then b'}' else b']'

-- One more character in front.
abbrev pub with_char : ℕ → Option Text → Option Text
with_char c none = none
with_char c (some t) = some (c ∷ t)

-- The text up to the one that closes the last punctuation on the stack, `none` where there is none
-- or another closes before.
unfoldable pub text_inside : List ℕ → Text → Option Text
unfolding matching_punctuation char_in
text_inside [] s = some []
text_inside (x ∷ xs) [] = none
text_inside (x ∷ xs) (c ∷ s) =
    if c == x
    then elim xs [ [] ↦ some [] | y ∷ ys ↦ with_char c (text_inside (y ∷ ys) s) ]
    else if char_in c (txt ")}]")
    then none
    else if char_in c (txt "({[")
    then with_char c (text_inside (matching_punctuation c ∷ x ∷ xs) s)
    else with_char c (text_inside (x ∷ xs) s)
