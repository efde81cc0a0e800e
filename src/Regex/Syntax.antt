-- ===== src/Regex/Syntax.antt =====
-- The syntax trees of regular expressions.
use nwtool.Base.{leb, ◌==◌, is_space, ℕ, Bool, not, ◌&&◌, ◌||◌, List}

-- An entry of a character class.
pub data Item : Type 0 where
  range : ℕ → ℕ → Item
  space not_space word not_word digit not_digit : Item

pub data Regex : Type 0 where
  empty : Regex
  class : Bool → List Item → Regex
  seq alt : Regex → Regex → Regex
  star : Bool → Regex → Regex
  capture : ℕ → Regex → Regex
  begin_text end_text boundary : Regex
  ahead : Bool → Regex → Regex
  back : ℕ → Regex

-- `\w` on ASCII.
unfoldable pub is_word : ℕ → Bool
is_word c =
    (leb b'a' c && leb c b'z')
    || (leb b'A' c && leb c b'Z')
    || (leb b'0' c && leb c b'9')
    || c == b'_'

unfoldable pub in_item : ℕ → Item → Bool
unfolding is_word is_space
in_item c (range lo hi) = leb lo c && leb c hi
in_item c Item.space = is_space c
in_item c not_space = not (is_space c)
in_item c word = is_word c
in_item c not_word = not (is_word c)
in_item c digit = leb b'0' c && leb c b'9'
in_item c not_digit = not (leb b'0' c && leb c b'9')
