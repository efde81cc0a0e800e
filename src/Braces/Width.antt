-- ===== src/Braces/Width.antt =====
-- The width of a line: `GetLineWidth`, on a Python later than 3.2.
use nwtool.Base.{if◌then◌else◌, Text, ℕ, ◌+◌, Bool, [], ◌∷◌}

-- What `unicodedata` answers: NFC, the wide and fullwidth characters, the combining ones.
pub record Unicode : Type 0 where
  pub normalize : Text → Text
  pub is_wide : ℕ → Bool
  pub combining : ℕ → Bool

unfoldable pub char_width : Unicode → ℕ → ℕ
char_width u c = if u.is_wide c then 2 else if u.combining c then 0 else 1

unfoldable pub sum_width : Unicode → Text → ℕ
unfolding char_width
sum_width u [] = 0
sum_width u (c ∷ s) = char_width u c + sum_width u s

unfoldable pub get_line_width : Unicode → Text → ℕ
unfolding sum_width
get_line_width u line = sum_width u (u.normalize line)
