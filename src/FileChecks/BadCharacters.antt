-- ===== src/FileChecks/BadCharacters.antt =====
-- What `CheckForBadCharacters` reports of each line.
use nwtool.Base.{
  ◌==◌, if◌then◌else◌, get_or, Text, txt, char_in, ℕ, zero, suc, ◌+◌, ◌<◌, ◌≡◌, refl, sym, ◌∙◌,
  List, [], ◌∷◌, ◌++◌, arith,
}
use nwtool.Report.{Report, report, when}
use nwtool.FileChecks.{bad_characters, bad_characters_from, check_for_bad_characters}

-- The reports on a line.
unfoldable pub at_line : ℕ → List Report → List Report
at_line l [] = []
at_line l (r ∷ rs) = (if r.linenum == l then r ∷ [] else []) ++ at_line l rs

at_line-append : (l : ℕ) (rs ss : List Report) → at_line l (rs ++ ss) ≡ at_line l rs ++ at_line l ss
unfolding at_line
at_line-append l [] ss = refl
at_line-append l (r ∷ rs) ss = ground (arith, at_line-append l rs ss)

at_line-bad_characters :
    (l n : ℕ) (line : Text)
    → at_line l (bad_characters n line) ≡ (if n == l then bad_characters l line else [])
unfolding at_line bad_characters
at_line-bad_characters l n line = ground arith

before_first : (l n : ℕ) (lines : List Text) → l < n → at_line l (bad_characters_from n lines) ≡ []
unfolding bad_characters_from at_line
before_first l n [] h = refl
before_first l n (line ∷ lines) h = ground (
  arith,
  at_line-append l (bad_characters n line) (bad_characters_from (n + 1) lines),
  at_line-bad_characters l n line,
  before_first l (n + 1) lines (omega arith),
)

no_line : (l : ℕ) → bad_characters l [] ≡ []
unfolding bad_characters char_in
no_line l = refl

from_first :
    (k n l : ℕ) (lines : List Text)
    → l ≡ n + k
    → at_line l (bad_characters_from n lines) ≡ bad_characters l (get_or lines k [])
unfolding bad_characters_from at_line
from_first k n l [] h = sym (no_line l)
from_first zero n l (line ∷ lines) h = ground (
  arith,
  at_line-append l (bad_characters n line) (bad_characters_from (n + 1) lines),
  at_line-bad_characters l n line,
  before_first l (n + 1) lines (omega arith),
)
from_first (suc k) n l (line ∷ lines) h = ground (
  arith,
  at_line-append l (bad_characters n line) (bad_characters_from (n + 1) lines),
  at_line-bad_characters l n line,
  from_first k (n + 1) l lines (omega arith),
)

-- The reports that a line deserves: for a replacement character, U+FFFD, and for a NUL.
abbrev pub deserved : ℕ → Text → List Report
deserved l line =
    when (char_in 0xfffd line) (
      report l (txt "readability/utf8") 5
        (txt "Line contains invalid UTF-8 (or Unicode replacement character)."))
    ++ when (char_in 0 line) (report l (txt "readability/nul") 5 (txt "Line contains NUL byte."))

bad_characters-deserved : (l : ℕ) (line : Text) → bad_characters l line ≡ deserved l line
unfolding bad_characters
bad_characters-deserved l line = ground arith

-- `CheckForBadCharacters` reports for every line number what stands on that line: that it has a
-- replacement character, if it has one, and then that it has a NUL, if it has one, each once; and
-- nothing for a number that is no line's.
pub check_for_bad_characters-at_line :
    (lines : List Text) (l : ℕ)
    → at_line l (check_for_bad_characters lines) ≡ deserved l (get_or lines l [])
unfolding check_for_bad_characters
check_for_bad_characters-at_line lines l =
    from_first l 0 l lines (omega arith) ∙ bad_characters-deserved l (get_or lines l [])
