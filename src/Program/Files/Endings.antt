-- ===== src/Program/Files/Endings.antt =====
-- The ends of lines in `ProcessFile`. The last of the lines is what stands behind the last `\n`, and
-- is left as it is.
pub mod Mixed
use nwtool.Base.{
  if◌then◌else◌, Text, txt, ends_with, ℕ, suc, Bool, true, false, not, ◌&&◌, List, [], ◌∷◌, ◌++◌,
  map,
}
use nwtool.Report.{Report, report}
use nwtool.Paths.{rstrip_char}

unfoldable pub has_return : Text → Bool
unfolding ends_with
has_return line = ends_with line (txt "\r")

-- `line.rstrip('\r')`
unfoldable pub strip_returns : List Text → List Text
unfolding has_return rstrip_char
strip_returns [] = []
strip_returns (l ∷ []) = l ∷ []
strip_returns (l ∷ m ∷ ls) = (if has_return l then rstrip_char 13 l else l) ∷ strip_returns (m ∷ ls)

-- The numbers of the lines, the first of which has the number given, that pass the test.
unfoldable pub numbers : (Text → Bool) → ℕ → List Text → List ℕ
numbers p n [] = []
numbers p n (l ∷ []) = []
numbers p n (l ∷ m ∷ ls) = (if p l then n ∷ [] else []) ++ numbers p (suc n) (m ∷ ls)

unfoldable pub crlf_lines : List Text → List ℕ
unfolding has_return numbers
crlf_lines lines = numbers has_return 1 lines

unfoldable pub lf_lines : List Text → List ℕ
unfolding has_return numbers
lf_lines lines = numbers (λ l. not (has_return l)) 1 lines

abbrev pub is_nonempty : List ℕ → Bool
is_nonempty [] = false
is_nonempty (x ∷ xs) = true

abbrev pub crlf_warning : ℕ → Report
crlf_warning linenum =
    report linenum (txt "whitespace/newline") 1
      (txt "Unexpected \\r (^M) found; better to use only \\n")

unfoldable pub crlf_warnings : List Text → List Report
unfolding crlf_lines lf_lines
crlf_warnings lines =
    if is_nonempty (lf_lines lines) && is_nonempty (crlf_lines lines)
    then map crlf_warning (crlf_lines lines)
    else []
