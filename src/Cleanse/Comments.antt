-- ===== src/Cleanse/Comments.antt =====
-- Comments over several lines.
pub mod Removal
pub mod Blanked
use nwtool.Base.{
  leb, if◌then◌else◌, is_some, length, drop, Text, txt, starts_with, ends_with, find, strip, ℕ,
  zero, suc, ◌+◌, ◌-◌, Bool, not, ◌&&◌, Option, none, some, List, [], ◌∷◌,
}
use nwtool.Report.{Report, report}

unfoldable pub is_start : Text → Bool
unfolding strip starts_with find
is_start line =
    starts_with (strip line) (txt "/*") && not (is_some (find (drop 2 (strip line)) (txt "*/")))

unfoldable pub is_end : Text → Bool
unfolding strip ends_with
is_end line = ends_with (strip line) (txt "*/")

-- The index of the first of these lines that passes the test, counted from `i`; behind the last
-- line if none does.
unfoldable pub index_from : (Text → Bool) → ℕ → List Text → ℕ
index_from p i [] = i
index_from p i (l ∷ ls) = if p l then i else index_from p (i + 1) ls

unfoldable pub find_next_multi_line_comment_start : List Text → ℕ → ℕ
unfolding index_from
find_next_multi_line_comment_start lines lineix = index_from is_start lineix (drop lineix lines)

unfoldable pub find_next_multi_line_comment_end : List Text → ℕ → ℕ
unfolding index_from
find_next_multi_line_comment_end lines lineix = index_from is_end lineix (drop lineix lines)

abbrev pub blank_comment : Text
blank_comment = txt "/**/"

-- Blank comments in place of `n` lines from line `begin`.
unfoldable pub remove_range : List Text → ℕ → ℕ → List Text
remove_range [] begin n = []
remove_range (l ∷ ls) (suc begin) n = l ∷ remove_range ls begin n
remove_range (l ∷ ls) zero zero = l ∷ ls
remove_range (l ∷ ls) zero (suc n) = blank_comment ∷ remove_range ls zero n

unfoldable pub remove_multi_line_comments_from_range : List Text → ℕ → ℕ → List Text
unfolding remove_range
remove_multi_line_comments_from_range lines begin end = remove_range lines begin (end - begin)

-- The loop, with a bound on its rounds; `none` means that the bound was too small.
unfoldable pub remove_loop : ℕ → List Text → ℕ → Option (List Text × List Report)
remove_loop zero lines lineix = none
remove_loop (suc f) lines lineix =
    let begin = find_next_multi_line_comment_start lines lineix in
    let end = find_next_multi_line_comment_end lines begin in
    let rest =
      remove_loop f (remove_multi_line_comments_from_range lines begin (end + 1)) (end + 1) in
    if leb (length lines) lineix
    then some (lines, [])
    else if leb (length lines) begin
    then some (lines, [])
    else if leb (length lines) end
    then some (
      lines,
      report (begin + 1) (txt "readability/multiline_comment") 5
            (txt "Could not find end of multi-line comment")
          ∷ [],
    )
    else rest

unfoldable pub remove_multi_line_comments : List Text → Option (List Text × List Report)
remove_multi_line_comments lines = remove_loop (length lines + 1) lines 0
