-- ===== src/Program/Files/Endings/Mixed.antt =====
-- Which lines the warnings on mixed line ends are on.
use nwtool.Base.{
  if◌then◌else◌, get_or, Text, txt, ends_with, ℕ, zero, suc, ◌+◌, ◌<◌, ◌≡◌, refl, Bool, false, not,
  ◌&&◌, ◌||◌, List, [], ◌∷◌, map, arith,
}
use nwtool.FileChecks.BadCharacters.{at_line}
use nwtool.Program.Files.Endings.{
  numbers, is_nonempty, has_return, crlf_lines, lf_lines, crlf_warning, crlf_warnings,
}

-- The lines that a `\n` ends: all but the last.
abbrev pub ended : List Text → List Text
ended [] = []
ended (l ∷ []) = []
ended (l ∷ m ∷ ls) = l ∷ ended (m ∷ ls)

abbrev pub some_line : (Text → Bool) → List Text → Bool
some_line p [] = false
some_line p (l ∷ ls) = p l || some_line p ls

abbrev pub in_windows : Text → Bool
in_windows line = ends_with line (txt "\r")

numbers-some_line :
    (p : Text → Bool) (n : ℕ) (lines : List Text)
    → is_nonempty (numbers p n lines) ≡ some_line p (ended lines)
unfolding numbers
numbers-some_line p n [] = refl
numbers-some_line p n (l ∷ []) = refl
numbers-some_line p n (l ∷ m ∷ ls) = ground (arith, numbers-some_line p (suc n) (m ∷ ls))

early :
    (p : Text → Bool) (l n : ℕ) (lines : List Text)
    → l < n
    → at_line l (map crlf_warning (numbers p n lines)) ≡ []
unfolding numbers at_line
early p l n [] h = refl
early p l n (x ∷ []) h = refl
early p l n (x ∷ y ∷ ls) h = ground (arith, early p l (suc n) (y ∷ ls) (omega arith))

numbers-at_line :
    (p : Text → Bool) (n k : ℕ) (lines : List Text)
    → p [] ≡ false
    → at_line (n + k) (map crlf_warning (numbers p n lines))
      ≡ (if p (get_or (ended lines) k []) then crlf_warning (n + k) ∷ [] else [])
unfolding numbers at_line
numbers-at_line p n k [] h = rw h refl
numbers-at_line p n k (x ∷ []) h = rw h refl
numbers-at_line p n zero (x ∷ y ∷ ls) h =
    ground (arith, early p (n + 0) (suc n) (y ∷ ls) (omega arith))
numbers-at_line p n (suc k) (x ∷ y ∷ ls) h =
    let up : n + suc k ≡ suc n + k = omega arith in
    rw up (ground (arith, numbers-at_line p (suc n) k (y ∷ ls) h))

-- The warnings on `\r` in `ProcessFile`, of a file whose ended lines are some with a `\r` before
-- the `\n` and some without: one on each line with a `\r`, numbered from 1, and none on any other
-- line or on what stands behind the last `\n`. Of any other file there is no warning.
pub crlf_warnings-at_line :
    (lines : List Text) (k : ℕ)
    → at_line (k + 1) (crlf_warnings lines) ≡ (
        if some_line in_windows (ended lines)
          && some_line (λ l. not (in_windows l)) (ended lines)
          && in_windows (get_or (ended lines) k [])
        then crlf_warning (k + 1) ∷ []
        else [])
unfolding crlf_warnings crlf_lines lf_lines has_return ends_with at_line
crlf_warnings-at_line lines k =
    let up : k + 1 ≡ 1 + k = omega arith in
    rw up (
      ground (
        arith,
        numbers-some_line has_return 1 lines,
        numbers-some_line (λ l. not (has_return l)) 1 lines,
        numbers-at_line has_return 1 k lines refl,
      ))
