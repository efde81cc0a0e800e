-- ===== src/Functions/Lines/Counting.antt =====
-- What `CheckForFunctionLengths` counts over a function.
use mathlib.Core.List.{append-nil}
use nwtool.Base.{
  if◌then◌else◌, Bool-cases, length, get_or, drop, All, drop_next, drop-drop, Text, txt, ℕ, zero,
  suc, ◌+◌, ◌≡◌, refl, sym, ap, ◌∙◌, inl, inr, Bool, true, false, some, List, [], ◌∷◌, ◌++◌, arith,
}
use nwtool.Report.{Report}
use nwtool.Regex.{matches}
use nwtool.Functions.{FunctionState, begin, count_line, end_function, check}
use nwtool.Functions.Lines.{starting_func, body_loop, check_for_function_lengths}

-- The check over `k` lines from line `n` on, in the order of the lines.
unfoldable pub check_lines : FunctionState → ℕ → List Text → ℕ → ℕ → FunctionState × List Report
unfolding check_for_function_lengths
check_lines s verbose_level lines n zero = (s, [])
check_lines s verbose_level lines n (suc k) =
    let (t, rs) = check_for_function_lengths s verbose_level lines n in
    let (u, more) = check_lines t verbose_level lines (n + 1) k in (u, rs ++ more)

abbrev pub is_blank : Text → Bool
is_blank line = matches (txt "^\\s*$") line

abbrev pub ends_function : Text → Bool
ends_function line = matches (txt "^\\}\\s*$") line

-- A line that starts no function and ends none.
abbrev pub IsInner : Text → Type 0
IsInner line = (starting_func line ≡ false) × (ends_function line ≡ false)

unfoldable pub count_filled : List Text → ℕ
unfolding matches
count_filled [] = 0
count_filled (l ∷ ls) = (if is_blank l then 0 else 1) + count_filled ls

abbrev with_lines : FunctionState → ℕ → FunctionState
with_lines s k = record s {
  lines_in_function = if s.in_a_function then s.lines_in_function + k else s.lines_in_function;
}

with_lines_zero : (s : FunctionState) → s ≡ with_lines s 0
with_lines_zero s = ground arith

count_line-with_lines : (s : FunctionState) → count_line s ≡ with_lines s 1
unfolding count_line
count_line-with_lines s = ground arith

inner_line :
    (s : FunctionState) (v n : ℕ) (lines : List Text) (line : Text)
    → get_or lines n [] ≡ line
    → IsInner line
    → check_for_function_lengths s v lines n ≡ (with_lines s (if is_blank line then 0 else 1), [])
unfolding check_for_function_lengths
inner_line s v n lines line at_n h = elim (Bool-cases (is_blank line)) [
  | inl e ↦
      rw (at_n, h.0, h.1, e, check_for_function_lengths)
        (ap (λ (t : FunctionState). (t, [])) (with_lines_zero s))
  | inr e ↦
      rw (at_n, h.0, h.1, e, check_for_function_lengths)
        (ap (λ (t : FunctionState). (t, [])) (count_line-with_lines s))
]

with_lines-with_lines :
    (s : FunctionState) (a b : ℕ) → with_lines (with_lines s a) b ≡ with_lines s (a + b)
with_lines-with_lines s a b = ground arith

check_lines_step :
    (s t : FunctionState) (v : ℕ) (lines : List Text) (n k : ℕ) (rs : List Report)
    → check_for_function_lengths s v lines n ≡ (t, rs)
    → check_lines s v lines n (k + 1)
      ≡ (let (u, more) = check_lines t v lines (n + 1) k in (u, rs ++ more))
unfolding check_lines
check_lines_step s t v lines n k rs h =
    let k1 : k + 1 ≡ suc k = omega arith in
    rw k1 (
      ap
        (λ (x : FunctionState × List Report).
          let (w, more) = check_lines x.0 v lines (n + 1) k in (w, x.1 ++ more))
        h)

inner_lines :
    (s : FunctionState) (v : ℕ) (lines : List Text) (n : ℕ) (body rest : List Text) (k : ℕ)
    → drop n lines ≡ body ++ rest
    → All IsInner body
    → check_lines s v lines n (length body + k)
      ≡ check_lines (with_lines s (count_filled body)) v lines (n + length body) k
unfolding check_lines count_filled
inner_lines s v lines n [] rest k e h =
    let n0 : n + 0 ≡ n = omega arith in
    let k0 : 0 + k ≡ k = omega arith in
    rw (n0, k0) (ap (λ t. check_lines t v lines n k) (with_lines_zero s))
inner_lines s v lines n (l ∷ ls) rest k e h =
    let next = drop_next lines n [] l (ls ++ rest) e in
    let b : ℕ = if is_blank l then 0 else 1 in
    let n1 : n + 1 ≡ suc n = omega arith in
    let later = inner_lines (with_lines s b) v lines (n + 1) ls rest k (rw n1 next.1) h.1 in
    let shift : n + suc (length ls) ≡ n + 1 + length ls = omega arith in
    let regroup : suc (length ls) + k ≡ length ls + k + 1 = omega arith in
    rw (regroup, shift)
      (check_lines_step s (with_lines s b) v lines n (length ls + k) []
          (inner_line s v n lines l next.0 h.0)
        ∙ later
        ∙ ap (λ t. check_lines t v lines (n + 1 + length ls) k)
            (with_lines-with_lines s b (count_filled ls)))

first_line :
    (s t : FunctionState) (v n : ℕ) (lines : List Text)
    → starting_func (get_or lines n []) ≡ true
    → body_loop s (get_or lines n []) [] (drop n lines) ≡ some t
    → check_for_function_lengths s v lines n ≡ (t, [])
unfolding check_for_function_lengths
first_line s t v n lines h b = rw (h, check_for_function_lengths) (rw (b, body_loop) refl)

last_line :
    (s : FunctionState) (v n : ℕ) (lines : List Text) (line : Text)
    → get_or lines n [] ≡ line
    → starting_func line ≡ false
    → ends_function line ≡ true
    → check_for_function_lengths s v lines n ≡ (end_function s, check s v n)
unfolding check_for_function_lengths
last_line s v n lines line at_n h e = rw (at_n, h, e, check_for_function_lengths) refl

-- Over the lines of a function, from the line that starts it, where the loop for its body begins a
-- count under a name, to the line that ends it, with neither between, `CheckForFunctionLengths`
-- counts the lines in between that are not blank and makes the reports of `_FunctionState.Check`
-- for that count and name, at the last line; it makes no other report.
pub check_lines-function :
    (s : FunctionState) (v : ℕ) (lines : List Text) (n : ℕ) (name first : Text) (body : List Text)
    (last : Text) (rest : List Text)
    → drop n lines ≡ first ∷ (body ++ last ∷ rest)
    → starting_func first ≡ true
    → body_loop s first [] (drop n lines) ≡ some (begin s name)
    → All IsInner body
    → starting_func last ≡ false
    → ends_function last ≡ true
    → let counted : FunctionState = record {
      in_a_function = true;
      lines_in_function = count_filled body;
      current_function = name;
    } in
      check_lines s v lines n (length body + 2)
      ≡ (record counted { in_a_function = false }, check counted v (n + length body + 1))
unfolding check_lines end_function begin
check_lines-function s v lines n name first body last rest e start b inner no_start end =
    let started : FunctionState = begin s name in
    let n1 : n + 1 ≡ suc n = omega arith in
    let next = drop_next lines n [] first (body ++ last ∷ rest) e in
    let behind : drop (n + 1) lines ≡ body ++ last ∷ rest = rw n1 next.1 in
    let at_last =
      drop_next lines (n + 1 + length body) [] last rest
        (drop-drop body (last ∷ rest) lines (n + 1) behind) in
    let at_end : n + 1 + length body ≡ n + length body + 1 = omega arith in
    let shape : length body + 2 ≡ length body + 1 + 1 = omega arith in
    let counted : FunctionState = with_lines started (count_filled body) in
    let zero_more : 0 + count_filled body ≡ count_filled body = omega arith in
    rw (shape, sym at_end, sym zero_more)
      (check_lines_step s started v lines n (length body + 1) []
          (first_line s started v n lines (rw next.0 start) (rw next.0 b))
        ∙ inner_lines started v lines (n + 1) body (last ∷ rest) 1 behind inner
        ∙ check_lines_step counted (end_function counted) v lines (n + 1 + length body) 0
            (check counted v (n + 1 + length body))
            (last_line counted v (n + 1 + length body) lines last at_last.0 no_start end)
        ∙ ap (λ (ls : List Report). (end_function counted, ls))
            (append-nil (check counted v (n + 1 + length body))))
