-- ===== src/Cleanse/Comments/Blanked.antt =====
-- Which lines the removal of comments over several lines blanks, and which one it reports.
use native.Mathlib.Decide.{dec_lt}
use nwtool.Base.{
  leb, Bool-cases, length, get_or, drop, All, length-drop, Text, txt, ℕ, zero, suc, ◌+◌, ◌-◌, ◌≤◌,
  ◌<◌, ◌≡◌, refl, sym, ap, ◌∙◌, ◌⊎◌, inl, inr, Bool, true, false, Option, some, List, [], ◌∷◌,
  arith,
}
use nwtool.Report.{Report, report}
use nwtool.Cleanse.Comments.{
  is_start, is_end, index_from, find_next_multi_line_comment_start,
  find_next_multi_line_comment_end, blank_comment, remove_range,
  remove_multi_line_comments_from_range, remove_loop, remove_multi_line_comments,
}
use nwtool.Cleanse.Comments.Removal.{
  NoStart, Cleared-length, remove_multi_line_comments-Removed, index_from-suc, index_from-next,
  length-remove_range, begin, end, begin_bounds, end_bounds,
}

abbrev line : List Text → ℕ → Text
line ls j = get_or ls j []

remove_range-before :
    (ls : List Text) (b n j : ℕ) → j < b → line (remove_range ls b n) j ≡ line ls j
unfolding remove_range
remove_range-before [] b n j h = refl
remove_range-before (l ∷ ls) zero n j h = absurd (omega arith)
remove_range-before (l ∷ ls) (suc b) n zero h = refl
remove_range-before (l ∷ ls) (suc b) n (suc j) h = remove_range-before ls b n j (omega arith)

remove_range-behind :
    (ls : List Text) (b n j : ℕ) → b + n ≤ j → line (remove_range ls b n) j ≡ line ls j
unfolding remove_range
remove_range-behind [] b n j h = refl
remove_range-behind (l ∷ ls) zero zero j h = refl
remove_range-behind (l ∷ ls) zero (suc n) zero h = absurd (omega arith)
remove_range-behind (l ∷ ls) zero (suc n) (suc j) h = remove_range-behind ls zero n j (omega arith)
remove_range-behind (l ∷ ls) (suc b) n zero h = absurd (omega arith)
remove_range-behind (l ∷ ls) (suc b) n (suc j) h = remove_range-behind ls b n j (omega arith)

remove_range-within :
    (ls : List Text) (b n j : ℕ)
    → b ≤ j
    → j < b + n
    → j < length ls
    → line (remove_range ls b n) j ≡ blank_comment
unfolding remove_range
remove_range-within [] b n j h k m = absurd (omega arith)
remove_range-within (l ∷ ls) zero zero j h k m = absurd (omega arith)
remove_range-within (l ∷ ls) zero (suc n) zero h k m = refl
remove_range-within (l ∷ ls) zero (suc n) (suc j) h k m =
    remove_range-within ls zero n j (omega arith) (omega arith) (omega arith)
remove_range-within (l ∷ ls) (suc b) n zero h k m = absurd (omega arith)
remove_range-within (l ∷ ls) (suc b) n (suc j) h k m =
    remove_range-within ls b n j (omega arith) (omega arith) (omega arith)

line-drop : (i k : ℕ) (ls : List Text) → line (drop i ls) k ≡ line ls (i + k)
line-drop zero k ls = ground arith
line-drop (suc i) k [] = refl
line-drop (suc i) k (l ∷ ls) =
    let up : suc i + k ≡ suc (i + k) = omega arith in rw up (line-drop i k ls)

index_from-shift :
    (p : Text → Bool) (i : ℕ) (ls : List Text) → index_from p i ls ≡ i + index_from p 0 ls
index_from-shift p zero ls = omega arith
index_from-shift p (suc i) ls = omega (arith, index_from-suc p i ls, index_from-shift p i ls)

hit_zero :
    (p : Text → Bool) (ls : List Text)
    → index_from p 0 ls < length ls
    → p (line ls (index_from p 0 ls)) ≡ true
unfolding index_from
hit_zero p [] h = absurd (omega arith)
hit_zero p (l ∷ ls) h = elim (Bool-cases (p l)) [
  | inl hit ↦ rw hit hit
  | inr miss ↦
      let next = index_from-next p 0 ls in
      rw (miss, next) (hit_zero p ls (omega (arith, rw (miss, next) at h)))
]

miss_zero :
    (p : Text → Bool) (ls : List Text) (k : ℕ) → k < index_from p 0 ls → p (line ls k) ≡ false
unfolding index_from
miss_zero p [] k h = absurd (omega arith)
miss_zero p (l ∷ ls) zero h = elim (Bool-cases (p l)) [
  | inl hit ↦ absurd (omega (arith, rw hit at h))
  | inr miss ↦ miss
]
miss_zero p (l ∷ ls) (suc k) h = elim (Bool-cases (p l)) [
  | inl hit ↦ absurd (omega (arith, rw hit at h))
  | inr miss ↦ miss_zero p ls k (omega (arith, rw (miss, index_from-next p 0 ls) at h))
]

-- The first line from `i` on that passes a test.
module _ (p : Text → Bool) (ls : List Text) (i : ℕ) where
  abbrev first : ℕ
  first = index_from p i (drop i ls)

  first-hit : i ≤ length ls → first < length ls → p (line ls first) ≡ true
  first-hit le h =
      let shift = index_from-shift p i (drop i ls) in
      let short = length-drop i ls in
      rw (shift, sym (line-drop i (index_from p 0 (drop i ls)) ls))
        (hit_zero p (drop i ls) (omega (arith, shift, short, h)))

  first-miss : (k : ℕ) → i ≤ k → k < first → p (line ls k) ≡ false
  first-miss k le h =
      let shift = index_from-shift p i (drop i ls) in
      let up : i + (k - i) ≡ k = omega arith in
      rw up at (
        sym (ap p (line-drop i (k - i) ls))
        ∙ miss_zero p (drop i ls) (k - i) (omega (arith, shift, h)))

-- A comment over several lines: it begins on line `b` and ends on line `e`, the first line from `b`
-- on that can end one.
pub record Comment (ls : List Text) (b e : ℕ) : Type 0 where
  pub in_order : b ≤ e
  pub in_file : e < length ls
  pub starts : is_start (line ls b) ≡ true
  pub ends : is_end (line ls e) ≡ true
  pub goes_on : (k : ℕ) → b ≤ k → k < e → is_end (line ls k) ≡ false

-- Each line is as it was, or a blank comment in the place of a line of a comment.
abbrev pub Blanked : List Text → List Text → Type 0
Blanked before after =
    (j : ℕ)
    → (line after j ≡ line before j)
      ⊎ ((line after j ≡ blank_comment)
          × ((b : ℕ) × (e : ℕ) × (b ≤ j) × (j ≤ e) × Comment before b e))

abbrev pub unclosed : ℕ → Report
unclosed b =
    report (b + 1) (txt "readability/multiline_comment") 5
      (txt "Could not find end of multi-line comment")

-- A report is on the line behind one that begins a comment, in the numbers that `lines` has, which
-- is the line's number when a marker stands in front; no line from there on ends the comment.
abbrev pub Unended : List Text → Report → Type 0
Unended ls r =
    (b : ℕ) × (r ≡ unclosed b)
    × (b < length ls)
    × (is_start (line ls b) ≡ true)
    × ((k : ℕ) → b ≤ k → k < length ls → is_end (line ls k) ≡ false)

module _ (before ls : List Text) (i : ℕ) (same : (j : ℕ) → i ≤ j → line ls j ≡ line before j)
    (long : length ls ≡ length before) (le : i ≤ length ls) where
  found-Comment : end ls i < length ls → Comment before (begin ls i) (end ls i)
  unfolding find_next_multi_line_comment_start find_next_multi_line_comment_end
  found-Comment h =
      let b = begin_bounds ls i le in
      let e = end_bounds ls i le in
      record {
        in_order = e.0;
        in_file = omega (arith, long, h);
        starts = rw (same (begin ls i) b.0) at (first-hit is_start ls i le (omega (arith, e.0, h)));
        ends =
            rw (same (end ls i) (omega (arith, b.0, e.0))) at
              (first-hit is_end ls (begin ls i) b.1 h);
        goes_on = λ k from to.
            rw (same k (omega (arith, b.0, from))) at (first-miss is_end ls (begin ls i) k from to);
      }

  abbrev next_lines : List Text
  next_lines = remove_multi_line_comments_from_range ls (begin ls i) (end ls i + 1)

  next-Blanked : end ls i < length ls → Blanked before ls → Blanked before next_lines
  unfolding remove_multi_line_comments_from_range
  next-Blanked h old j =
      let b = begin ls i in
      let e = end ls i in
      let n = e + 1 - b in
      let up = (end_bounds ls i le).0 in
      elim (dec_lt j b) [
        | yes early ↦ rw (remove_range-before ls b n j early) (old j)
        | no from ↦ elim (dec_lt e j) [
          | yes late ↦ rw (remove_range-behind ls b n j (omega (arith, up, late))) (old j)
          | no to ↦ inr (
            remove_range-within ls b n j (omega (arith, from)) (omega (arith, from, to, up))
                (omega (arith, to, h)),
            (b, e, omega (arith, from), omega (arith, to), found-Comment h),
          )
        ]
      ]

  next-same : end ls i < length ls → (j : ℕ) → end ls i + 1 ≤ j → line next_lines j ≡ line before j
  unfolding remove_multi_line_comments_from_range
  next-same h j from =
      let b = begin_bounds ls i le in
      let e = end_bounds ls i le in
      remove_range-behind ls (begin ls i) (end ls i + 1 - begin ls i) j (omega (arith, e.0, from))
      ∙ same j (omega (arith, b.0, e.0, from))

  next-length : length next_lines ≡ length before
  unfolding remove_multi_line_comments_from_range
  next-length = length-remove_range ls (begin ls i) (end ls i + 1 - begin ls i) ∙ long

  unended : begin ls i < length ls → length ls ≤ end ls i → Unended ls (unclosed (begin ls i))
  unfolding find_next_multi_line_comment_start find_next_multi_line_comment_end
  unended h none_left = (
    begin ls i,
    refl,
    h,
    first-hit is_start ls i le h,
    λ k from to. first-miss is_end ls (begin ls i) k from (omega (arith, none_left, to)),
  )

abbrev Result : Type 0
Result = List Text × List Report

abbrev Good : List Text → Result → Type 0
Good before (after, reports) = Blanked before after × All (Unended after) reports

abbrev result : List Text → List Report → Option Result
result ls reports = some (ls, reports)

loop-Blanked :
    (f : ℕ) (before ls : List Text) (i : ℕ) (r : Result)
    → ((j : ℕ) → i ≤ j → line ls j ≡ line before j)
    → length ls ≡ length before
    → i ≤ length ls
    → Blanked before ls
    → remove_loop f ls i ≡ some r
    → Good before r
unfolding remove_loop
loop-Blanked zero before ls i r same long le old h = cc
loop-Blanked (suc f) before ls i r same long le old h = elim (Bool-cases (leb (length ls) i)) [
  | inl done ↦
      let ends : result ls [] ≡ some r = rw (done, remove_loop) at h in
      let is : r ≡ (ls, []) = cc in rw is (old, tt)
  | inr more ↦ elim (Bool-cases (leb (length ls) (begin ls i))) [
    | inl none_left ↦
        let ends : result ls [] ≡ some r = rw (more, none_left, remove_loop) at h in
        let is : r ≡ (ls, []) = cc in rw is (old, tt)
    | inr starts ↦ elim (Bool-cases (leb (length ls) (end ls i))) [
      | inl open_comment ↦
          let reports = unclosed (begin ls i) ∷ [] in
          let ends : result ls reports ≡ some r =
            rw (more, starts, open_comment, remove_loop) at h in
          let is : r ≡ (ls, reports) = cc in
          let found : Unended ls (unclosed (begin ls i)) =
            unended before ls i same long le (ground (arith, starts))
              (ground (arith, open_comment)) in
          rw is (old, (found, tt))
      | inr ends ↦
          let inside : end ls i < length ls = ground (arith, ends) in
          loop-Blanked f before (next_lines before ls i same long le) (end ls i + 1) r
            (next-same before ls i same long le inside) (next-length before ls i same long le)
            (omega (arith, next-length before ls i same long le, long, inside))
            (next-Blanked before ls i same long le inside old)
            (rw (more, starts, ends, remove_loop) at h)
    ]
  ]
]

-- `RemoveMultiLineComments` ends. It keeps the number of lines. A line that it changes becomes a
-- blank comment and stood, blanks aside, from a line that begins with `/*` and has no `*/` behind
-- that up to the next line that ends with `*/`. It makes at most one report, whose number is `b + 1`
-- for the place `b`, counted from 0, of a line that is left and begins a comment so, when no line
-- from there on ends with `*/`. When it makes none, no line is left that begins a comment so.
pub remove_multi_line_comments-Blanked :
    (ls : List Text)
    → (r : List Text × List Report) × (remove_multi_line_comments ls ≡ some r)
      × (length r.0 ≡ length ls)
      × Blanked ls r.0
      × (length r.1 ≤ 1)
      × All (Unended r.0) r.1
      × (r.1 ≡ [] → NoStart (length ls) r.0)
unfolding remove_multi_line_comments
remove_multi_line_comments-Blanked ls =
    let (r, runs, removed) = remove_multi_line_comments-Removed ls in
    let (blanked, unended_reports) =
      loop-Blanked (length ls + 1) ls ls 0 r (λ j h. refl) refl (omega arith) (λ j. inl refl)
        runs in
    (
      r,
      runs,
      Cleared-length ls r.0 removed.cleared,
      blanked,
      removed.at_most_one,
      unended_reports,
      removed.quiet,
    )
