-- ===== src/Cleanse/Comments/Removal.antt =====
-- The removal of comments over several lines ends, keeps the number of lines and leaves none.
use nwtool.Base.{
  leb, Bool-cases, length, drop, All, length-drop, Text, txt, ℕ, zero, suc, ◌+◌, ◌-◌, ◌≤◌, ◌<◌, ◌≡◌,
  refl, ap, ◌∙◌, ◌⊎◌, inl, inr, Bool, false, some, List, [], ◌∷◌, arith,
}
use nwtool.Report.{Report, report}
use nwtool.Cleanse.Comments.{
  is_start, is_end, index_from, find_next_multi_line_comment_start,
  find_next_multi_line_comment_end, blank_comment, remove_range,
  remove_multi_line_comments_from_range, remove_loop, remove_multi_line_comments,
}

pub length-remove_range : (ls : List Text) (b n : ℕ) → length (remove_range ls b n) ≡ length ls
unfolding remove_range
length-remove_range [] b n = refl
length-remove_range (l ∷ ls) (suc b) n = ap suc (length-remove_range ls b n)
length-remove_range (l ∷ ls) zero zero = refl
length-remove_range (l ∷ ls) zero (suc n) = ap suc (length-remove_range ls zero n)

index_from_bounds :
    (p : Text → Bool) (i : ℕ) (ls : List Text)
    → (i ≤ index_from p i ls) × (index_from p i ls ≤ i + length ls)
unfolding index_from
index_from_bounds p i [] = (omega arith, omega arith)
index_from_bounds p i (l ∷ ls) = ground (arith, index_from_bounds p (i + 1) ls)

-- Each line is as it was, or a blank comment.
abbrev pub Cleared : List Text → List Text → Type 0
Cleared [] [] = Unit {0}
Cleared [] (y ∷ ys) = ⊥
Cleared (x ∷ xs) [] = ⊥
Cleared (x ∷ xs) (y ∷ ys) = ((y ≡ x) ⊎ (y ≡ blank_comment)) × Cleared xs ys

Cleared-refl : (xs : List Text) → Cleared xs xs
Cleared-refl [] = tt
Cleared-refl (x ∷ xs) = (inl refl, Cleared-refl xs)

Cleared-trans : (xs ys zs : List Text) → Cleared xs ys → Cleared ys zs → Cleared xs zs
Cleared-trans [] [] [] p q = tt
Cleared-trans [] [] (z ∷ zs) p q = absurd q
Cleared-trans [] (y ∷ ys) zs p q = absurd p
Cleared-trans (x ∷ xs) [] zs p q = absurd p
Cleared-trans (x ∷ xs) (y ∷ ys) [] p q = absurd q
Cleared-trans (x ∷ xs) (y ∷ ys) (z ∷ zs) p q = (
  elim q.0 [ inl e ↦ (elim p.0 [ inl d ↦ inl (e ∙ d) | inr d ↦ inr (e ∙ d) ]) | inr e ↦ inr e ],
  Cleared-trans xs ys zs p.1 q.1,
)

remove_range-Cleared : (ls : List Text) (b n : ℕ) → Cleared ls (remove_range ls b n)
unfolding remove_range
remove_range-Cleared [] b n = tt
remove_range-Cleared (l ∷ ls) (suc b) n = (inl refl, remove_range-Cleared ls b n)
remove_range-Cleared (l ∷ ls) zero zero = (inl refl, Cleared-refl ls)
remove_range-Cleared (l ∷ ls) zero (suc n) = (inr refl, remove_range-Cleared ls zero n)

-- Lines before `n` that open no comment.
abbrev pub NoStart : ℕ → List Text → Type 0
NoStart zero ls = Unit {0}
NoStart (suc n) [] = Unit {0}
NoStart (suc n) (l ∷ ls) = (is_start l ≡ false) × NoStart n ls

blank_comment-not_start : is_start blank_comment ≡ false
unfolding is_start
blank_comment-not_start = refl

pub index_from-suc :
    (p : Text → Bool) (i : ℕ) (ls : List Text) → index_from p (suc i) ls ≡ suc (index_from p i ls)
unfolding index_from
index_from-suc p i [] = refl
index_from-suc p i (l ∷ ls) =
    let e : suc i + 1 ≡ suc (i + 1) = omega arith in
    elim (Bool-cases (p l)) [
      | inl hit ↦ rw hit
      | inr miss ↦ rw (miss, e) (index_from-suc p (i + 1) ls)
    ]

pub index_from-next :
    (p : Text → Bool) (i : ℕ) (ls : List Text) → index_from p (i + 1) ls ≡ suc (index_from p i ls)
index_from-next p i ls = let e : i + 1 ≡ suc i = omega arith in rw e (index_from-suc p i ls)

NoStart-index_zero : (ls : List Text) → NoStart (index_from is_start 0 ls) ls
unfolding index_from
NoStart-index_zero [] = tt
NoStart-index_zero (l ∷ ls) = elim (Bool-cases (is_start l)) [
  | inl hit ↦ rw hit tt
  | inr miss ↦ rw (miss, index_from-next is_start 0 ls) (miss, NoStart-index_zero ls)
]

-- No line before the next comment's first opens one.
NoStart-index :
    (i : ℕ) (ls : List Text) → NoStart i ls → NoStart (find_next_multi_line_comment_start ls i) ls
unfolding find_next_multi_line_comment_start
NoStart-index zero ls h = NoStart-index_zero ls
NoStart-index (suc i) [] h = tt
NoStart-index (suc i) (l ∷ ls) h =
    rw (index_from-suc is_start i (drop i ls)) (h.0, NoStart-index i ls h.1)

NoStart-remove_range :
    (ls : List Text) (b n k : ℕ) → NoStart b ls → k ≡ b + n → NoStart k (remove_range ls b n)
unfolding remove_range
NoStart-remove_range [] b n zero h e = tt
NoStart-remove_range [] b n (suc k) h e = tt
NoStart-remove_range (l ∷ ls) b n zero h e = tt
NoStart-remove_range (l ∷ ls) (suc b) n (suc k) h e =
    (h.0, NoStart-remove_range ls b n k h.1 (omega arith))
NoStart-remove_range (l ∷ ls) zero zero (suc k) h e = absurd (omega arith)
NoStart-remove_range (l ∷ ls) zero (suc n) (suc k) h e =
    (blank_comment-not_start, NoStart-remove_range ls zero n k tt (omega arith))

NoStart-end : (n : ℕ) (ls : List Text) → length ls ≤ n → NoStart n ls → NoStart (length ls) ls
NoStart-end n [] h k = tt
NoStart-end zero (l ∷ ls) h k = absurd (omega arith)
NoStart-end (suc n) (l ∷ ls) h k = (k.0, NoStart-end n ls (omega arith) k.1)

-- What a finished removal has done.
pub record Removed (before after : List Text) (reports : List Report) : Type 0 where
  pub cleared : Cleared before after
  pub quiet : reports ≡ [] → NoStart (length before) after
  pub at_most_one : length reports ≤ 1
  pub in_file : All (λ (r : Report). (1 ≤ r.linenum) × (r.linenum ≤ length before)) reports

pub Cleared-length : (xs ys : List Text) → Cleared xs ys → length ys ≡ length xs
Cleared-length [] [] h = refl
Cleared-length [] (y ∷ ys) h = absurd h
Cleared-length (x ∷ xs) [] h = absurd h
Cleared-length (x ∷ xs) (y ∷ ys) h = ap suc (Cleared-length xs ys h.1)

Removed-done : (ls : List Text) → NoStart (length ls) ls → Removed ls ls []
Removed-done ls h = record {
  cleared = Cleared-refl ls;
  quiet = λ _. h;
  at_most_one = omega arith;
  in_file = tt;
}

Removed-trans :
    (xs ys zs : List Text) (rs : List Report) → Cleared xs ys → Removed ys zs rs → Removed xs zs rs
Removed-trans xs ys zs rs c r =
    let same = Cleared-length xs ys c in
    record {
      cleared = Cleared-trans xs ys zs c r.cleared;
      quiet = λ e. rw same at (r.quiet e);
      at_most_one = r.at_most_one;
      in_file = rw same at r.in_file;
    }

index-bounds :
    (p : Text → Bool) (i : ℕ) (ls : List Text)
    → i ≤ length ls
    → (i ≤ index_from p i (drop i ls)) × (index_from p i (drop i ls) ≤ length ls)
index-bounds p i ls h =
    let b = index_from_bounds p i (drop i ls) in (b.0, omega (arith, b.1, length-drop i ls))

module _ (ls : List Text) where
  abbrev pub begin : ℕ → ℕ
  begin i = find_next_multi_line_comment_start ls i

  abbrev pub end : ℕ → ℕ
  end i = find_next_multi_line_comment_end ls (begin i)

  pub begin_bounds : (i : ℕ) → i ≤ length ls → (i ≤ begin i) × (begin i ≤ length ls)
  unfolding find_next_multi_line_comment_start
  begin_bounds i h = index-bounds is_start i ls h

  pub end_bounds : (i : ℕ) → i ≤ length ls → (begin i ≤ end i) × (end i ≤ length ls)
  unfolding find_next_multi_line_comment_end
  end_bounds i h = index-bounds is_end (begin i) ls (begin_bounds i h).1

  next : ℕ → List Text
  next i = remove_multi_line_comments_from_range ls (begin i) (end i + 1)

  next-Cleared : (i : ℕ) → Cleared ls (next i)
  unfolding next remove_multi_line_comments_from_range
  next-Cleared i = remove_range-Cleared ls (begin i) (end i + 1 - begin i)

  next-NoStart : (i : ℕ) → i ≤ length ls → NoStart i ls → NoStart (end i + 1) (next i)
  unfolding next remove_multi_line_comments_from_range
  next-NoStart i h k =
      NoStart-remove_range ls (begin i) (end i + 1 - begin i) (end i + 1) (NoStart-index i ls k)
        (omega (arith, end_bounds i h))

  unterminated : ℕ → List Report
  unterminated b =
      report (b + 1) (txt "readability/multiline_comment") 5
        (txt "Could not find end of multi-line comment")
      ∷ []

  unterminated-Removed : (b : ℕ) → b < length ls → Removed ls ls (unterminated b)
  unfolding unterminated
  unterminated-Removed b h = record {
    cleared = Cleared-refl ls;
    quiet = λ e. absurd (cc);
    at_most_one = omega arith;
    in_file = ((omega arith, omega arith), tt);
  }

remove_loop-Removed :
    (f : ℕ) (ls : List Text) (i : ℕ)
    → NoStart i ls
    → i ≤ length ls
    → length ls < i + f
    → (r : List Text × List Report) × (remove_loop f ls i ≡ some r) × Removed ls r.0 r.1
unfolding remove_loop next unterminated
remove_loop-Removed zero ls i h k m = absurd (omega arith)
remove_loop-Removed (suc f) ls i h k m = elim (Bool-cases (leb (length ls) i)) [
  | inl done ↦ ((ls, []), rw done, Removed-done ls (NoStart-end i ls (ground arith) h))
  | inr more ↦ elim (Bool-cases (leb (length ls) (begin ls i))) [
    | inl none_left ↦ (
      (ls, []),
      rw (more, none_left),
      Removed-done ls (NoStart-end (begin ls i) ls (ground arith) (NoStart-index i ls h)),
    )
    | inr starts ↦ elim (Bool-cases (leb (length ls) (end ls i))) [
      | inl open_comment ↦ (
        (ls, unterminated ls (begin ls i)),
        rw (more, starts, open_comment),
        unterminated-Removed ls (begin ls i) (ground arith),
      )
      | inr ends ↦
          let same = Cleared-length ls (next ls i) (next-Cleared ls i) in
          let inside : end ls i < length ls = ground arith in
          let (r, runs, removed) =
            remove_loop-Removed f (next ls i) (end ls i + 1) (next-NoStart ls i k h)
              (omega (arith, same)) (omega (arith, same, begin_bounds ls i k, end_bounds ls i k)) in
          (
            r,
            rw (more, starts, ends) runs,
            Removed-trans ls (next ls i) r.0 r.1 (next-Cleared ls i) removed,
          )
    ]
  ]
]

-- `RemoveMultiLineComments` ends, with what `Removed` says.
pub remove_multi_line_comments-Removed :
    (ls : List Text)
    → (r : List Text × List Report) × (remove_multi_line_comments ls ≡ some r) × Removed ls r.0 r.1
unfolding remove_multi_line_comments
remove_multi_line_comments-Removed ls =
    remove_loop-Removed (length ls + 1) ls 0 tt (omega arith) (omega arith)
