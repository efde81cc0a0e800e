-- ===== src/State/Counts.antt =====
-- The error statistics of `_CppLintState`.
use nwtool.Base.{
  if◌then◌else◌, length, Text, txt, text_eq, text_eq_iff, before_char, ℕ, ◌+◌, ◌≡◌, refl, true,
  ◌||◌, List, [], ◌∷◌, map, arith,
}
use nwtool.State.{CppLintState, bump, increment_error_count, reset_error_counts}

-- The entry of a category, 0 if there is none.
pub count_of : Text → List (Text × ℕ) → ℕ
count_of k [] = 0
count_of k ((d, n) ∷ m) = if text_eq d k then n else count_of k m

unfoldable pub total : List (Text × ℕ) → ℕ
total [] = 0
total ((d, n) ∷ m) = n + total m

unfoldable pub occurrences : Text → List Text → ℕ
occurrences k [] = 0
occurrences k (c ∷ cs) = (if text_eq c k then 1 else 0) + occurrences k cs

-- The key under which an error is counted.
abbrev pub key : CppLintState → Text → Text
key s category = if text_eq s.counting (txt "detailed") then category else before_char b'/' category

pub increment_all : CppLintState → List Text → CppLintState
increment_all s [] = s
increment_all s (c ∷ cs) = increment_all (increment_error_count s c) cs

text_eq_refl : (a : Text) → text_eq a a ≡ true
text_eq_refl a = (text_eq_iff a a).1 refl

count_of-bump :
    (k c : Text) (m : List (Text × ℕ))
    → count_of k (bump c m) ≡ (if text_eq c k then 1 else 0) + count_of k m
unfolding count_of bump
count_of-bump k c [] = ground arith
count_of-bump k c ((d, n) ∷ m) =
    ground (arith, count_of-bump k c m, text_eq_iff d c, text_eq_iff d k, text_eq_iff c k)

pub total-bump : (c : Text) (m : List (Text × ℕ)) → total (bump c m) ≡ total m + 1
unfolding total bump
total-bump c [] = refl
total-bump c ((d, n) ∷ m) = ground (arith, total-bump c m)

abbrev pub ByCategory : CppLintState → Type 0
ByCategory s = (text_eq s.counting (txt "toplevel") || text_eq s.counting (txt "detailed")) ≡ true

increment_all-count_of :
    (s : CppLintState) (cs : List Text) (k : Text)
    → ByCategory s
    → count_of k (increment_all s cs).errors_by_category
      ≡ occurrences k (map (key s) cs) + count_of k s.errors_by_category
unfolding increment_all occurrences increment_error_count
increment_all-count_of s [] k h = ground arith
increment_all-count_of s (c ∷ cs) k h = ground (
  arith,
  increment_all-count_of (increment_error_count s c) cs k,
  count_of-bump k (key s c) s.errors_by_category,
)

increment_all-total :
    (s : CppLintState) (cs : List Text)
    → ByCategory s
    → total (increment_all s cs).errors_by_category + s.error_count
      ≡ total s.errors_by_category + (increment_all s cs).error_count
unfolding increment_all increment_error_count
increment_all-total s [] h = ground arith
increment_all-total s (c ∷ cs) h = ground (
  arith,
  increment_all-total (increment_error_count s c) cs,
  total-bump (key s c) s.errors_by_category,
)

increment_all-error_count :
    (s : CppLintState) (cs : List Text)
    → (increment_all s cs).error_count ≡ length cs + s.error_count
unfolding increment_all increment_error_count
increment_all-error_count s [] = ground arith
increment_all-error_count s (c ∷ cs) =
    ground (arith, increment_all-error_count (increment_error_count s c) cs)

-- Under `--counting=toplevel` and `--counting=detailed`, after a reset and any run of errors, each
-- category's entry is the number of those errors that fall under it, the entries add up to the
-- total, and the total is the number of errors.
increment_all-reset :
    (s : CppLintState) (cs : List Text) (k : Text)
    → ByCategory s
    → let t = increment_all (reset_error_counts s) cs in
      (count_of k t.errors_by_category ≡ occurrences k (map (key s) cs))
      × (total t.errors_by_category ≡ t.error_count)
      × (t.error_count ≡ length cs)
unfolding reset_error_counts count_of total
increment_all-reset s cs k h =
    let z = reset_error_counts s in
    ground (
      arith,
      increment_all-count_of z cs k h,
      increment_all-total z cs h,
      increment_all-error_count z cs,
    )
