-- ===== src/Paths/Split.antt =====
-- The head of a path is shorter than the path, or the path itself, so `PathSplitToList` ends.
use native.Mathlib.Decide.{dec_lt}
use nwtool.Base.{
  if◌then◌else◌, Bool-cases, length, take, length-take, length-reverse, Text, text_eq, text_eq_iff,
  before_char, ℕ, zero, suc, ◌+◌, ◌-◌, ◌≤◌, ◌<◌, ◌≡◌, refl, ap, ◌⊎◌, inl, inr, some, List, [], ◌∷◌,
  reverse, arith,
}
use nwtool.Paths.{
  cut_last, all_are, drop_all, rstrip_char, path_split, split_loop, path_split_to_list,
}

length-before_char : (d : ℕ) (s : Text) → length (before_char d s) ≤ length s
unfolding before_char
length-before_char d [] = omega arith
length-before_char d (c ∷ s) = ground (arith, length-before_char d s)

length-drop_all : (d : ℕ) (s : Text) → length (drop_all d s) ≤ length s
length-drop_all d [] = omega arith
length-drop_all d (c ∷ s) = ground (arith, length-drop_all d s)

-- A text that begins with `d` gets shorter when its first `d`s are dropped.
drop_all-shorter :
    (d : ℕ) (s : Text)
    → length (before_char d s) ≡ 0
    → (length s ≡ 0) ⊎ (length (drop_all d s) < length s)
unfolding before_char
drop_all-shorter d [] h = inl refl
drop_all-shorter d (c ∷ s) h = ground (arith, length-drop_all d s)

take_all : (n : ℕ) (s : Text) → n ≡ length s → take n s ≡ s
take_all zero [] h = refl
take_all zero (c ∷ s) h = absurd (omega arith)
take_all (suc n) [] h = refl
take_all (suc n) (c ∷ s) h = ap (◌∷◌ c) (take_all n s (omega arith))

abbrev strip_head : Text → Text
strip_head h = if all_are b'/' h then h else rstrip_char b'/' h

length-strip_head : (h : Text) → length (strip_head h) ≤ length h
unfolding rstrip_char
length-strip_head h = ground (
  arith,
  length-reverse (drop_all b'/' (reverse h)),
  length-drop_all b'/' (reverse h),
  length-reverse h,
)

length-zero : (s : Text) → length s ≡ 0 → s ≡ []
length-zero [] h = refl
length-zero (c ∷ s) h = absurd (omega arith)

strip_head-shorter :
    (p : Text)
    → length (before_char b'/' (reverse p)) ≡ 0
    → (strip_head p ≡ p) ⊎ (length (strip_head p) < length p)
unfolding rstrip_char
strip_head-shorter p h = elim (drop_all-shorter b'/' (reverse p) h) [
  | inl none_left ↦
      let empty : p ≡ [] = length-zero p (omega (arith, none_left, length-reverse p)) in
      inl (rw empty)
  | inr shorter ↦ elim (Bool-cases (all_are b'/' p)) [
    | inl e ↦ inl (rw e)
    | inr e ↦ inr (
        rw e (omega (arith, shorter, length-reverse (drop_all b'/' (reverse p)), length-reverse p)))
  ]
]

-- The head is shorter than a path with a tail.
pub path_split-shorter :
    (p : Text) → 0 < length (path_split p).1 → length (path_split p).0 < length p
unfolding path_split cut_last
path_split-shorter p inside =
    let tail = reverse (before_char b'/' (reverse p)) in
    omega (
      arith,
      length-strip_head (take (length p - length tail) p),
      length-take (length p - length tail) p,
      inside,
      length-reverse (before_char b'/' (reverse p)),
      length-before_char b'/' (reverse p),
      length-reverse p,
    )

-- The head of a path is the path itself or shorter.
pub path_split-head : (p : Text) → ((path_split p).0 ≡ p) ⊎ (length (path_split p).0 < length p)
unfolding path_split cut_last
path_split-head p =
    let tail = reverse (before_char b'/' (reverse p)) in
    let tail_is = length-reverse (before_char b'/' (reverse p)) in
    elim (dec_lt 0 (length tail)) [
      | yes inside ↦ inr (path_split-shorter p inside)
      | no at_end ↦
          let all : take (length p - length tail) p ≡ p =
            take_all (length p - length tail) p (omega arith) in
          rw all (strip_head-shorter p (omega (arith, tail_is)))
    ]

pub split_loop-total :
    (f : ℕ) (path : Text) (lst : List Text)
    → length path < f
    → (r : List Text) × (split_loop f path lst ≡ some r)
unfolding split_loop
split_loop-total zero path lst h = absurd (omega arith)
split_loop-total (suc f) path lst h = elim (Bool-cases (text_eq (path_split path).0 path)) [
  | inl ends ↦ ((path_split path).0 ∷ lst, rw (ends, split_loop))
  | inr e ↦ elim (path_split-head path) [
    | inl same ↦ absurd (cc ((text_eq_iff (path_split path).0 path).1 same))
    | inr shorter ↦ elim (Bool-cases (text_eq (path_split path).1 path)) [
      | inl ends ↦ ((path_split path).1 ∷ lst, rw (e, ends, split_loop))
      | inr more ↦
          let (r, runs) =
            split_loop-total f (path_split path).0 ((path_split path).1 ∷ lst) (omega arith) in
          (r, rw (e, more, split_loop) runs)
    ]
  ]
]

-- `PathSplitToList` ends, on every path.
pub path_split_to_list-total : (path : Text) → (r : List Text) × (path_split_to_list path ≡ some r)
unfolding path_split_to_list
path_split_to_list-total path = split_loop-total (length path + 1) path [] (omega arith)
