-- ===== src/IncludeWhatYouUse/Missing.antt =====
-- Which headers are reported as missing, and for which line.
use nwtool.Base.{
  if◌then◌else◌, Bool-cases, Text, text_eq, text_eq_iff, one_of, ℕ, ◌+◌, ◌≤◌, ◌≡◌, refl, ap, ◌∙◌,
  inl, inr, Option, none, some, List, [], ◌∷◌, arith,
}
use nwtool.IncludeWhatYouUse.{
  Required, reasons, require, require_all, required_by, is_before, insert_sorted, sort_required,
  strip_marks, missing,
}

unfoldable pub wanted : Text → Required → Option (ℕ × Text)
wanted h [] = none
wanted h ((k, l, t) ∷ m) = if text_eq k h then some (l, t) else wanted h m

-- The last entity of a line that wants a header.
unfoldable pub last_template : Text → List (Text × Text) → Option Text
last_template h [] = none
last_template h ((k, t) ∷ rs) = elim (last_template h rs) [
  | some u ↦ some u
  | none ↦ if text_eq k h then some t else none
]

-- The last line that wants a header, from line `n` on, with the entity.
unfoldable pub last_reason : Text → ℕ → List Text → Option (ℕ × Text)
unfolding last_template
last_reason h n [] = none
last_reason h n (line ∷ lines) = elim (last_reason h (n + 1) lines) [
  | some r ↦ some r
  | none ↦ elim (last_template h (reasons line)) [ none ↦ none | some t ↦ some (n, t) ]
]

abbrev or_else : Option (ℕ × Text) → Option (ℕ × Text) → Option (ℕ × Text)
or_else none o = o
or_else (some r) o = some r

wanted-require :
    (h k : Text) (r : ℕ × Text) (m : Required)
    → wanted h (require k r m) ≡ (if text_eq k h then some r else wanted h m)
unfolding wanted require
wanted-require h k r [] = refl
wanted-require h k r ((j, l, t) ∷ m) =
    ground (arith, wanted-require h k r m, text_eq_iff j k, text_eq_iff k h, text_eq_iff j h)

wanted-require_all :
    (h : Text) (n : ℕ) (rs : List (Text × Text)) (m : Required)
    → wanted h (require_all n rs m)
      ≡ (elim (last_template h rs) [ some t ↦ some (n, t) | none ↦ wanted h m ])
unfolding require_all last_template
wanted-require_all h n [] m = refl
wanted-require_all h n ((k, t) ∷ rs) m =
    ground (arith, wanted-require_all h n rs (require k (n, t) m), wanted-require h k (n, t) m)

or_else_regroup :
    (a : Option (ℕ × Text)) (b : Option Text) (n : ℕ) (w : Option (ℕ × Text))
    → or_else a (elim b [ some t ↦ some (n, t) | none ↦ w ])
      ≡ or_else
          (elim a [ some r ↦ some r | none ↦ elim b [ none ↦ none | some t ↦ some (n, t) ] ])
          w
or_else_regroup (some r) b n w = refl
or_else_regroup none (some t) n w = refl
or_else_regroup none none n w = refl

wanted-required_by :
    (h : Text) (n : ℕ) (lines : List Text) (m : Required)
    → wanted h (required_by n lines m) ≡ or_else (last_reason h n lines) (wanted h m)
unfolding required_by last_reason
wanted-required_by h n [] m = refl
wanted-required_by h n (l ∷ ls) m =
    wanted-required_by h (n + 1) ls (require_all n (reasons l) m)
    ∙ ap (or_else (last_reason h (n + 1) ls)) (wanted-require_all h n (reasons l) m)
    ∙ or_else_regroup (last_reason h (n + 1) ls) (last_template h (reasons l)) n (wanted h m)

-- Every header stands once.
abbrev pub Unique : Required → Type 0
Unique [] = Unit {0}
Unique ((h, l, t) ∷ m) = (wanted h m ≡ none) × Unique m

require-Unique : (h : Text) (r : ℕ × Text) (m : Required) → Unique m → Unique (require h r m)
unfolding require wanted
require-Unique h r [] u = (refl, tt)
require-Unique h r ((k, l, t) ∷ m) u =
    ground
      (arith, require-Unique h r m u.1, wanted-require k h r m, text_eq_iff k h, text_eq_iff h k)

require_all-Unique :
    (n : ℕ) (rs : List (Text × Text)) (m : Required) → Unique m → Unique (require_all n rs m)
unfolding require_all
require_all-Unique n [] m u = u
require_all-Unique n ((h, t) ∷ rs) m u =
    require_all-Unique n rs (require h (n, t) m) (require-Unique h (n, t) m u)

required_by-Unique :
    (n : ℕ) (lines : List Text) (m : Required) → Unique m → Unique (required_by n lines m)
unfolding required_by
required_by-Unique n [] m u = u
required_by-Unique n (l ∷ ls) m u =
    required_by-Unique (n + 1) ls (require_all n (reasons l) m)
      (require_all-Unique n (reasons l) m u)

wanted-insert_sorted :
    (h k : Text) (l : ℕ) (t : Text) (m : Required)
    → wanted k m ≡ none
    → wanted h (insert_sorted (k, l, t) m) ≡ (if text_eq k h then some (l, t) else wanted h m)
unfolding wanted insert_sorted
wanted-insert_sorted h k l t [] e = refl
wanted-insert_sorted h k l t ((j, n, u) ∷ m) e =
    ground
      (arith, wanted-insert_sorted h k l t m, e, text_eq_iff j k, text_eq_iff k h, text_eq_iff j h)

wanted-sort_required :
    (h : Text) (m : Required) → Unique m → wanted h (sort_required m) ≡ wanted h m
unfolding wanted sort_required
wanted-sort_required h [] u = refl
wanted-sort_required h ((k, l, t) ∷ m) u =
    wanted-insert_sorted h k l t (sort_required m) (wanted-sort_required k m u.1 ∙ u.0)
    ∙ ground (arith, wanted-sort_required h m u.1)

wanted-missing :
    (h : Text) (dict : List Text) (m : Required)
    → wanted h (missing dict m) ≡ (if one_of (strip_marks h) dict then none else wanted h m)
unfolding wanted missing
wanted-missing h dict [] = ground arith
wanted-missing h dict ((k, l, t) ∷ m) = ground (arith, wanted-missing h dict m, text_eq_iff k h)

-- The lines do not go back.
abbrev pub InOrder : ℕ → Required → Type 0
InOrder n [] = Unit {0}
InOrder n ((h, l, t) ∷ m) = (n ≤ l) × InOrder l m

insert_sorted-InOrder :
    (n : ℕ) (h t : Text) (l : ℕ) (m : Required)
    → n ≤ l
    → InOrder n m
    → InOrder n (insert_sorted (h, l, t) m)
unfolding insert_sorted is_before
insert_sorted-InOrder n h t l [] b o = (b, tt)
insert_sorted-InOrder n h t l ((k, j, u) ∷ m) b o = ground (arith, insert_sorted-InOrder j h t l m)

sort_required-InOrder : (m : Required) → InOrder 0 (sort_required m)
unfolding sort_required
sort_required-InOrder [] = tt
sort_required-InOrder ((h, l, t) ∷ m) =
    insert_sorted-InOrder 0 h t l (sort_required m) (omega arith) (sort_required-InOrder m)

InOrder-below : (n k : ℕ) (m : Required) → n ≤ k → InOrder k m → InOrder n m
InOrder-below n k [] b o = tt
InOrder-below n k ((h, l, t) ∷ m) b o = (omega arith, o.1)

missing-InOrder :
    (n : ℕ) (dict : List Text) (m : Required) → InOrder n m → InOrder n (missing dict m)
unfolding missing
missing-InOrder n dict [] o = tt
missing-InOrder n dict ((h, l, t) ∷ m) o = elim (Bool-cases (one_of (strip_marks h) dict)) [
  | inl e ↦ rw (e, missing) (InOrder-below n l (missing dict m) o.0 (missing-InOrder l dict m o.1))
  | inr e ↦ rw (e, missing) (o.0, missing-InOrder l dict m o.1)
]

missing-Unique : (dict : List Text) (m : Required) → Unique m → Unique (missing dict m)
unfolding missing wanted
missing-Unique dict [] u = tt
missing-Unique dict ((h, l, t) ∷ m) u = elim (Bool-cases (one_of (strip_marks h) dict)) [
  | inl e ↦ rw (e, missing) (missing-Unique dict m u.1)
  | inr e ↦
      rw (e, missing) (wanted-missing h dict m ∙ ground (arith, e, u.0), missing-Unique dict m u.1)
]

insert_sorted-Unique :
    (k : Text) (l : ℕ) (t : Text) (m : Required)
    → wanted k m ≡ none
    → Unique m
    → Unique (insert_sorted (k, l, t) m)
unfolding insert_sorted wanted
insert_sorted-Unique k l t [] e u = (refl, tt)
insert_sorted-Unique k l t ((j, n, v) ∷ m) e u = ground (
  arith,
  insert_sorted-Unique k l t m,
  wanted-insert_sorted j k l t m,
  text_eq_iff j k,
  text_eq_iff k j,
)

sort_required-Unique : (m : Required) → Unique m → Unique (sort_required m)
unfolding sort_required
sort_required-Unique [] u = tt
sort_required-Unique ((h, l, t) ∷ m) u =
    insert_sorted-Unique h l t (sort_required m) (wanted-sort_required h m u.1 ∙ u.0)
      (sort_required-Unique m u.1)

or_else-none : (o : Option (ℕ × Text)) → or_else o none ≡ o
or_else-none none = refl
or_else-none (some r) = refl

-- What is missing, for a dictionary of includes.
pub missing_lem :
    (dict lines : List Text)
    → let reported = missing dict (sort_required (required_by 0 lines [])) in
      ((h : Text)
        → wanted h reported ≡ (if one_of (strip_marks h) dict then none else last_reason h 0 lines))
      × Unique reported
      × InOrder 0 reported
unfolding wanted
missing_lem dict lines =
    let required = required_by 0 lines [] in
    let once = required_by-Unique 0 lines [] tt in
    (
      (λ h.
          wanted-missing h dict (sort_required required)
          ∙ ap (λ o. if one_of (strip_marks h) dict then none else o)
              (wanted-sort_required h required once
                ∙ wanted-required_by h 0 lines []
                ∙ or_else-none (last_reason h 0 lines))),
      missing-Unique dict (sort_required required) (sort_required-Unique required once),
      missing-InOrder 0 dict (sort_required required) (sort_required-InOrder required),
    )
