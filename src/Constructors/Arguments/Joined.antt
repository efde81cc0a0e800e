-- ===== src/Constructors/Arguments/Joined.antt =====
-- What the loop over the arguments of a constructor makes of them.
use mathlib.Core.List.{append_assoc}
use nwtool.Base.{
  Bool-cases, Option-cases, All, Text, join_with, ◌≡◌, refl, sym, ap, ◌∙◌, inl, inr, false, Option,
  none, some, List, [], ◌∷◌, ◌++◌, arith,
}
use nwtool.Constructors.Arguments.{is_open, collapse_from, collapse_arguments}

abbrev pub joined : List Text → Text
joined = join_with b','

-- No bracket is open in any argument.
abbrev pub AreClosed : List Text → Type 0
AreClosed = All (λ a. is_open a ≡ false)

abbrev IsCons : List Text → Type 0
IsCons [] = ⊥
IsCons (x ∷ xs) = Unit {0}

join_with-cons : (a : Text) (xs : List Text) → IsCons xs → joined (a ∷ xs) ≡ a ++ (b',' ∷ joined xs)
unfolding join_with
join_with-cons a [] n = absurd n
join_with-cons a (x ∷ xs) n = refl

join_with-merge :
    (a b : Text) (bs : List Text) → joined ((a ++ (b',' ∷ b)) ∷ bs) ≡ joined (a ∷ b ∷ bs)
unfolding join_with
join_with-merge a b [] = refl
join_with-merge a b (x ∷ xs) = append_assoc a (b',' ∷ b) (b',' ∷ joined (x ∷ xs))

-- What holds of the arguments that the loop gives back, where it gives any.
abbrev IsCollapsed : List Text → Option (List Text) → Type 0
IsCollapsed args none = Unit {0}
IsCollapsed args (some out) = (joined out ≡ joined args) × AreClosed out × IsCons out

IsCollapsed-same :
    (xs ys : List Text) (o : Option (List Text))
    → joined xs ≡ joined ys
    → IsCollapsed xs o
    → IsCollapsed ys o
IsCollapsed-same xs ys none e h = tt
IsCollapsed-same xs ys (some out) e (same, closed, cons) = (same ∙ e, closed, cons)

collapse_from-IsCollapsed : (a : Text) (bs : List Text) → IsCollapsed (a ∷ bs) (collapse_from a bs)
unfolding collapse_from
collapse_from-IsCollapsed a [] = elim (Bool-cases (is_open a)) [
  | inl e ↦ rw (e, collapse_from) tt
  | inr e ↦ rw (e, collapse_from) (refl, (e, tt), tt)
]
collapse_from-IsCollapsed a (b ∷ bs) = elim (Bool-cases (is_open a)) [
  | inl e ↦
      rw (e, collapse_from)
        (IsCollapsed-same ((a ++ (b',' ∷ b)) ∷ bs) (a ∷ b ∷ bs) (collapse_from (a ++ (b',' ∷ b)) bs)
          (join_with-merge a b bs) (collapse_from-IsCollapsed (a ++ (b',' ∷ b)) bs))
  | inr e ↦ elim (Option-cases (collapse_from b bs)) [
    | inl lost ↦ rw (e, lost, collapse_from) tt
    | inr (rest, runs) ↦
        let (same, closed, cons) : IsCollapsed (b ∷ bs) (some rest) =
          rw runs at (collapse_from-IsCollapsed b bs) in
        rw (e, runs, collapse_from)
          (
            join_with-cons a rest cons
                ∙ ap (λ (t : Text). a ++ (b',' ∷ t)) same
                ∙ sym (join_with-cons a (b ∷ bs) tt),
            (e, closed),
            tt,
          )
  ]
]

-- Where the loop over the arguments of a constructor gives arguments back, they are the same text
-- with the same commas, and no bracket is open in any of them.
pub collapse_arguments-joined :
    (args out : List Text)
    → collapse_arguments args ≡ some out
    → (joined out ≡ joined args) × AreClosed out
unfolding collapse_arguments
collapse_arguments-joined [] [] h = (refl, tt)
collapse_arguments-joined [] (x ∷ xs) h = absurd (ground (arith, h))
collapse_arguments-joined (a ∷ as') out h =
    let (same, closed, cons) : IsCollapsed (a ∷ as') (some out) =
      rw h at (collapse_from-IsCollapsed a as') in
    (same, closed)
