-- ===== src/Includes/Headers.antt =====
-- The list of the headers seen.
use nwtool.Base.{
  if◌then◌else◌, Text, txt, text_eq_iff, one_of, ℕ, ◌≡◌, refl, ap, ◌∙◌, Bool, true, false, none,
  some, List, [], ◌∷◌, ◌++◌, arith,
}
use mathlib.Core.List.{flatten}
use nwtool.Includes.{IncludeState, find_in_section, find_header, clear_last, reset_section}

find_in_section-append :
    (h : Text) (xs ys : List (Text × ℕ))
    → find_in_section h (xs ++ ys)
      ≡ elim (find_in_section h xs) [ some n ↦ some n | none ↦ find_in_section h ys ]
unfolding find_in_section
find_in_section-append h [] ys = refl
find_in_section-append h ((f, n) ∷ xs) ys = ground (arith, find_in_section-append h xs ys)

find_header-append :
    (h : Text) (xs ys : List (List (Text × ℕ)))
    → find_header h (xs ++ ys)
      ≡ elim (find_header h xs) [ some n ↦ some n | none ↦ find_header h ys ]
unfolding find_header
find_header-append h [] ys = refl
find_header-append h (x ∷ xs) ys = ground (arith, find_header-append h xs ys)

clear_last-append :
    (xs : List (List (Text × ℕ))) (x : List (Text × ℕ)) → clear_last (xs ++ x ∷ []) ≡ xs ++ [] ∷ []
unfolding clear_last
clear_last-append [] x = refl
clear_last-append (y ∷ []) x = refl
clear_last-append (y ∷ z ∷ xs) x = ap (◌∷◌ y) (clear_last-append (z ∷ xs) x)

abbrev pub is_else : Text → Bool
is_else directive = one_of directive (txt "else" ∷ txt "elif" ∷ [])

find_header-snoc_empty :
    (h : Text) (xs : List (List (Text × ℕ))) → find_header h (xs ++ [] ∷ []) ≡ find_header h xs
find_header-snoc_empty h xs =
    find_header-append h xs ([] ∷ []) ∙ unfold find_header find_in_section in ground arith

else_not_if :
    (d : Text) → is_else d ≡ true → one_of d (txt "if" ∷ txt "ifdef" ∷ txt "ifndef" ∷ []) ≡ false
unfolding one_of
else_not_if d h = ground (
  arith,
  text_eq_iff (txt "else") d,
  text_eq_iff (txt "elif") d,
  text_eq_iff (txt "if") d,
  text_eq_iff (txt "ifdef") d,
  text_eq_iff (txt "ifndef") d,
)

-- After a preprocessor directive a header is found on the line where it was found before, but for
-- `#else` and `#elif`: these forget the headers since the last `#if`, and nothing else.
find_header-reset_section :
    (s : IncludeState) (directive h : Text) (xs : List (List (Text × ℕ))) (x : List (Text × ℕ))
    → s.include_list ≡ xs ++ x ∷ []
    → find_header h (reset_section s directive).include_list
      ≡ (if is_else directive then find_header h xs else find_header h s.include_list)
unfolding reset_section
find_header-reset_section s directive h xs x e = ground (
  arith,
  find_header-snoc_empty h s.include_list,
  find_header-snoc_empty h xs,
  clear_last-append xs x,
  else_not_if directive,
)

-- `FindHeader` gives the line of the first occurrence in the order of the file, wherever the
-- preprocessor directives have cut the list.
pub find_header-flatten :
    (h : Text) (sections : List (List (Text × ℕ)))
    → find_header h sections ≡ find_in_section h (flatten sections)
unfolding find_header flatten
find_header-flatten h [] = unfold find_in_section in refl
find_header-flatten h (x ∷ xs) =
    ground (arith, find_in_section-append h x (flatten xs), find_header-flatten h xs)
