-- ===== src/Constructors/Arguments.antt =====
-- The arguments of a constructor, which were split at every comma.
pub mod Joined
use nwtool.Base.{
  ltb, Text, txt, count, Bool, true, false, ◌||◌, Option, none, some, List, [], ◌∷◌, ◌++◌,
}

-- A bracket is open in an argument.
unfoldable pub is_open : Text → Bool
unfolding count
is_open a =
    ltb (count a (txt ">")) (count a (txt "<")) || ltb (count a (txt ")")) (count a (txt "("))

-- The loop from an argument on; `none` is the IndexError where no argument is left to append.
unfoldable pub collapse_from : Text → List Text → Option (List Text)
unfolding is_open
collapse_from a [] = elim (is_open a) [ true ↦ none | false ↦ some (a ∷ []) ]
collapse_from a (b ∷ bs) = elim (is_open a) [
  | true ↦ collapse_from (a ++ (b',' ∷ b)) bs
  | false ↦ elim (collapse_from b bs) [ none ↦ none | some rest ↦ some (a ∷ rest) ]
]

unfoldable pub collapse_arguments : List Text → Option (List Text)
unfolding collapse_from
collapse_arguments [] = some []
collapse_arguments (a ∷ as') = collapse_from a as'
