-- ===== src/Program/Getopt.antt =====
-- Python's `getopt.getopt(args, '', longopts)`, as `ParseArguments` calls it.
use nwtool.Base.{
  if◌then◌else◌, length, take, drop, Text, txt, text_eq, one_of, starts_with, ends_with, find, ℕ,
  zero, suc, ◌+◌, ◌-◌, Bool, true, false, not, ◌||◌, Option, none, some, List, [], ◌∷◌, ◌++◌,
}

-- The names of the long options; those with an argument end in `=`.
abbrev pub long_options : List Text
long_options =
    txt "help"
    ∷ txt "output="
    ∷ txt "verbose="
    ∷ txt "v="
    ∷ txt "version"
    ∷ txt "counting="
    ∷ txt "filter="
    ∷ txt "root="
    ∷ txt "repository="
    ∷ txt "linelength="
    ∷ txt "extensions="
    ∷ txt "exclude="
    ∷ txt "recursive"
    ∷ txt "headers="
    ∷ txt "quiet"
    ∷ []

unfoldable pub with_prefix : Text → List Text → List Text
unfolding starts_with
with_prefix opt [] = []
with_prefix opt (o ∷ os) = (if starts_with o opt then o ∷ [] else []) ++ with_prefix opt os

-- The name with its prefix, when there is one.
abbrev unique_match : List Text → Option (Bool × Text)
unique_match [] = none
unique_match (o ∷ p ∷ os) = none
unique_match (o ∷ []) =
    if ends_with o (txt "=") then some (true, take (length o - 1) o) else some (false, o)

-- `long_has_args`: whether the option has an argument, and its full name; `none` is a GetoptError.
unfoldable pub long_has_args : Text → List Text → Option (Bool × Text)
unfolding with_prefix one_of ends_with
long_has_args opt longopts =
    let possibilities = with_prefix opt longopts in
    if one_of opt possibilities
    then some (false, opt)
    else if one_of (opt ++ txt "=") possibilities
    then some (true, opt)
    else unique_match possibilities

-- `opt.index('=')`: the option and its argument.
unfoldable pub split_option : Text → Text × Option Text
unfolding find
split_option opt = elim (find opt (txt "=")) [
  | none ↦ (opt, none)
  | some i ↦ (take i opt, some (drop (i + 1) opt))
]

-- An option with its value, and the arguments behind it.
abbrev pub Taken : Type 0
Taken = (Text × Text) × List Text

abbrev take_value : Text → Option Text → List Text → Option Taken
take_value opt (some v) args = some ((opt, v), args)
take_value opt none [] = none
take_value opt none (a ∷ args) = some ((opt, a), args)

abbrev no_value : Text → Option Text → List Text → Option Taken
no_value opt none args = some ((opt, []), args)
no_value opt (some v) args = none

-- `do_longs`, behind the two dashes.
unfoldable pub do_longs : Text → List Text → Option Taken
unfolding split_option long_has_args
do_longs arg args =
    let (name, optarg) = split_option arg in
    elim (long_has_args name long_options) [
      | none ↦ none
      | some (true, opt) ↦ take_value opt optarg args
      | some (false, opt) ↦ no_value opt optarg args
    ]

-- The options, with their names without the dashes, and the arguments that are left; the number
-- bounds the options, of which there are no more than arguments. `none` is a GetoptError.
unfoldable pub getopt_loop : ℕ → List Text → Option (List (Text × Text) × List Text)
unfolding starts_with text_eq do_longs
getopt_loop f [] = some ([], [])
getopt_loop zero (a ∷ args) = some ([], a ∷ args)
getopt_loop (suc f) (a ∷ args) =
    if not (starts_with a (txt "-")) || text_eq a (txt "-")
    then some ([], a ∷ args)
    else if text_eq a (txt "--")
    then some ([], args)
    else if not (starts_with a (txt "--"))
    then none
    else (elim (do_longs (drop 2 a) args) [
      | none ↦ none
      | some (opt, rest) ↦ elim (getopt_loop f rest) [
        | none ↦ none
        | some (opts, filenames) ↦ some (opt ∷ opts, filenames)
      ]
    ])

unfoldable pub getopt : List Text → Option (List (Text × Text) × List Text)
unfolding getopt_loop
getopt args = getopt_loop (length args) args
