-- ===== src/Paths.antt =====
-- Python's `os.path` on a POSIX system, as far as build_support/cpplint.py uses it, and its own
-- `PathSplitToList`. The file system is asked by functions that are given as arguments.
pub mod Split
use nwtool.Base.{
  ◌==◌, if◌then◌else◌, length, take, Text, txt, text_eq, starts_with, ends_with, split, before_char,
  join_with, ℕ, zero, suc, ◌+◌, ◌-◌, Bool, true, false, not, ◌&&◌, ◌||◌, Option, none, some, List,
  [], ◌∷◌, ◌++◌, reverse,
}

-- What stands up to the last `d`, with it, and behind it.
unfoldable pub cut_last : ℕ → Text → Text × Text
cut_last d s =
    let tail = reverse (before_char d (reverse s)) in (take (length s - length tail) s, tail)

abbrev pub all_are : ℕ → Text → Bool
all_are d [] = true
all_are d (c ∷ s) = c == d && all_are d s

abbrev pub drop_all : ℕ → Text → Text
drop_all d [] = []
drop_all d (c ∷ s) = if c == d then drop_all d s else c ∷ s

-- `s.rstrip('/')`
unfoldable pub rstrip_char : ℕ → Text → Text
rstrip_char d s = reverse (drop_all d (reverse s))

-- `os.path.split`
unfoldable pub path_split : Text → Text × Text
unfolding cut_last rstrip_char
path_split p =
    let (head, tail) = cut_last b'/' p in
    (if all_are b'/' head then head else rstrip_char b'/' head, tail)

unfoldable pub dirname : Text → Text
unfolding path_split
dirname p = (path_split p).0

-- `os.path.splitext`: a name that begins with its only dots has no extension.
unfoldable pub splitext : Text → Text × Text
unfolding cut_last
splitext p =
    let (dir, name) = cut_last b'/' p in
    let (upto, extension) = cut_last b'.' name in
    let stem = take (length upto - 1) upto in
    if all_are b'.' stem then (p, []) else (dir ++ stem, b'.' ∷ extension)

-- `os.path.join`
unfoldable pub join : Text → Text → Text
unfolding starts_with ends_with text_eq
join a b =
    if starts_with b (txt "/")
    then b
    else if text_eq a [] || ends_with a (txt "/")
    then a ++ b
    else a ++ (b'/' ∷ b)

unfoldable pub join_all : Text → List Text → Text
unfolding join
join_all a [] = a
join_all a (b ∷ bs) = join_all (join a b) bs

-- The parts that `os.path.normpath` keeps, last first.
norm_parts : Bool → List Text → List Text → List Text
unfolding text_eq
norm_parts absolute kept [] = kept
norm_parts absolute kept (c ∷ cs) = norm_parts absolute (next kept) cs
  where
    next : List Text → List Text
    next [] =
        if text_eq c [] || text_eq c (txt ".")
        then []
        else if text_eq c (txt "..") && absolute
        then []
        else c ∷ []
    next (k ∷ ks) =
        if text_eq c [] || text_eq c (txt ".")
        then k ∷ ks
        else if not (text_eq c (txt "..")) || text_eq k (txt "..")
        then c ∷ k ∷ ks
        else ks

-- `os.path.normpath`
unfoldable pub normpath : Text → Text
unfolding norm_parts starts_with split join_with text_eq
normpath p =
    let slashes =
      if not (starts_with p (txt "/"))
      then []
      else if starts_with p (txt "//") && not (starts_with p (txt "///"))
      then txt "//"
      else txt "/" in
    let parts = reverse (norm_parts (not (text_eq slashes [])) [] (split b'/' p)) in
    let q = slashes ++ join_with b'/' parts in if text_eq q [] then txt "." else q

-- `os.path.abspath` in a working directory.
unfoldable pub abspath : Text → Text → Text
unfolding normpath join starts_with
abspath cwd p = normpath (if starts_with p (txt "/") then p else join cwd p)

unfoldable pub not_empty : List Text → List Text
unfolding text_eq
not_empty [] = []
not_empty (t ∷ ts) = (if text_eq t [] then [] else t ∷ []) ++ not_empty ts

abbrev pub parents : List Text → List Text
parents [] = []
parents (t ∷ ts) = txt ".." ∷ parents ts

-- From one list of parts to another: up, and down again.
rel_parts : List Text → List Text → List Text
unfolding text_eq
rel_parts [] path = path
rel_parts start [] = parents start
rel_parts (s ∷ start) (p ∷ path) = elim (text_eq s p) [
  | true ↦ rel_parts start path
  | false ↦ parents (s ∷ start) ++ (p ∷ path)
]

-- `os.path.relpath` of absolute paths.
unfoldable pub relpath : Text → Text → Text
unfolding rel_parts not_empty split join_all normpath
relpath path start =
    elim (rel_parts (not_empty (split b'/' (normpath start)))
      (not_empty (split b'/' (normpath path)))) [ [] ↦ txt "." | r ∷ rs ↦ join_all r rs ]

-- `os.path.commonprefix` of two strings.
unfoldable pub commonprefix : Text → Text → Text
commonprefix (c ∷ a) (d ∷ b) = if c == d then c ∷ commonprefix a b else []
commonprefix _ _ = []

-- The loop of `PathSplitToList`, with the list turned round, and a bound on its rounds; `none` means
-- that the bound was too small.
unfoldable pub split_loop : ℕ → Text → List Text → Option (List Text)
unfolding path_split text_eq
split_loop zero path lst = none
split_loop (suc f) path lst =
    let (head, tail) = path_split path in
    let more = split_loop f head (tail ∷ lst) in
    if text_eq head path
    then some (head ∷ lst)
    else if text_eq tail path
    then some (tail ∷ lst)
    else more

-- `PathSplitToList`
unfoldable pub path_split_to_list : Text → Option (List Text)
unfolding split_loop
path_split_to_list path = split_loop (length path + 1) path []
