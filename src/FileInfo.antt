-- ===== src/FileInfo.antt =====
-- File names: build_support/cpplint.py, class `FileInfo`, and the extensions. What the code asks of
-- the system, and the module's variables that flags set, are arguments.
pub mod Total
use mathlib.Core.Option
use nwtool.Base.{
  if◌then◌else◌, length, drop, Text, txt, text_eq, one_of, char_in, replace, ℕ, zero, suc, ◌+◌,
  Bool, not, ◌||◌, Option, none, some, List, [], ◌∷◌, ◌++◌,
}
use nwtool.Paths.{dirname, join, splitext, path_split, abspath, relpath, commonprefix}

-- What `os` and `codecs` answer while the linter runs; the text of a file is its lines.
pub record System : Type 0 where
  pub cwd : Text
  pub exists : Text → Bool
  pub contents : Text → Option (List Text)

-- `_root`, `_repository`, `_hpp_headers`, `_valid_extensions`, with the empty text for `None`. A set
-- is a list in the order in which Python goes over it.
pub record Flags : Type 0 where
  pub root : Text
  pub repository : Text
  pub hpp_headers : List Text
  pub valid_extensions : List Text

abbrev keep_h : List Text → List Text
keep_h [] = []
keep_h (e ∷ es) = (if char_in b'h' e then e ∷ [] else []) ++ keep_h es

unfoldable pub get_header_extensions : Flags → List Text
unfolding char_in
get_header_extensions flags = elim flags.hpp_headers [
  | h ∷ hs ↦ h ∷ hs
  | [] ↦ elim flags.valid_extensions [
    | v ∷ vs ↦ keep_h (v ∷ vs)
    | [] ↦ txt "h" ∷ txt "hh" ∷ txt "hpp" ∷ txt "hxx" ∷ txt "h++" ∷ txt "cuh" ∷ []
  ]
]

unfoldable pub is_header_extension : Flags → Text → Bool
unfolding get_header_extensions one_of
is_header_extension flags extension = one_of extension (get_header_extensions flags)

-- `xs.difference(ys)`
abbrev pub difference : List Text → List Text → List Text
difference [] ys = []
difference (x ∷ xs) ys = (if one_of x ys then [] else x ∷ []) ++ difference xs ys

unfoldable pub get_all_extensions : Flags → List Text
unfolding get_header_extensions one_of
get_all_extensions flags =
    let headers = get_header_extensions flags in
    let valid : List Text = elim flags.valid_extensions [
      | v ∷ vs ↦ v ∷ vs
      | [] ↦ txt "c" ∷ txt "cc" ∷ txt "cpp" ∷ txt "cxx" ∷ txt "c++" ∷ txt "cu" ∷ []
    ] in
    headers ++ difference valid headers

unfoldable pub get_non_header_extensions : Flags → List Text
unfolding get_all_extensions get_header_extensions one_of
get_non_header_extensions flags =
    difference (get_all_extensions flags) (get_header_extensions flags)

unfoldable pub is_source_extension : Flags → Text → Bool
unfolding get_non_header_extensions one_of
is_source_extension flags s = one_of s (get_non_header_extensions flags)

module _ (sys : System) where
  -- `FileInfo.FullName`
  unfoldable pub full_name : Text → Text
  unfolding abspath replace
  full_name filename = replace (abspath sys.cwd filename) (txt "\\") (txt "/")

  -- The loop for the repository that a flag names, with a bound on its rounds; the outer `none`
  -- means that the bound was too small.
  unfoldable pub repository_loop : ℕ → Text → Text → Option (Option Text)
  unfolding dirname text_eq
  repository_loop zero repo root_dir = none
  repository_loop (suc f) repo root_dir =
      let up = dirname root_dir in
      let more = repository_loop f repo up in
      if not (sys.exists root_dir)
      then some none
      else if text_eq root_dir repo
      then some (some root_dir)
      else if text_eq up root_dir
      then some none
      else more

  -- The loop up a Subversion checkout, in the same way.
  unfoldable pub svn_loop : ℕ → Text → Text → Option Text
  unfolding dirname join
  svn_loop zero root_dir one_up_dir = none
  svn_loop (suc f) root_dir one_up_dir =
      let more = svn_loop f (dirname root_dir) (dirname one_up_dir) in
      if sys.exists (join one_up_dir (txt ".svn")) then more else some root_dir

  unfoldable pub is_top : Text → Bool
  unfolding join
  is_top dir =
      sys.exists (join dir (txt ".git"))
      || sys.exists (join dir (txt ".hg"))
      || sys.exists (join dir (txt ".svn"))

  -- The loop for the top level directory of a checkout, in the same way.
  unfoldable pub top_loop : ℕ → Text → Text → Option Text
  unfolding is_top dirname text_eq
  top_loop zero root_dir current_dir = none
  top_loop (suc f) root_dir current_dir =
      let more =
        top_loop f (if is_top current_dir then current_dir else root_dir) (dirname current_dir) in
      if text_eq current_dir (dirname current_dir) then some root_dir else more

  -- A file's name from a directory above it.
  abbrev pub below : Text → Text → Text
  below fullname root_dir = drop (length (commonprefix root_dir (dirname fullname)) + 1) fullname

  -- `FileInfo.RepositoryName`, from where the flag names no repository above the file.
  unfoldable pub checkout_name : Text → Option Text
  unfolding svn_loop top_loop is_top dirname join
  checkout_name fullname =
      let project_dir = dirname fullname in
      if sys.exists (join project_dir (txt ".svn"))
      then Option.map (below fullname)
          (svn_loop (length fullname + 1) project_dir (dirname project_dir))
      else Option.map (λ root_dir. if is_top root_dir then below fullname root_dir else fullname)
          (top_loop (length fullname + 1) project_dir project_dir)

  -- `FileInfo.RepositoryName`; `none` means that one of its loops does not end.
  unfoldable pub repository_name : Flags → Text → Option Text
  unfolding full_name repository_loop checkout_name relpath replace dirname text_eq
  repository_name flags filename =
      let fullname = full_name filename in
      let found : Option (Option Text) =
        if text_eq flags.repository []
        then some none
        else repository_loop (length fullname + 1) (full_name flags.repository)
            (dirname fullname) in
      if not (sys.exists fullname) then some fullname else (elim found [
        | none ↦ none
        | some none ↦ checkout_name fullname
        | some (some root_dir) ↦ some (replace (relpath fullname root_dir) (txt "\\") (txt "/"))
      ])

-- `FileInfo.Split`, of a repository name: directory, base name and extension.
unfoldable pub split_name : Text → Text × Text × Text
unfolding path_split splitext
split_name googlename =
    let (project, rest) = path_split googlename in
    let (base, extension) = splitext rest in (project, base, extension)
