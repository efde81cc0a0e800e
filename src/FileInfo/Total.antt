-- ===== src/FileInfo/Total.antt =====
-- When the loops of `RepositoryName` end.
use nwtool.Base.{Text, txt, text_eq, text_eq_iff, ℕ, zero, suc, ◌≡◌, refl, true, false, none}
use nwtool.Paths.{dirname, join}
use nwtool.FileInfo.{System, svn_loop}

text_eq_self : (a : Text) → text_eq a a ≡ true
text_eq_self a = (text_eq_iff a a).1 refl

module _ (sys : System) where
  -- A directory that is its own parent holds no `.svn`.
  abbrev pub NoSvnAtRoot : Type 0
  NoSvnAtRoot = (d : Text) → dirname d ≡ d → sys.exists (join d (txt ".svn")) ≡ false

  -- Where a directory that is its own parent holds a `.svn`, the loop up a Subversion checkout that
  -- comes to it never ends.
  pub svn_loop-endless :
      (f : ℕ) (root_dir d : Text)
      → dirname d ≡ d
      → sys.exists (join d (txt ".svn")) ≡ true
      → svn_loop sys f root_dir d ≡ none
  unfolding svn_loop
  svn_loop-endless zero root_dir d same e = refl
  svn_loop-endless (suc f) root_dir d same e =
      rw (e, same) (svn_loop-endless f (dirname root_dir) d same e)
