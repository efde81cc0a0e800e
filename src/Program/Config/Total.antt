-- ===== src/Program/Config/Total.antt =====
-- The loop of `ProcessConfigOverrides` up the directories ends.
use nwtool.Base.{
  Bool-cases, Option-cases, length, Text, txt, text_eq, ℕ, zero, suc, ◌<◌, ◌≡◌, inl, inr, false,
  Option, none, some, [], ◌∷◌, arith,
}
use nwtool.Paths.{path_split, join}
use nwtool.Paths.Split.{path_split-shorter}
use nwtool.Program.{Host}
use nwtool.Program.Config.{Overrides, Verdict, proceed, excluded, config_file, config_loop}

abbrev pub Ends : Option (Option Verdict) → Type 0
Ends o = (r : Option Verdict) × (o ≡ some r)

nonempty : (t : Text) → text_eq t [] ≡ false → 0 < length t
unfolding text_eq
nonempty [] h = cc
nonempty (c ∷ t) h = omega arith

-- The loop of `ProcessConfigOverrides` up the directories ends on every path, with a bound on its
-- rounds that is greater than the path's length, whatever the configuration files hold.
pub config_loop-total :
    (f : ℕ) (host : Host) (filename path : Text) (o : Overrides)
    → length path < f
    → Ends (config_loop f host filename path o)
unfolding config_loop
config_loop-total zero host filename path o h = absurd (omega arith)
config_loop-total (suc f) host filename path o h = elim (Bool-cases o.keep_looking) [
  | inr e ↦ (some (proceed o), simp (e, config_loop))
  | inl e ↦ elim (Bool-cases (text_eq (path_split path).1 [])) [
    | inl top ↦ (some (proceed o), simp (e, top, config_loop))
    | inr below ↦
        elim (Option-cases (
          config_file host filename (join (path_split path).0 (txt "CPPLINT.cfg"))
            (path_split path).1 o)) [
              | inl raises ↦ (none, simp (e, below, raises, config_loop))
              | inr (excluded g, is) ↦ (some (excluded g), simp (e, below, is, config_loop))
              | inr (proceed p, is) ↦
                  let (r, runs) = config_loop-total f host filename (path_split path).0 p (
                    omega
                      (arith, path_split-shorter path (nonempty (path_split path).1 below), h)) in
                  (r, simp (e, below, is, config_loop, runs))
            ]
  ]
]
