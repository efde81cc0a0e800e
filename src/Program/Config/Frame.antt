-- ===== src/Program/Config/Frame.antt =====
-- What `ProcessConfigOverrides` leaves as it is.
use nwtool.Base.{
  if◌then◌else◌, Bool-cases, Option-cases, Text, txt, text_eq, strip, before_char, ℕ, zero, suc,
  ◌≡◌, refl, ◌∙◌, inl, inr, Bool, true, false, Option, none, some, List, [], ◌∷◌, ◌++◌, arith,
}
use nwtool.Paths.{path_split, join}
use nwtool.State.{CppLintState, add_filters}
use nwtool.Nolint.{Suppressions}
use nwtool.Program.{Host, Globals, put_info, put_error}
use nwtool.Program.Config.{
  Overrides, Verdict, proceed, excluded, exclude_files, set_line_length, set_option, config_option,
  config_line, config_lines, config_file, option_name, option_value, config_loop, add_all_filters,
}

-- All of the linter's state but the texts kept for JUnit, and the suppressions.
abbrev pub bare : Globals → CppLintState × Suppressions
bare g = (record g.linter.lint_state { junit_errors = [] }, g.linter.suppressions)

abbrev pub globals_of : Verdict → Globals
globals_of (proceed o) = o.globals
globals_of (excluded g) = g

put_error-bare : (m : Text) (g : Globals) → bare (put_error m g) ≡ bare g
unfolding put_error
put_error-bare m g = ground arith

set_line_length-bare : (val : Text) (g : Globals) → bare (set_line_length val g) ≡ bare g
unfolding set_line_length
set_line_length-bare val g = ground (arith, put_error-bare (txt "Line length must be numeric.") g)

set_option-bare :
    (host : Host) (cfg_file name val : Text) (g : Globals)
    → bare (set_option host cfg_file name val g) ≡ bare g
unfolding set_option
set_option-bare host cfg_file name val g = ground (
  arith,
  set_line_length-bare val g,
  put_error-bare
      (txt "Invalid configuration option (" ++ name ++ txt ") in file " ++ cfg_file ++ txt "\n") g,
)

-- A verdict of either branch.
branch :
    (b : Bool) (x y : Option Verdict) (v : Verdict) (G : Type 0)
    → (x ≡ some v → G)
    → (y ≡ some v → G)
    → (if b then x else y) ≡ some v
    → G
branch true x y v G f g h = f h
branch false x y v G f g h = g h

-- A verdict that keeps what another state has.
keeps :
    (u v : Verdict) (g : Globals)
    → bare (globals_of u) ≡ bare g
    → some u ≡ some v
    → bare (globals_of v) ≡ bare g
keeps u v g k h = let same : u ≡ v = cc in rw same at k

keeps_twice :
    (u v : Verdict) (g : Globals)
    → bare (globals_of u) ≡ bare g
    → some (some u) ≡ some (some v)
    → bare (globals_of v) ≡ bare g
keeps_twice u v g k h = keeps u v g k (cc)

exclude_files-bare :
    (filename cfg_file base_name val : Text) (o : Overrides) (v : Verdict)
    → exclude_files filename cfg_file base_name val o ≡ some v
    → bare (globals_of v) ≡ bare o.globals
unfolding exclude_files put_info
exclude_files-bare filename cfg_file base_name val o v =
    let G = bare (globals_of v) ≡ bare o.globals in
    branch _ none _ v G (λ e. absurd (cc))
      (branch _ (some (proceed o)) _ v G (keeps (proceed o) v o.globals refl) (
        branch o.globals.linter.lint_state.quiet (some (excluded o.globals)) _ v G
          (keeps (excluded o.globals) v o.globals refl) (keeps _ v o.globals refl)))

config_option-bare :
    (host : Host) (filename cfg_file base_name name val : Text) (o : Overrides) (v : Verdict)
    → config_option host filename cfg_file base_name name val o ≡ some v
    → bare (globals_of v) ≡ bare o.globals
unfolding config_option
config_option-bare host filename cfg_file base_name name val o v =
    let G = bare (globals_of v) ≡ bare o.globals in
    branch _ _ _ v G (keeps (proceed (record o { keep_looking = false })) v o.globals refl) (
      branch _ _ _ v G
        (keeps (proceed (record o { cfg_filters = o.cfg_filters ++ val ∷ [] })) v o.globals refl)
        (branch _ _ _ v G (exclude_files-bare filename cfg_file base_name val o v) (
          keeps (proceed (record o { globals = set_option host cfg_file name val o.globals })) v
            o.globals (set_option-bare host cfg_file name val o.globals))))

config_line-bare :
    (host : Host) (filename cfg_file base_name raw : Text) (o : Overrides) (v : Verdict)
    → config_line host filename cfg_file base_name raw o ≡ some v
    → bare (globals_of v) ≡ bare o.globals
unfolding config_line
config_line-bare host filename cfg_file base_name raw o v =
    let G = bare (globals_of v) ≡ bare o.globals in
    let line = before_char b'#' raw in
    branch (text_eq (strip line) []) (some (proceed o))
      (config_option host filename cfg_file base_name (option_name line) (option_value line) o) v G
      (keeps (proceed o) v o.globals refl)
      (config_option-bare host filename cfg_file base_name (option_name line) (option_value line) o
        v)

config_lines-bare :
    (host : Host) (filename cfg_file base_name : Text) (ls : List Text) (o : Overrides)
    (v : Verdict)
    → config_lines host filename cfg_file base_name ls o ≡ some v
    → bare (globals_of v) ≡ bare o.globals
unfolding config_lines
config_lines-bare host filename cfg_file base_name [] o v h = keeps (proceed o) v o.globals refl h
config_lines-bare host filename cfg_file base_name (l ∷ ls) o v h =
    elim (Option-cases (config_line host filename cfg_file base_name l o)) [
      | inl e ↦ absurd (ground (arith, e))
      | inr (excluded g, e) ↦
          keeps (excluded g) v o.globals
            (config_line-bare host filename cfg_file base_name l o (excluded g) e)
            (rw (e, config_lines) at h)
      | inr (proceed p, e) ↦
          config_lines-bare host filename cfg_file base_name ls p v (rw (e, config_lines) at h)
          ∙ config_line-bare host filename cfg_file base_name l o (proceed p) e
    ]

config_file-bare :
    (host : Host) (filename cfg_file base_name : Text) (o : Overrides) (v : Verdict)
    → config_file host filename cfg_file base_name o ≡ some v
    → bare (globals_of v) ≡ bare o.globals
unfolding config_file
config_file-bare host filename cfg_file base_name o v h =
    elim (Bool-cases (host.is_file cfg_file)) [
      | inr e ↦ keeps (proceed o) v o.globals refl (rw (e, config_file) at h)
      | inl e ↦ elim (Option-cases (host.config cfg_file)) [
        | inr (lines, is) ↦
            config_lines-bare host filename cfg_file base_name lines o v
              (rw (e, is, config_file) at h)
        | inl fails ↦
            let skipped =
              txt "Skipping config file '" ++ cfg_file ++ txt "': Can't open for reading\n" in
            keeps
              (proceed (record o { keep_looking = false; globals = put_error skipped o.globals })) v
              o.globals (put_error-bare skipped o.globals) (rw (e, fails, config_file) at h)
      ]
    ]

pub config_loop-bare :
    (f : ℕ) (host : Host) (filename path : Text) (o : Overrides) (v : Verdict)
    → config_loop f host filename path o ≡ some (some v)
    → bare (globals_of v) ≡ bare o.globals
unfolding config_loop
config_loop-bare zero host filename path o v h = cc
config_loop-bare (suc f) host filename path o v h = elim (Bool-cases o.keep_looking) [
  | inr e ↦ keeps_twice (proceed o) v o.globals refl (simp (e, config_loop) at h)
  | inl e ↦ elim (Bool-cases (text_eq (path_split path).1 [])) [
    | inl top ↦ keeps_twice (proceed o) v o.globals refl (simp (e, top, config_loop) at h)
    | inr below ↦
        let cfg_file = join (path_split path).0 (txt "CPPLINT.cfg") in
        let base_name = (path_split path).1 in
        elim (Option-cases (config_file host filename cfg_file base_name o)) [
          | inl raises ↦ absurd (ground (arith, simp (e, below, raises, config_loop) at h))
          | inr (excluded g, is) ↦
              keeps_twice (excluded g) v o.globals
                (config_file-bare host filename cfg_file base_name o (excluded g) is)
                (simp (e, below, is, config_loop) at h)
          | inr (proceed p, is) ↦
              config_loop-bare f host filename (path_split path).0 p v
                (simp (e, below, is, config_loop) at h)
              ∙ config_file-bare host filename cfg_file base_name o (proceed p) is
        ]
  ]
]

-- `AddFilters` changes the filters only.
pub add_all_filters-rest :
    (fs : List Text) (s t : CppLintState)
    → add_all_filters fs s ≡ some t
    → record t { filters = [] } ≡ record s { filters = [] }
unfolding add_all_filters add_filters
add_all_filters-rest [] s t h = let same : s ≡ t = cc in rw same
add_all_filters-rest (f ∷ fs) s t h = elim (Option-cases (add_filters s f).1) [
  | inl good ↦ add_all_filters-rest fs (add_filters s f).0 t (rw (good, add_all_filters) at h)
  | inr (filter, bad) ↦ absurd (ground (arith, rw (bad, add_all_filters) at h))
]
