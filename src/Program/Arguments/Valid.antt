-- ===== src/Program/Arguments/Valid.antt =====
-- What holds of the state when `ParseArguments` returns.
use nwtool.Base.{
  if◌then◌else◌, Option-cases, Text, txt, text_eq, one_of, ◌≡◌, refl, inl, inr, Bool, true, false,
  ◌||◌, none, List, [], ◌∷◌, ◌++◌, arith,
}
use nwtool.State.{
  set_filters, add_filters, set_output_format, set_quiet, set_verbose_level, set_counting_style,
}
use nwtool.State.Filters.{WellFormed}
use nwtool.Program.{Host, Globals, parse_int, process_extensions_option, process_hpp_headers_option}
use nwtool.Program.Getopt.{getopt}
use nwtool.Program.Arguments.{
  Stop, usage, version, categories, Options, Outcome, stop, go_on, ◌>>=◌, formats, styles, level,
  line_length, choose, set_flags, format_message, style_message, set_variable, set_option,
  set_options, apply_settings, parse_arguments, initial_options, valid, some_files,
}

-- A known output format, and a known style of counting or none.
abbrev pub Known : Text → Text → Type 0
Known format style = (one_of format formats ≡ true) × (one_of style ([] ∷ styles) ≡ true)

KnownOptions : Options → Type 0
KnownOptions o = Known o.output_format o.counting_style

bind-go_on {ℓ κ} :
    {A : Type ℓ} {B : Type κ} (m : Outcome A) (f : A → Outcome B) (b : B)
    → (m >>= f) ≡ go_on b
    → (a : A) × (m ≡ go_on a) × (f a ≡ go_on b)
bind-go_on (stop e) f b h = cc
bind-go_on (go_on a) f b h = (a, refl, h)

no_stop : (e : Stop) (v : Options) (G : Type 0) → stop e ≡ go_on v → G
no_stop e v G h = absurd (cc)

branch :
    (c : Bool) (x y : Outcome Options) (v : Options) (G : Type 0)
    → (x ≡ go_on v → G)
    → (y ≡ go_on v → G)
    → (if c then x else y) ≡ go_on v
    → G
branch true x y v G f g h = f h
branch false x y v G f g h = g h

keeps :
    (o p v : Options)
    → (KnownOptions p → KnownOptions o)
    → KnownOptions p
    → go_on o ≡ go_on v
    → KnownOptions v
keeps o p v k h e = let same : o ≡ v = cc in rw same at (k h)

choose-one_of :
    (val : Text) (allowed : List Text) (m t : Text)
    → choose val allowed m ≡ go_on t
    → one_of t allowed ≡ true
choose-one_of val allowed m t h = ground arith

set_variable-Known :
    (host : Host) (opt val : Text) (o v : Options)
    → KnownOptions o
    → set_variable host opt val o ≡ go_on v
    → KnownOptions v
unfolding set_variable KnownOptions
set_variable-Known host opt val o v k =
    let G = KnownOptions v in
    let same = λ (p : Options) (s : KnownOptions o → KnownOptions p). keeps p o v s k in
    branch _ _ _ v G (same (set_flags o (λ f. record f { root = val })) (λ x. x)) (
      branch _ _ _ v G (same (set_flags o (λ f. record f { repository = val })) (λ x. x)) (
        branch _ _ _ v G
          (λ h.
            let (n, _, later) =
              bind-go_on (line_length (parse_int val))
                (λ n. go_on (record o { globals = record o.globals { line_length = n } })) v h in
            same (record o { globals = record o.globals { line_length = n } }) (λ x. x) later)
          (branch _ _ _ v G (same (record o { excludes = o.excludes ++ host.glob val }) (λ x. x)) (
            branch _ _ _ v G (same (set_flags o (process_extensions_option host val)) (λ x. x)) (
              branch _ _ _ v G (same (set_flags o (process_hpp_headers_option host val)) (λ x. x)) (
                branch _ _ _ v G (same (record o { recursive = true }) (λ x. x))
                  (same o (λ x. x))))))))

set_option-Known :
    (host : Host) (opt val : Text) (o v : Options)
    → KnownOptions o
    → set_option host opt val o ≡ go_on v
    → KnownOptions v
unfolding set_option KnownOptions
set_option-Known host opt val o v k =
    let G = KnownOptions v in
    let same = λ (p : Options) (s : KnownOptions o → KnownOptions p). keeps p o v s k in
    branch (text_eq opt (txt "help")) _ _ v G (no_stop (usage none) v G) (
      branch (text_eq opt (txt "version")) _ _ v G (no_stop version v G) (
        branch (text_eq opt (txt "output")) _ _ v G
          (λ h.
            let (t, is, later) =
              bind-go_on (choose val formats format_message)
                (λ t. go_on (record o { output_format = t })) v h in
            same (record o { output_format = t })
              (λ x. (choose-one_of val formats format_message t is, x.1)) later)
          (branch (text_eq opt (txt "quiet")) _ _ v G (same (record o { quiet = true }) (λ x. x)) (
            branch (text_eq opt (txt "verbose") || text_eq opt (txt "v")) _ _ v G
              (λ h.
                let (n, _, later) =
                  bind-go_on (level (parse_int val)) (λ n. go_on (record o { verbosity = n })) v
                    h in
                same (record o { verbosity = n }) (λ x. x) later)
              (branch (text_eq opt (txt "filter")) _ _ v G
                (branch (text_eq val []) _ _ v G (no_stop categories v G)
                  (same (record o { filters = val }) (λ x. x)))
                (branch (text_eq opt (txt "counting")) _ _ v G
                  (λ h.
                    let (t, is, later) =
                      bind-go_on (choose val styles style_message)
                        (λ t. go_on (record o { counting_style = t })) v h in
                    same (record o { counting_style = t })
                      (λ x. (x.0, ground (arith, choose-one_of val styles style_message t is)))
                      later)
                  (set_variable-Known host opt val o v k)))))))

set_options-Known :
    (host : Host) (opts : List (Text × Text)) (o v : Options)
    → KnownOptions o
    → set_options host opts o ≡ go_on v
    → KnownOptions v
unfolding set_options
set_options-Known host [] o v k h = keeps o o v (λ x. x) k h
set_options-Known host ((opt, val) ∷ opts) o v k h =
    let (p, first, later) = bind-go_on (set_option host opt val o) (set_options host opts) v h in
    set_options-Known host opts p v (set_option-Known host opt val o p k first) later

apply_settings-Known :
    (o : Options) (g : Globals)
    → KnownOptions o
    → apply_settings o ≡ go_on g
    → WellFormed g.linter.lint_state.filters
      × Known g.linter.lint_state.output_format g.linter.lint_state.counting
unfolding apply_settings KnownOptions set_filters add_filters set_output_format set_quiet
    set_verbose_level set_counting_style
apply_settings-Known o g k h =
    let s = set_output_format o.globals.linter.lint_state o.output_format in
    let t = (set_verbose_level (set_quiet s o.quiet).0 o.verbosity).0 in
    elim (Option-cases (set_filters t o.filters).1) [
      | inr (filter, bad) ↦ absurd (ground (arith, bad))
      | inl good ↦
          let u = set_counting_style (set_filters t o.filters).0 o.counting_style in
          let is : g.linter.lint_state ≡ u = ground (arith, good) in rw is (good, k)
    ]

-- When `ParseArguments` returns, with the level of verbosity not below 0, every filter has a sign,
-- and the output format and the style of counting are known ones, or no style is set, if the format
-- was a known one before. So a filter with no sign, which the usage text allows, is never accepted.
pub parse_arguments-Known :
    (host : Host) (args : List Text) (g h : Globals) (filenames : List Text)
    → one_of g.linter.lint_state.output_format formats ≡ true
    → parse_arguments host args g ≡ go_on (h, filenames)
    → WellFormed h.linter.lint_state.filters
      × Known h.linter.lint_state.output_format h.linter.lint_state.counting
unfolding parse_arguments KnownOptions
parse_arguments-Known host args g h filenames k e =
    let ((opts, args'), _, e1) = bind-go_on (valid (getopt args)) _ (h, filenames) e in
    let (o, is, e2) = bind-go_on (set_options host opts (initial_options g)) _ (h, filenames) e1 in
    let (files, _, e3) = bind-go_on (some_files args') _ (h, filenames) e2 in
    let (r, set, e4) = bind-go_on (apply_settings o) _ (h, filenames) e3 in
    let same : r ≡ h = cc in
    rw same at (
      apply_settings-Known o r (set_options-Known host opts (initial_options g) o (k, refl) is) set)
