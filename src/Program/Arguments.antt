-- ===== src/Program/Arguments.antt =====
-- `ParseArguments`, `_ExpandDirectories` and `_FilterExcludedFiles`.
pub mod Valid
use nwtool.Base.{
  if◌then◌else◌, drop, Text, txt, text_eq, one_of, starts_with, ℕ, Bool, true, false, ◌||◌, Option,
  none, some, List, [], ◌∷◌, ◌++◌, map,
}
use nwtool.Base.Int.{ℤ, pos, negsuc}
use nwtool.FileInfo.{get_all_extensions, Flags}
use nwtool.Paths.{abspath, join, splitext}
use nwtool.State.{set_output_format, set_quiet, set_verbose_level, set_filters, set_counting_style}
use nwtool.Program.{
  Host, Globals, on_state, parse_int, process_hpp_headers_option, process_extensions_option,
}
use nwtool.Program.Getopt.{getopt}

-- How the program ends before it reads a file: `PrintUsage` with a message or with none,
-- `PrintVersion`, `PrintCategories`, or an exception; `below_zero` is no end of the program, but a
-- negative level, with which it would go on.
pub data Stop : Type 0 where
  usage : Option Text → Stop
  version categories crash below_zero : Stop

-- The local variables, with the program's own; `excludes` is `_excludes`.
pub record Options : Type 0 where
  pub globals : Globals
  pub verbosity : ℕ
  pub output_format : Text
  pub filters : Text
  pub quiet : Bool
  pub counting_style : Text
  pub recursive : Bool
  pub excludes : List Text

pub data Outcome {ℓ} (A : Type ℓ) : Type ℓ where
  stop : Stop → Outcome A
  go_on : A → Outcome A

infixl 5 ◌>>=◌ ◌>>◌
abbrev pub ◌>>=◌ {ℓ κ} : {A : Type ℓ} {B : Type κ} → Outcome A → (A → Outcome B) → Outcome B
stop e >>= f = stop e
go_on a >>= f = f a

abbrev pub ◌>>◌ {ℓ} : {B : Type ℓ} → Outcome (Unit {0}) → Outcome B → Outcome B
m >> k = m >>= λ _. k

-- `int(val)` for a level. The usage has levels from 0 to 5: a run below 0 is not followed here, which
-- `below_zero` says.
abbrev level : Option ℤ → Outcome ℕ
level none = stop crash
level (some (pos n)) = go_on n
level (some (negsuc n)) = stop below_zero

abbrev line_length : Option ℤ → Outcome ℤ
line_length none = stop (usage (some (txt "Line length must be digits.")))
line_length (some n) = go_on n

abbrev pub formats : List Text
formats = txt "emacs" ∷ txt "vs7" ∷ txt "eclipse" ∷ txt "junit" ∷ []

abbrev pub styles : List Text
styles = txt "total" ∷ txt "toplevel" ∷ txt "detailed" ∷ []

abbrev pub format_message : Text
format_message = txt "The only allowed output formats are emacs, vs7, eclipse " ++ txt "and junit."

abbrev pub style_message : Text
style_message = txt "Valid counting options are total, toplevel, and detailed"

-- A value that must be one of these.
abbrev choose : Text → List Text → Text → Outcome Text
choose val allowed message = if one_of val allowed then go_on val else stop (usage (some message))

abbrev set_flags : Options → (Flags → Flags) → Options
set_flags o f = record o { globals = record o.globals { flags = f o.globals.flags } }

-- The options that change the module's variables.
unfoldable pub set_variable : Host → Text → Text → Options → Outcome Options
unfolding text_eq parse_int process_extensions_option process_hpp_headers_option
set_variable host opt val o =
    if text_eq opt (txt "root")
    then go_on (set_flags o (λ f. record f { root = val }))
    else if text_eq opt (txt "repository")
    then go_on (set_flags o (λ f. record f { repository = val }))
    else if text_eq opt (txt "linelength")
    then (do
      n ← line_length (parse_int val)
      go_on (record o { globals = record o.globals { line_length = n } }))
    else if text_eq opt (txt "exclude")
    then go_on (record o { excludes = o.excludes ++ host.glob val })
    else if text_eq opt (txt "extensions")
    then go_on (set_flags o (process_extensions_option host val))
    else if text_eq opt (txt "headers")
    then go_on (set_flags o (process_hpp_headers_option host val))
    else if text_eq opt (txt "recursive")
    then go_on (record o { recursive = true })
    else go_on o

-- The body of the loop over the options, whose names stand without the dashes.
unfoldable pub set_option : Host → Text → Text → Options → Outcome Options
unfolding text_eq one_of parse_int set_variable
set_option host opt val o =
    if text_eq opt (txt "help")
    then stop (usage none)
    else if text_eq opt (txt "version")
    then stop version
    else if text_eq opt (txt "output")
    then (do
      format ← choose val formats format_message
      go_on (record o { output_format = format }))
    else if text_eq opt (txt "quiet")
    then go_on (record o { quiet = true })
    else if text_eq opt (txt "verbose") || text_eq opt (txt "v")
    then (do n ← level (parse_int val); go_on (record o { verbosity = n }))
    else if text_eq opt (txt "filter")
    then (if text_eq val [] then stop categories else go_on (record o { filters = val }))
    else if text_eq opt (txt "counting")
    then (do style ← choose val styles style_message; go_on (record o { counting_style = style }))
    else set_variable host opt val o

unfoldable pub set_options : Host → List (Text × Text) → Options → Outcome Options
unfolding set_option
set_options host [] o = go_on o
set_options host ((opt, val) ∷ opts) o = do p ← set_option host opt val o; set_options host opts p

-- `os.path.join(root, loopfile)`, without a leading `./`.
unfoldable pub walked : Text → List Text → List Text
unfolding join starts_with
walked root [] = []
walked root (f ∷ fs) =
    let fullname = join root f in
    (if starts_with fullname (txt "./") then drop 2 fullname else fullname) ∷ walked root fs

abbrev walked_all : List (Text × List Text) → List Text
walked_all [] = []
walked_all ((root, files) ∷ more) = walked root files ++ walked_all more

unfoldable pub expanded : Host → List Text → List Text
unfolding walked
expanded host [] = []
expanded host (f ∷ fs) =
    (if host.is_dir f then walked_all (host.walk f) else f ∷ []) ++ expanded host fs

unfoldable pub with_extension : List Text → List Text → List Text
unfolding splitext one_of
with_extension exts [] = []
with_extension exts (f ∷ fs) =
    (if one_of (drop 1 (splitext f).1) exts then f ∷ [] else []) ++ with_extension exts fs

-- `_ExpandDirectories`
unfoldable pub expand_directories : Host → Flags → List Text → List Text
unfolding expanded with_extension get_all_extensions
expand_directories host flags filenames =
    with_extension (get_all_extensions flags) (host.set_of (expanded host filenames))

-- `_FilterExcludedFiles`
unfoldable pub filter_excluded : Text → List Text → List Text → List Text
unfolding abspath one_of
filter_excluded cwd exclude_paths [] = []
filter_excluded cwd exclude_paths (f ∷ fs) =
    (if one_of (abspath cwd f) exclude_paths then [] else f ∷ [])
    ++ filter_excluded cwd exclude_paths fs

unfoldable pub filter_excluded_files : Host → List Text → List Text → List Text
unfolding filter_excluded abspath
filter_excluded_files host excludes filenames =
    filter_excluded host.sys.cwd (map (abspath host.sys.cwd) excludes) filenames

-- The files to lint.
unfoldable pub files_of : Host → Options → List Text → List Text
unfolding expand_directories filter_excluded_files
files_of host o filenames =
    let all : List Text =
      if o.recursive then expand_directories host o.globals.flags filenames else filenames in
    elim o.excludes [ [] ↦ all | e ∷ es ↦ filter_excluded_files host (e ∷ es) all ]

-- The settings at the end of `ParseArguments`; a ValueError is `crash`.
unfoldable pub apply_settings : Options → Outcome Globals
unfolding set_output_format set_quiet set_verbose_level set_filters set_counting_style
apply_settings o =
    let s = set_output_format o.globals.linter.lint_state o.output_format in
    let t = (set_verbose_level (set_quiet s o.quiet).0 o.verbosity).0 in
    let (u, bad) = set_filters t o.filters in
    elim bad [
      | some filter ↦ stop crash
      | none ↦ go_on (on_state (λ _. set_counting_style u o.counting_style) o.globals)
    ]

abbrev pub initial_options : Globals → Options
initial_options g = record {
  globals = g;
  verbosity = g.linter.lint_state.verbose_level;
  output_format = g.linter.lint_state.output_format;
  filters = [];
  quiet = g.linter.lint_state.quiet;
  counting_style = [];
  recursive = false;
  excludes = [];
}

abbrev some_files : List Text → Outcome (List Text)
some_files [] = stop (usage (some (txt "No files were specified.")))
some_files (f ∷ fs) = go_on (f ∷ fs)

abbrev valid : Option (List (Text × Text) × List Text) → Outcome (List (Text × Text) × List Text)
valid none = stop (usage (some (txt "Invalid arguments.")))
valid (some r) = go_on r

-- `ParseArguments`
unfoldable pub parse_arguments : Host → List Text → Globals → Outcome (Globals × List Text)
unfolding getopt set_options files_of apply_settings
parse_arguments host args g = do
  (opts, rest) ← valid (getopt args)
  o ← set_options host opts (initial_options g)
  filenames ← some_files rest
  h ← apply_settings o
  go_on (h, files_of host o filenames)
