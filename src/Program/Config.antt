-- ===== src/Program/Config.antt =====
-- `ProcessConfigOverrides`: the configuration files of a file's directories.
pub mod Total
pub mod Frame
pub mod Filters
use nwtool.Base.{
  if◌then◌else◌, is_some, length, drop, Text, txt, text_eq, strip, before_char, ℕ, zero, suc, ◌+◌,
  Bool, true, false, not, Option, none, some, List, [], ◌∷◌, ◌++◌, reverse,
}
use nwtool.Regex.{compile, matches}
use nwtool.Paths.{path_split, dirname, join, abspath}
use nwtool.State.{CppLintState, add_filters}
use nwtool.Program.{
  Host, Globals, on_state, put_info, put_error, process_hpp_headers_option,
  process_extensions_option, parse_int,
}

-- `keep_looking` and `cfg_filters`, with the program's variables.
pub record Overrides : Type 0 where
  pub keep_looking : Bool
  pub cfg_filters : List Text
  pub globals : Globals

-- What a line, a file or the whole of them come to: the loop goes on, or the file is excluded.
pub data Verdict : Type 0 where
  proceed : Overrides → Verdict
  excluded : Globals → Verdict

abbrev change : Overrides → (Globals → Globals) → Verdict
change o f = proceed (record o { globals = f o.globals })

-- An entry `exclude_files`; `none` is an exception: a pattern that cannot be compiled.
unfoldable pub exclude_files : Text → Text → Text → Text → Overrides → Option Verdict
unfolding compile matches put_info
exclude_files filename cfg_file base_name val o =
    if not (is_some (compile val))
    then none
    else if not (matches val base_name)
    then some (proceed o)
    else if o.globals.linter.lint_state.quiet
    then some (excluded o.globals)
    else some (
        excluded (
          put_info
            (txt "Ignoring \""
              ++ filename
              ++ txt "\": file excluded by \""
              ++ cfg_file
              ++ txt "\". File path component \""
              ++ base_name
              ++ txt "\" matches pattern \""
              ++ val
              ++ txt "\"\n")
            o.globals))

unfoldable pub set_line_length : Text → Globals → Globals
unfolding parse_int put_error
set_line_length val g = elim (parse_int val) [
  | none ↦ put_error (txt "Line length must be numeric.") g
  | some n ↦ record g { line_length = n }
]

-- The options that are none of the first three.
unfoldable pub set_option : Host → Text → Text → Text → Globals → Globals
unfolding text_eq set_line_length process_extensions_option process_hpp_headers_option put_error
    join dirname
set_option host cfg_file name val g =
    if text_eq name (txt "linelength")
    then set_line_length val g
    else if text_eq name (txt "extensions")
    then record g { flags = process_extensions_option host val g.flags }
    else if text_eq name (txt "root")
    then record g { flags = record g.flags { root = join (dirname cfg_file) val } }
    else if text_eq name (txt "headers")
    then record g { flags = process_hpp_headers_option host val g.flags }
    else put_error
        (txt "Invalid configuration option (" ++ name ++ txt ") in file " ++ cfg_file ++ txt "\n") g

-- A line with an option.
unfoldable pub config_option : Host → Text → Text → Text → Text → Text → Overrides → Option Verdict
unfolding text_eq exclude_files set_option
config_option host filename cfg_file base_name name val o =
    if text_eq name (txt "set noparent")
    then some (proceed (record o { keep_looking = false }))
    else if text_eq name (txt "filter")
    then some (proceed (record o { cfg_filters = o.cfg_filters ++ val ∷ [] }))
    else if text_eq name (txt "exclude_files")
    then exclude_files filename cfg_file base_name val o
    else some (change o (set_option host cfg_file name val))

-- `line.partition('=')`, and the parts stripped.
unfoldable pub option_name : Text → Text
unfolding before_char strip
option_name line = strip (before_char b'=' line)

unfoldable pub option_value : Text → Text
unfolding before_char strip
option_value line = strip (drop (length (before_char b'=' line) + 1) line)

unfoldable pub config_line : Host → Text → Text → Text → Text → Overrides → Option Verdict
unfolding before_char strip text_eq config_option option_name option_value
config_line host filename cfg_file base_name raw o =
    let line = before_char b'#' raw in
    if text_eq (strip line) []
    then some (proceed o)
    else config_option host filename cfg_file base_name (option_name line) (option_value line) o

-- The loop over the lines of a configuration file.
unfoldable pub config_lines : Host → Text → Text → Text → List Text → Overrides → Option Verdict
unfolding config_line
config_lines host filename cfg_file base_name [] o = some (proceed o)
config_lines host filename cfg_file base_name (l ∷ ls) o =
    elim (config_line host filename cfg_file base_name l o) [
      | none ↦ none
      | some (excluded g) ↦ some (excluded g)
      | some (proceed p) ↦ config_lines host filename cfg_file base_name ls p
    ]

-- One configuration file.
unfoldable pub config_file : Host → Text → Text → Text → Overrides → Option Verdict
unfolding config_lines put_error
config_file host filename cfg_file base_name o = elim (host.is_file cfg_file) [
  | false ↦ some (proceed o)
  | true ↦ elim (host.config cfg_file) [
    | some lines ↦ config_lines host filename cfg_file base_name lines o
    | none ↦ some (
        proceed (record o {
          keep_looking = false;
          globals =
              put_error
                (txt "Skipping config file '" ++ cfg_file ++ txt "': Can't open for reading\n")
                o.globals;
        }))
  ]
]

-- The loop up the directories, with a bound on its rounds; the outer `none` means that the bound was
-- too small, the inner one an exception.
unfoldable pub config_loop : ℕ → Host → Text → Text → Overrides → Option (Option Verdict)
unfolding config_file path_split text_eq join
config_loop zero host filename abs_filename o = none
config_loop (suc f) host filename abs_filename o = elim o.keep_looking [
  | false ↦ some (some (proceed o))
  | true ↦
      let (abs_path, base_name) = path_split abs_filename in
      elim (text_eq base_name []) [
        | true ↦ some (some (proceed o))
        | false ↦ elim (config_file host filename (join abs_path (txt "CPPLINT.cfg")) base_name o) [
          | none ↦ some none
          | some (excluded g) ↦ some (some (excluded g))
          | some (proceed p) ↦ config_loop f host filename abs_path p
        ]
      ]
]

-- `_AddFilters` for each; `none` is a ValueError.
unfoldable pub add_all_filters : List Text → CppLintState → Option CppLintState
unfolding add_filters
add_all_filters [] s = some s
add_all_filters (f ∷ fs) s =
    let (t, bad) = add_filters s f in elim bad [ some filter ↦ none | none ↦ add_all_filters fs t ]

-- Behind the loop: the filters are added, those of the file's own directory last.
unfoldable pub apply_overrides : Option (Option Verdict) → Option (Bool × Globals)
unfolding add_all_filters
apply_overrides none = none
apply_overrides (some none) = none
apply_overrides (some (some (excluded g))) = some (false, g)
apply_overrides (some (some (proceed o))) =
    elim (add_all_filters (reverse o.cfg_filters) o.globals.linter.lint_state) [
      | none ↦ none
      | some s ↦ some (true, on_state (λ t. s) o.globals)
    ]

-- `ProcessConfigOverrides`: whether the file should be processed; `none` is an exception.
unfoldable pub process_config_overrides : Host → Text → Globals → Option (Bool × Globals)
unfolding config_loop apply_overrides abspath
process_config_overrides host filename g =
    let abs_filename = abspath host.sys.cwd filename in
    apply_overrides (
      config_loop (length abs_filename + 1) host filename abs_filename
        (record { keep_looking = true; cfg_filters = []; globals = g }))
