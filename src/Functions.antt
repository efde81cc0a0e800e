-- ===== src/Functions.antt =====
-- The lengths of functions: build_support/cpplint.py, class `_FunctionState`.
pub mod Levels
pub mod Lines
use nwtool.Base.{
  ltb, leb, if◌then◌else◌, Text, txt, show, ℕ, zero, suc, ◌+◌, ◌*◌, ◌^◌, Bool, true, false, ◌&&◌,
  List, [], ◌∷◌, ◌++◌,
}
use nwtool.Report.{Report, report}
use nwtool.Regex.{matches}

abbrev pub normal_trigger : ℕ
normal_trigger = 250

abbrev pub test_trigger : ℕ
test_trigger = 400

pub record FunctionState : Type 0 where
  pub in_a_function : Bool
  pub lines_in_function : ℕ
  pub current_function : Text

-- `__init__`
abbrev pub initial : FunctionState
initial = record { in_a_function = false; lines_in_function = 0; current_function = [] }

unfoldable pub begin : FunctionState → Text → FunctionState
begin s name = record { in_a_function = true; lines_in_function = 0; current_function = name }

unfoldable pub count_line : FunctionState → FunctionState
count_line s =
    if s.in_a_function then record s { lines_in_function = s.lines_in_function + 1 } else s

unfoldable pub end_function : FunctionState → FunctionState
end_function s = record s { in_a_function = false }

abbrev pub base_trigger : Text → ℕ
base_trigger name = if matches (txt "T(EST|est)") name then test_trigger else normal_trigger

-- `int(math.log(lines / base, 2))` for `base ≤ lines`, by doublings of `base`; the fuel bounds it.
unfoldable pub log_level : ℕ → ℕ → ℕ → ℕ
log_level zero base lines = 0
log_level (suc f) base lines =
    let more = log_level f (base * 2) lines in if leb (base * 2) lines then more + 1 else 0

unfoldable pub error_level : ℕ → ℕ → ℕ
unfolding log_level
error_level base lines = let l = log_level lines base lines in if ltb 5 l then 5 else l

-- `Check`, at a verbosity level that is a natural number.
unfoldable pub check : FunctionState → ℕ → ℕ → List Report
unfolding error_level
check s verbose_level linenum =
    let base = base_trigger s.current_function in
    let trigger = base * 2 ^ verbose_level in
    if s.in_a_function && ltb trigger s.lines_in_function
    then report linenum (txt "readability/fn_size") (error_level base s.lines_in_function) (
        txt "Small and focused functions are preferred: "
        ++ s.current_function
        ++ txt " has "
        ++ show s.lines_in_function
        ++ txt " non-comment lines (error triggered by exceeding "
        ++ show trigger
        ++ txt " lines).")
      ∷ []
    else []
