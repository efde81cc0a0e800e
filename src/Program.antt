-- ===== src/Program.antt =====
-- The program's own variables and the machine it runs on: build_support/cpplint.py, the module's
-- variables that options set, `ProcessHppHeadersOption`, `ProcessExtensionsOption`,
-- `_CppLintState.PrintInfo` and `PrintErrorCounts`.
pub mod Config
pub mod Files
pub mod Getopt
pub mod Arguments
pub mod Main
use nwtool.Base.{
  ltb, leb, ◌==◌, if◌then◌else◌, Text, txt, text_gt, strip, split, show, ℕ, zero, suc, ◌+◌, ◌-◌,
  ◌*◌, Bool, ◌&&◌, Option, none, some, List, [], ◌∷◌, ◌++◌, map,
}
use nwtool.Base.Int.{ℤ, pos, negsuc}
use nwtool.Actions.{Linter}
use nwtool.FileInfo.{System, Flags}
use nwtool.Braces.Width.{Unicode}
use nwtool.State.{CppLintState}
use nwtool.State.Printing.{print_error, print_info}

-- What the program asks Python's library and the system for. A configuration file is read line by
-- line, a source as one text. `set_of` is the order in which Python goes over a set of these texts,
-- `junit` the text that `FormatJUnitXML` has `xml.etree` write.
pub record Host : Type 0 where
  pub sys : System
  pub unicode : Unicode
  pub is_file : Text → Bool
  pub is_dir : Text → Bool
  pub config : Text → Option (List Text)
  pub read : Text → Option Text
  pub stdin : Text
  pub glob : Text → List Text
  pub walk : Text → List (Text × List Text)
  pub set_of : List Text → List Text
  pub junit : CppLintState → Text

-- The module's variables, and what has been written.
pub record Globals : Type 0 where
  pub linter : Linter
  pub flags : Flags
  pub line_length : ℤ
  pub stdout : Text
  pub stderr : Text

-- A change of the linter's state.
abbrev pub on_state : (CppLintState → CppLintState) → Globals → Globals
on_state f g = record g { linter = record g.linter { lint_state = f g.linter.lint_state } }

unfoldable pub put_info : Text → Globals → Globals
unfolding print_info
put_info message g = record g { stdout = g.stdout ++ print_info g.linter.lint_state message }

unfoldable pub put_error : Text → Globals → Globals
unfolding print_error
put_error message g =
    let (s, out) = print_error g.linter.lint_state message in
    record g { linter = record g.linter { lint_state = s }; stderr = g.stderr ++ out }

unfoldable pub process_hpp_headers_option : Host → Text → Flags → Flags
unfolding split strip
process_hpp_headers_option host val flags = record flags {
  hpp_headers = host.set_of (map strip (split b',' val));
}

unfoldable pub process_extensions_option : Host → Text → Flags → Flags
unfolding split strip
process_extensions_option host val flags = record flags {
  valid_extensions = host.set_of (map strip (split b',' val));
}

-- `int(val)`, on ASCII digits; `none` is a ValueError.
digits : ℕ → Text → Option ℕ
digits n [] = some n
digits n (c ∷ s) = if leb b'0' c && leb c b'9' then digits (n * 10 + (c - b'0')) s else none

abbrev natural : Text → Option ℕ
natural [] = none
natural (c ∷ s) = digits 0 (c ∷ s)

abbrev negated : Option ℕ → Option ℤ
negated none = none
negated (some zero) = some (pos 0)
negated (some (suc n)) = some (negsuc n)

abbrev positive : Option ℕ → Option ℤ
positive none = none
positive (some n) = some (pos n)

abbrev signed : Text → Option ℤ
signed [] = none
signed (c ∷ s) =
    if c == b'-'
    then negated (natural s)
    else if c == b'+'
    then positive (natural s)
    else positive (natural (c ∷ s))

unfoldable pub parse_int : Text → Option ℤ
unfolding strip digits
parse_int val = signed (strip val)

-- `sorted(iteritems(errors_by_category))`: no category has two entries.
unfoldable pub insert_category : Text × ℕ → List (Text × ℕ) → List (Text × ℕ)
unfolding text_gt
insert_category (c, n) [] = (c, n) ∷ []
insert_category (c, n) ((d, m) ∷ rest) =
    if text_gt c d then (d, m) ∷ insert_category (c, n) rest else (c, n) ∷ (d, m) ∷ rest

unfoldable pub sort_categories : List (Text × ℕ) → List (Text × ℕ)
unfolding insert_category
sort_categories [] = []
sort_categories (e ∷ es) = insert_category e (sort_categories es)

abbrev pub count_lines : List (Text × ℕ) → Globals → Globals
count_lines [] g = g
count_lines ((category, n) ∷ rest) g =
    count_lines rest
      (put_info (txt "Category '" ++ category ++ txt "' errors found: " ++ show n ++ txt "\n") g)

unfoldable pub print_error_counts : Globals → Globals
unfolding sort_categories put_info
print_error_counts g =
    let counted = count_lines (sort_categories g.linter.lint_state.errors_by_category) g in
    let n = g.linter.lint_state.error_count in
    if ltb 0 n then put_info (txt "Total errors found: " ++ show n ++ txt "\n") counted else counted
