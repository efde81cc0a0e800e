-- ===== src/Report.antt =====
-- A call of the `error` callback that every check of build_support/cpplint.py is given, without the
-- file's name: `error(filename, linenum, category, confidence, message)`.
use nwtool.Base.{if◌then◌else◌, Text, ℕ, Bool, true, false, List, [], ◌∷◌}

pub record Report : Type 0 where
  pub linenum : ℕ
  pub has_line : Bool
  pub category : Text
  pub confidence : ℕ
  pub message : Text

abbrev pub report : ℕ → Text → ℕ → Text → Report
report l c k m = record { linenum = l; has_line = true; category = c; confidence = k; message = m }

-- A call with `None` for the line. No line 0 is ever suppressed.
abbrev pub report_no_line : Text → ℕ → Text → Report
report_no_line c k m = record {
  linenum = 0;
  has_line = false;
  category = c;
  confidence = k;
  message = m;
}

-- A report, if a test says so.
abbrev pub when : Bool → Report → List Report
when b r = if b then r ∷ [] else []
