-- ===== src/Cleanse.antt =====
-- Removal of comments, strings and raw strings: build_support/cpplint.py, `IsCppString`,
-- `CleanseRawStrings`, `RemoveMultiLineComments` with its helpers, `CleanseComments` and the class
-- `CleansedLines`.
pub mod Comments
pub mod RawStrings
pub mod Strings
pub mod Lengths
use nwtool.Base.{Text, Option, none, some, List, map}
use RawStrings.{cleanse_raw_strings}
use Strings.{collapse_strings, cleanse_comments}

-- `CleansedLines`; `num_lines` is `length raw_lines`.
pub record CleansedLines : Type 0 where
  pub elided : List Text
  pub lines : List Text
  pub raw_lines : List Text
  pub lines_without_raw_strings : List Text

-- `__init__`; `none` is an exception.
unfoldable pub cleansed_lines : List Text → Option CleansedLines
cleansed_lines raw = elim (cleanse_raw_strings raw) [
  | none ↦ none
  | some without ↦ some (record {
    elided = map (λ l. cleanse_comments (collapse_strings l)) without;
    lines = map cleanse_comments without;
    raw_lines = raw;
    lines_without_raw_strings = without;
  })
]
