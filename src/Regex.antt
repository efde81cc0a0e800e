-- ===== src/Regex.antt =====
-- Python's `re`, as far as the tools use it, and build_support/cpplint.py's own `Match`, `Search`
-- and `ReplaceAll`. `Pattern` reads a pattern's text, `Engine` runs it by backtracking.
-- `\w`, `\d` and `\b` know the ASCII letters and digits only; `\s` is `str.isspace`.
pub mod Syntax
mod Pattern
pub mod Engine
pub mod Lengths
pub use Syntax.{Regex}
unfoldable pub use Pattern.{compile}
pub use Engine.{MatchResult}
unfoldable pub use Engine.{match_regex, search_regex, sub_regex, find_all_regex, group}
use nwtool.Base.{is_some, Text, Bool, Option, none, some, List, []}
use mathlib.Core.Option

-- `Match(pattern, s)`; the cache of compiled patterns changes no result.
unfoldable pub match : Text → Text → Option MatchResult
unfolding compile match_regex Option.bind
match pattern s = Option.bind (compile pattern) (λ r. match_regex r s)

-- `Search(pattern, s)`.
unfoldable pub search_in : Text → Text → Option MatchResult
unfolding compile search_regex Option.bind
search_in pattern s = Option.bind (compile pattern) (λ r. search_regex r s)

-- The truth value of a match object or `None`.
unfoldable pub matches : Text → Text → Bool
unfolding match
matches pattern s = is_some (match pattern s)

unfoldable pub searches : Text → Text → Bool
unfolding search_in
searches pattern s = is_some (search_in pattern s)

-- `ReplaceAll(pattern, rep, s)` and `re.sub`, for a replacement with no backslash.
unfoldable pub replace_all : Text → Text → Text → Text
unfolding compile sub_regex
replace_all pattern rep s = elim (compile pattern) [ none ↦ s | some r ↦ sub_regex r rep s ]

-- `re.finditer(pattern, s)`, for a pattern that matches no empty text.
unfoldable pub find_all : Text → Text → List MatchResult
unfolding compile find_all_regex
find_all pattern s = elim (compile pattern) [ none ↦ [] | some r ↦ find_all_regex r s ]
