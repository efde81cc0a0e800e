-- ===== src/Language/Line/Arrays.antt =====
-- Arrays of variable length: the part of `CheckLanguage`.
use nwtool.Base.{
  if◌then◌else◌, take, drop, Text, txt, text_eq, starts_with, contains, ℕ, ◌-◌, Bool, true, false,
  not, ◌&&◌, ◌||◌, Option, none, some, List, [], ◌∷◌, ◌++◌,
}
use nwtool.Report.{Report, report}
use nwtool.Regex.{match, matches, searches, find_all, MatchResult}
use nwtool.Cleanse.Strings.{group_text}
use nwtool.Paths.{drop_all, rstrip_char}

-- What stands between the matches of a separator, from a position on.
unfoldable pub pieces : Text → ℕ → List MatchResult → List Text
pieces s from [] = drop from s ∷ []
pieces s from (m ∷ ms) = take (m.start - from) (drop from s) ∷ pieces s m.stop ms

-- `re.split`, for a separator without groups that is never empty.
unfoldable pub split_by : Text → Text → List Text
unfolding pieces find_all
split_by pattern s = pieces s 0 (find_all pattern s)

-- A token that is a constant, once its parentheses are gone.
unfoldable pub is_constant : Text → Bool
unfolding text_eq matches
is_constant tok =
    text_eq tok []
    || matches (txt "\\d+") tok
    || matches (txt "0[xX][0-9a-fA-F]+") tok
    || matches (txt "k[A-Z0-9]\\w*") tok
    || matches (txt "(.+::)?k[A-Z0-9]\\w*") tok
    || matches (txt "(.+::)?[A-Z][A-Z0-9_]*") tok

-- What a token says: the size is no constant, or the loop goes on, with `skip_next`.
unfoldable pub token_step : Text → Option Bool
unfolding searches is_constant starts_with rstrip_char
token_step tok =
    let bare = rstrip_char b')' (drop_all b'(' tok) in
    if searches (txt "sizeof\\(.+\\)") tok || searches (txt "arraysize\\(\\w+\\)") tok
    then some false
    else if is_constant bare
    then some false
    else if starts_with bare (txt "sizeof")
    then some true
    else none

-- The loop over the tokens of the size; the flag is `skip_next`.
unfoldable pub is_const : Bool → List Text → Bool
unfolding token_step
is_const skip_next [] = true
is_const true (tok ∷ tokens) = is_const false tokens
is_const false (tok ∷ tokens) = elim (token_step tok) [
  | none ↦ false
  | some skip_next ↦ is_const skip_next tokens
]

unfoldable pub check_arrays : Text → ℕ → List Report
unfolding match group_text text_eq contains is_const split_by
check_arrays line linenum = elim (match (txt "\\s*(.+::)?(\\w+) [a-z]\\w*\\[(.+)];") line) [
  | none ↦ []
  | some m ↦
      let type = group_text 2 m in
      let size = group_text 3 m in
      if not (text_eq type (txt "return"))
        && not (text_eq type (txt "delete"))
        && not (contains size (txt "]"))
        && not (is_const false (split_by (txt "\\s|\\+|\\-|\\*|\\/|<<|>>]") size))
      then report linenum (txt "runtime/arrays") 1 (
          txt "Do not use variable-length arrays.  Use an appropriately named "
          ++ txt "('k' followed by CamelCase) compile-time constant for the size.")
        ∷ []
      else []
]
