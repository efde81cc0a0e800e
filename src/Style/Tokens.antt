-- ===== src/Style/Tokens.antt =====
-- `CheckAltTokens`, with the table of alternative tokens.
use nwtool.Base.{
  if◌then◌else◌, get_or, Text, txt, text_eq, join_with, contains, ℕ, ◌||◌, List, [], ◌∷◌, ◌++◌,
}
use nwtool.Report.{Report, report}
use nwtool.Regex.{matches, find_all, MatchResult}
use nwtool.Cleanse.{CleansedLines}
use nwtool.Cleanse.Strings.{group_text}

-- `_ALT_TOKEN_REPLACEMENT`
abbrev pub alt_tokens : List (Text × Text)
alt_tokens =
    (txt "and", txt "&&")
    ∷ (txt "bitor", txt "|")
    ∷ (txt "or", txt "||")
    ∷ (txt "xor", txt "^")
    ∷ (txt "compl", txt "~")
    ∷ (txt "bitand", txt "&")
    ∷ (txt "and_eq", txt "&=")
    ∷ (txt "or_eq", txt "|=")
    ∷ (txt "xor_eq", txt "^=")
    ∷ (txt "not", txt "!")
    ∷ (txt "not_eq", txt "!=")
    ∷ []

abbrev keys : List (Text × Text) → List Text
keys [] = []
keys ((k, v) ∷ m) = k ∷ keys m

-- The replacement of a token, which is in the table.
unfoldable pub replacement : Text → List (Text × Text) → Text
unfolding text_eq
replacement token [] = []
replacement token ((k, v) ∷ m) = if text_eq k token then v else replacement token m

-- `_ALT_TOKEN_REPLACEMENT_PATTERN`
unfoldable pub alt_token_pattern : Text
unfolding join_with
alt_token_pattern = txt "[ =()](" ++ join_with b'|' (keys alt_tokens) ++ txt ")(?=[ (]|$)"

unfoldable pub alt_token_reports : ℕ → List MatchResult → List Report
unfolding group_text replacement
alt_token_reports linenum [] = []
alt_token_reports linenum (m ∷ ms) =
    let token = group_text 1 m in
    report linenum (txt "readability/alt_tokens") 2
      (txt "Use operator " ++ replacement token alt_tokens ++ txt " instead of " ++ token)
    ∷ alt_token_reports linenum ms

unfoldable pub check_alt_tokens : CleansedLines → ℕ → List Report
unfolding matches contains find_all alt_token_pattern alt_token_reports
check_alt_tokens clean linenum =
    let line = get_or clean.elided linenum [] in
    if matches (txt "^\\s*#") line || contains line (txt "/*") || contains line (txt "*/")
    then []
    else alt_token_reports linenum (find_all alt_token_pattern line)
