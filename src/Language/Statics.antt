-- ===== src/Language/Statics.antt =====
-- `CheckGlobalStatic`.
use nwtool.Base.{
  ltb, if◌then◌else◌, length, get_or, Text, txt, strip, ℕ, ◌+◌, Bool, not, ◌&&◌, ◌||◌, none, some,
  List, [], ◌∷◌, ◌++◌,
}
use nwtool.Report.{Report, report, when}
use nwtool.Regex.{match, matches, searches, MatchResult}
use nwtool.Cleanse.{CleansedLines}
use nwtool.Cleanse.Strings.{group_text}

-- The line, with the next one where a declaration may go on.
unfoldable pub declaration : CleansedLines → ℕ → Text
unfolding searches strip
declaration clean linenum =
    let line = get_or clean.elided linenum [] in
    if ltb (linenum + 1) (length clean.raw_lines) && not (searches (txt "[;({]") line)
    then line ++ strip (get_or clean.elided (linenum + 1) [])
    else line

abbrev global_string : Text
global_string =
    txt "((?:|static +)(?:|const +))(?::*std::)?string( +const)? +" ++ txt "([a-zA-Z0-9_:]+)\\b(.*)"

unfoldable pub is_no_string : Text → MatchResult → Bool
unfolding searches matches group_text
is_no_string line m =
    searches (txt "\\bstring\\b(\\s+const)?\\s*[\\*\\&]\\s*(const\\s+)?\\w") line
    || searches (txt "\\boperator\\W") line
    || matches (txt "\\s*(<.*>)?(::[a-zA-Z0-9_]+)*\\s*\\(([^\"]|$)") (group_text 4 m)

unfoldable pub check_global_string : Text → ℕ → List Report
unfolding match is_no_string searches group_text
check_global_string line linenum = elim (match global_string line) [
  | none ↦ []
  | some m ↦
      if is_no_string line m
      then []
      else report linenum (txt "runtime/string") 4 (
          if searches (txt "\\bconst\\b") line
          then txt "For a static/global string constant, use a C style string "
            ++ txt "instead: \""
            ++ group_text 1 m
            ++ txt "char"
            ++ group_text 2 m
            ++ txt " "
            ++ group_text 3 m
            ++ txt "[]\"."
          else txt "Static/global string variables are not permitted.")
        ∷ []
]

unfoldable pub check_global_static : CleansedLines → ℕ → List Report
unfolding declaration check_global_string searches
check_global_static clean linenum =
    let line = declaration clean linenum in
    check_global_string line linenum
    ++ when
        (searches (txt "\\b([A-Za-z0-9_]*_)\\(\\1\\)") line
          || searches (txt "\\b([A-Za-z0-9_]*_)\\(CHECK_NOTNULL\\(\\1\\)\\)") line)
        (report linenum (txt "runtime/init") 4
          (txt "You seem to be initializing a member variable with itself."))
