-- ===== src/Tests.antt =====
-- The theorems and the definitions on concrete inputs.
mod Nesting
mod Scans
mod Linter
mod FileChecks
mod Files
mod Lines
mod Checks
mod Program
mod Data
use nwtool.Regex.{match, group, matches, replace_all}
use mathlib.Core.Option
use nwtool.Base.{txt, replace, strip, split, show, ◌≡◌, refl, true, some, [], ◌∷◌}

show_test : show 4093 ≡ txt "4093"
unfolding show
show_test = refl

strip_test : strip (txt "  a b\t") ≡ txt "a b"
unfolding strip
strip_test = refl

split_test : split b',' (txt "a,,b") ≡ txt "a" ∷ [] ∷ txt "b" ∷ []
unfolding split
split_test = refl

replace_test : replace (txt "a-inl.h") (txt "-inl.h") (txt ".h") ≡ txt "a.h"
unfolding replace
replace_test = refl

match_access :
    Option.map (group 2) (
      match
        (txt "^(.*)\\b(public|private|protected|signals)(\\s+(?:slots\\s*)?)?:(?:[^:]|$)")
        (txt "  public:"))
    ≡ some (some (txt "public"))
unfolding match group
match_access = refl

match_class :
    Option.bind
      (match
        (txt
          "^(\\s*(?:template\\s*<[\\w\\s<>,:=]*>\\s*)?(class|struct)\\s+(?:[A-Z_]+\\s+)*(\\w+(?:::\\w+)*))(.*)$")
        (txt "class LOCKABLE A::B : C {"))
      (group 3)
    ≡ some (txt "A::B")
unfolding match group Option.bind
match_class = refl

sub_comments :
    replace_all
      (txt
        "(\\s*/\\*(?:[^*]|\\*(?!/))*\\*/\\s*$|/\\*(?:[^*]|\\*(?!/))*\\*/\\s+|\\s+/\\*(?:[^*]|\\*(?!/))*\\*/(?=\\W)|/\\*(?:[^*]|\\*(?!/))*\\*/)")
      []
      (txt "f(a /* b */, c) /* d */ ")
    ≡ txt "f(a, c)"
unfolding replace_all
sub_comments = refl

repeat_count : matches (txt "^ {2}a{0,2}b$") (txt "  aab") ≡ true
unfolding matches
repeat_count = refl
