-- ===== src/IncludeWhatYouUse/Templates.antt =====
-- The tables of `CheckForIncludeWhatYouUse`: `_HEADERS_CONTAINING_TEMPLATES`,
-- `_HEADERS_MAYBE_TEMPLATES` and the patterns made of them.
use nwtool.Base.{Text, txt, List, [], ◌∷◌, ◌++◌, map}

pub record Pattern : Type 0 where
  pub pattern : Text
  pub template : Text
  pub header : Text

abbrev pub headers_containing_templates : List (Text × List Text)
headers_containing_templates =
    (txt "<deque>", txt "deque" ∷ [])
    ∷ (
      txt "<functional>",
      txt "unary_function"
          ∷ txt "binary_function"
          ∷ txt "plus"
          ∷ txt "minus"
          ∷ txt "multiplies"
          ∷ txt "divides"
          ∷ txt "modulus"
          ∷ txt "negate"
          ∷ txt "equal_to"
          ∷ txt "not_equal_to"
          ∷ txt "greater"
          ∷ txt "less"
          ∷ txt "greater_equal"
          ∷ txt "less_equal"
          ∷ txt "logical_and"
          ∷ txt "logical_or"
          ∷ txt "logical_not"
          ∷ txt "unary_negate"
          ∷ txt "not1"
          ∷ txt "binary_negate"
          ∷ txt "not2"
          ∷ txt "bind1st"
          ∷ txt "bind2nd"
          ∷ txt "pointer_to_unary_function"
          ∷ txt "pointer_to_binary_function"
          ∷ txt "ptr_fun"
          ∷ txt "mem_fun_t"
          ∷ txt "mem_fun"
          ∷ txt "mem_fun1_t"
          ∷ txt "mem_fun1_ref_t"
          ∷ txt "mem_fun_ref_t"
          ∷ txt "const_mem_fun_t"
          ∷ txt "const_mem_fun1_t"
          ∷ txt "const_mem_fun_ref_t"
          ∷ txt "const_mem_fun1_ref_t"
          ∷ txt "mem_fun_ref"
          ∷ [],
    )
    ∷ (txt "<limits>", txt "numeric_limits" ∷ [])
    ∷ (txt "<list>", txt "list" ∷ [])
    ∷ (txt "<map>", txt "multimap" ∷ [])
    ∷ (
      txt "<memory>",
      txt "allocator"
          ∷ txt "make_shared"
          ∷ txt "make_unique"
          ∷ txt "shared_ptr"
          ∷ txt "unique_ptr"
          ∷ txt "weak_ptr"
          ∷ [],
    )
    ∷ (txt "<queue>", txt "queue" ∷ txt "priority_queue" ∷ [])
    ∷ (txt "<set>", txt "multiset" ∷ [])
    ∷ (txt "<stack>", txt "stack" ∷ [])
    ∷ (txt "<string>", txt "char_traits" ∷ txt "basic_string" ∷ [])
    ∷ (txt "<tuple>", txt "tuple" ∷ [])
    ∷ (txt "<unordered_map>", txt "unordered_map" ∷ txt "unordered_multimap" ∷ [])
    ∷ (txt "<unordered_set>", txt "unordered_set" ∷ txt "unordered_multiset" ∷ [])
    ∷ (txt "<utility>", txt "pair" ∷ [])
    ∷ (txt "<vector>", txt "vector" ∷ [])
    ∷ (txt "<hash_map>", txt "hash_map" ∷ txt "hash_multimap" ∷ [])
    ∷ (txt "<hash_set>", txt "hash_set" ∷ txt "hash_multiset" ∷ [])
    ∷ (txt "<slist>", txt "slist" ∷ [])
    ∷ []

abbrev pub headers_maybe_templates : List (Text × List Text)
headers_maybe_templates =
    (
      txt "<algorithm>",
      txt "copy" ∷ txt "max" ∷ txt "min" ∷ txt "min_element" ∷ txt "sort" ∷ txt "transform" ∷ [],
    )
    ∷ (txt "<utility>", txt "forward" ∷ txt "make_pair" ∷ txt "move" ∷ txt "swap" ∷ [])
    ∷ []

abbrev template_pattern : Text → Text → Pattern
template_pattern header t = record {
  pattern = txt "(\\<|\\b)" ++ (t ++ txt "\\s*\\<");
  template = t ++ txt "<>";
  header = header;
}

abbrev maybe_pattern : Text → Text → Pattern
maybe_pattern header t = record {
  pattern = txt "[^>.]\\b" ++ (t ++ txt "(<.*?>)?\\([^\\)]");
  template = t;
  header = header;
}

abbrev patterns : (Text → Text → Pattern) → List (Text × List Text) → List Pattern
patterns f [] = []
patterns f ((header, ts) ∷ hs) = map (f header) ts ++ patterns f hs

-- `_re_pattern_templates`
unfoldable pub templates : List Pattern
templates = patterns template_pattern headers_containing_templates

-- `_re_pattern_headers_maybe_templates`
unfoldable pub maybe_templates : List Pattern
maybe_templates =
    patterns maybe_pattern headers_maybe_templates
    ++ (record { pattern = txt "[^>.]\\bset\\s*\\<"; template = txt "set<>"; header = txt "<set>" }
        ∷ record {
          pattern = txt "(std\\b::\\bmap\\s*\\<)|(^(std\\b::\\b)map\\b\\(\\s*\\<)";
          template = txt "map<>";
          header = txt "<map>";
        }
        ∷ [])
