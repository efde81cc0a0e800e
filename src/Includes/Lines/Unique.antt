-- ===== src/Includes/Lines/Unique.antt =====
-- No header is recorded twice.
use mathlib.Core.Path.{subst}
use mathlib.Core.List.{flatten, append_assoc, append-nil}
use nwtool.Base.{
  Bool-cases, Option-cases, get_or, Text, txt, text_eq, text_eq_iff, one_of, ℕ, ◌≡◌, refl, sym, ap,
  ◌∙◌, ◌⊎◌, inl, inr, Bool, false, not, ◌||◌, Option, none, some, List, [], ◌∷◌, ◌++◌, arith,
}
use nwtool.Report.{Report}
use nwtool.Regex.{matches, search_in}
use nwtool.Cleanse.{CleansedLines}
use nwtool.Cleanse.Strings.{group_text, include_line}
use nwtool.FileInfo.{
  System, Flags, get_header_extensions, get_non_header_extensions, repository_name,
}
use nwtool.Includes.{
  IncludeState, HeaderType, c_sys_header, initial, find_in_section, find_header, clear_last,
  reset_section, check_next_include_order, set_last_header,
}
use nwtool.Includes.Classify.{classify_include}
use nwtool.Includes.Headers.{find_header-flatten}
use nwtool.Includes.Lines.{
  append_to_last, check_subdir, other_package, third_src_header, record_include,
  third_party_headers, place_include, new_include, check_include, check_include_line,
}

-- Every header of a list is at one place of it.
abbrev pub Unique : List (Text × ℕ) → Type 0
Unique [] = Unit {0}
Unique ((f, n) ∷ xs) = (find_in_section f xs ≡ none) × Unique xs

find_in_section-append :
    (h : Text) (xs ys : List (Text × ℕ))
    → find_in_section h xs ≡ none
    → find_in_section h (xs ++ ys) ≡ find_in_section h ys
unfolding find_in_section
find_in_section-append h [] ys e = refl
find_in_section-append h ((f, n) ∷ xs) ys e = ground (arith, e, find_in_section-append h xs ys)

find_in_section-one :
    (h f : Text) (n : ℕ) → text_eq f h ≡ false → find_in_section h ((f, n) ∷ []) ≡ none
unfolding find_in_section
find_in_section-one h f n e = rw e

Unique-snoc :
    (h : Text) (n : ℕ) (xs : List (Text × ℕ))
    → find_in_section h xs ≡ none
    → Unique xs
    → Unique (xs ++ (h, n) ∷ [])
unfolding find_in_section
Unique-snoc h n [] e u = (refl, tt)
Unique-snoc h n ((f, m) ∷ xs) e u = (
  find_in_section-append f xs ((h, n) ∷ []) u.0
      ∙ find_in_section-one f h n (ground (arith, e, text_eq_iff f h, text_eq_iff h f)),
  Unique-snoc h n xs (ground (arith, e)) u.1,
)

Unique-prefix : (xs ys : List (Text × ℕ)) → Unique (xs ++ ys) → Unique xs
unfolding find_in_section
Unique-prefix [] ys u = tt
Unique-prefix ((f, n) ∷ xs) ys u = (prefix-none f xs ys u.0, Unique-prefix xs ys u.1)
  where
    prefix-none :
        (g : Text) (as' bs : List (Text × ℕ))
        → find_in_section g (as' ++ bs) ≡ none
        → find_in_section g as' ≡ none
    prefix-none g [] bs e = refl
    prefix-none g ((k, m) ∷ as') bs e = ground (arith, e, prefix-none g as' bs)

flatten-append_to_last :
    (x : Text × ℕ) (s : List (Text × ℕ)) (ss : List (List (Text × ℕ)))
    → flatten (append_to_last x (s ∷ ss)) ≡ flatten (s ∷ ss) ++ x ∷ []
unfolding append_to_last flatten
flatten-append_to_last x s [] = simp append-nil
flatten-append_to_last x s (t ∷ ss) =
    ap (λ r. s ++ r) (flatten-append_to_last x t ss)
    ∙ sym (append_assoc s (flatten (t ∷ ss)) (x ∷ []))

append_to_last-Unique :
    (h : Text) (n : ℕ) (ls : List (List (Text × ℕ)))
    → find_header h ls ≡ none
    → Unique (flatten ls)
    → Unique (flatten (append_to_last (h, n) ls))
append_to_last-Unique h n [] e u = unfold append_to_last in u
append_to_last-Unique h n (s ∷ ss) e u =
    rw (flatten-append_to_last (h, n) s ss)
      (Unique-snoc h n (flatten (s ∷ ss)) (sym (find_header-flatten h (s ∷ ss)) ∙ e) u)

clear_last-prefix :
    (ls : List (List (Text × ℕ)))
    → (ys : List (Text × ℕ)) × (flatten ls ≡ flatten (clear_last ls) ++ ys)
unfolding clear_last flatten
clear_last-prefix [] = ([], refl)
clear_last-prefix (x ∷ []) = (x ++ [], refl)
clear_last-prefix (x ∷ y ∷ ls) =
    let (ys, is) = clear_last-prefix (y ∷ ls) in
    (ys, ap (λ r. x ++ r) is ∙ sym (append_assoc x (flatten (clear_last (y ∷ ls))) ys))

flatten-snoc_empty : (ls : List (List (Text × ℕ))) → flatten (ls ++ [] ∷ []) ≡ flatten ls
unfolding flatten
flatten-snoc_empty [] = refl
flatten-snoc_empty (x ∷ ls) = ap (λ r. x ++ r) (flatten-snoc_empty ls)

reset_section-Unique :
    (s : IncludeState) (d : Text)
    → Unique (flatten s.include_list)
    → Unique (flatten (reset_section s d).include_list)
unfolding reset_section
reset_section-Unique s d u =
    let (ys, is) = clear_last-prefix s.include_list in
    elim (Bool-cases (one_of d (txt "if" ∷ txt "ifdef" ∷ txt "ifndef" ∷ []))) [
      | inl e ↦ rw (e, flatten-snoc_empty s.include_list) u
      | inr e ↦ elim (Bool-cases (one_of d (txt "else" ∷ txt "elif" ∷ []))) [
        | inl e' ↦ rw (e, e') (Unique-prefix (flatten (clear_last s.include_list)) ys (rw is at u))
        | inr e' ↦ rw (e, e') u
      ]
    ]

check_next_include_order-include_list :
    (s : IncludeState) (t : HeaderType)
    → (check_next_include_order s t).0.include_list ≡ s.include_list
unfolding check_next_include_order
check_next_include_order-include_list s c_sys_header = ground arith
check_next_include_order-include_list s _ = ground arith

-- The list of headers behind a check that may not end.
abbrev list_after :
    List (List (Text × ℕ)) → Option (IncludeState × List Report) → List (List (Text × ℕ))
list_after old none = old
list_after old (some (t, rs)) = t.include_list

list_after-more :
    (old : List (List (Text × ℕ))) (more : List Report) (o : Option (IncludeState × List Report))
    → list_after old (elim o [ none ↦ none | some (t, rs) ↦ some (t, more ++ rs) ])
      ≡ list_after old o
list_after-more old more none = refl
list_after-more old more (some (t, rs)) = refl

module _ (sys : System) (flags : Flags) (filename : Text) where
  record_include-include_list :
      (clean : CleansedLines) (n : ℕ) (s : IncludeState) (name include : Text) (b : Bool)
      → (record_include sys flags filename clean n s name include b).0.include_list
        ≡ append_to_last (include, n) s.include_list
  unfolding record_include set_last_header
  record_include-include_list clean n s name include b =
      check_next_include_order-include_list
        (record s { include_list = append_to_last (include, n) s.include_list })
        (classify_include flags name include b)

  module _ (clean : CleansedLines) (n : ℕ) (s : IncludeState) (include : Text) (b : Bool) where
    place_include-include_list :
        (own : Bool)
        → let ls =
            list_after s.include_list (place_include sys flags filename clean n s include b own) in
          (ls ≡ s.include_list) ⊎ (ls ≡ append_to_last (include, n) s.include_list)
    unfolding place_include
    place_include-include_list own =
        elim (Bool-cases (own || not (matches third_party_headers include))) [
          | inr e ↦ inl (rw e)
          | inl e ↦ elim (Option-cases (repository_name sys flags filename)) [
            | inl endless ↦ inl (rw (e, endless))
            | inr (name, is) ↦
                inr (rw (e, is) (record_include-include_list clean n s name include b))
          ]
        ]

    new_include-include_list :
        let ls = list_after s.include_list (new_include sys flags filename clean n s include b) in
        (ls ≡ s.include_list) ⊎ (ls ≡ append_to_last (include, n) s.include_list)
    unfolding new_include
    new_include-include_list =
        elim (Option-cases
          (other_package sys flags filename include (get_non_header_extensions flags))) [
            | inl e ↦ inl (rw (e, list_after, new_include))
            | inr (some x, e) ↦ inl (rw (e, list_after, new_include))
            | inr (none, e) ↦
                elim (Option-cases
                  (third_src_header sys flags filename include (get_header_extensions flags))) [
                    | inl e' ↦ inl (rw (e, e', list_after, new_include))
                    | inr (own, e') ↦
                        rw (e, e', list_after, new_include) (place_include-include_list own)
                  ]
          ]

    check_include-Unique :
        Unique (flatten s.include_list)
        → Unique (
            flatten
              (list_after s.include_list (check_include sys flags filename clean n s include b)))
    unfolding check_include
    check_include-Unique u = elim (Option-cases (find_header include s.include_list)) [
      | inr (l, e) ↦ rw (e, list_after, check_include) u
      | inl e ↦ elim new_include-include_list [
        | inl same ↦ rw (e, list_after, check_include) (rw same u)
        | inr more ↦
            rw (e, list_after, check_include)
              (rw more (append_to_last-Unique include n s.include_list e u))
      ]
    ]

  check_include_line-Unique :
      (clean : CleansedLines) (n : ℕ) (s : IncludeState)
      → Unique (flatten s.include_list)
      → Unique
          (flatten (list_after s.include_list (check_include_line sys flags filename clean n s)))
  unfolding check_include_line
  check_include_line-Unique clean n s u =
      let line = get_or clean.lines n [] in
      elim (Option-cases (search_in include_line line)) [
        | inl e ↦ rw (e, list_after, check_include_line) u
        | inr (m, e) ↦
            let include = group_text 2 m in
            let b = text_eq (group_text 1 m) (txt "<") in
            rw (e, list_after, check_include_line)
              (subst (λ ls. Unique (flatten ls))
                (sym (
                  list_after-more s.include_list (check_subdir line n)
                    (check_include sys flags filename clean n s include b)))
                (check_include-Unique clean n s include b u))
      ]

-- The states of the includes of a file, over its `#include` lines and preprocessor directives.
pub data Reach (sys : System) (flags : Flags) (filename : Text) : IncludeState → Type 0 where
  start : Reach sys flags filename initial
  line :
      {s t : IncludeState} (clean : CleansedLines) (n : ℕ) (rs : List Report)
      → Reach sys flags filename s
      → check_include_line sys flags filename clean n s ≡ some (t, rs)
      → Reach sys flags filename t
  directive :
      {s : IncludeState} (d : Text)
      → Reach sys flags filename s
      → Reach sys flags filename (reset_section s d)

-- Over any `#include` lines and preprocessor directives of a file, no header is recorded twice, in
-- one section or in several.
pub Reach-Unique :
    {sys : System} {flags : Flags} {filename : Text} {s : IncludeState}
    → Reach sys flags filename s
    → Unique (flatten s.include_list)
Reach-Unique start = unfold flatten in tt
Reach-Unique {sys} {flags} {filename} (line {s} {t} clean n rs before h) =
    rw (ap (list_after s.include_list) h) at
      (check_include_line-Unique sys flags filename clean n s (Reach-Unique before))
Reach-Unique (directive {s} d before) = reset_section-Unique s d (Reach-Unique before)
