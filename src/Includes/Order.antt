-- ===== src/Includes/Order.antt =====
-- What `CheckNextIncludeOrder` accepts.
use nwtool.Base.{All, Text, ℕ, ◌≤◌, ◌≡◌, ◌≢◌, ◌↔◌, Option, none, List, [], ◌∷◌, arith}
use nwtool.Includes.{
  HeaderType, c_sys_header, cpp_sys_header, likely_my_header, possible_my_header, other_header,
  IncludeState, check_next_include_order, my_h_section, c_section, cpp_section, other_h_section,
}

-- The messages of a run of headers.
unfoldable pub check_all : IncludeState → List HeaderType → List (Option Text)
check_all s [] = []
check_all s (t ∷ ts) = let (s', m) = check_next_include_order s t in m ∷ check_all s' ts

-- The latest section in which a header of this type may still stand.
abbrev pub limit : HeaderType → ℕ
limit c_sys_header = c_section
limit cpp_sys_header = cpp_section
limit _ = other_h_section

-- The section that an accepted header of this type reaches at least.
abbrev pub entered : HeaderType → ℕ
entered c_sys_header = c_section
entered cpp_sys_header = cpp_section
entered likely_my_header = my_h_section
entered possible_my_header = my_h_section
entered other_header = other_h_section

-- No header stands behind one whose section it must precede.
abbrev pub IsSorted : List HeaderType → Type 0
IsSorted [] = Unit {0}
IsSorted (t ∷ ts) = All (λ u. entered t ≤ limit u) ts × IsSorted ts

abbrev pub IsQuiet : List (Option Text) → Type 0
IsQuiet [] = Unit {0}
IsQuiet (m ∷ ms) = (m ≡ none) × IsQuiet ms

-- From a section in range, the section never moves back and stays in range; a header is reported
-- exactly when the section has passed the last one in which its type may stand, a reported header
-- moves no section, and no header changes the list of those seen.
pub check_next_include_order_lem :
    (s : IncludeState) (t : HeaderType)
    → s.section ≤ other_h_section
    → let (s', m) = check_next_include_order s t in
      (s.section ≤ s'.section)
      × (s'.section ≤ other_h_section)
      × ((m ≡ none) ↔ (s.section ≤ limit t))
      × (m ≢ none → s'.section ≡ s.section)
      × (s'.include_list ≡ s.include_list)
unfolding check_next_include_order
check_next_include_order_lem s c_sys_header h = ground arith
check_next_include_order_lem s _ h = ground arith

accepted_step :
    (s : IncludeState) (t : HeaderType)
    → (check_next_include_order s t).1 ≡ none
    → entered t ≤ (check_next_include_order s t).0.section
unfolding check_next_include_order
accepted_step s c_sys_header e = ground arith
accepted_step s _ e = ground arith

All-limit :
    (m n : ℕ) (ts : List HeaderType) → m ≤ n → All (λ u. n ≤ limit u) ts → All (λ u. m ≤ limit u) ts
All-limit m n [] h a = tt
All-limit m n (t ∷ ts) h a = (omega arith, All-limit m n ts h a.1)

quiet_above :
    (s : IncludeState) (ts : List HeaderType)
    → s.section ≤ other_h_section
    → IsQuiet (check_all s ts)
    → All (λ u. s.section ≤ limit u) ts
unfolding check_all
quiet_above s [] h q = tt
quiet_above s (t ∷ ts) h q =
    let s' = (check_next_include_order s t).0 in
    let step = check_next_include_order_lem s t h in
    (step.2.0 q.0, All-limit s.section s'.section ts step.0 (quiet_above s' ts step.1 q.1))

-- From a section in range, a run of headers that raises no message is sorted by type: behind a C++
-- system header no C system header stands, and behind a header of the type `_OTHER_HEADER` no
-- system header.
pub check_all-IsSorted :
    (s : IncludeState) (ts : List HeaderType)
    → s.section ≤ other_h_section
    → IsQuiet (check_all s ts)
    → IsSorted ts
unfolding check_all
check_all-IsSorted s [] h q = tt
check_all-IsSorted s (t ∷ ts) h q =
    let s' = (check_next_include_order s t).0 in
    let step = check_next_include_order_lem s t h in
    (
      All-limit (entered t) s'.section ts (accepted_step s t q.0) (quiet_above s' ts step.1 q.1),
      check_all-IsSorted s' ts step.1 q.1,
    )
