-- ===== src/FileChecks/Newline.antt =====
-- `CheckForNewlineAtEOF` against the file's text.
use nwtool.Base.{
  ◌==◌, if◌then◌else◌, Bool-cases, length, length-append, Text, txt, text_eq, char_in, split, ℕ,
  ◌≡◌, refl, ap, ◌∙◌, inl, inr, Bool, true, false, not, List, [], ◌∷◌, ◌++◌, arith,
}
use nwtool.Report.{report}
use nwtool.FileChecks.{marker_start, marker_end, add_markers, second_last, check_for_newline_at_eof}

-- The text has a last character, which is not a newline.
unfoldable pub unterminated : Text → Bool
unterminated [] = false
unterminated (c ∷ []) = not (c == 10)
unterminated (c ∷ d ∷ s) = unterminated (d ∷ s)

split-cons : (s : Text) → (w : Text) × (ws : List Text) × (split 10 s ≡ w ∷ ws)
unfolding split
split-cons [] = ([], [], refl)
split-cons (c ∷ s) =
    let (w, ws, is) = split-cons s in
    elim (Bool-cases (c == 10)) [
      | inl e ↦ ([], split 10 s, rw e refl)
      | inr e ↦ (c ∷ w, ws, rw (e, is) refl)
    ]

-- A text that is one line without a newline is not terminated.
unterminated-char_in : (c : ℕ) (s : Text) → char_in 10 (c ∷ s) ≡ false → unterminated (c ∷ s) ≡ true
unfolding unterminated char_in
unterminated-char_in c [] h = ground (arith, h)
unterminated-char_in c (d ∷ s) h = unterminated-char_in d s (ground (arith, h))

split-newline : (c : ℕ) (s : Text) → c == 10 ≡ true → split 10 (c ∷ s) ≡ [] ∷ split 10 s
unfolding split
split-newline c s h = rw h refl

split-other :
    (c : ℕ) (s w : Text) (ws : List Text)
    → c == 10 ≡ false
    → split 10 s ≡ w ∷ ws
    → split 10 (c ∷ s) ≡ (c ∷ w) ∷ ws
unfolding split
split-other c s w ws h e = rw (h, e) refl

single-char_in : (s w : Text) → split 10 s ≡ w ∷ [] → char_in 10 s ≡ false
unfolding char_in
single-char_in [] w h = refl
single-char_in (c ∷ s) w h =
    let (v, vs, is) = split-cons s in
    elim (Bool-cases (c == 10)) [
      | inl e ↦ absurd (ground (arith, h, is, split-newline c s e))
      | inr e ↦
          ground (arith, e, single-char_in s v (ground (arith, h, is, split-other c s v vs e is)))
    ]

-- With three lines or more the first does not matter.
second_last-head :
    (x y u e : Text) (us : List Text)
    → second_last (x ∷ u ∷ (us ++ e ∷ [])) ≡ second_last (y ∷ u ∷ (us ++ e ∷ []))
unfolding second_last
second_last-head x y u e [] = refl
second_last-head x y u e (t ∷ ts) = refl

-- A character in front of a first line that is not the last changes nothing, and makes a last line
-- that is not empty.
second_last-longer :
    (c d : ℕ) (s v m e : Text) (vs : List Text)
    → split 10 (d ∷ s) ≡ v ∷ vs
    → text_eq (second_last (m ∷ (v ∷ vs ++ e ∷ []))) [] ≡ not (unterminated (d ∷ s))
    → text_eq (second_last (m ∷ ((c ∷ v) ∷ vs ++ e ∷ []))) [] ≡ not (unterminated (d ∷ s))
unfolding second_last text_eq
second_last-longer c d s v m e [] is h =
    rw (unterminated-char_in d s (single-char_in (d ∷ s) v is)) refl
second_last-longer c d s v m e (u ∷ us) is h =
    ap (λ t. text_eq t []) (second_last-head (c ∷ v) v u e us) ∙ h

second_last-unterminated :
    (s m e : Text) → text_eq (second_last (m ∷ (split 10 s ++ e ∷ []))) [] ≡ not (unterminated s)
unfolding second_last unterminated text_eq
second_last-unterminated [] m e = unfold split in refl
second_last-unterminated (c ∷ []) m e = unfold split in ground arith
second_last-unterminated (c ∷ d ∷ s) m e =
    let (v, vs, is) = split-cons (d ∷ s) in
    let with_m = rw is at (second_last-unterminated (d ∷ s) m e) in
    let with_empty = rw is at (second_last-unterminated (d ∷ s) [] e) in
    elim (Bool-cases (c == 10)) [
      | inl newline ↦ rw (split-newline c (d ∷ s) newline, is) with_empty
      | inr other ↦
          rw (split-other c (d ∷ s) v vs other is) (second_last-longer c d s v m e vs is with_m)
    ]

-- On a file's text, split into lines and with the markers round them, `CheckForNewlineAtEOF` makes
-- a report exactly when the text has a last character and that is not a newline: one, at the number
-- of the last line.
pub check_for_newline_at_eof_lem :
    (content : Text)
    → check_for_newline_at_eof (add_markers (split 10 content)) ≡ (
        if unterminated content
        then report
            (length (split 10 content))
            (txt "whitespace/ending_newline")
            5
            (txt "Could not find a newline character at the end of the file.")
          ∷ []
        else [])
unfolding check_for_newline_at_eof add_markers
check_for_newline_at_eof_lem content = ground (
  arith,
  length-append (split 10 content) (marker_end ∷ []),
  second_last-unterminated content marker_start marker_end,
)
