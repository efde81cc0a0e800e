-- ===== src/Language/Inside/Nested.antt =====
-- `_GetTextInside` on well-nested text.
use mathlib.Core.List.{append_assoc}
use nwtool.Base.{
  Text, txt, char_in, ℕ, ◌≡◌, refl, ap, ◌∙◌, Bool, true, false, ◌||◌, Option, some, List, [], ◌∷◌,
  ◌++◌, arith,
}
use nwtool.Language.Inside.{matching_punctuation, with_char, text_inside}

abbrev pub is_punctuation : ℕ → Bool
is_punctuation c = char_in c (txt ")}]") || char_in c (txt "({[")

-- Text in which every bracket is closed by its own kind, in order.
pub data Nested : Text → Type 0 where
  nil : Nested []
  other : {c : ℕ} {s : Text} → is_punctuation c ≡ false → Nested s → Nested (c ∷ s)
  bracketed :
      {o : ℕ} {s t : Text}
      → char_in o (txt "({[") ≡ true
      → Nested s
      → Nested t
      → Nested (o ∷ (s ++ matching_punctuation o ∷ t))

abbrev with_text : Text → Option Text → Option Text
with_text [] o = o
with_text (c ∷ s) o = with_char c (with_text s o)

with_text-append :
    (s t : Text) (o : Option Text) → with_text s (with_text t o) ≡ with_text (s ++ t) o
with_text-append [] t o = refl
with_text-append (c ∷ s) t o = ap (with_char c) (with_text-append s t o)

with_text-some : (s : Text) → with_text s (some []) ≡ some s
with_text-some [] = refl
with_text-some (c ∷ s) = ap (with_char c) (with_text-some s)

-- A closing bracket.
abbrev pub IsCloser : ℕ → Type 0
IsCloser x = char_in x (txt ")}]") ≡ true

text_inside-other :
    (x c : ℕ) (xs : List ℕ) (s : Text)
    → IsCloser x
    → is_punctuation c ≡ false
    → text_inside (x ∷ xs) (c ∷ s) ≡ with_char c (text_inside (x ∷ xs) s)
unfolding text_inside char_in
text_inside-other x c xs s x_is h = ground (arith, x_is, h)

text_inside-open :
    (x o : ℕ) (xs : List ℕ) (s : Text)
    → IsCloser x
    → char_in o (txt "({[") ≡ true
    → text_inside (x ∷ xs) (o ∷ s) ≡ with_char o (text_inside (matching_punctuation o ∷ x ∷ xs) s)
unfolding text_inside char_in
text_inside-open x o xs s x_is h = ground (arith, x_is, h)

text_inside-close :
    (x y : ℕ) (ys : List ℕ) (s : Text)
    → text_inside (x ∷ y ∷ ys) (x ∷ s) ≡ with_char x (text_inside (y ∷ ys) s)
unfolding text_inside
text_inside-close x y ys s = ground arith

matching-IsCloser : (o : ℕ) → IsCloser (matching_punctuation o)
unfolding matching_punctuation char_in
matching-IsCloser o = ground arith

text_inside-Nested :
    {u : Text} (x : ℕ) (xs : List ℕ) (rest : Text)
    → IsCloser x
    → Nested u
    → text_inside (x ∷ xs) (u ++ rest) ≡ with_text u (text_inside (x ∷ xs) rest)
text_inside-Nested x xs rest x_is nil = refl
text_inside-Nested x xs rest x_is (other {c} {s} h q) =
    text_inside-other x c xs (s ++ rest) x_is h
    ∙ ap (with_char c) (text_inside-Nested x xs rest x_is q)
text_inside-Nested x xs rest x_is (bracketed {o} {s} {t} h q r) =
    let m = matching_punctuation o in
    text_inside-open x o xs ((s ++ m ∷ t) ++ rest) x_is h
    ∙ ap (λ (v : Text). with_char o (text_inside (m ∷ x ∷ xs) v)) (append_assoc s (m ∷ t) rest)
    ∙ ap (with_char o) (
        text_inside-Nested m (x ∷ xs) (m ∷ (t ++ rest)) (matching-IsCloser o) q
        ∙ ap (with_text s) (
            text_inside-close m x xs (t ++ rest)
            ∙ ap (with_char m) (text_inside-Nested x xs rest x_is r))
        ∙ with_text-append s (m ∷ t) (text_inside (x ∷ xs) rest))

text_inside-end : (x : ℕ) (s : Text) → text_inside (x ∷ []) (x ∷ s) ≡ some []
unfolding text_inside
text_inside-end x s = ground arith

-- From behind an opening bracket, `_GetTextInside` returns the text up to the bracket that closes
-- it, whatever follows, where every bracket in between is closed by its own kind.
pub text_inside_lem :
    (o : ℕ) (inner after : Text)
    → Nested inner
    → text_inside (matching_punctuation o ∷ []) (inner ++ matching_punctuation o ∷ after)
      ≡ some inner
text_inside_lem o inner after q =
    let m = matching_punctuation o in
    text_inside-Nested m [] (m ∷ after) (matching-IsCloser o) q
    ∙ ap (with_text inner) (text_inside-end m after)
    ∙ with_text-some inner
