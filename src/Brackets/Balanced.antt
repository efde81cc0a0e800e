-- ===== src/Brackets/Balanced.antt =====
-- Bracket structure by itself, with no reference to the scans: what a text does to the stack of the
-- brackets that are open. Text with `<` and `>` is left aside, since those may be operators.
use nwtool.Base.{
  ◌==◌, length, Text, ℕ, zero, suc, ◌+◌, ◌≡◌, Bool, true, not, ◌&&◌, ◌||◌, List, [], ◌∷◌, ◌++◌,
  arith,
}
use nwtool.Brackets.{is_pair}

unfoldable pub is_open : ℕ → Bool
is_open c = c == b'(' || c == b'[' || c == b'{'

unfoldable pub is_close : ℕ → Bool
is_close c = c == b')' || c == b']' || c == b'}'

-- No bracket of any kind.
unfoldable pub is_plain : ℕ → Bool
is_plain c =
    not (c == b'(')
    && not (c == b'[')
    && not (c == b'{')
    && not (c == b')')
    && not (c == b']')
    && not (c == b'}')
    && not (c == b'<')
    && not (c == b'>')

-- A text takes the open brackets from one stack to another, and never closes the last of them.
pub data Tracks : Text → List ℕ → List ℕ → Type 0 where
  nil : {s : List ℕ} → Tracks [] s s
  plain :
      {c : ℕ} {cs : Text} {s t : List ℕ} → is_plain c ≡ true → Tracks cs s t → Tracks (c ∷ cs) s t
  enter :
      {c : ℕ} {cs : Text} {s t : List ℕ}
      → is_open c ≡ true
      → Tracks cs (c ∷ s) t
      → Tracks (c ∷ cs) s t
  leave :
      {c o x : ℕ} {cs : Text} {s t : List ℕ}
      → is_pair o c ≡ true
      → Tracks cs (x ∷ s) t
      → Tracks (c ∷ cs) (o ∷ x ∷ s) t

-- Well-nested text.
pub data Balanced : Text → Type 0 where
  nil : Balanced []
  plain : {c : ℕ} {cs : Text} → is_plain c ≡ true → Balanced cs → Balanced (c ∷ cs)
  block :
      {text : Text} (o c : ℕ) (inner cs : Text)
      → text ≡ o ∷ (inner ++ c ∷ cs)
      → is_pair o c ≡ true
      → Balanced inner
      → Balanced cs
      → Balanced text

pub Tracks-append :
    {u v : Text} {s t r : List ℕ} → Tracks u s t → Tracks v t r → Tracks (u ++ v) s r
Tracks-append nil q = q
Tracks-append (plain h p) q = plain h (Tracks-append p q)
Tracks-append (enter h p) q = enter h (Tracks-append p q)
Tracks-append (leave h p) q = leave h (Tracks-append p q)

pub is_pair-is_open : (o c : ℕ) → is_pair o c ≡ true → is_open o ≡ true
unfolding is_pair is_open
is_pair-is_open o c h = ground arith

-- Well-nested text leaves any open bracket as it was.
pub Balanced-Tracks : {w : Text} (x : ℕ) (s : List ℕ) → Balanced w → Tracks w (x ∷ s) (x ∷ s)
Balanced-Tracks x s nil = nil
Balanced-Tracks x s (plain h b) = plain h (Balanced-Tracks x s b)
Balanced-Tracks x s (block o c _ _ e h inner rest) = rw e (
    enter (is_pair-is_open o c h)
      (Tracks-append (Balanced-Tracks o (x ∷ s) inner) (leave h (Balanced-Tracks x s rest))))

-- The brackets that lines open and close again: from the stack `s`, the text of the lines closes
-- the last bracket at the end of the first `p` characters of line `n`.
pub data Closes : List Text → List ℕ → ℕ → ℕ → Type 0 where
  here :
      {line : Text} {more : List Text} {s : List ℕ} {p : ℕ} (w rest : Text) (o c : ℕ)
      → line ≡ w ++ c ∷ rest
      → p ≡ length w + 1
      → Tracks w s (o ∷ [])
      → is_pair o c ≡ true
      → Closes (line ∷ more) s zero p
  later :
      {w : Text} {more : List Text} {n p : ℕ} {s : List ℕ} (x : ℕ) (t : List ℕ)
      → Tracks w s (x ∷ t)
      → Closes more (x ∷ t) n p
      → Closes (w ∷ more) s (suc n) p
