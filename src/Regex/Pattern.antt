-- ===== src/Regex/Pattern.antt =====
-- The parser of patterns: a machine over the pattern's characters, with the open groups on a stack.
use nwtool.Base.{
  leb, ◌==◌, if◌then◌else◌, Text, ℕ, zero, suc, ◌+◌, ◌-◌, ◌*◌, Bool, true, false, ◌&&◌, ◌||◌,
  Option, none, some, List, [], ◌∷◌, reverse,
}
use nwtool.Regex.Syntax.{
  Item, range, space, not_space, word, not_word, digit, not_digit, Regex, empty, class, seq, alt,
  star, capture, begin_text, end_text, boundary, ahead, back,
}

-- What to build when a group closes.
pub data Kind : Type 0 where
  plain : Kind
  numbered : ℕ → Kind
  looking : Bool → Kind

-- An open group: its finished alternatives, and the parts of the current one, last first.
pub record Frame : Type 0 where
  pub kind : Kind
  pub alts : List Regex
  pub parts : List Regex

pub data Mode : Type 0 where
  normal quantified escaped brace opening opening_mark class_open class_start : Mode
  class_rest class_escape class_dash : Bool → List Item → Mode
  counting : ℕ → Option ℕ → Mode

pub record Parser : Type 0 where
  pub mode : Mode
  pub outer : List Frame
  pub top : Frame
  pub groups : ℕ

sequence : List Regex → Regex → Regex
sequence [] r = r
sequence (p ∷ ps) r = sequence ps (seq p r)

alternatives : List Regex → Regex → Regex
alternatives [] r = r
alternatives (a ∷ rest) r = alternatives rest (alt a r)

wrap : Kind → Regex → Regex
wrap plain r = r
wrap (numbered n) r = capture n r
wrap (looking b) r = ahead b r

finish : Frame → Regex
unfolding sequence alternatives wrap
finish f = wrap f.kind (alternatives f.alts (sequence f.parts empty))

abbrev one : ℕ → Regex
one c = class false (range c c ∷ [])

abbrev push : Parser → Regex → Parser
push p r = record p {
  mode = normal;
  top = record { kind = p.top.kind; alts = p.top.alts; parts = r ∷ p.top.parts };
}

abbrev set_mode : Parser → Mode → Parser
set_mode p m = record p { mode = m }

-- Put a quantifier on the last part.
on_last : Parser → Mode → (Regex → Regex) → Option Parser
on_last p m f = elim p.top.parts [
  | [] ↦ none
  | r ∷ rs ↦ some (record p {
    mode = m;
    top = record { kind = p.top.kind; alts = p.top.alts; parts = f r ∷ rs };
  })
]

lazily : Regex → Regex
lazily (star _ r) = star false r
lazily (alt r empty) = alt empty r
lazily (seq r (star _ s)) = seq r (star false s)
lazily r = r

repeated : ℕ → Regex → Regex
repeated zero r = empty
repeated (suc n) r = seq r (repeated n r)

optional : ℕ → Regex → Regex
optional zero r = empty
optional (suc n) r = alt (seq r (optional n r)) empty

open_group : Parser → Kind → Parser
open_group p k = record p {
  mode = normal;
  outer = p.top ∷ p.outer;
  top = record { kind = k; alts = []; parts = [] };
}

close_group : Parser → Option Parser
unfolding finish
close_group p = elim p.outer [
  | [] ↦ none
  | f ∷ fs ↦ some (record p {
    mode = normal;
    outer = fs;
    top = record { kind = f.kind; alts = f.alts; parts = finish p.top ∷ f.parts };
  })
]

new_alternative : Parser → Parser
unfolding sequence
new_alternative p = record p {
  top = record { kind = p.top.kind; alts = sequence p.top.parts empty ∷ p.top.alts; parts = [] };
}

-- A character outside classes, groups' heads and escapes.
read_normal : Parser → ℕ → Option Parser
unfolding on_last open_group close_group new_alternative
read_normal p c =
    if c == b'\\'
    then some (set_mode p escaped)
    else if c == b'.'
    then some (push p (class true (range 10 10 ∷ [])))
    else if c == b'^'
    then some (push p begin_text)
    else if c == b'$'
    then some (push p end_text)
    else if c == b'*'
    then on_last p quantified (star true)
    else if c == b'+'
    then on_last p quantified (λ r. seq r (star true r))
    else if c == b'?'
    then on_last p quantified (λ r. alt r empty)
    else if c == b'{'
    then some (set_mode p brace)
    else if c == b'('
    then some (set_mode p opening)
    else if c == b')'
    then close_group p
    else if c == b'|'
    then some (new_alternative (set_mode p normal))
    else if c == b'['
    then some (set_mode p class_open)
    else some (push p (one c))

escape_item : ℕ → Item
escape_item c =
    if c == b's'
    then space
    else if c == b'S'
    then not_space
    else if c == b'w'
    then word
    else if c == b'W'
    then not_word
    else if c == b'd'
    then digit
    else if c == b'D'
    then not_digit
    else if c == b't'
    then range 9 9
    else if c == b'n'
    then range 10 10
    else if c == b'r'
    then range 13 13
    else if c == b'f'
    then range 12 12
    else if c == b'v'
    then range 11 11
    else range c c

read_class : Parser → Bool → List Item → ℕ → Parser
read_class p neg items c =
    if c == b']'
    then push p (class neg (reverse items))
    else if c == b'\\'
    then set_mode p (class_escape neg items)
    else if c == b'-'
    then set_mode p (class_dash neg items)
    else set_mode p (class_rest neg (range c c ∷ items))

-- After a dash: a range, if a character stands before it and the class does not end here. No range
-- ends in an escape.
read_dash : Parser → Bool → List Item → ℕ → Parser
read_dash p neg items c =
    let dash = range b'-' b'-' in
    if c == b']'
    then push p (class neg (reverse (dash ∷ items)))
    else if c == b'\\'
    then set_mode p (class_escape neg (dash ∷ items))
    else elim items [
      | range lo _ ∷ rest ↦ set_mode p (class_rest neg (range lo c ∷ rest))
      | other ↦ set_mode p (class_rest neg (range c c ∷ dash ∷ other))
    ]

read_count : Parser → ℕ → Option ℕ → ℕ → Option Parser
unfolding on_last repeated optional
read_count p n low c =
    if c == b'}'
    then on_last p quantified
        (λ r. elim low [ none ↦ repeated n r | some m ↦ seq (repeated m r) (optional (n - m) r) ])
    else if c == b','
    then some (set_mode p (counting 0 (some n)))
    else some (set_mode p (counting (n * 10 + (c - b'0')) low))

read_in : Mode → Parser → ℕ → Option Parser
unfolding read_normal on_last lazily escape_item open_group read_class read_dash read_count
read_in normal p c = read_normal p c
read_in quantified p c = if c == b'?' then on_last p normal lazily else read_normal p c
read_in escaped p c = some (
    push p (
      if c == b'b'
      then boundary
      else if leb b'1' c && leb c b'9'
      then back (c - b'0')
      else class false (escape_item c ∷ [])))
read_in brace p c =
    if (leb b'0' c && leb c b'9') || c == b','
    then read_count p 0 none c
    else read_normal (push p (one b'{')) c
read_in opening p c =
    if c == b'?'
    then some (set_mode p opening_mark)
    else read_normal (open_group (record p { groups = p.groups + 1 }) (numbered (p.groups + 1))) c
read_in opening_mark p c =
    if c == b':'
    then some (open_group p plain)
    else if c == b'='
    then some (open_group p (looking true))
    else if c == b'!'
    then some (open_group p (looking false))
    else none
read_in class_open p c =
    if c == b'^'
    then some (set_mode p class_start)
    else if c == b']'
    then some (set_mode p (class_rest false (range c c ∷ [])))
    else some (read_class p false [] c)
read_in class_start p c =
    if c == b']'
    then some (set_mode p (class_rest true (range c c ∷ [])))
    else some (read_class p true [] c)
read_in (class_rest neg items) p c = some (read_class p neg items c)
read_in (class_escape neg items) p c = some (set_mode p (class_rest neg (escape_item c ∷ items)))
read_in (class_dash neg items) p c = some (read_dash p neg items c)
read_in (counting n low) p c = read_count p n low c

read_all : Parser → Text → Option Parser
unfolding read_in
read_all p [] = some p
read_all p (c ∷ cs) = elim (read_in p.mode p c) [ none ↦ none | some q ↦ read_all q cs ]

closed : Mode → List Frame → Frame → Option Regex
unfolding finish
closed normal [] f = some (finish f)
closed quantified [] f = some (finish f)
closed brace [] f =
    some (finish (record { kind = f.kind; alts = f.alts; parts = one b'{' ∷ f.parts }))
closed _ _ f = none

unfoldable pub compile : Text → Option Regex
unfolding read_all closed
compile s = elim (read_all start s) [ none ↦ none | some p ↦ closed p.mode p.outer p.top ]
  where
    start : Parser
    start = record {
      mode = normal;
      outer = [];
      top = record { kind = plain; alts = []; parts = [] };
      groups = 0;
    }
