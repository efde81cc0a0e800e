-- ===== src/Nesting/Preprocessor.antt =====
-- `UpdatePreprocessor`: the stack across `#if`, `#else` and `#endif`.
pub mod Discipline
use nwtool.Base.{if◌then◌else◌, Text, txt, true, false, List, [], ◌∷◌}
use nwtool.Regex.{matches}
use nwtool.Nesting.Blocks.{NestingState, PreprocessorInfo}

-- What a line is to the preprocessor stack.
pub data Directive : Type 0 where
  opens alternates closes other : Directive

unfoldable pub directive : Text → Directive
unfolding matches
directive line =
    if matches (txt "^\\s*#\\s*(if|ifdef|ifndef)\\b") line
    then opens
    else if matches (txt "^\\s*#\\s*(else|elif)\\b") line
    then alternates
    else if matches (txt "^\\s*#\\s*endif\\b") line
    then closes
    else other

-- At `#else` and `#elif`, on the entry of the last `#if`.
abbrev pub alternate : NestingState → List PreprocessorInfo → NestingState
alternate s [] = s
alternate s (p ∷ ps) = record s {
  stack = p.stack_before_if;
  pp_stack =
      (if p.seen_else then p else record p { seen_else = true; stack_before_else = s.stack }) ∷ ps;
}

-- At `#endif`.
abbrev pub close : NestingState → List PreprocessorInfo → NestingState
close s [] = s
close s (p ∷ ps) = record s {
  stack = if p.seen_else then p.stack_before_else else s.stack;
  pp_stack = ps;
}

unfoldable pub apply_directive : Directive → NestingState → NestingState
apply_directive opens s = record s {
  pp_stack =
      record { stack_before_if = s.stack; stack_before_else = []; seen_else = false } ∷ s.pp_stack;
}
apply_directive alternates s = alternate s s.pp_stack
apply_directive closes s = close s s.pp_stack
apply_directive other s = s

unfoldable pub update_preprocessor : NestingState → Text → NestingState
unfolding apply_directive
update_preprocessor s line = apply_directive (directive line) s
