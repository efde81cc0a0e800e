-- ===== src/Tests/Scans.antt =====
-- The theorems on brackets and on the cleansing of lines, on concrete lines.
use nwtool.Base.{length, All, Text, txt, ◌≤◌, ◌≡◌, refl, some, List, [], ◌∷◌, ◌++◌, arith}
use nwtool.Report.{Report}
use nwtool.Brackets.{close_expression, reverse_close_expression, is_pair}
use nwtool.Brackets.Balanced.{is_open, is_plain, nil, plain, enter, leave, Closes, here, later}
use nwtool.Brackets.Balanced
use nwtool.Brackets.Forward.{close_expression-Closes}
use nwtool.Brackets.Backward.{reverse_close_expression-Balanced}
use nwtool.Cleanse.{CleansedLines, cleansed_lines}
use nwtool.Cleanse.Lengths.{cleansed_lines-lengths}
use nwtool.Cleanse.Comments.{remove_multi_line_comments}
use nwtool.Cleanse.Comments.Removal.{NoStart}
use nwtool.Cleanse.Comments.Blanked.{Blanked, Unended, remove_multi_line_comments-Blanked}
use nwtool.Cleanse.RawStrings.{cleanse_raw_strings}
use nwtool.Cleanse.RawStrings.Total.{cleanse_raw_strings-total}
use nwtool.Cleanse.Strings.{collapse_loop}
use nwtool.Cleanse.Strings.Loop.{collapse_loop-total}

abbrev call_lines : List Text
call_lines = txt "f(a[" ∷ txt "1])" ∷ []

abbrev call-Closes : Closes (txt "a[" ∷ txt "1])" ∷ []) (b'(' ∷ []) 1 3
unfolding is_open is_plain is_pair
call-Closes =
    later b'[' (b'(' ∷ []) (plain refl (enter refl nil))
      (here (txt "1]") [] b'(' b')' refl refl (plain refl (leave refl nil)) refl)

close_expression-Closes_example :
    close_expression call_lines 0 1 ≡ some (record { linenum = 1; pos = 3 })
close_expression-Closes_example =
    close_expression-Closes call_lines 0 b'(' 1 3 (txt "f") (txt "a[") (txt "1])" ∷ []) refl
      (unfold is_open in refl) call-Closes

abbrev index_line : List Text
index_line = txt "x = v[i(j)] + 1;" ∷ []

abbrev index-Balanced : Balanced.Balanced (txt "i(j)")
unfolding is_plain is_pair
index-Balanced = Balanced.plain refl (
    Balanced.block b'(' b')' (txt "j") [] refl refl (Balanced.plain refl Balanced.nil) Balanced.nil)

reverse_close_expression-Balanced_example :
    reverse_close_expression index_line 0 10 ≡ some (record { linenum = 0; pos = 5 })
reverse_close_expression-Balanced_example =
    reverse_close_expression-Balanced index_line 0 b'[' b']' (txt "x = v") (txt "i(j)")
      (txt " + 1;") [] refl (unfold is_pair in refl) index-Balanced

abbrev comment_lines : List Text
comment_lines = txt "int a;" ∷ txt "/* one" ∷ txt "two */" ∷ txt "R\"x(y" ∷ txt "z)x\";" ∷ []

remove_multi_line_comments-Blanked_example :
    (r : List Text × List Report) × (remove_multi_line_comments comment_lines ≡ some r)
    × (length r.0 ≡ 5)
    × Blanked comment_lines r.0
    × (length r.1 ≤ 1)
    × All (Unended r.0) r.1
    × (r.1 ≡ [] → NoStart 5 r.0)
remove_multi_line_comments-Blanked_example = remove_multi_line_comments-Blanked comment_lines

cleanse_raw_strings-total_example :
    (r : List Text) × (cleanse_raw_strings comment_lines ≡ some r) × (length r ≡ 5)
cleanse_raw_strings-total_example = cleanse_raw_strings-total comment_lines

cleansed_lines-lengths_example :
    (c : CleansedLines) × (cleansed_lines comment_lines ≡ some c)
    × (length c.elided ≡ 5)
    × (length c.lines ≡ 5)
    × (length c.lines_without_raw_strings ≡ 5)
    × (c.raw_lines ≡ comment_lines)
cleansed_lines-lengths_example = cleansed_lines-lengths comment_lines

collapse_loop-total_example :
    (c : Text) × (collapse_loop 10 (txt "x") (txt "f('a', 1)") ≡ some (txt "x" ++ c))
collapse_loop-total_example = collapse_loop-total 10 (txt "x") (txt "f('a', 1)") (omega arith)
