-- ===== src/Cleanse/Lengths.antt =====
-- The four copies of the lines that `CleansedLines` holds.
use nwtool.Base.{length, length-map, Text, ◌≡◌, refl, ◌∙◌, some, List, map}
use nwtool.Cleanse.RawStrings.Total.{cleanse_raw_strings-total}
use nwtool.Cleanse.Strings.{collapse_strings, cleanse_comments}
use nwtool.Cleanse.{CleansedLines, cleansed_lines}

-- `CleansedLines` is built for any lines with no exception, each of its other copies has as many
-- lines as the file, and the raw lines are the file's.
pub cleansed_lines-lengths :
    (raw : List Text)
    → (c : CleansedLines) × (cleansed_lines raw ≡ some c)
      × (length c.elided ≡ length raw)
      × (length c.lines ≡ length raw)
      × (length c.lines_without_raw_strings ≡ length raw)
      × (c.raw_lines ≡ raw)
unfolding cleansed_lines
cleansed_lines-lengths raw =
    let (without, runs, same) = cleanse_raw_strings-total raw in
    (
      record {
        elided = map (λ l. cleanse_comments (collapse_strings l)) without;
        lines = map cleanse_comments without;
        raw_lines = raw;
        lines_without_raw_strings = without;
      },
      rw (runs, cleansed_lines),
      length-map _ without ∙ same,
      length-map _ without ∙ same,
      same,
      refl,
    )
