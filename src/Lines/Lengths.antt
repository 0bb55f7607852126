-- ===== src/Lines/Lengths.antt =====
-- The four copies of the lines stay in step.
use deft_rpc.Base.{◌≡◌, refl, ◌∙◌, List, length, length-map}
use deft_rpc.Text.{Text}
use deft_rpc.Lines.{CleansedLines, cleansed_lines}
use deft_rpc.Lines.RawStrings.{cleanse_raw_strings}
use deft_rpc.Lines.RawStrings.Shrinks.{length-cleanse_raw_strings}

-- All the members are of the length that NumLines returns.
pub record InStep (c : CleansedLines) : Type 0 where
  pub elided : length c.elided ≡ c.num_lines
  pub lines : length c.lines ≡ c.num_lines
  pub raw_lines : length c.raw_lines ≡ c.num_lines
  pub without_raw : length c.lines_without_raw_strings ≡ c.num_lines

-- Whatever the lines of a file hold, an index into one of the four copies is one into the others.
pub cleansed_lines-InStep : (lines : List Text) → InStep (cleansed_lines lines)
unfolding cleansed_lines
cleansed_lines-InStep lines =
    let plain = length-cleanse_raw_strings lines in
    record {
      elided = length-map (cleanse_raw_strings lines) _ ∙ plain;
      lines = length-map (cleanse_raw_strings lines) _ ∙ plain;
      raw_lines = refl;
      without_raw = plain;
    }
