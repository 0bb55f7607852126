-- ===== src/Tests/Cleansing.antt =====
-- The cleansing of lines.
use deft_rpc.Base.{some, none, ◌≡◌, refl, List, [], ◌∷◌, map, arith}
use deft_rpc.Text.{Text, codes, eq, find, replace, rstrip, strip, starts_with, ends_with, is_space}
use deft_rpc.Regex.{match, search, replace_all, group_text}
use deft_rpc.Lines.{cleansed_lines}
use deft_rpc.Lines.Lengths.{InStep, cleansed_lines-InStep}
use deft_rpc.Lines.Collapse.{collapse, collapse_strings}
use deft_rpc.Lines.Collapse.Rounds.{collapse_rounds}
use deft_rpc.Lines.Comments.{cleanse_comments, remove_multi_line_comments}
use deft_rpc.Lines.Comments.Ranges.{Closed, remove_multi_line_comments-Closed}
use deft_rpc.Lines.RawStrings.{begins, cleanse_line, cleanse_raw_strings}
use deft_rpc.Lines.RawStrings.Shrinks.{cleanse_line-begins}

collapsed :
    map collapse_strings (codes "f(\"a // b\", 'c', 1'000);" ∷ codes "x = \"ab\\\"c" ∷ [])
    ≡ codes "f(\"\", '', 1000);" ∷ codes "x = \"abc" ∷ []
unfolding collapse_strings match search replace_all find eq replace group_text is_space
collapsed = refl

uncommented :
    map cleanse_comments (codes "a(); // b" ∷ codes "a(/* x */ b);" ∷ codes "\"//\" c" ∷ [])
    ≡ codes "a();" ∷ codes "a(b);" ∷ codes "\"//\" c" ∷ []
unfolding cleanse_comments find replace_all rstrip
uncommented = refl

raws :
    cleanse_raw_strings (codes "a = R\"x(b" ∷ codes "c)y\"" ∷ codes "  d)x\"; // R\"(e" ∷ [])
    ≡ codes "a = \"\"" ∷ codes "\"\"" ∷ codes "  \"\"; // R\"(e" ∷ []
unfolding cleanse_raw_strings match find group_text is_space
raws = refl

blanked :
    remove_multi_line_comments
      (codes "a")
      (codes "x" ∷ codes " /* a" ∷ codes "b */ " ∷ codes "/*" ∷ [])
    ≡ (
      codes "x" ∷ codes "/**/" ∷ codes "/**/" ∷ codes "/*" ∷ [],
      record {
        filename = codes "a";
        linenum = 4;
        category = codes "readability/multiline_comment";
        confidence = 5;
        message = codes "Could not find end of multi-line comment";
      }
          ∷ [],
    )
unfolding remove_multi_line_comments starts_with ends_with find strip
blanked = refl

collapse_rounds_example :
    collapse 20 [] (codes "f('a', 1'0)") ≡ collapse 30 [] (codes "f('a', 1'0)")
collapse_rounds_example = collapse_rounds 20 30 [] (codes "f('a', 1'0)") (omega arith) (omega arith)

-- A line that ends one raw string and has another.
abbrev ends_raw : Text
ends_raw = codes "b)\" + R\"(c)\";"

ends_raw-closed : (cleanse_line (some (codes ")\"")) ends_raw).1 ≡ none
unfolding cleanse_line find match is_space group_text
ends_raw-closed = refl

cleanse_line-begins_example : begins (cleanse_line (some (codes ")\"")) ends_raw).0 ≡ none
cleanse_line-begins_example = cleanse_line-begins (some (codes ")\"")) ends_raw ends_raw-closed

abbrev commented : List Text
commented = codes "x" ∷ codes " /* a" ∷ codes "b */ " ∷ []

remove_multi_line_comments-Closed_example :
    Closed (remove_multi_line_comments (codes "a") commented).0
unfolding remove_multi_line_comments starts_with ends_with find strip
remove_multi_line_comments-Closed_example =
    remove_multi_line_comments-Closed (codes "a") commented refl

cleansed_lines-InStep_example : InStep (cleansed_lines commented)
cleansed_lines-InStep_example = cleansed_lines-InStep commented
