-- ===== src/Tests/Matching.antt =====
-- The matching of brackets.
use deft_rpc.Base.{◌≡◌, refl, some, List, [], ◌∷◌, length}
use deft_rpc.Text.{Text, codes, is_space}
use deft_rpc.Regex.{search, match}
use deft_rpc.Lines.{CleansedLines}
use deft_rpc.Brackets.{place, close_expression}
use deft_rpc.Brackets.Backward.{reverse_close_expression}
use deft_rpc.Brackets.Close.{Behind, close_expression-Behind}
use deft_rpc.Brackets.Balanced.{none_left, plain, nested, close_expression-IsBalanced}

abbrev of_lines : List Text → CleansedLines
of_lines lines = record {
  elided = lines;
  lines = lines;
  raw_lines = lines;
  lines_without_raw_strings = lines;
  num_lines = length lines;
}

abbrev two_lines : CleansedLines
two_lines = of_lines (codes "f(a, g[0]" ∷ codes "  b<c>(1));" ∷ [])

closed_on_next : close_expression two_lines 0 1 ≡ place (codes "  b<c>(1));") 1 (some 10)
unfolding close_expression search match is_space
closed_on_next = refl

opened_before : reverse_close_expression two_lines 1 9 ≡ place (codes "f(a, g[0]") 0 (some 1)
unfolding reverse_close_expression search match is_space
opened_before = refl

-- At the second `<` of a shift the scan goes on to the next bracket.
shift_goes_on :
    close_expression (of_lines (codes "a << b (c)" ∷ [])) 0 3
    ≡ place (codes "a << b (c)") 0 (some 10)
unfolding close_expression search match is_space
shift_goes_on = refl

close_expression-Behind_example :
    Behind b'(' (close_expression two_lines 0 1).line (close_expression two_lines 0 1).pos
close_expression-Behind_example = close_expression-Behind two_lines 0 1 b'(' refl refl

close_expression-IsBalanced_example :
    close_expression (of_lines (codes "f(a<b[0]);" ∷ [])) 0 1
    ≡ place (codes "f(a<b[0]);") 0 (some 9)
close_expression-IsBalanced_example =
    close_expression-IsBalanced (of_lines (codes "f(a<b[0]);" ∷ [])) 0 (codes "f") (codes "a<b[0]")
      (codes ";") b'(' b')' refl refl refl
      (plain b'a' refl (
        plain b'<' refl (
          plain b'b' refl (
            nested {w = codes "0"} {v = []} b'[' b']' refl refl (plain b'0' refl none_left)
              none_left))))
