-- ===== src/Brackets/Backward.antt =====
-- `FindStartOfExpressionInLine` and `ReverseCloseExpression` of scripts/tools/cpplint.py. A line is
-- walked from a position to its start, as the characters left, the nearest one first, and those
-- behind. The index of the nearest one is the number of those left of it.
use deft_rpc.Base.{
  ℕ, ◌+◌, ◌-◌, Bool, true, false, ◌||◌, none, some, List, [], ◌∷◌, reverse, ◌==◌, if◌then◌else◌,
  length, get_elem?, get_or, take, drop,
}
use deft_rpc.Text.{Text}
use deft_rpc.Regex.{Regex, ◌▹◌, char, space, matches}
use deft_rpc.Lines.{CleansedLines}
use deft_rpc.Brackets.{
  Step, go, stop, fail, Scan, at, nowhere, pending, Place, place, is_opening, is_closing, is_pair,
  follows, after_operator, pop_all, popped,
}

-- \s>=\s
abbrev greater_equal : Regex
greater_equal = space ▹ char b'>' ▹ char b'=' ▹ space

-- `->`, `>=` and `operator>`, at which the character to the left is passed over too
is_no_angle : Text → ℕ → Text → Bool
is_no_angle [] c after = false
is_no_angle (d ∷ before) c after =
    d == b'-' || (matches greater_equal (d ∷ c ∷ after) || after_operator (d ∷ before))

open_bracket : ℕ → ℕ → List ℕ → Step
open_bracket c i [] = fail
open_bracket c i (t ∷ stack) = if is_pair c t then popped (stop i) stack else fail

open_angle : ℕ → List ℕ → Step
open_angle i [] = go []
open_angle i (t ∷ stack) = if t == b'>' then popped (stop i) stack else go (t ∷ stack)

-- The loop takes the next character too where it executes `i -= 1` twice.
pub data Back : Type 0 where
  one : Step → Back
  two : List ℕ → Back

-- The body of the loop at the character `c`.
unfoldable pub backward : Text → ℕ → Text → List ℕ → Back
unfolding is_no_angle open_bracket open_angle pop_all
backward before c after stack =
    if is_closing c
    then one (go (c ∷ stack))
    else if c == b'>'
    then (if is_no_angle before c after then two stack else one (go (b'>' ∷ stack)))
    else if c == b'<'
    then (if follows before b'<' then two stack else one (open_angle (length before) stack))
    else if is_opening c
    then one (open_bracket c (length before) (pop_all b'>' stack))
    else if c == b';'
    then one (popped fail (pop_all b'>' stack))
    else one (go stack)

-- The loop; the flag says that the next character is passed over.
unfoldable pub find_start_from : Bool → Text → Text → List ℕ → Scan
unfolding backward
find_start_from skip [] after stack = pending stack
find_start_from true (c ∷ before) after stack = find_start_from false before (c ∷ after) stack
find_start_from false (c ∷ before) after stack = elim (backward before c after stack) [
  | one (go stack') ↦ find_start_from false before (c ∷ after) stack'
  | one (stop start) ↦ at start
  | one fail ↦ nowhere
  | two stack' ↦ find_start_from true before (c ∷ after) stack'
]

-- FindStartOfExpressionInLine
unfoldable pub find_start : Text → ℕ → List ℕ → Scan
unfolding find_start_from
find_start line endpos stack =
    find_start_from false (reverse (take (endpos + 1) line)) (drop (endpos + 1) line) stack

-- The loop over the lines in front, the nearest one first. A line before the first is never read:
-- the source stops at line number 0.
unfoldable pub reverse_from : List Text → Text → ℕ → Scan → Place
unfolding find_start_from
reverse_from earlier line linenum (at start) = place line linenum (some start)
reverse_from earlier line linenum nowhere = place line 0 none
reverse_from earlier line linenum (pending []) = place line 0 none
reverse_from [] line linenum (pending (t ∷ stack)) = place line 0 none
reverse_from (next ∷ earlier) line linenum (pending (t ∷ stack)) =
    reverse_from earlier next (linenum - 1) (find_start_from false (reverse next) [] (t ∷ stack))

closes_at : Text → ℕ → Bool
closes_at line pos = elim (get_elem? line pos) [ none ↦ false | some c ↦ is_closing c || c == b'>' ]

-- ReverseCloseExpression. A position behind the line, where the source fails, finds nothing.
unfoldable pub reverse_close_expression : CleansedLines → ℕ → ℕ → Place
unfolding reverse_from find_start closes_at
reverse_close_expression clean_lines linenum pos =
    let line = get_or clean_lines.elided linenum [] in
    if closes_at line pos
    then reverse_from (reverse (take linenum clean_lines.elided)) line linenum
        (find_start line pos [])
    else place line 0 none
