-- ===== src/Brackets.antt =====
-- Matching of brackets in scripts/tools/cpplint.py: `FindEndOfExpressionInLine` and
-- `CloseExpression` here, their mirror images in the child Backward. A stack is a list with its top
-- first. A line is walked as the characters read, the last one first, and those left.
pub mod Backward
pub mod Partner
pub mod Close
pub mod Balanced
use deft_rpc.Base.{
  ℕ, zero, suc, ◌+◌, ◌-◌, ◌*◌, ◌/◌, ◌%◌, ◌^◌, ◌≤◌, ◌<◌, min, max, ◌≡◌, refl, sym, ap, ◌∙◌, ◌≢◌, ◌↔◌,
  ◌⊎◌, inl, inr, Bool, true, false, not, ◌&&◌, ◌||◌, Option, none, some, List, [], ◌∷◌, ◌++◌, map,
  reverse, append-nil, append_assoc, arith, ltb, leb, ◌==◌, if◌then◌else◌, ltb→lt, lt→ltb, leb→le,
  leb_false→lt, ==_iff, tests, Bool-cases, Option-cases, is_some, length, get_elem?, get_or, take,
  drop, all, any, keep_if, length-append, length-take, length-drop, take-append-drop, length-map,
  All, All-append,
}
use deft_rpc.Text.{Text, codes}
use deft_rpc.Regex.{
  Regex, empty, ◌▹◌, char_if, star, line_start, line_end, word_edge, char, lit, in_set, space,
  searches, matches,
}
use deft_rpc.Lines.{CleansedLines}

-- What one character does to the scan: it goes on with a stack, or it ends at an index, or with
-- `(-1, None)`.
pub data Step : Type 0 where
  go : List ℕ → Step
  stop : ℕ → Step
  fail : Step

-- The result of a line: `(index, None)`, `(-1, None)` or `(-1, stack)`.
pub data Scan : Type 0 where
  at : ℕ → Scan
  nowhere : Scan
  pending : List ℕ → Scan

-- char in '([{' and char in ')]}'
abbrev pub is_opening : ℕ → Bool
is_opening c = c == b'(' || c == b'[' || c == b'{'

abbrev pub is_closing : ℕ → Bool
is_closing c = c == b')' || c == b']' || c == b'}'

abbrev pub is_pair : ℕ → ℕ → Bool
is_pair o c = (o == b'(' && c == b')') || (o == b'[' && c == b']') || (o == b'{' && c == b'}')

-- \boperator\s*$
abbrev pub operator_end : Regex
operator_end = word_edge ▹ lit "operator" ▹ star space ▹ line_end

-- `i > 0 and line[i - 1] == c`
abbrev pub follows : Text → ℕ → Bool
follows [] c = false
follows (d ∷ before) c = d == c

-- `i > 0 and Search(r'\boperator\s*$', …)`, of the characters read
abbrev pub after_operator : Text → Bool
after_operator [] = false
after_operator (d ∷ before) = searches operator_end (reverse (d ∷ before))

-- the same of `line[0:i - 1]`
abbrev pub before_arrow : Text → Bool
before_arrow [] = false
before_arrow (d ∷ before) = searches operator_end (reverse before)

-- while stack and stack[-1] == c: stack.pop()
unfoldable pub pop_all : ℕ → List ℕ → List ℕ
pop_all c [] = []
pop_all c (t ∷ stack) = if t == c then pop_all c stack else t ∷ stack

-- Pops the top; nothing left ends the scan as `last` says.
abbrev pub popped : Step → List ℕ → Step
popped last [] = last
popped last (t ∷ stack) = go (t ∷ stack)

-- A `<` behind a `<` takes back the one on the stack.
left_shift : List ℕ → Step
left_shift [] = go []
left_shift (t ∷ stack) = if t == b'<' then popped fail stack else go (t ∷ stack)

close_bracket : ℕ → ℕ → List ℕ → Step
close_bracket c i [] = fail
close_bracket c i (t ∷ stack) = if is_pair t c then popped (stop (i + 1)) stack else fail

close_angle : ℕ → List ℕ → Step
close_angle i [] = go []
close_angle i (t ∷ stack) = if t == b'<' then popped (stop (i + 1)) stack else go (t ∷ stack)

-- The body of the loop at the character `c` with index `i`.
unfoldable pub forward : Text → ℕ → ℕ → List ℕ → Step
unfolding pop_all left_shift close_bracket close_angle
forward before c i stack =
    if is_opening c
    then go (c ∷ stack)
    else if c == b'<'
    then (if follows before b'<'
        then left_shift stack
        else if after_operator before
        then go stack
        else go (b'<' ∷ stack))
    else if is_closing c
    then close_bracket c i (pop_all b'<' stack)
    else if c == b'>'
    then (if follows before b'-' || before_arrow before then go stack else close_angle i stack)
    else if c == b';'
    then popped fail (pop_all b'<' stack)
    else go stack

-- The loop from index `i` on.
unfoldable pub find_end_from : Text → Text → ℕ → List ℕ → Scan
unfolding forward
find_end_from before [] i stack = pending stack
find_end_from before (c ∷ rest) i stack = elim (forward before c i stack) [
  | go stack' ↦ find_end_from (c ∷ before) rest (i + 1) stack'
  | stop end ↦ at end
  | fail ↦ nowhere
]

-- FindEndOfExpressionInLine
unfoldable pub find_end : Text → ℕ → List ℕ → Scan
unfolding find_end_from
find_end line startpos stack =
    find_end_from (reverse (take startpos line)) (drop startpos line) startpos stack

-- The triple that is returned; `none` is the position -1.
pub record Place : Type 0 where
  pub line : Text
  pub linenum : ℕ
  pub pos : Option ℕ

abbrev pub place : Text → ℕ → Option ℕ → Place
place line linenum pos = record { line = line; linenum = linenum; pos = pos }

-- The loop over the further lines, after the result of line number `linenum`.
unfoldable pub close_from : ℕ → List Text → Text → ℕ → Scan → Place
unfolding find_end
close_from total rest line linenum (at end) = place line linenum (some end)
close_from total rest line linenum nowhere = place line total none
close_from total rest line linenum (pending []) = place line total none
close_from total [] line linenum (pending (t ∷ stack)) = place line total none
close_from total (next ∷ rest) line linenum (pending (t ∷ stack)) =
    close_from total rest next (linenum + 1) (find_end next 0 (t ∷ stack))

-- <[<=]
abbrev shift_or_compare : Regex
shift_or_compare = char b'<' ▹ in_set "<="

opens_at : Text → ℕ → Bool
opens_at line pos = elim (get_elem? line pos) [
  | none ↦ false
  | some c ↦ (is_opening c || c == b'<') && not (matches shift_or_compare (drop pos line))
]

-- CloseExpression. A position behind the line, where the source fails, finds nothing.
unfoldable pub close_expression : CleansedLines → ℕ → ℕ → Place
unfolding close_from find_end opens_at
close_expression clean_lines linenum pos =
    let line = get_or clean_lines.elided linenum [] in
    if opens_at line pos
    then close_from clean_lines.num_lines (drop (linenum + 1) clean_lines.elided) line linenum
        (find_end line pos [])
    else place line clean_lines.num_lines none
