-- ===== src/Checks/Braces.antt =====
-- `CheckBraces`.
use deft_rpc.Base.{
  ℕ, ◌+◌, ◌-◌, Bool, true, false, not, ◌&&◌, ◌||◌, Option, none, some, List, [], ◌∷◌, ◌++◌, ltb,
  leb, ◌==◌, if◌then◌else◌, is_some, length, get_or, drop, any,
}
use deft_rpc.Text.{Text, codes, find}
use deft_rpc.Regex.{
  Regex, char, char_if, group, in_set, line_end, line_start, lit, not_in, optional, space, star,
  word_edge, ◌│◌, ◌▹◌,
}
use deft_rpc.Regex.Notation.{one_of_chars}
use deft_rpc.Text.{is_space}
use deft_rpc.Regex.{search, searches, matches}
use deft_rpc.Lint.{Report}
use deft_rpc.Lines.{CleansedLines}
use deft_rpc.Brackets.{Place, close_expression}
use deft_rpc.Nesting.Checks.{get_indent_level}
use deft_rpc.Checks.{report, when}
use deft_rpc.Checks.Comments.{get_previous_non_blank_line}

-- a text from an index on that may be -1, which is its last character
from_pos : Option ℕ → Text → Text
from_pos none s = drop (length s - 1) s
from_pos (some i) s = drop i s

abbrev text_of : Option (Text × ℕ) → Text
text_of none = []
text_of (some p) = p.0

-- GetPreviousNonBlankLine(clean_lines, linenum)[0]
unfoldable pub previous_line : CleansedLines → ℕ → Text
previous_line clean_lines linenum = text_of (get_previous_non_blank_line clean_lines linenum)

is_in : Text → Text → Bool
unfolding find
is_in a b = is_some (find a b)

-- \s*{\s*$
abbrev only_brace : Regex
only_brace = star space ▹ char b'{' ▹ star space ▹ line_end

-- [,;:}{(]\s*$
abbrev may_break : Regex
may_break = in_set ",;:}{(" ▹ star space ▹ line_end

-- \s*#
abbrev directive : Regex
directive = star space ▹ char b'#'

-- \s*else\b\s*(?:if\b|\{|$)
abbrev else_line : Regex
else_line =
    star space
    ▹ lit "else"
    ▹ word_edge
    ▹ star space
    ▹ ((lit "if" ▹ word_edge) │ char b'{' │ line_end)

-- \s*}\s*$
abbrev only_close : Regex
only_close = star space ▹ char b'}' ▹ star space ▹ line_end

-- else if\s*\(
abbrev else_if : Regex
else_if = lit "else if" ▹ star space ▹ char b'('

-- }\s*else if\s*\(
abbrev closed_else_if : Regex
closed_else_if = char b'}' ▹ star space ▹ lit "else if" ▹ star space ▹ char b'('

-- }\s*else[^{]*$
abbrev closed_else : Regex
closed_else = char b'}' ▹ star space ▹ lit "else" ▹ star (not_in "{") ▹ line_end

-- [^}]*else\s*{
abbrev opened_else : Regex
opened_else = star (not_in "}") ▹ lit "else" ▹ star space ▹ char b'{'

-- \belse [^\s{]
abbrev else_clause : Regex
else_clause = word_edge ▹ lit "else " ▹ char_if (λ c. not (is_space c || one_of_chars "{" c))

-- \belse if\b
abbrev else_if_word : Regex
else_if_word = word_edge ▹ lit "else if" ▹ word_edge

-- \s*do [^\s{]
abbrev do_clause : Regex
do_clause = star space ▹ lit "do " ▹ char_if (λ c. not (is_space c || one_of_chars "{" c))

-- \b(if\s*\(|else\b)
abbrev if_or_else : Regex
if_or_else = word_edge ▹ group 1 ((lit "if" ▹ star space ▹ char b'(') │ (lit "else" ▹ word_edge))

-- \bif\s*\(
abbrev if_open : Regex
if_open = word_edge ▹ lit "if" ▹ star space ▹ char b'('

-- \s*{
abbrev brace_first : Regex
brace_first = star space ▹ char b'{'

-- \s*$
abbrev blank : Regex
blank = star space ▹ line_end

-- ;[\s}]*(\\?)$
abbrev ends_statement : Regex
ends_statement =
    char b';'
    ▹ star (char_if (λ c. is_space c || one_of_chars "}" c))
    ▹ group 1 (optional (char b'\\'))
    ▹ line_end

-- ^[^{};]*\[[^\[\]]*\][^{}]*\{[^{}]*\}\s*\)*[;,]\s*$
abbrev lambda_line : Regex
lambda_line =
    line_start
    ▹ star (not_in "{};")
    ▹ char b'['
    ▹ star (not_in "[]")
    ▹ char b']'
    ▹ star (not_in "{}")
    ▹ char b'{'
    ▹ star (not_in "{}")
    ▹ char b'}'
    ▹ star space
    ▹ star (char b')')
    ▹ in_set ";,"
    ▹ star space
    ▹ line_end

-- \s*else\b
abbrev else_first : Regex
else_first = star space ▹ lit "else" ▹ word_edge

-- line.find('(', line.find('else if')), where it is positive
else_paren : Text → Option ℕ
unfolding find
else_paren line = elim (find (codes "else if") line) [
  | none ↦ none
  | some i ↦ elim (find (codes "(") (drop i line)) [ none ↦ none | some j ↦ some (i + j) ]
]

-- The number of the line in which the statement ends: the first one with a `;` in what is left of it.
statement_end : ℕ → Text → List Text → Option ℕ
unfolding is_in
statement_end linenum text [] = if is_in (codes ";") text then some linenum else none
statement_end linenum text (next ∷ lines) =
    let further = statement_end (linenum + 1) next lines in
    if is_in (codes ";") text then some linenum else further

-- endline[endline.find(';'):]
from_semicolon : Text → Text
unfolding find from_pos
from_semicolon line = from_pos (find (codes ";") line) line

module _ (line_width : Text → ℕ) (line_length : ℕ) (filename : Text) (linenum : ℕ) where
  braces : Text → Report
  unfolding report
  braces message = report filename linenum (codes "readability/braces") 5 message

  body_report : Text → Report
  unfolding report
  body_report message = report filename linenum (codes "readability/braces") 4 message

  newline : Text → Report
  unfolding report
  newline message = report filename linenum (codes "whitespace/newline") 4 message

  brace_alone : CleansedLines → Text → List Report
  unfolding report is_in previous_line
  brace_alone clean_lines line =
      let prevline = previous_line clean_lines linenum in
      when
        (matches only_brace line
          && (not (searches may_break prevline)
              && (not (matches directive prevline)
                  && not
                      (ltb line_length (line_width prevline + 2) && is_in (codes "[]") prevline))))
        (report filename linenum (codes "whitespace/braces") 4
          (codes "{ should almost always be at the end of the previous line"))

  else_alone : CleansedLines → Text → List Report
  unfolding newline previous_line
  else_alone clean_lines line =
      when (matches else_line line && matches only_close (previous_line clean_lines linenum))
        (newline (codes "An else should appear on the same line as the preceding }"))

  one_side : Report
  unfolding braces
  one_side = braces (codes "If an else has a brace on one side, it should have it on both")

  -- The braces on both sides of an else.
  else_braces : CleansedLines → Text → List Report
  unfolding one_side else_paren from_pos
  else_braces clean_lines line =
      if searches else_if line
      then elim (else_paren line) [
        | none ↦ []
        | some pos ↦
            let close = close_expression clean_lines linenum pos in
            let brace_on_right = any (λ c. c == b'{') (from_pos close.pos close.line) in
            let brace_on_left = searches closed_else_if line in
            when (not (if brace_on_left then brace_on_right else not brace_on_right)) one_side
      ]
      else when (searches closed_else line || matches opened_else line) one_side

  one_line : Text → List Report
  unfolding newline
  one_line line =
      when (searches else_clause line && not (searches else_if_word line))
        (newline (codes "Else clause should never be on same line as else (use 2 lines)"))
      ++ when (matches do_clause line)
          (newline (codes "do/while clauses should not be on a single line"))

  -- The reports about the body that ends in the line.
  body_end : CleansedLines → Bool → ℕ → ℕ → List Report
  unfolding body_report get_indent_level from_semicolon
  body_end clean_lines is_if if_indent endlinenum =
      let elided = clean_lines.elided in
      let next_line = get_or elided (endlinenum + 1) [] in
      let next_indent = get_indent_level next_line in
      if not (matches ends_statement (from_semicolon (get_or elided endlinenum [])))
      then when (not (matches lambda_line (get_or elided endlinenum [])))
          (body_report (codes "If/else bodies with multiple statements require braces"))
      else if not (ltb (endlinenum + 1) (length elided))
      then []
      else if is_if && (matches else_first next_line && not (next_indent == if_indent))
      then body_report (
          codes "Else clause should be indented at the same level as if. "
          ++ codes "Ambiguous nested if/else chains require braces.")
        ∷ []
      else when (ltb if_indent next_indent)
          (body_report (codes "If/else bodies with multiple statements require braces"))

  -- The condition ends at the place, and the body has no brace.
  body_reports : CleansedLines → Text → Bool → Place → List Report
  unfolding from_pos statement_end body_end get_indent_level
  body_reports clean_lines line is_if close =
      let elided = clean_lines.elided in
      let behind = from_pos close.pos close.line in
      let next = get_or elided (close.linenum + 1) [] in
      if matches brace_first behind
        || (matches blank behind
            && (ltb (close.linenum + 1) (length elided) && matches brace_first next))
      then []
      else if leb (length elided) close.linenum
      then []
      else elim (statement_end close.linenum behind (drop (close.linenum + 1) elided)) [
        | none ↦ []
        | some endlinenum ↦ body_end clean_lines is_if (get_indent_level line) endlinenum
      ]

  multiple_statements : CleansedLines → Text → List Report
  unfolding body_reports
  multiple_statements clean_lines line = elim (search if_or_else line) [
    | none ↦ []
    | some m ↦ if matches directive line then [] else elim (search if_open line) [
      | none ↦
          body_reports clean_lines line false
            (record { line = line; linenum = linenum; pos = some m.end_pos })
      | some i ↦
          body_reports clean_lines line true (close_expression clean_lines linenum (i.end_pos - 1))
    ]
  ]

  -- CheckBraces
  unfoldable pub check_braces : CleansedLines → List Report
  unfolding brace_alone else_alone else_braces one_line multiple_statements
  check_braces clean_lines =
      let line = get_or clean_lines.elided linenum [] in
      brace_alone clean_lines line
      ++ (else_alone clean_lines line
          ++ (else_braces clean_lines line
              ++ (one_line line ++ multiple_statements clean_lines line)))
