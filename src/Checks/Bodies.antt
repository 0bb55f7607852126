-- ===== src/Checks/Bodies.antt =====
-- `CheckEmptyBlockBody`.
use deft_rpc.Base.{
  ℕ, ◌+◌, ◌-◌, Bool, not, ◌&&◌, ◌||◌, Option, none, some, List, [], ◌∷◌, ◌++◌, map, ltb, ◌==◌,
  if◌then◌else◌, get_or, take, drop, all,
}
use deft_rpc.Text.{Text, codes, eq, find, join, is_space}
use deft_rpc.Regex.{
  Regex, ahead, char, group, line_end, line_start, lit, not_ahead, one_lit, space, star, ◌│◌, ◌▹◌,
}
use deft_rpc.Regex.{searches, match, matches, group_text}
use deft_rpc.Lint.{Report}
use deft_rpc.Lines.{CleansedLines}
use deft_rpc.Lines.Comments.{cleanse_comments}
use deft_rpc.Brackets.{Place, close_expression}
use deft_rpc.Checks.{report, when}

-- \s*(for|while|if)\s*\(
abbrev block_head : Regex
block_head = star space ▹ group 1 (one_lit ("for" ∷ "while" ∷ "if" ∷ [])) ▹ star space ▹ char b'('

-- ^\s*\{
abbrev open_brace : Regex
open_brace = line_start ▹ star space ▹ char b'{'

-- ^(?!\s*$)
abbrev not_blank : Regex
not_blank = line_start ▹ not_ahead (star space ▹ line_end)

-- ^\s*$|^(?=\s*else)
abbrev blank_or_else : Regex
blank_or_else =
    (line_start ▹ star space ▹ line_end) │ (line_start ▹ ahead (star space ▹ lit "else"))

-- ^(?=\s*else)
abbrev else_ahead : Regex
else_ahead = line_start ▹ ahead (star space ▹ lit "else")

-- _EMPTY_CONDITIONAL_BODY_PATTERN: ^\s*$ of a body of several lines
unfoldable pub is_empty_body : Text → Bool
unfolding is_space
is_empty_body body = all is_space body

-- The line of the opening brace of a body, from the text behind the condition on.
opening_from : ℕ → Text → List Text → Option (ℕ × Text)
opening_from linenum fragment [] =
    if searches open_brace fragment then some (linenum, fragment) else none
opening_from linenum fragment (next ∷ lines) =
    let further = opening_from (linenum + 1) next lines in
    if searches open_brace fragment
    then some (linenum, fragment)
    else if searches not_blank fragment
    then none
    else further

-- Whether an else follows, from the text behind the body on.
unfoldable pub else_follows : Text → List Text → Bool
else_follows fragment [] = searches blank_or_else fragment && searches else_ahead fragment
else_follows fragment (next ∷ lines) =
    let further = else_follows next lines in
    searches blank_or_else fragment && (searches else_ahead fragment || further)

singletons : Text → List Text
singletons = map (λ c. c ∷ [])

-- The text of the body between its braces.
body_text : CleansedLines → ℕ → ℕ → ℕ → ℕ → Text
unfolding singletons join
body_text clean_lines opening_linenum opening_pos closing_linenum closing_pos =
    let opening_line = get_or clean_lines.elided opening_linenum [] in
    if ltb opening_linenum closing_linenum
    then join (codes "\n") (
        singletons (drop (opening_pos + 1) opening_line)
        ++ (take (closing_linenum - (opening_linenum + 1))
              (drop (opening_linenum + 1) clean_lines.raw_lines)
            ++ (take (closing_pos - 1) (get_or clean_lines.elided closing_linenum []) ∷ [])))
    else drop (opening_pos + 1) (take (closing_pos - 1) opening_line)

module _ (filename : Text) where
  empty_if : ℕ → Report
  unfolding report
  empty_if end_linenum =
      report filename end_linenum (codes "whitespace/empty_if_body") 4
        (codes "If statement had no body and no else clause")

  -- The body of an if from its opening brace on.
  if_body : CleansedLines → ℕ → ℕ → ℕ → List Report
  unfolding body_text is_empty_body else_follows empty_if eq
  if_body clean_lines end_linenum opening_linenum opening_pos =
      let raw = get_or clean_lines.raw_lines opening_linenum [] in
      let close = close_expression clean_lines opening_linenum opening_pos in
      elim close.pos [
        | none ↦ []
        | some closing_pos ↦
            when
              (eq raw (cleanse_comments raw)
                && (is_empty_body
                      (body_text clean_lines opening_linenum opening_pos close.linenum closing_pos)
                    && not (
                        else_follows (drop closing_pos close.line)
                          (drop (close.linenum + 1) clean_lines.elided))))
              (empty_if end_linenum)
      ]

  index_or : Option ℕ → ℕ
  index_or none = 0
  index_or (some i) = i

  if_reports : CleansedLines → ℕ → ℕ → Text → List Report
  unfolding opening_from if_body index_or find
  if_reports clean_lines end_linenum end_pos fragment =
      elim (opening_from end_linenum fragment (drop (end_linenum + 1) clean_lines.elided)) [
        | none ↦ []
        | some (opening_linenum, opening) ↦
            let pos = index_or (find (codes "{") opening) in
            if_body clean_lines end_linenum opening_linenum
              (if opening_linenum == end_linenum then pos + end_pos else pos)
      ]

  empty_statement : Text → ℕ → Report
  unfolding report eq
  empty_statement keyword end_linenum =
      if eq keyword (codes "if")
      then report filename end_linenum (codes "whitespace/empty_conditional_body") 5
          (codes "Empty conditional bodies should use {}")
      else report filename end_linenum (codes "whitespace/empty_loop_body") 5
          (codes "Empty loop bodies should use {} or continue")

  -- The reports where the condition ends at the place.
  block_body : CleansedLines → Text → Place → List Report
  unfolding empty_statement if_reports eq
  block_body clean_lines keyword close = elim close.pos [
    | none ↦ []
    | some end_pos ↦
        let fragment = drop end_pos close.line in
        when (matches (char b';') fragment) (empty_statement keyword close.linenum)
        ++ (if eq keyword (codes "if")
            then if_reports clean_lines close.linenum end_pos fragment
            else [])
  ]

  -- CheckEmptyBlockBody
  unfoldable pub check_empty_block_body : CleansedLines → ℕ → List Report
  unfolding block_body index_or find
  check_empty_block_body clean_lines linenum =
      let line = get_or clean_lines.elided linenum [] in
      elim (match block_head line) [
        | none ↦ []
        | some m ↦
            block_body clean_lines (group_text m 1)
              (close_expression clean_lines linenum (index_or (find (codes "(") line)))
      ]
