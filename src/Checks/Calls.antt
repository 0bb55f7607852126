-- ===== src/Checks/Calls.antt =====
-- `CheckSpacingForFunctionCall`, `CheckParenthesisSpacing` and `CheckCommaSpacing`.
use deft_rpc.Base.{
  ℕ, ◌+◌, not, ◌&&◌, ◌||◌, none, some, List, [], ◌∷◌, ◌++◌, ◌==◌, if◌then◌else◌, length, get_or,
}
use deft_rpc.Text.{Text, codes, eq}
use deft_rpc.Regex.{
  Regex, char, char_if, dot, group, in_set, line_end, line_start, lit, not_ahead, not_in, one_lit,
  plus, space, star, word, word_edge, ◌│◌, ◌▹◌,
}
use deft_rpc.Regex.Notation.{one_of_chars, up_to}
use deft_rpc.Text.{is_space}
use deft_rpc.Regex.{Found, searches, search, group_text, replace_all}
use deft_rpc.Lint.{Report}
use deft_rpc.Lines.{CleansedLines}
use deft_rpc.Checks.{report, when}

-- \bif\s*\((.*)\)\s*{
abbrev if_head : Regex
if_head =
    word_edge
    ▹ lit "if"
    ▹ star space
    ▹ char b'('
    ▹ group 1 (star dot)
    ▹ char b')'
    ▹ star space
    ▹ char b'{'

-- \bfor\s*\((.*)\)\s*{
abbrev for_head : Regex
for_head =
    word_edge
    ▹ lit "for"
    ▹ star space
    ▹ char b'('
    ▹ group 1 (star dot)
    ▹ char b')'
    ▹ star space
    ▹ char b'{'

-- \bwhile\s*\((.*)\)\s*[{;]
abbrev while_head : Regex
while_head =
    word_edge
    ▹ lit "while"
    ▹ star space
    ▹ char b'('
    ▹ group 1 (star dot)
    ▹ char b')'
    ▹ star space
    ▹ in_set "{;"

-- \bswitch\s*\((.*)\)\s*{
abbrev switch_head : Regex
switch_head =
    word_edge
    ▹ lit "switch"
    ▹ star space
    ▹ char b'('
    ▹ group 1 (star dot)
    ▹ char b')'
    ▹ star space
    ▹ char b'{'

-- What stands in the parentheses of the first of the patterns that is found, or the line.
in_parentheses : List Regex → Text → Text
in_parentheses [] line = line
in_parentheses (pattern ∷ patterns) line =
    let further = in_parentheses patterns line in
    elim (search pattern line) [ none ↦ further | some m ↦ group_text m 1 ]

-- \b(if|for|while|switch|return|new|delete|catch|sizeof)\b
abbrev control : Regex
control =
    word_edge
    ▹ group 1 (
        one_lit (
          "if" ∷ "for" ∷ "while" ∷ "switch" ∷ "return" ∷ "new" ∷ "delete" ∷ "catch" ∷ "sizeof"
          ∷ []))
    ▹ word_edge

--  \([^)]+\)\([^)]*(\)|,$)
abbrev function_pointer : Regex
function_pointer =
    lit " ("
    ▹ plus (not_in ")")
    ▹ lit ")("
    ▹ star (not_in ")")
    ▹ group 1 (char b')' │ (char b',' ▹ line_end))

--  \([^)]+\)\[[^\]]+\]
abbrev array_pointer : Regex
array_pointer = lit " (" ▹ plus (not_in ")") ▹ lit ")[" ▹ plus (not_in "]") ▹ char b']'

-- \w\s*\(\s(?!\s*\\$)
abbrev space_after_call : Regex
space_after_call =
    word ▹ star space ▹ char b'(' ▹ space ▹ not_ahead (star space ▹ char b'\\' ▹ line_end)

-- \(\s+(?!(\s*\\)|\()
abbrev space_after : Regex
space_after = char b'(' ▹ plus space ▹ not_ahead (group 1 (star space ▹ char b'\\') │ char b'(')

-- \w\s+\(
abbrev space_before : Regex
space_before = word ▹ plus space ▹ char b'('

-- _{0,2}asm_{0,2}\s+_{0,2}volatile_{0,2}\s+\(
abbrev asm_call : Regex
asm_call =
    up_to 2 (char b'_')
    ▹ lit "asm"
    ▹ up_to 2 (char b'_')
    ▹ plus space
    ▹ up_to 2 (char b'_')
    ▹ lit "volatile"
    ▹ up_to 2 (char b'_')
    ▹ plus space
    ▹ char b'('

-- #\s*define|typedef|using\s+\w+\s*=
abbrev declares : Regex
declares =
    (char b'#' ▹ star space ▹ lit "define")
    │ lit "typedef"
    │ (lit "using" ▹ plus space ▹ plus word ▹ star space ▹ char b'=')

-- \w\s+\((\w+::)*\*\w+\)\(
abbrev member_pointer : Regex
member_pointer =
    word
    ▹ plus space
    ▹ char b'('
    ▹ star (group 1 (plus word ▹ lit "::"))
    ▹ char b'*'
    ▹ plus word
    ▹ lit ")("

-- \bcase\s+\(
abbrev case_label : Regex
case_label = word_edge ▹ lit "case" ▹ plus space ▹ char b'('

-- \boperator_*\b
abbrev operator_name : Regex
operator_name = word_edge ▹ lit "operator" ▹ star (char b'_') ▹ word_edge

-- [^)]\s+\)\s*[^{\s]
abbrev space_before_close : Regex
space_before_close =
    not_in ")"
    ▹ plus space
    ▹ char b')'
    ▹ star space
    ▹ char_if (λ c. not (is_space c || one_of_chars "{" c))

-- ^\s+\)
abbrev close_first : Regex
close_first = line_start ▹ plus space ▹ char b')'

module _ (filename : Text) (linenum : ℕ) where
  parens : ℕ → Text → Report
  unfolding report
  parens confidence message = report filename linenum (codes "whitespace/parens") confidence message

  after_open : Text → List Report
  unfolding parens
  after_open fncall =
      if searches space_after_call fncall
      then parens 4 (codes "Extra space after ( in function call") ∷ []
      else when (searches space_after fncall) (parens 2 (codes "Extra space after ("))

  before_open : Text → Text → List Report
  unfolding parens
  before_open line fncall =
      when
        (searches space_before fncall
          && (not (searches asm_call fncall)
              && (not (searches declares fncall)
                  && (not (searches member_pointer fncall) && not (searches case_label fncall)))))
        (parens (if searches operator_name line then 0 else 4)
          (codes "Extra space before ( in function call"))

  before_close : Text → List Report
  unfolding parens
  before_close fncall = when (searches space_before_close fncall) (
      parens 2 (
        if searches close_first fncall
        then codes "Closing ) should be moved to the previous line"
        else codes "Extra space before )"))

  call_reports : Text → List Report
  unfolding in_parentheses after_open before_open before_close
  call_reports line =
      let fncall = in_parentheses (if_head ∷ for_head ∷ while_head ∷ switch_head ∷ []) line in
      if searches control fncall
        || (searches function_pointer fncall || searches array_pointer fncall)
      then []
      else after_open fncall ++ (before_open line fncall ++ before_close fncall)

-- CheckSpacingForFunctionCall
unfoldable pub check_spacing_for_function_call : Text → CleansedLines → ℕ → List Report
unfolding call_reports
check_spacing_for_function_call filename clean_lines linenum =
    call_reports filename linenum (get_or clean_lines.elided linenum [])

--  (if\(|for\(|while\(|switch\()
abbrev no_space_before : Regex
no_space_before = char b' ' ▹ group 1 (one_lit ("if(" ∷ "for(" ∷ "while(" ∷ "switch(" ∷ []))

-- \b(if|for|while|switch)\s*\(([ ]*)(.).*[^ ]+([ ]*)\)\s*{\s*$
abbrev head_line : Regex
head_line =
    word_edge
    ▹ group 1 (one_lit ("if" ∷ "for" ∷ "while" ∷ "switch" ∷ []))
    ▹ star space
    ▹ char b'('
    ▹ group 2 (star (in_set " "))
    ▹ group 3 dot
    ▹ star dot
    ▹ plus (not_in " ")
    ▹ group 4 (star (in_set " "))
    ▹ char b')'
    ▹ star space
    ▹ char b'{'
    ▹ star space
    ▹ line_end

-- \bfor\s*\(.*; \)
abbrev empty_last : Regex
empty_last = word_edge ▹ lit "for" ▹ star space ▹ char b'(' ▹ star dot ▹ lit "; )"

module _ (filename : Text) (linenum : ℕ) where
  -- The spaces inside of the parentheses of a control structure.
  inside_reports : Text → Found → List Report
  unfolding report eq
  inside_reports line m =
      let left = length (group_text m 2) in
      let right = length (group_text m 4) in
      when
        (not (left == right)
          && not (
              (eq (group_text m 3) (codes ";") && left == 1 + right)
              || (left == 0 && searches empty_last line)))
        (report filename linenum (codes "whitespace/parens") 5
          (codes "Mismatching spaces inside () in " ++ group_text m 1))
      ++ when (not (left == 0 || left == 1)) (
          report filename linenum (codes "whitespace/parens") 5
            (codes "Should have zero or one spaces inside ( and ) in " ++ group_text m 1))

-- CheckParenthesisSpacing
unfoldable pub check_parenthesis_spacing : Text → CleansedLines → ℕ → List Report
unfolding report inside_reports
check_parenthesis_spacing filename clean_lines linenum =
    let line = get_or clean_lines.elided linenum [] in
    (elim (search no_space_before line) [
      | none ↦ []
      | some m ↦
          report filename linenum (codes "whitespace/parens") 5
            (codes "Missing space before ( in " ++ group_text m 1)
          ∷ []
    ])
    ++ (elim (search head_line line) [
      | none ↦ []
      | some m ↦ inside_reports filename linenum line m
    ])

-- \boperator\s*,\s*\(
abbrev operator_comma : Regex
operator_comma = word_edge ▹ lit "operator" ▹ star space ▹ char b',' ▹ star space ▹ char b'('

-- ,[^,\s]
abbrev tight_comma : Regex
tight_comma = char b',' ▹ char_if (λ c. not (is_space c || one_of_chars "," c))

-- ;[^\s};\\)/]
abbrev tight_semicolon : Regex
tight_semicolon = char b';' ▹ char_if (λ c. not (is_space c || one_of_chars "};\\)/" c))

-- CheckCommaSpacing
unfoldable pub check_comma_spacing : Text → CleansedLines → ℕ → List Report
unfolding report
check_comma_spacing filename clean_lines linenum =
    let line = get_or clean_lines.elided linenum [] in
    when
      (searches tight_comma (replace_all operator_comma (codes "F(") line)
        && searches tight_comma (get_or clean_lines.lines_without_raw_strings linenum []))
      (report filename linenum (codes "whitespace/comma") 3 (codes "Missing space after ,"))
    ++ when (searches tight_semicolon line)
        (report filename linenum (codes "whitespace/semicolon") 3 (codes "Missing space after ;"))
