-- ===== src/Checks/Spacing.antt =====
-- `CheckSpacing` and `CheckSectionSpacing`.
use deft_rpc.Base.{
  ℕ, zero, suc, ◌+◌, ◌-◌, Bool, false, not, ◌&&◌, ◌||◌, Option, none, some, List, [], ◌∷◌, ◌++◌,
  ltb, leb, ◌==◌, if◌then◌else◌, is_some, length, get_or, take, drop, any,
}
use deft_rpc.Text.{Text, codes, find, starts_with, lstrip}
use deft_rpc.Regex.{
  Regex, char, dot, group, line_end, lit, not_in, one_lit, optional, plus, space, star, word,
  word_edge, ◌│◌, ◌▹◌,
}
use deft_rpc.Regex.Notation.{times}
use deft_rpc.Regex.{match, matches, searches, group_text}
use deft_rpc.Lint.{Report}
use deft_rpc.Lines.{CleansedLines}
use deft_rpc.Includes.{line_before}
use deft_rpc.Nesting.{NestingState, in_namespace_body, in_extern_c, Block, ClassInfo}
use deft_rpc.Checks.{report, when}
use deft_rpc.Checks.Comments.{is_blank_line, check_comment}

-- line[line.rfind(c):] without its first character
after_last : ℕ → Text → Option Text
after_last c [] = none
after_last c (d ∷ s) =
    let further = after_last c s in
    elim further [ some r ↦ some r | none ↦ if d == c then some s else none ]

-- A brace opens behind which none closes.
unfoldable pub leaves_open : Text → Bool
unfolding after_last
leaves_open line = elim (after_last b'{' line) [
  | none ↦ false
  | some r ↦ not (any (λ c. c == b'}') r)
]

--  {6}\w
abbrev six_spaces : Regex
six_spaces = times 6 (char b' ') ▹ word

--  {4}\w[^\(]*\)\s*(const\s*)?(\{\s*$|:)
abbrev signature_end : Regex
signature_end =
    times 4 (char b' ')
    ▹ word
    ▹ star (not_in "(")
    ▹ char b')'
    ▹ star space
    ▹ optional (group 1 (lit "const" ▹ star space))
    ▹ group 2 ((char b'{' ▹ star space ▹ line_end) │ char b':')

--  {4}:
abbrev initializer : Regex
initializer = times 4 (char b' ') ▹ char b':'

-- \s*(public|protected|private):
abbrev access_line : Regex
access_line = star space ▹ group 1 (one_lit ("public" ∷ "protected" ∷ "private" ∷ [])) ▹ char b':'

-- \s*}
abbrev closing_line : Regex
closing_line = star space ▹ char b'}'

-- The line above those of an initializer list; `n` lines are above.
above_list : List Text → ℕ → Option Text
above_list elided zero = none
above_list elided (suc n) =
    let further = above_list elided n in
    let line = get_or elided n [] in if matches six_spaces line then further else some line

-- The lines at whose end a blank line may follow the brace.
may_be_blank : List Text → ℕ → Text → Bool
unfolding above_list starts_with
may_be_blank elided linenum prev_line =
    if matches six_spaces prev_line
    then elim (above_list elided (linenum - 1)) [
      | none ↦ false
      | some line ↦ starts_with (codes "    :") line
    ]
    else matches signature_end prev_line || matches initializer prev_line

-- The next line begins with a closing brace, and not with one before an else.
closes_block : Text → Bool
unfolding find
closes_block next_line =
    matches closing_line next_line && not (is_some (find (codes "} else ") next_line))

blank_report : Text → ℕ → ℕ → Text → Report
unfolding report
blank_report filename linenum confidence message =
    report filename linenum (codes "whitespace/blank_line") confidence message

-- The checks of a blank line.
blank_reports : Text → CleansedLines → ℕ → List Report
unfolding may_be_blank closes_block blank_report leaves_open line_before
blank_reports filename clean_lines linenum =
    let prev_line = line_before clean_lines.elided linenum in
    when (leaves_open prev_line && not (may_be_blank clean_lines.elided linenum prev_line)) (
      blank_report filename linenum 2
        (codes "Redundant blank line at the start of a code block should be deleted."))
    ++ (when
          (ltb (linenum + 1) clean_lines.num_lines
            && closes_block (get_or clean_lines.lines_without_raw_strings (linenum + 1) []))
          (blank_report filename linenum 3
            (codes "Redundant blank line at the end of a code block should be deleted."))
        ++ (elim (match access_line prev_line) [
          | none ↦ []
          | some m ↦
              blank_report filename linenum 3
                (codes "Do not leave a blank line after \"" ++ (group_text m 1 ++ codes ":\""))
              ∷ []
        ]))

-- \w\s+\[
abbrev space_bracket : Regex
space_bracket = word ▹ plus space ▹ char b'['

-- (?:auto&?|delete|return)\s+\[
abbrev lambda_bracket : Regex
lambda_bracket =
    ((lit "auto" ▹ optional (char b'&')) │ lit "delete" │ lit "return") ▹ plus space ▹ char b'['

-- for *\(.*[^:]:[^: ]
abbrev colon_left : Regex
colon_left =
    lit "for" ▹ star (char b' ') ▹ char b'(' ▹ star dot ▹ not_in ":" ▹ char b':' ▹ not_in ": "

-- for *\(.*[^: ]:[^:]
abbrev colon_right : Regex
colon_right =
    lit "for" ▹ star (char b' ') ▹ char b'(' ▹ star dot ▹ not_in ": " ▹ char b':' ▹ not_in ":"

-- CheckSpacing
unfoldable pub check_spacing : Text → CleansedLines → ℕ → NestingState → List Report
unfolding blank_reports check_comment report is_blank_line in_namespace_body in_extern_c lstrip
check_spacing filename clean_lines linenum nesting_state =
    let raw = clean_lines.lines_without_raw_strings in
    let line = get_or raw linenum [] in
    let next_line = get_or raw (linenum + 1) [] in
    let next_line_start =
      if ltb (linenum + 1) clean_lines.num_lines
      then length next_line - length (lstrip next_line)
      else 0 in
    let elided = get_or clean_lines.elided linenum [] in
    (if is_blank_line line
        && (not (in_namespace_body nesting_state) && not (in_extern_c nesting_state))
      then blank_reports filename clean_lines linenum
      else [])
    ++ (check_comment filename linenum line next_line_start
        ++ (when (searches space_bracket elided && not (searches lambda_bracket elided))
              (report filename linenum (codes "whitespace/braces") 5 (codes "Extra space before ["))
            ++ when (searches colon_left elided || searches colon_right elided) (
                report filename linenum (codes "whitespace/forcolon") 2
                  (codes "Missing space around colon in range-based for loop"))))

-- \b(class|struct)\b
abbrev class_word : Regex
class_word = word_edge ▹ group 1 (lit "class" │ lit "struct") ▹ word_edge

-- \\$
abbrev ends_in_backslash : Regex
ends_in_backslash = char b'\\' ▹ line_end

-- \{\s*$
abbrev brace_at_end : Regex
brace_at_end = char b'{' ▹ star space ▹ line_end

-- The first of the lines whose end is an opening brace, or the number given.
end_of_head : ℕ → ℕ → List Text → ℕ
end_of_head otherwise i [] = otherwise
end_of_head otherwise i (line ∷ lines) =
    let further = end_of_head otherwise (i + 1) lines in
    if searches brace_at_end line then i else further

-- CheckSectionSpacing
unfoldable pub check_section_spacing : Text → CleansedLines → Block → ClassInfo → ℕ → List Report
unfolding is_blank_line end_of_head blank_report
check_section_spacing filename clean_lines block class_info linenum =
    let first = block.starting_linenum in
    let prev_line = get_or clean_lines.lines (linenum - 1) [] in
    let end_class_head =
      end_of_head first first (take (linenum - first) (drop first clean_lines.lines)) in
    if leb class_info.last_line (first + 24) || leb linenum first
    then []
    else elim (match access_line (get_or clean_lines.lines linenum [])) [
      | none ↦ []
      | some m ↦
          when
            (not (is_blank_line prev_line)
              && (not (searches class_word prev_line)
                  && (not (searches ends_in_backslash prev_line)
                      && ltb end_class_head (linenum - 1))))
            (blank_report filename linenum 3
              (b'"' ∷ (group_text m 1 ++ codes ":\" should be preceded by a blank line")))
    ]
