-- ===== src/Checks/Macros.antt =====
-- `FindCheckMacro` and `CheckCheck`.
use deft_rpc.Base.{
  ℕ, zero, suc, ◌+◌, ◌-◌, Bool, not, ◌&&◌, ◌||◌, Option, none, some, List, [], ◌∷◌, ◌++◌, map, ◌==◌,
  if◌then◌else◌, is_some, length, get_or, take, drop,
}
use deft_rpc.Text.{Text, codes, eq, find, one_of, strip}
use deft_rpc.Regex.{
  Regex, char, char_if, chars, digit, dot, group, in_range, in_set, line_end, line_start, not_in,
  not_space, one_lit, optional, plus, space, star, word_edge, ◌│◌, ◌▹◌,
}
use deft_rpc.Regex.Notation.{up_to}
use deft_rpc.Regex.{one_lit, match, matches, group_text}
use deft_rpc.Lint.{Report}
use deft_rpc.Lines.{CleansedLines}
use deft_rpc.Brackets.{close_expression, find_end, Scan, at}
use deft_rpc.Checks.{report, when}

-- _CHECK_MACROS
abbrev check_macros : List Text
check_macros =
    map codes
      ("DCHECK" ∷ "CHECK" ∷ "EXPECT_TRUE" ∷ "ASSERT_TRUE" ∷ "EXPECT_FALSE" ∷ "ASSERT_FALSE" ∷ [])

-- The two-letter names of the operators, and those of their negations.
abbrev comparisons : List (Text × (Text × Text))
comparisons =
    (codes "==", (codes "EQ", codes "NE"))
    ∷ (codes "!=", (codes "NE", codes "EQ"))
    ∷ (codes ">=", (codes "GE", codes "LT"))
    ∷ (codes ">", (codes "GT", codes "LE"))
    ∷ (codes "<=", (codes "LE", codes "GT"))
    ∷ (codes "<", (codes "LT", codes "GE"))
    ∷ []

name_in : Text → List (Text × (Text × Text)) → Text × Text
unfolding eq
name_in operator [] = ([], [])
name_in operator (entry ∷ entries) =
    if eq entry.0 operator then entry.1 else name_in operator entries

-- _CHECK_REPLACEMENT[macro][operator]
unfoldable pub check_replacement : Text → Text → Text
unfolding name_in eq
check_replacement macro operator =
    let (name, negated) = name_in operator comparisons in
    if eq macro (codes "DCHECK") || eq macro (codes "CHECK")
    then macro ++ (b'_' ∷ name)
    else if eq macro (codes "EXPECT_TRUE")
    then codes "EXPECT_" ++ name
    else if eq macro (codes "ASSERT_TRUE")
    then codes "ASSERT_" ++ name
    else if eq macro (codes "EXPECT_FALSE")
    then codes "EXPECT_" ++ negated
    else codes "ASSERT_" ++ negated

-- ^(.*\bNAME\s*)\(
abbrev macro_call : Text → Regex
macro_call macro =
    line_start ▹ group 1 (star dot ▹ word_edge ▹ chars macro ▹ star space) ▹ char b'('

find_macro_in : List Text → Text → Option (Text × ℕ)
unfolding find
find_macro_in [] line = none
find_macro_in (macro ∷ macros) line =
    let further = find_macro_in macros line in
    elim (find macro line) [
      | none ↦ further
      | some i ↦ elim (match (macro_call macro) line) [
        | none ↦ further
        | some m ↦ some (macro, length (group_text m 1))
      ]
    ]

-- FindCheckMacro
unfoldable pub find_check_macro : Text → Option (Text × ℕ)
unfolding find_macro_in
find_check_macro line = find_macro_in check_macros line

-- ^\s*(<<|<<=|>>|>>=|->\*|->|&&|\|\||==|!=|>=|>|<=|<|\()(.*)$
abbrev next_token : Regex
next_token =
    line_start
    ▹ star space
    ▹ group 1 (
        one_lit (
          "<<" ∷ "<<=" ∷ ">>" ∷ ">>=" ∷ "->*" ∷ "->" ∷ "&&" ∷ "||" ∷ "==" ∷ "!=" ∷ ">=" ∷ ">" ∷ "<="
          ∷ "<" ∷ "(" ∷ []))
    ▹ group 2 (star dot)
    ▹ line_end

-- ^([^-=!<>()&|]+)(.*)$
abbrev operand : Regex
operand = line_start ▹ group 1 (plus (not_in "-=!<>()&|")) ▹ group 2 (star dot) ▹ line_end

-- ^(\s*\S)(.*)$
abbrev character : Regex
character = line_start ▹ group 1 (star space ▹ not_space) ▹ group 2 (star dot) ▹ line_end

-- ^([-+]?(\d+|0[xX][0-9a-fA-F]+)[lLuU]{0,3}|".*"|\'.*\')$
abbrev constant : Regex
constant =
    line_start
    ▹ group 1 (
        (optional (in_set "-+")
          ▹ group 2 (
              plus digit
              │ (char b'0'
                  ▹ in_set "xX"
                  ▹ plus (
                      char_if (λ c.
                        in_range b'0' b'9' c || (in_range b'a' b'f' c || in_range b'A' b'F' c)))))
          ▹ up_to 3 (in_set "lLuU"))
        │ (char b'"' ▹ star dot ▹ char b'"')
        │ (char b'\'' ▹ star dot ▹ char b'\''))
    ▹ line_end

-- What the loop over the expression ends with: the sides of a comparison, nothing to say, or an
-- expression without an operator.
pub record Sides : Type 0 where
  pub lhs : Text
  pub operator : Text
  pub rhs : Text

abbrev shifting : List Text
shifting = map codes ("<<" ∷ "<<=" ∷ ">>" ∷ ">>=" ∷ "->*" ∷ "->" ∷ [])

end_of : Scan → Option ℕ
end_of (at end) = some end
end_of _ = none

-- The loop; every round shortens the expression. `none` is a return.
unfoldable pub split_sides : ℕ → Text → Text → Option Sides
unfolding end_of one_of eq find_end
split_sides zero lhs expression = none
split_sides (suc fuel) lhs [] = none
split_sides (suc fuel) lhs (c ∷ rest) =
    let expression = c ∷ rest in
    let go = split_sides fuel in
    elim (match next_token expression) [
      | some m ↦
          let token = group_text m 1 in
          let behind = group_text m 2 in
          if eq token (codes "(")
          then elim (end_of (find_end behind 0 (b'(' ∷ []))) [
            | none ↦ none
            | some end ↦ go (lhs ++ (b'(' ∷ take end behind)) (drop end behind)
          ]
          else if eq token (codes "&&") || eq token (codes "||")
          then none
          else if one_of token shifting
          then go (lhs ++ token) behind
          else some (record { lhs = lhs; operator = token; rhs = behind })
      | none ↦ elim (match operand expression) [
        | some m ↦ go (lhs ++ group_text m 1) (group_text m 2)
        | none ↦ elim (match character expression) [
          | some m ↦ go (lhs ++ group_text m 1) (group_text m 2)
          | none ↦ none
        ]
      ]
    ]

is_in : Text → Text → Bool
unfolding find
is_in a b = is_some (find a b)

-- The report about a comparison inside of a macro.
unfoldable pub sides_report : Text → ℕ → Text → Sides → List Report
unfolding report is_in strip check_replacement eq
sides_report filename linenum macro sides =
    when
      (not (eq sides.lhs [])
        && (not (eq sides.rhs [])
            && (not (is_in (codes "&&") sides.rhs || is_in (codes "||") sides.rhs)
                && (matches constant (strip sides.lhs) || matches constant (strip sides.rhs)))))
      (report filename linenum (codes "readability/check") 2 (
        codes "Consider using "
        ++ (check_replacement macro sides.operator
            ++ (codes " instead of "
                ++ (macro ++ (codes "(a " ++ (sides.operator ++ codes " b)")))))))

-- \s*;
abbrev statement_end : Regex
statement_end = star space ▹ char b';'

concat : List Text → Text
concat [] = []
concat (line ∷ lines) = line ++ concat lines

-- The text between the parentheses of the macro.
expression_in : List Text → ℕ → ℕ → Text → ℕ → ℕ → Text
unfolding concat
expression_in lines linenum start_pos last_line end_line end_pos =
    let line = get_or lines linenum [] in
    if linenum == end_line
    then drop (start_pos + 1) (take (end_pos - 1) line)
    else drop (start_pos + 1) line
      ++ (concat (take (end_line - (linenum + 1)) (drop (linenum + 1) lines))
          ++ take (end_pos - 1) last_line)

-- CheckCheck
unfoldable pub check_check : Text → CleansedLines → ℕ → List Report
unfolding find_check_macro expression_in split_sides sides_report
check_check filename clean_lines linenum =
    let lines = clean_lines.elided in
    elim (find_check_macro (get_or lines linenum [])) [
      | none ↦ []
      | some (macro, start_pos) ↦
          let close = close_expression clean_lines linenum start_pos in
          elim close.pos [
            | none ↦ []
            | some end_pos ↦
                let expression =
                  expression_in lines linenum start_pos close.line close.linenum end_pos in
                if matches statement_end (drop end_pos close.line)
                then elim (split_sides (length expression + 1) [] expression) [
                  | none ↦ []
                  | some sides ↦ sides_report filename linenum macro sides
                ]
                else []
          ]
    ]
