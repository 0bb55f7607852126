-- ===== src/Nesting/Template.antt =====
-- `NestingState.InTemplateArgumentList` of scripts/tools/cpplint.py.
use deft_rpc.Base.{
  ℕ, zero, suc, ◌+◌, ◌-◌, Bool, true, false, none, some, List, [], ◌∷◌, ltb, leb, ◌==◌,
  if◌then◌else◌, length, get_or, drop, any,
}
use deft_rpc.Text.{Text}
use deft_rpc.Regex.{Regex, ◌▹◌, star, group, dot, not_in, line_start, match, group_text}
use deft_rpc.Lines.{CleansedLines}
use deft_rpc.Brackets.{Place, close_expression}

-- ^[^{};=\[\]\.<>]*(.)
abbrev first_token : Regex
first_token = line_start ▹ star (not_in "{};=[].<>") ▹ group 1 dot

-- What a round of the loop does: it returns, or goes on at a line and a position.
pub data Round : Type 0 where
  return : Bool → Round
  resume : ℕ → ℕ → Round

abbrev is_one_of : List ℕ → ℕ → Bool
is_one_of cs c = any (λ d. d == c) cs

-- The position behind the partner of a `<`, if there is one.
beyond : Place → Round
beyond p = elim p.pos [ none ↦ return false | some end_pos ↦ resume p.linenum end_pos ]

-- The round at a token, with the position behind it.
at_token : CleansedLines → ℕ → Text → ℕ → ℕ → Round
unfolding beyond
at_token clean_lines linenum line pos token =
    if is_one_of (b'{' ∷ b'}' ∷ b';' ∷ []) token
    then return false
    else if is_one_of (b'>' ∷ b'=' ∷ b'[' ∷ b']' ∷ b'.' ∷ []) token
    then return true
    else if token == b'<'
    then beyond (close_expression clean_lines linenum (pos - 1))
    else if leb (length line) (pos + 1)
    then resume (linenum + 1) 0
    else resume linenum (pos + 1)

head_or : Text → ℕ
head_or [] = 0
head_or (c ∷ s) = c

round : CleansedLines → ℕ → ℕ → Round
unfolding at_token head_or
round clean_lines linenum pos =
    let line = get_or clean_lines.elided linenum [] in
    elim (match first_token (drop pos line)) [
      | none ↦ resume (linenum + 1) 0
      | some m ↦ at_token clean_lines linenum line (pos + m.end_pos) (head_or (group_text m 1))
    ]

from : ℕ → CleansedLines → ℕ → ℕ → Bool
unfolding round
from zero clean_lines linenum pos = false
from (suc fuel) clean_lines linenum pos = elim (ltb linenum clean_lines.num_lines) [
  | false ↦ false
  | true ↦ elim (round clean_lines linenum pos) [
    | return b ↦ b
    | resume linenum' pos' ↦ from fuel clean_lines linenum' pos'
  ]
]

-- as many rounds as there are lines and characters
characters : List Text → ℕ
characters [] = 0
characters (line ∷ lines) = length line + 1 + characters lines

-- Every round goes on to a later position of the line, or to a later line.
unfoldable pub in_template_argument_list : CleansedLines → ℕ → ℕ → Bool
unfolding from characters
in_template_argument_list clean_lines linenum pos =
    from (characters clean_lines.elided + 1) clean_lines linenum pos
