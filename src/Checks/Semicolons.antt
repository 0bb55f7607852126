-- ===== src/Checks/Semicolons.antt =====
-- `CheckTrailingSemicolon`.
use deft_rpc.Base.{
  ℕ, zero, suc, ◌-◌, Bool, false, not, ◌&&◌, ◌||◌, Option, none, some, List, [], ◌∷◌, map, ltb,
  ◌==◌, if◌then◌else◌, length, get_or, take, drop, any,
}
use deft_rpc.Text.{Text, codes, eq, one_of}
use deft_rpc.Regex.{
  Regex, char, char_if, dot, group, in_range, in_set, line_end, line_start, lit, plus, space, star,
  word_edge, ◌│◌, ◌▹◌,
}
use deft_rpc.Regex.Notation.{one_of_chars}
use deft_rpc.Regex.{search, searches, match, matches, group_text}
use deft_rpc.Lint.{Lint}
use deft_rpc.Emit.{error}
use deft_rpc.Lines.{CleansedLines}
use deft_rpc.Brackets.{close_expression}
use deft_rpc.Brackets.Backward.{reverse_close_expression}
use deft_rpc.Guards.{parse_nolint, and_then}
use deft_rpc.Checks.{report}
use deft_rpc.Checks.Braces.{previous_line}

-- ^(.*\)\s*)\{
abbrev parenthesis_brace : Regex
parenthesis_brace = line_start ▹ group 1 (star dot ▹ char b')' ▹ star space) ▹ char b'{'

-- \b([A-Z_][A-Z0-9_]*)\s*$
abbrev macro_name : Regex
macro_name =
    word_edge
    ▹ group 1 (
        char_if (λ c. in_range b'A' b'Z' c || one_of_chars "_" c)
        ▹ star
            (char_if (λ c. in_range b'A' b'Z' c || (in_range b'0' b'9' c || one_of_chars "_" c))))
    ▹ star space
    ▹ line_end

-- ^(.*\])\s*$
abbrev bracket_end : Regex
bracket_end = line_start ▹ group 1 (star dot ▹ char b']') ▹ star space ▹ line_end

-- \boperator\s*\[\s*\]
abbrev operator_brackets : Regex
operator_brackets = word_edge ▹ lit "operator" ▹ star space ▹ char b'[' ▹ star space ▹ char b']'

-- \b(?:struct|union)\s+alignas\s*$
abbrev alignas_end : Regex
alignas_end =
    word_edge ▹ (lit "struct" │ lit "union") ▹ plus space ▹ lit "alignas" ▹ star space ▹ line_end

-- \bdecltype$
abbrev decltype_end : Regex
decltype_end = word_edge ▹ lit "decltype" ▹ line_end

-- \s+=\s*$
abbrev equals_end : Regex
equals_end = plus space ▹ char b'=' ▹ star space ▹ line_end

-- \]\s*$
abbrev lambda_end : Regex
lambda_end = char b']' ▹ star space ▹ line_end

-- ^(.*(?:else|\)\s*const)\s*)\{
abbrev else_brace : Regex
else_brace =
    line_start
    ▹ group 1 (star dot ▹ (lit "else" │ (char b')' ▹ star space ▹ lit "const")) ▹ star space)
    ▹ char b'{'

-- [;{}]\s*$
abbrev block_end : Regex
block_end = in_set ";{}" ▹ star space ▹ line_end

-- ^(\s*)\{
abbrev brace_line : Regex
brace_line = line_start ▹ group 1 (star space) ▹ char b'{'

-- ^\s*;
abbrev pub semicolon : Regex
semicolon = line_start ▹ star space ▹ char b';'

-- The macros that may stand in front of a block.
abbrev block_macros : List Text
block_macros = map codes (
    "TEST" ∷ "TEST_F" ∷ "MATCHER" ∷ "MATCHER_P" ∷ "TYPED_TEST" ∷ "EXCLUSIVE_LOCKS_REQUIRED"
    ∷ "SHARED_LOCKS_REQUIRED" ∷ "LOCKS_EXCLUDED" ∷ "INTERFACE_DEF" ∷ [])

-- s.rfind(c), for a character that occurs
unfoldable pub last_index : ℕ → Text → ℕ
last_index c [] = 0
last_index c (d ∷ s) =
    let further = last_index c s in if any (λ e. e == c) s then suc further else 0

-- What stands in front of the parenthesis allows a semicolon behind the block.
unfoldable pub allows_semicolon : Text → Bool
unfolding one_of
allows_semicolon line_prefix =
    (elim (search macro_name line_prefix) [
      | none ↦ false
      | some m ↦ not (one_of (group_text m 1) block_macros)
    ])
    || ((elim (match bracket_end line_prefix) [
      | none ↦ false
      | some m ↦ not (searches operator_brackets (group_text m 1))
    ])
        || (searches alignas_end line_prefix
            || (searches decltype_end line_prefix || searches equals_end line_prefix)))

-- The position of the brace of a block behind a parenthesis, where it is to be checked.
behind_parenthesis : CleansedLines → ℕ → Text → Option ℕ
unfolding last_index allows_semicolon
behind_parenthesis clean_lines linenum leading =
    let start = reverse_close_expression clean_lines linenum (last_index b')' leading) in
    let allowed = elim start.pos as (λ _. Bool) [
      | none ↦ false
      | some start_col ↦ allows_semicolon (take start_col start.line)
    ] in
    if allowed
      || (ltb 1 start.linenum
          && searches lambda_end (get_or clean_lines.elided (start.linenum - 1) []))
    then none
    else some (length leading)

-- The position of the brace of the block whose end is to be checked.
unfoldable pub block_start : CleansedLines → ℕ → Option ℕ
unfolding behind_parenthesis previous_line eq
block_start clean_lines linenum =
    let line = get_or clean_lines.elided linenum [] in
    let prevline = previous_line clean_lines linenum in
    elim (match parenthesis_brace line) [
      | some m ↦ behind_parenthesis clean_lines linenum (group_text m 1)
      | none ↦ elim (match else_brace line) [
        | some m ↦ some (length (group_text m 1))
        | none ↦
            if not (eq prevline []) && searches block_end prevline
            then elim (match brace_line line) [
              | none ↦ none
              | some m ↦ some (length (group_text m 1))
            ]
            else none
      ]
    ]

-- The NOLINT comments of the line before, and of the line. In front of line number 0 the source takes
-- the last line, under the line number -1, which has no counterpart here: this is `none`.
unfoldable pub nolint_lines : Text → List Text → ℕ → Lint → Option Lint
nolint_lines filename raw_lines zero s = none
nolint_lines filename raw_lines (suc before) s =
    and_then (parse_nolint filename raw_lines before s)
      (parse_nolint filename raw_lines (suc before))

-- The report about a semicolon behind the end of the block.
unfoldable pub at_block_end : Text → List Text → ℕ → Text → Option ℕ → Lint → Option Lint
unfolding nolint_lines report
at_block_end filename raw_lines linenum line none s = some s
at_block_end filename raw_lines linenum line (some endpos) s =
    if matches semicolon (drop endpos line)
    then and_then (nolint_lines filename raw_lines linenum s) (
        error (
          report filename linenum (codes "readability/braces") 4
            (codes "You don't need a ; after a }")))
    else some s

unfoldable pub end_of_block : Text → CleansedLines → ℕ → Option ℕ → Lint → Option Lint
unfolding at_block_end
end_of_block filename clean_lines linenum none s = some s
end_of_block filename clean_lines linenum (some pos) s =
    let close = close_expression clean_lines linenum pos in
    at_block_end filename clean_lines.raw_lines close.linenum close.line close.pos s

-- CheckTrailingSemicolon
unfoldable pub check_trailing_semicolon : Text → CleansedLines → ℕ → Lint → Option Lint
unfolding block_start end_of_block
check_trailing_semicolon filename clean_lines linenum s =
    end_of_block filename clean_lines linenum (block_start clean_lines linenum) s
