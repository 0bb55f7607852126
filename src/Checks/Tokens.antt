-- ===== src/Checks/Tokens.antt =====
-- `CheckAltTokens`.
use deft_rpc.Base.{
  ℕ, zero, suc, ◌+◌, Bool, ◌||◌, none, some, List, [], ◌∷◌, ◌++◌, map, if◌then◌else◌, is_some,
  length, get_or, drop,
}
use deft_rpc.Text.{Text, codes, eq, find}
use deft_rpc.Regex.{
  Regex, ahead, char, group, in_set, line_end, line_start, one_lit, space, star, ◌│◌, ◌▹◌,
}
use deft_rpc.Regex.{Found, one_lit, search, matches, group_text}
use deft_rpc.Lint.{Report}
use deft_rpc.Lines.{CleansedLines}
use deft_rpc.Checks.{report}

is_in : Text → Text → Bool
unfolding find
is_in a b = is_some (find a b)

-- _ALT_TOKEN_REPLACEMENT
abbrev alt_tokens : List (Text × Text)
alt_tokens =
    (codes "and", codes "&&")
    ∷ (codes "bitor", codes "|")
    ∷ (codes "or", codes "||")
    ∷ (codes "xor", codes "^")
    ∷ (codes "compl", codes "~")
    ∷ (codes "bitand", codes "&")
    ∷ (codes "and_eq", codes "&=")
    ∷ (codes "or_eq", codes "|=")
    ∷ (codes "xor_eq", codes "^=")
    ∷ (codes "not", codes "!")
    ∷ (codes "not_eq", codes "!=")
    ∷ []

unfoldable pub alt_token_replacement : Text → List (Text × Text) → Text
unfolding eq
alt_token_replacement token [] = []
alt_token_replacement token (entry ∷ entries) =
    if eq entry.0 token then entry.1 else alt_token_replacement token entries

-- [ =()](and|bitor|or|xor|compl|bitand|and_eq|or_eq|xor_eq|not|not_eq)(?=[ (]|$)
abbrev alt_token : Regex
alt_token =
    in_set " =()"
    ▹ group 1 (
        one_lit (
          "and" ∷ "bitor" ∷ "or" ∷ "xor" ∷ "compl" ∷ "bitand" ∷ "and_eq" ∷ "or_eq" ∷ "xor_eq"
          ∷ "not" ∷ "not_eq" ∷ []))
    ▹ ahead (in_set " (" │ line_end)

-- ^\s*#
abbrev preprocessor_line : Regex
preprocessor_line = line_start ▹ star space ▹ char b'#'

-- finditer of a pattern that matches no empty text and does not look behind
unfoldable pub find_all : ℕ → Regex → Text → List Found
find_all zero r s = []
find_all (suc fuel) r s =
    let further = find_all fuel r in
    elim (search r s) [ none ↦ [] | some m ↦ m ∷ further (drop m.end_pos s) ]

alt_report : Text → ℕ → Found → Report
unfolding report alt_token_replacement
alt_report filename linenum m = report filename linenum (codes "readability/alt_tokens") 2 (
    codes "Use operator "
    ++ (alt_token_replacement (group_text m 1) alt_tokens
        ++ (codes " instead of " ++ group_text m 1)))

-- CheckAltTokens
unfoldable pub check_alt_tokens : Text → CleansedLines → ℕ → List Report
unfolding find_all alt_report is_in
check_alt_tokens filename clean_lines linenum =
    let line = get_or clean_lines.elided linenum [] in
    if matches preprocessor_line line || (is_in (codes "/*") line || is_in (codes "*/") line)
    then []
    else map (alt_report filename linenum) (find_all (length line + 1) alt_token line)
