-- ===== src/Lines/Collapse.antt =====
-- `CleansedLines._CollapseStrings` of scripts/tools/cpplint.py.
pub mod Rounds
use deft_rpc.Base.{
  ℕ, zero, suc, ◌+◌, ◌-◌, ◌*◌, ◌/◌, ◌%◌, ◌^◌, ◌≤◌, ◌<◌, min, max, ◌≡◌, refl, sym, ap, ◌∙◌, ◌≢◌, ◌↔◌,
  ◌⊎◌, inl, inr, Bool, true, false, not, ◌&&◌, ◌||◌, Option, none, some, List, [], ◌∷◌, ◌++◌, map,
  reverse, append-nil, append_assoc, arith, ltb, leb, ◌==◌, if◌then◌else◌, ltb→lt, lt→ltb, leb→le,
  ==_iff, tests, Bool-cases, Option-cases, is_some, length, get_elem?, get_or, take, drop, all, any,
  keep_if, length-append, length-take, length-drop, take-append-drop, length-map, All, All-append,
}
use deft_rpc.Text.{Text, codes, eq, find, replace}
use deft_rpc.Regex.{
  Regex, lit, empty, char_if, ◌▹◌, ◌│◌, star, group, line_start, line_end, word_edge, char, in_set,
  not_in, in_range, digit, dot, space, plus, optional, Found, match, matches, searches, group_text,
  replace_all,
}

-- _RE_PATTERN_INCLUDE: ^\s*#\s*include\s*([<"])([^>"]*)[>"].*$
abbrev pub include_pattern : Regex
include_pattern =
    line_start
    ▹ star space
    ▹ char b'#'
    ▹ star space
    ▹ lit "include"
    ▹ star space
    ▹ group 1 (in_set "<\"")
    ▹ group 2 (star (not_in ">\""))
    ▹ in_set ">\""
    ▹ star dot
    ▹ line_end

abbrev hex_digit : ℕ → Bool
hex_digit c = in_range b'0' b'9' c || in_range b'a' b'f' c || in_range b'A' b'F' c

-- _RE_PATTERN_CLEANSE_LINE_ESCAPES: \\([abfnrtv?"\\\']|\d+|x[0-9a-fA-F]+)
abbrev escapes : Regex
escapes =
    char b'\\'
    ▹ group 1 (in_set "abfnrtv?\"\\'" │ plus digit │ char b'x' ▹ plus (char_if hex_digit))

-- ^([^'"]*)(['"])(.*)$
abbrev first_quote : Regex
first_quote =
    (line_start ▹ group 1 (star (not_in "'\"")) ▹ group 2 (in_set "'\""))
    ▹ (group 3 (star dot) ▹ line_end)

-- \b(?:0[bBxX]?|[1-9])[0-9a-fA-F]*$
abbrev number_head : Regex
number_head =
    word_edge
    ▹ (char b'0' ▹ optional (in_set "bBxX") │ char_if (in_range b'1' b'9'))
    ▹ star (char_if hex_digit)
    ▹ line_end

-- ^((?:\'?[0-9a-zA-Z_])*)(.*)$
abbrev literal : Regex
literal =
    (line_start
      ▹ group 1 (
          star (
            optional (char b'\'')
            ▹ char_if (λ c.
              in_range b'0' b'9' c || in_range b'a' b'z' c || in_range b'A' b'Z' c || c == b'_'))))
    ▹ (group 2 (star dot) ▹ line_end)

-- the rest behind the partner of a quote, if there is one
behind : Text → Text → Text → Option (Text × Text)
behind quote piece tail = elim (find quote tail) [
  | none ↦ none
  | some second ↦ some (piece, drop (second + 1) tail)
]

-- The digits of a number with separators, and the rest. Every text without a newline matches.
digits_of : Text → Option Found → Option (Text × Text)
digits_of head none = none
digits_of head (some m) = some (head ++ replace (codes "'") [] (group_text m 1), group_text m 2)

-- One round at the match of `first_quote` on the line: what is appended to `collapsed`, and the line
-- that is left; `none` if the quote has no partner.
unfoldable pub round : Found → Option (Text × Text)
unfolding behind digits_of
round m =
    let head = group_text m 1 in
    let tail = group_text m 3 in
    if eq (group_text m 2) (codes "\"")
    then behind (codes "\"") (head ++ codes "\"\"") tail
    else if searches number_head head
    then digits_of head (match literal (b'\'' ∷ tail))
    else behind (codes "'") (head ++ codes "''") tail

-- The loop; each round shortens the line that is left.
unfoldable pub collapse : ℕ → Text → Text → Text
collapse zero collapsed elided = collapsed ++ elided
collapse (suc fuel) collapsed elided = elim (match first_quote elided) [
  | none ↦ collapsed ++ elided
  | some m ↦ elim (round m) [
    | none ↦ collapsed ++ elided
    | some (piece, rest) ↦ collapse fuel (collapsed ++ piece) rest
  ]
]

-- _CollapseStrings
unfoldable pub collapse_strings : Text → Text
unfolding collapse round
collapse_strings line =
    let plain = replace_all escapes [] line in
    if matches include_pattern line then line else collapse (length plain + 1) [] plain
