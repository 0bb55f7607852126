-- ===== src/Lines/RawStrings.antt =====
-- `CleanseRawStrings` of scripts/tools/cpplint.py.
pub mod Shrinks
use deft_rpc.Base.{
  ℕ, zero, suc, ◌+◌, ◌-◌, ◌*◌, ◌/◌, ◌%◌, ◌^◌, ◌≤◌, ◌<◌, min, max, ◌≡◌, refl, sym, ap, ◌∙◌, ◌≢◌, ◌↔◌,
  ◌⊎◌, inl, inr, Bool, true, false, not, ◌&&◌, ◌||◌, Option, none, some, List, [], ◌∷◌, ◌++◌, map,
  reverse, append-nil, append_assoc, arith, ltb, leb, ◌==◌, if◌then◌else◌, ltb→lt, lt→ltb, leb→le,
  ==_iff, tests, Bool-cases, Option-cases, is_some, length, get_elem?, get_or, take, drop, all, any,
  keep_if, length-append, length-take, length-drop, take-append-drop, length-map, All, All-append,
}
use deft_rpc.Text.{Text, codes, find}
use deft_rpc.Regex.{
  Regex, empty, char_if, ◌▹◌, ◌│◌, star, lazy_star, group, line_start, line_end, word_edge, dot,
  char, space, not_space, one_lit, not_in, Found, match, matches, group_text,
}
use deft_rpc.Text.{is_space}

-- ^(.*?)\b(?:R|u8R|uR|UR|LR)"([^\s\\()]*)\((.*)$
-- The second part is what stands between the first group and the third.
abbrev pub raw_middle : Regex
raw_middle =
    word_edge
    ▹ one_lit ("R" ∷ "u8R" ∷ "uR" ∷ "UR" ∷ "LR" ∷ [])
    ▹ char b'"'
    ▹ group 2 (star (char_if (λ c. not (is_space c || c == b'\\' || c == b'(' || c == b')'))))
    ▹ char b'('

abbrev pub raw_start : Regex
raw_start = (line_start ▹ group 1 (lazy_star dot) ▹ raw_middle) ▹ (group 3 (star dot) ▹ line_end)

-- ^([^'"]|'(\\.|[^'])*'|"(\\.|[^"])*")*//
abbrev in_comment : Regex
in_comment =
    line_start
    ▹ star (
        group 1 (
          not_in "'\""
          │ char b'\'' ▹ star (group 2 (char b'\\' ▹ dot │ not_in "'")) ▹ char b'\''
          │ char b'"' ▹ star (group 3 (char b'\\' ▹ dot │ not_in "\"")) ▹ char b'"'))
    ▹ char b'/'
    ▹ char b'/'

-- ^(\s*)\S
abbrev leading : Regex
leading = line_start ▹ group 1 (star space) ▹ not_space

abbrev quotes : Text
quotes = codes "\"\""

-- ')' + matched.group(2) + '"'
closing : Found → Text
closing m = b')' ∷ (group_text m 2 ++ b'"' ∷ [])

-- a match of `raw_start` that does not stand in a comment
unfoldable pub begins : Text → Option Found
begins line = elim (match raw_start line) [
  | none ↦ none
  | some m ↦ if not (matches in_comment (group_text m 1)) then some m else none
]

-- The line with the raw string that `m` begins replaced, if it ends on the line.
closed_here : Found → Option Text
closed_here m = elim (find (closing m) (group_text m 3)) [
  | none ↦ none
  | some end ↦ some (group_text m 1 ++ (quotes ++ drop (end + length (closing m)) (group_text m 3)))
]

-- The `while delimiter is None` loop: the line, and the delimiter of a raw string that is still open.
pub strip_raw : ℕ → Text → Text × Option Text
strip_raw zero line = (line, none)
strip_raw (suc fuel) line = elim (begins line) [
  | none ↦ (line, none)
  | some m ↦ elim (closed_here m) [
    | some next ↦ strip_raw fuel next
    | none ↦ (group_text m 1 ++ quotes, some (closing m))
  ]
]

-- each round shortens the line
unfoldable pub strip_raws : Text → Text × Option Text
unfolding strip_raw begins closed_here closing
strip_raws line = strip_raw (length line + 1) line

leading_space : Text → Text
leading_space line = elim (match leading line) [ none ↦ [] | some m ↦ group_text m 1 ]

-- One line: inside a raw string the end is looked for first.
unfoldable pub cleanse_line : Option Text → Text → Text × Option Text
unfolding strip_raws leading_space
cleanse_line none line = strip_raws line
cleanse_line (some delimiter) line = elim (find delimiter line) [
  | some end ↦ strip_raws (leading_space line ++ (quotes ++ drop (end + length delimiter) line))
  | none ↦ (quotes, some delimiter)
]

cleanse_from : Option Text → List Text → List Text
unfolding cleanse_line
cleanse_from delimiter [] = []
cleanse_from delimiter (line ∷ lines) =
    let (line', delimiter') = cleanse_line delimiter line in line' ∷ cleanse_from delimiter' lines

-- CleanseRawStrings
unfoldable pub cleanse_raw_strings : List Text → List Text
unfolding cleanse_from
cleanse_raw_strings = cleanse_from none
