-- ===== src/Lines/Comments.antt =====
-- The comments of scripts/tools/cpplint.py: multi-line comments over the lines of a file, and
-- `CleanseComments` of one line.
pub mod Ranges
use deft_rpc.Base.{
  ℕ, zero, suc, ◌+◌, ◌-◌, ◌*◌, ◌/◌, ◌%◌, ◌^◌, ◌≤◌, ◌<◌, min, max, ◌≡◌, refl, sym, ap, ◌∙◌, ◌≢◌, ◌↔◌,
  ◌⊎◌, inl, inr, Bool, true, false, not, ◌&&◌, ◌||◌, Option, none, some, List, [], ◌∷◌, ◌++◌, map,
  reverse, append-nil, append_assoc, arith, ltb, leb, ◌==◌, if◌then◌else◌, ltb→lt, lt→ltb, leb→le,
  ==_iff, tests, Bool-cases, Option-cases, is_some, length, get_elem?, get_or, take, drop, all, any,
  keep_if, length-append, length-take, length-drop, take-append-drop, length-map, All, All-append,
}
use deft_rpc.Text.{
  Text, codes, find, starts_with, ends_with, strip, rstrip, replace, count, count_text,
}
use deft_rpc.Regex.{
  Regex, empty, char_if, ◌▹◌, ◌│◌, star, group, line_end, ahead, not_ahead, char, space, not_word,
  not_in, plus, replace_all,
}
use deft_rpc.Lint.{Report}

-- A line that begins a comment which goes beyond it. The search for the end is from index 2 on.
unfoldable pub opens : Text → Bool
opens line =
    starts_with (codes "/*") (strip line) && not (is_some (find (codes "*/") (drop 2 (strip line))))

unfoldable pub closes : Text → Bool
closes line = ends_with (codes "*/") (strip line)

-- The loop of FindNextMultiLineCommentStart and FindNextMultiLineCommentEnd: the first index from
-- `lineix` on at which the test holds, or the number of lines.
pub find_from : (Text → Bool) → List Text → ℕ → ℕ
find_from test [] lineix = 0
find_from test (line ∷ lines) (suc lineix) = suc (find_from test lines lineix)
find_from test (line ∷ lines) zero = if test line then 0 else suc (find_from test lines 0)

unfoldable pub find_next_start : List Text → ℕ → ℕ
find_next_start = find_from opens

unfoldable pub find_next_end : List Text → ℕ → ℕ
find_next_end = find_from closes

-- RemoveMultiLineCommentsFromRange
unfoldable pub remove_range : List Text → ℕ → ℕ → List Text
remove_range [] begin end = []
remove_range (line ∷ lines) zero zero = line ∷ lines
remove_range (line ∷ lines) zero (suc end) = codes "/**/" ∷ remove_range lines 0 end
remove_range (line ∷ lines) (suc begin) zero = line ∷ lines
remove_range (line ∷ lines) (suc begin) (suc end) = line ∷ remove_range lines begin end

no_end : Text → ℕ → Report
no_end filename lineix_begin = record {
  filename = filename;
  linenum = lineix_begin + 1;
  category = codes "readability/multiline_comment";
  confidence = 5;
  message = codes "Could not find end of multi-line comment";
}

-- The loop of RemoveMultiLineComments; `lineix` grows in every round.
pub remove_from : ℕ → Text → ℕ → List Text → List Text × List Report
remove_from zero filename lineix lines = (lines, [])
remove_from (suc fuel) filename lineix lines =
    let begin = find_next_start lines lineix in
    let end = find_next_end lines begin in
    let rest = remove_from fuel filename (end + 1) (remove_range lines begin (end + 1)) in
    if leb (length lines) lineix
    then (lines, [])
    else if leb (length lines) begin
    then (lines, [])
    else if leb (length lines) end
    then (lines, no_end filename begin ∷ [])
    else rest

-- RemoveMultiLineComments
unfoldable pub remove_multi_line_comments : Text → List Text → List Text × List Report
unfolding remove_from find_next_start find_next_end find_from opens closes remove_range no_end
remove_multi_line_comments filename lines = remove_from (length lines + 1) filename 0 lines

-- IsCppString. The parity of a difference is that of the sum.
unfoldable pub is_cpp_string : Text → Bool
unfolding replace count count_text
is_cpp_string line =
    let l = replace (codes "\\\\") (codes "XX") line in
    (count b'"' l + count_text (codes "\\\"") l + count_text (codes "'\"'") l) % 2 == 1

-- /\*(?:[^*]|\*(?!/))*\*/
abbrev c_comment : Regex
c_comment =
    char b'/'
    ▹ char b'*'
    ▹ star (not_in "*" │ char b'*' ▹ not_ahead (char b'/'))
    ▹ char b'*'
    ▹ char b'/'

-- _RE_PATTERN_CLEANSE_LINE_C_COMMENTS
abbrev c_comments : Regex
c_comments = group 1 (
    star space ▹ c_comment ▹ star space ▹ line_end
    │ c_comment ▹ plus space
    │ plus space ▹ c_comment ▹ ahead not_word
    │ c_comment)

-- The part of the line in front of a `//` that is not in a string.
cut_line_comment : Text → Text
cut_line_comment line = elim (find (codes "//") line) [
  | none ↦ line
  | some pos ↦ if is_cpp_string (take pos line) then line else rstrip (take pos line)
]

-- CleanseComments
unfoldable pub cleanse_comments : Text → Text
unfolding cut_line_comment is_cpp_string
cleanse_comments line = replace_all c_comments [] (cut_line_comment line)
