-- ===== src/Checks/Comments.antt =====
-- `IsBlankLine`, `GetPreviousNonBlankLine` and `CheckComment`.
use deft_rpc.Base.{
  ℕ, zero, suc, ◌-◌, ◌%◌, Bool, true, not, ◌&&◌, ◌||◌, Option, none, some, List, [], ◌++◌, ltb, leb,
  ◌==◌, if◌then◌else◌, is_some, length, get_or, take, drop, all,
}
use deft_rpc.Text.{Text, codes, eq, find, is_space, count}
use deft_rpc.Regex.{
  Regex, char, dot, group, lazy_star, line_end, line_start, lit, not_in, optional, plus, space,
  star, word, ◌│◌, ◌▹◌,
}
use deft_rpc.Regex.{Found, in_range, match, matches, group_text, group_of, replace_all}
use deft_rpc.Lint.{Report}
use deft_rpc.Lines.{CleansedLines}
use deft_rpc.Checks.{report, when}

-- IsBlankLine
unfoldable pub is_blank_line : Text → Bool
unfolding is_space
is_blank_line line = all is_space line

-- The loop of GetPreviousNonBlankLine, over the lines before number `linenum`, the nearest last.
unfoldable pub previous_from : List Text → ℕ → Option (Text × ℕ)
unfolding is_blank_line
previous_from elided zero = none
previous_from elided (suc n) =
    let further = previous_from elided n in
    let prevline = get_or elided n [] in
    if is_blank_line prevline then further else some (prevline, n)

-- GetPreviousNonBlankLine; `none` is the empty line with number -1.
unfoldable pub get_previous_non_blank_line : CleansedLines → ℕ → Option (Text × ℕ)
unfolding previous_from
get_previous_non_blank_line clean_lines linenum = previous_from clean_lines.elided linenum

-- _RE_PATTERN_TODO
-- ^//(\s*)TODO(\(.+?\))?:?(\s|$)?
abbrev todo : Regex
todo =
    line_start
    ▹ lit "//"
    ▹ group 1 (star space)
    ▹ lit "TODO"
    ▹ optional (group 2 (char b'(' ▹ (dot ▹ lazy_star dot) ▹ char b')'))
    ▹ optional (char b':')
    ▹ optional (group 3 (space │ line_end))

-- \\.
abbrev escape : Regex
escape = char b'\\' ▹ dot

-- ^.*{ *//
abbrev brace_comment : Regex
brace_comment = line_start ▹ star dot ▹ char b'{' ▹ star (char b' ') ▹ lit "//"

-- //[^ ]*\w
abbrev no_space_comment : Regex
no_space_comment = lit "//" ▹ star (not_in " ") ▹ word

-- (///|//\!)(\s+|$)
abbrev doxygen : Regex
doxygen = group 1 (lit "///" │ lit "//!") ▹ group 2 (plus space │ line_end)

-- string.whitespace
is_white : ℕ → Bool
is_white c = in_range 9 13 c || c == 32

-- line[i] not in string.whitespace
no_white : Text → ℕ → Bool
unfolding is_white
no_white line i = not (is_white (get_or line i 0))

module _ (filename : Text) (linenum : ℕ) where
  todo_reports : Found → List Report
  unfolding report eq
  todo_reports m =
      when (ltb 1 (length (group_text m 1)))
        (report filename linenum (codes "whitespace/todo") 2 (codes "Too many spaces before TODO"))
      ++ (when (not (is_some (group_of m 2))) (
            report filename linenum (codes "readability/todo") 2 (
              codes
                "Missing username in TODO; it should look like \"// TODO(my_username): Stuff.\""))
          ++ when
              (elim (group_of m 3) [
                | none ↦ true
                | some w ↦ not (eq w (codes " ")) && not (eq w [])
              ])
              (report filename linenum (codes "whitespace/todo") 2
                (codes "TODO(my_username) should be followed by a space")))

  -- The checks of a comment that begins at the position.
  comment_reports : Text → ℕ → ℕ → List Report
  unfolding report no_white todo_reports
  comment_reports line next_line_start commentpos =
      let comment = drop commentpos line in
      when
        (not (matches brace_comment line && next_line_start == commentpos)
          && ((leb 1 commentpos && no_white line (commentpos - 1))
              || (leb 2 commentpos && no_white line (commentpos - 2))))
        (report filename linenum (codes "whitespace/comments") 2
          (codes "At least two spaces is best between code and comments"))
      ++ ((elim (match todo comment) [ none ↦ [] | some m ↦ todo_reports m ])
          ++ when (matches no_space_comment comment && not (matches doxygen comment)) (
              report filename linenum (codes "whitespace/comments") 4
                (codes "Should have a space between // and comment")))

  -- CheckComment
  unfoldable pub check_comment : Text → ℕ → List Report
  unfolding comment_reports find count
  check_comment line next_line_start = elim (find (codes "//") line) [
    | none ↦ []
    | some commentpos ↦
        if count b'"' (replace_all escape [] (take commentpos line)) % 2 == 0
        then comment_reports line next_line_start commentpos
        else []
  ]
