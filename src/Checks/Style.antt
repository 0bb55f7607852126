-- ===== src/Checks/Style.antt =====
-- `GetLineWidth` and `CheckStyle`, which calls the checks of spacing and braces.
use deft_rpc.Base.{
  ℕ, zero, suc, ◌+◌, ◌-◌, Bool, not, ◌&&◌, ◌||◌, Option, none, some, List, [], ◌∷◌, ◌++◌, ltb, ◌==◌,
  if◌then◌else◌, is_some, length, get_or, drop, any,
}
use deft_rpc.Text.{Text, codes, eq, find, count, starts_with, is_space}
use deft_rpc.Regex.{
  Regex, char, char_if, dot, group, in_range, in_set, line_end, line_start, lit, not_in, not_space,
  one_lit, optional, plus, space, star, word, ◌▹◌,
}
use deft_rpc.Text.{is_space}
use deft_rpc.Regex.{searches, matches}
use deft_rpc.Lint.{Lint, Report}
use deft_rpc.Text.Number.{decimal}
use deft_rpc.Emit.{error_all}
use deft_rpc.Lines.{CleansedLines}
use deft_rpc.Settings.{Settings, is_header_extension}
use deft_rpc.Paths.{Disk}
use deft_rpc.Nesting.{
  NestingState, Block, class_block, namespace, plain_block, extern_c, innermost_class,
}
use deft_rpc.Guards.{get_header_guard_cpp_variable, and_then}
use deft_rpc.Checks.{report, when}
use deft_rpc.Checks.Braces.{previous_line, check_braces}
use deft_rpc.Checks.Bodies.{check_empty_block_body}
use deft_rpc.Checks.Semicolons.{check_trailing_semicolon}
use deft_rpc.Checks.Spacing.{check_spacing, check_section_spacing}
use deft_rpc.Checks.Operators.{check_operator_spacing}
use deft_rpc.Checks.Calls.{
  check_parenthesis_spacing, check_comma_spacing, check_spacing_for_function_call,
}
use deft_rpc.Checks.Types.{check_braces_spacing}
use deft_rpc.Checks.Macros.{check_check}
use deft_rpc.Checks.Tokens.{check_alt_tokens}

-- What `unicodedata` gives: the normal form C of a text, whether a character is wide or full width
-- in East Asian text, and whether it combines with the one before it.
pub record Unicode : Type 0 where
  pub normalize : Text → Text
  pub is_wide : ℕ → Bool
  pub is_combining : ℕ → Bool

unfoldable pub width_of : Unicode → Text → ℕ
width_of unicode [] = 0
width_of unicode (c ∷ s) =
    (if unicode.is_wide c then 2 else if unicode.is_combining c then 0 else 1) + width_of unicode s

-- GetLineWidth of a text
unfoldable pub get_line_width : Unicode → Text → ℕ
unfolding width_of
get_line_width unicode line = width_of unicode (unicode.normalize line)

is_in : Text → Text → Bool
unfolding find
is_in a b = is_some (find a b)

-- \s*\w+\s*:\s*\\?$
abbrev scope_or_label : Regex
scope_or_label =
    star space ▹ plus word ▹ star space ▹ char b':' ▹ star space ▹ optional (char b'\\') ▹ line_end

-- [",=><] *$
abbrev continues : Regex
continues = in_set "\",=><" ▹ star (char b' ') ▹ line_end

-- ^\s*""
abbrev raw_string_left : Regex
raw_string_left = line_start ▹ star space ▹ lit "\"\""

-- ^\s*//.*http(s?)://\S*$
abbrev url : Regex
url =
    line_start
    ▹ star space
    ▹ lit "//"
    ▹ star dot
    ▹ lit "http"
    ▹ group 1 (optional (char b's'))
    ▹ lit "://"
    ▹ star not_space
    ▹ line_end

-- ^\s*//\s*[^\s]*$
abbrev long_comment : Regex
long_comment =
    line_start
    ▹ star space
    ▹ lit "//"
    ▹ star space
    ▹ star (char_if (λ c. not (is_space c)))
    ▹ line_end

-- ^// \$Id:.*#[0-9]+ \$$
abbrev id_comment : Regex
id_comment =
    line_start
    ▹ lit "// $Id:"
    ▹ star dot
    ▹ char b'#'
    ▹ plus (char_if (λ c. in_range b'0' b'9' c))
    ▹ lit " $"
    ▹ line_end

-- ^\s*/// [@\\](copydoc|copydetails|copybrief) .*$
abbrev copied_documentation : Regex
copied_documentation =
    line_start
    ▹ star space
    ▹ lit "/// "
    ▹ in_set "@\\"
    ▹ group 1 (one_lit ("copydoc" ∷ "copydetails" ∷ "copybrief" ∷ []))
    ▹ char b' '
    ▹ star dot
    ▹ line_end

-- ^[^{};]*\[[^\[\]]*\][^{}]*\{[^{}\n\r]*\}
abbrev lambda_body : Regex
lambda_body =
    line_start
    ▹ star (not_in "{};")
    ▹ char b'['
    ▹ star (not_in "[]")
    ▹ char b']'
    ▹ star (not_in "{}")
    ▹ char b'{'
    ▹ star (char_if (λ c. not (c == b'{' || (c == b'}' || (c == 10 || c == 13)))))
    ▹ char b'}'

initial_spaces : Text → ℕ
initial_spaces [] = 0
initial_spaces (c ∷ s) = let further = initial_spaces s in if c == b' ' then suc further else 0

ends_in_space : Text → Bool
unfolding is_space
ends_in_space line = any is_space (drop (length line - 1) line)

-- raw_lines[linenum - 1] if linenum > 0 else ''
line_above : List Text → ℕ → Text
line_above lines zero = []
line_above lines (suc before) = get_or lines before []

module _ (settings : Settings) (disk : Disk) (unicode : Unicode) (filename : Text)
    (linenum : ℕ) where
  tab_report : Text → List Report
  unfolding report
  tab_report line =
      when (any (λ c. c == b'\t') line) (
        report filename linenum (codes "whitespace/tab") 1
          (codes "Tab found; better to use spaces"))

  indent_report : CleansedLines → Text → Text → List Report
  unfolding report initial_spaces line_above eq
  indent_report clean_lines line cleansed_line =
      let spaces = initial_spaces line in
      when
        (not (searches continues (line_above clean_lines.lines_without_raw_strings linenum))
          && ((spaces == 1 || spaces == 3)
              && (not (matches scope_or_label cleansed_line)
                  && not (
                      not (eq (get_or clean_lines.raw_lines linenum []) line)
                      && matches raw_string_left line))))
        (report filename linenum (codes "whitespace/indent") 3
          (codes "Weird number of spaces at line-start.  Are you using a 2-space indent?"))

  end_of_line_report : Text → List Report
  unfolding report ends_in_space
  end_of_line_report line = when (ends_in_space line) (
      report filename linenum (codes "whitespace/end_of_line") 4
        (codes "Line ends in whitespace.  Consider deleting these extra spaces."))

  is_header_guard : Text → Text → Bool
  unfolding starts_with is_header_extension
  is_header_guard file_extension line =
      let cppvar = get_header_guard_cpp_variable settings disk filename in
      is_header_extension settings file_extension
      && (starts_with (codes "#ifndef " ++ cppvar) line
          || (starts_with (codes "#define " ++ cppvar) line
              || starts_with (codes "#endif  // " ++ cppvar) line))

  -- A line that may be longer than the limit.
  may_be_long : Text → Text → Bool
  unfolding is_header_guard starts_with
  may_be_long file_extension line =
      starts_with (codes "#include") line
      || (is_header_guard file_extension line
          || (matches url line
              || (matches long_comment line
                  || (matches id_comment line || matches copied_documentation line))))

  length_report : Text → Text → List Report
  unfolding report may_be_long get_line_width decimal
  length_report file_extension line =
      when
        (not (may_be_long file_extension line)
          && ltb settings.line_length (get_line_width unicode line))
        (report filename linenum (codes "whitespace/line_length") 2 (
          codes "Lines should be <= "
          ++ (decimal settings.line_length ++ codes " characters long")))

  commands_report : CleansedLines → Text → Text → List Report
  unfolding report is_in count previous_line
  commands_report clean_lines line cleansed_line =
      let prevline = previous_line clean_lines linenum in
      when
        (ltb 1 (count b';' cleansed_line)
          && (not (matches lambda_body line)
              && (not (is_in (codes "for") cleansed_line)
                  && ((not (is_in (codes "for") prevline) || is_in (codes ";") prevline)
                      && not (
                          (is_in (codes "case ") cleansed_line
                            || is_in (codes "default:") cleansed_line)
                          && is_in (codes "break;") cleansed_line)))))
        (report filename linenum (codes "whitespace/newline") 0
          (codes "More than one command on the same line"))

  -- The reports of CheckStyle itself and of CheckBraces, before those of CheckTrailingSemicolon.
  unfoldable pub style_reports : CleansedLines → Text → List Report
  unfolding tab_report indent_report end_of_line_report length_report commands_report check_braces
      get_line_width
  style_reports clean_lines file_extension =
      let line = get_or clean_lines.lines_without_raw_strings linenum [] in
      let cleansed_line = get_or clean_lines.elided linenum [] in
      tab_report line
      ++ (indent_report clean_lines line cleansed_line
          ++ (end_of_line_report line
              ++ (length_report file_extension line
                  ++ (commands_report clean_lines line cleansed_line
                      ++ check_braces (get_line_width unicode) settings.line_length filename linenum
                          clean_lines))))

  section_reports : CleansedLines → Option Block → List Report
  unfolding check_section_spacing
  section_reports clean_lines none = []
  section_reports clean_lines (some block) = elim block.kind [
    | class_block class_info ↦ check_section_spacing filename clean_lines block class_info linenum
    | plain_block ↦ []
    | extern_c ↦ []
    | namespace name ↦ []
  ]

  -- The reports of the checks that CheckStyle calls after CheckTrailingSemicolon.
  unfoldable pub spacing_reports : CleansedLines → NestingState → List Report
  unfolding check_empty_block_body check_spacing check_operator_spacing check_parenthesis_spacing
      check_comma_spacing check_braces_spacing check_spacing_for_function_call check_check
      check_alt_tokens section_reports
  spacing_reports clean_lines nesting_state =
      check_empty_block_body filename clean_lines linenum
      ++ (check_spacing filename clean_lines linenum nesting_state
          ++ (check_operator_spacing filename clean_lines linenum
              ++ (check_parenthesis_spacing filename clean_lines linenum
                  ++ (check_comma_spacing filename clean_lines linenum
                      ++ (check_braces_spacing filename linenum clean_lines nesting_state.stack
                          ++ (check_spacing_for_function_call filename clean_lines linenum
                              ++ (check_check filename clean_lines linenum
                                  ++ (check_alt_tokens filename clean_lines linenum
                                      ++ section_reports clean_lines
                                          (innermost_class nesting_state.stack)))))))))

  -- CheckStyle, with `error` as `Error`; `none` is the IndexError of a line number that is not of the
  -- file, the AssertionError of `Error`, or a line number -1, as in `nolint_lines`.
  unfoldable pub check_style : CleansedLines → Text → NestingState → Lint → Option Lint
  unfolding style_reports spacing_reports check_trailing_semicolon
  check_style clean_lines file_extension nesting_state s =
      if ltb linenum (length clean_lines.lines_without_raw_strings)
      then (and_then (error_all (style_reports clean_lines file_extension) s) λ t.
          and_then (check_trailing_semicolon filename clean_lines linenum t)
            (error_all (spacing_reports clean_lines nesting_state)))
      else none
