-- ===== src/Checks/Types.antt =====
-- `_IsType`, `CheckBracesSpacing` and `IsDecltype`.
use deft_rpc.Base.{
  ℕ, zero, suc, ◌+◌, ◌-◌, min, Bool, false, not, ◌&&◌, ◌||◌, Option, none, some, List, [], ◌∷◌,
  ◌++◌, ltb, ◌==◌, if◌then◌else◌, is_some, length, get_or, take, drop, any,
}
use deft_rpc.Text.{Text, codes, find}
use deft_rpc.Regex.{
  Regex, char, char_if, chars, dot, empty, group, in_set, line_end, line_start, lit, not_in,
  not_space, one_lit, optional, plus, space, star, word_edge, ◌│◌, ◌▹◌,
}
use deft_rpc.Regex.Notation.{one_of_chars}
use deft_rpc.Text.{is_space}
use deft_rpc.Regex.{chars, searches, match, matches, group_text}
use deft_rpc.Lint.{Report}
use deft_rpc.Lines.{CleansedLines}
use deft_rpc.Brackets.{close_expression}
use deft_rpc.Brackets.Backward.{reverse_close_expression}
use deft_rpc.Nesting.{Block, is_namespace}
use deft_rpc.Checks.{report, when}

-- ^.*(\b\S+)$
abbrev last_word : Regex
last_word = line_start ▹ star dot ▹ group 1 (word_edge ▹ plus not_space) ▹ line_end

-- _TYPES
-- ^(?:(char(16_t|32_t)?)|wchar_t|bool|short|int|long|signed|unsigned|float|double|(ptrdiff_t|size_t|max_align_t|nullptr_t)|(u?int(_fast|_least)?(8|16|32|64)_t)|(u?int(max|ptr)_t)|)$
abbrev types : Regex
types =
    line_start
    ▹ (group 1 (lit "char" ▹ optional (group 2 (lit "16_t" │ lit "32_t")))
        │ lit "wchar_t"
        │ lit "bool"
        │ lit "short"
        │ lit "int"
        │ lit "long"
        │ lit "signed"
        │ lit "unsigned"
        │ lit "float"
        │ lit "double"
        │ group 3 (one_lit ("ptrdiff_t" ∷ "size_t" ∷ "max_align_t" ∷ "nullptr_t" ∷ []))
        │ group 4 (
            optional (char b'u')
            ▹ lit "int"
            ▹ optional (group 5 (lit "_fast" │ lit "_least"))
            ▹ group 6 (one_lit ("8" ∷ "16" ∷ "32" ∷ "64" ∷ []))
            ▹ lit "_t")
        │ group 7 (optional (char b'u') ▹ lit "int" ▹ group 8 (lit "max" │ lit "ptr") ▹ lit "_t")
        │ empty)
    ▹ line_end

-- \b(?:typename|class|struct)\s+NAME\b
abbrev typename_pattern : Text → Regex
typename_pattern token =
    word_edge
    ▹ (one_lit ("typename" ∷ "class" ∷ "struct" ∷ []))
    ▹ plus space
    ▹ chars token
    ▹ word_edge

has_template : Text → Bool
unfolding find
has_template line = is_some (find (codes "template") line)

-- The nearest line with `template`, from the line given back to the line `low`.
template_line : List Text → ℕ → ℕ → Option ℕ
unfolding has_template
template_line elided low zero =
    if low == 0 && has_template (get_or elided 0 []) then some 0 else none
template_line elided low (suc n) =
    let further = template_line elided low n in
    if ltb (suc n) low
    then none
    else if has_template (get_or elided (suc n) [])
    then some (suc n)
    else further

start_of : List Block → ℕ
start_of [] = 0
start_of (b ∷ stack) = b.starting_linenum

-- The loop over the blocks, the innermost first.
declared_in : List Text → Text → List Block → Bool
unfolding template_line start_of
declared_in elided token [] = false
declared_in elided token (b ∷ stack) =
    let further = declared_in elided token stack in
    let last = b.starting_linenum in
    if is_namespace b.kind then false else elim (template_line elided (start_of stack) last) [
      | none ↦ further
      | some first ↦
          any (searches (typename_pattern token)) (take (last + 1 - first) (drop first elided))
          || further
    ]

-- _IsType
unfoldable pub is_type : CleansedLines → List Block → Text → Bool
unfolding declared_in
is_type clean_lines stack expr =
    let token : Text = elim (match last_word expr) [ none ↦ expr | some m ↦ group_text m 1 ] in
    matches types token || declared_in clean_lines.elided token stack

-- ^(.*[^ ({>]){
abbrev tight_brace : Regex
tight_brace = line_start ▹ group 1 (star dot ▹ not_in " ({>") ▹ char b'{'

-- ^[\s}]*[{.;,)<>\]:]
abbrev allowed_behind : Regex
allowed_behind =
    line_start ▹ star (char_if (λ c. is_space c || one_of_chars "}" c)) ▹ in_set "{.;,)<>]:"

-- }else
abbrev tight_else : Regex
tight_else = lit "}else"

-- :\s*;\s*$
abbrev colon_semicolon : Regex
colon_semicolon = char b':' ▹ star space ▹ char b';' ▹ star space ▹ line_end

-- ^\s*;\s*$
abbrev only_semicolon : Regex
only_semicolon = line_start ▹ star space ▹ char b';' ▹ star space ▹ line_end

-- \s+;\s*$
abbrev spaced_semicolon : Regex
spaced_semicolon = plus space ▹ char b';' ▹ star space ▹ line_end

-- \bfor\b
abbrev for_word : Regex
for_word = word_edge ▹ lit "for" ▹ word_edge

concat : List Text → Text
concat [] = []
concat (line ∷ lines) = line ++ concat lines

module _ (filename : Text) (linenum : ℕ) where
  -- The brace without a space before it, which is no initializer.
  brace_report : CleansedLines → List Block → Text → List Report
  unfolding report concat is_type
  brace_report clean_lines stack leading_text =
      let close = close_expression clean_lines linenum (length leading_text) in
      let behind : Text = elim close.pos [ none ↦ [] | some endpos ↦ drop endpos close.line ] in
      let first = close.linenum + 1 in
      let further = concat (
        take (min (close.linenum + 3) (clean_lines.num_lines - 1) - first)
          (drop first clean_lines.elided)) in
      when
        (not (matches allowed_behind (behind ++ further))
          && not (is_type clean_lines stack leading_text))
        (report filename linenum (codes "whitespace/braces") 5 (codes "Missing space before {"))

  semicolon : Text → Report
  unfolding report
  semicolon message = report filename linenum (codes "whitespace/semicolon") 5 message

  semicolon_reports : Text → List Report
  unfolding semicolon
  semicolon_reports line =
      if searches colon_semicolon line
      then semicolon (codes "Semicolon defining empty statement. Use {} instead.") ∷ []
      else if searches only_semicolon line
      then semicolon (
          codes "Line contains only semicolon. If this should be an empty statement, "
          ++ codes "use {} instead.")
        ∷ []
      else when (searches spaced_semicolon line && not (searches for_word line)) (
          semicolon (
            codes "Extra space before last semicolon. If this should be an empty "
            ++ codes "statement, use {} instead."))

  -- CheckBracesSpacing
  unfoldable pub check_braces_spacing : CleansedLines → List Block → List Report
  unfolding brace_report semicolon_reports report
  check_braces_spacing clean_lines stack =
      let line = get_or clean_lines.elided linenum [] in
      (elim (match tight_brace line) [
        | none ↦ []
        | some m ↦ brace_report clean_lines stack (group_text m 1)
      ])
      ++ (when (searches tight_else line) (
            report filename linenum (codes "whitespace/braces") 5
              (codes "Missing space before else"))
          ++ semicolon_reports line)

-- \bdecltype\s*$
abbrev decltype_end : Regex
decltype_end = word_edge ▹ lit "decltype" ▹ star space ▹ line_end

-- IsDecltype
unfoldable pub is_decltype : CleansedLines → ℕ → ℕ → Bool
is_decltype clean_lines linenum column =
    let start = reverse_close_expression clean_lines linenum column in
    elim start.pos [
      | none ↦ false
      | some start_col ↦ searches decltype_end (take start_col start.line)
    ]
