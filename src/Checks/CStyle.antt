-- ===== src/Checks/CStyle.antt =====
-- `CheckCStyleCast` and `ExpectingFunctionArgs`.
use deft_rpc.Base.{
  ℕ, zero, suc, ◌-◌, Bool, ◌&&◌, ◌||◌, Option, none, some, List, [], ◌∷◌, ◌++◌, leb, if◌then◌else◌,
  get_or, take, drop,
}
use deft_rpc.Text.{Text, codes, ends_with}
use deft_rpc.Regex.{
  Regex, char, char_if, digit, dot, group, in_range, in_set, line_end, line_start, lit, not_in,
  not_space, optional, plus, space, star, word_edge, ◌│◌, ◌▹◌,
}
use deft_rpc.Regex.Notation.{one_of_chars}
use deft_rpc.Regex.{search, searches, matches, group_text}
use deft_rpc.Lint.{Report}
use deft_rpc.Lines.{CleansedLines}
use deft_rpc.Checks.{report}

-- ^\s*MOCK_(CONST_)?METHOD\d+(_T)?\(
abbrev mock_method : Regex
mock_method =
    line_start
    ▹ star space
    ▹ lit "MOCK_"
    ▹ optional (group 1 (lit "CONST_"))
    ▹ lit "METHOD"
    ▹ plus digit
    ▹ optional (group 2 (lit "_T"))
    ▹ char b'('

-- ^\s*MOCK_(?:CONST_)?METHOD\d+(?:_T)?\((?:\S+,)?\s*$
abbrev mock_method_head : Regex
mock_method_head =
    line_start
    ▹ star space
    ▹ lit "MOCK_"
    ▹ optional (lit "CONST_")
    ▹ lit "METHOD"
    ▹ plus digit
    ▹ optional (lit "_T")
    ▹ char b'('
    ▹ optional (plus not_space ▹ char b',')
    ▹ star space
    ▹ line_end

-- ^\s*MOCK_(?:CONST_)?METHOD\d+(?:_T)?\(\s*$
abbrev mock_method_open : Regex
mock_method_open =
    line_start
    ▹ star space
    ▹ lit "MOCK_"
    ▹ optional (lit "CONST_")
    ▹ lit "METHOD"
    ▹ plus digit
    ▹ optional (lit "_T")
    ▹ char b'('
    ▹ star space
    ▹ line_end

-- \bstd::m?function\s*\<\s*$
abbrev function_template : Regex
function_template =
    word_edge
    ▹ lit "std::"
    ▹ optional (char b'm')
    ▹ lit "function"
    ▹ star space
    ▹ char b'<'
    ▹ star space
    ▹ line_end

-- ExpectingFunctionArgs
unfoldable pub expecting_function_args : CleansedLines → ℕ → Bool
expecting_function_args clean_lines linenum =
    let above = get_or clean_lines.elided (linenum - 1) [] in
    matches mock_method (get_or clean_lines.elided linenum [])
    || (leb 2 linenum
        && (matches mock_method_head above
            || (matches mock_method_open (get_or clean_lines.elided (linenum - 2) [])
                || searches function_template above)))

-- .*\b(?:sizeof|alignof|alignas|[_A-Z][_A-Z0-9]*)\s*$
abbrev looks_like_cast : Regex
looks_like_cast =
    star dot
    ▹ word_edge
    ▹ (lit "sizeof"
        │ lit "alignof"
        │ lit "alignas"
        │ (char_if (λ c. in_range b'A' b'Z' c || one_of_chars "_" c)
            ▹ star (
                char_if
                  (λ c. in_range b'A' b'Z' c || (in_range b'0' b'9' c || one_of_chars "_" c)))))
    ▹ star space
    ▹ line_end

-- .*\b[_A-Z][_A-Z0-9]*\s*\((?:\([^()]*\)|[^()])*$
abbrev in_macro : Regex
in_macro =
    star dot
    ▹ word_edge
    ▹ char_if (λ c. in_range b'A' b'Z' c || one_of_chars "_" c)
    ▹ star (char_if (λ c. in_range b'A' b'Z' c || (in_range b'0' b'9' c || one_of_chars "_" c)))
    ▹ star space
    ▹ char b'('
    ▹ star ((char b'(' ▹ star (not_in "()") ▹ char b')') │ not_in "()")
    ▹ line_end

-- ^\s*(?:;|const\b|throw\b|final\b|override\b|[=>{),]|->)
abbrev no_operand : Regex
no_operand =
    line_start
    ▹ star space
    ▹ (char b';'
        │ (lit "const" ▹ word_edge)
        │ (lit "throw" ▹ word_edge)
        │ (lit "final" ▹ word_edge)
        │ (lit "override" ▹ word_edge)
        │ in_set "=>{),"
        │ lit "->")

-- The text in front of the cast behind up to `count` lines that stand above it, without line 0.
expand_context : List Text → ℕ → ℕ → Text → Text
expand_context elided zero i context = context
expand_context elided (suc count) zero context = context
expand_context elided (suc count) (suc zero) context = context
expand_context elided (suc count) (suc (suc i)) context =
    expand_context elided count (suc i) (get_or elided (suc i) [] ++ context)

-- CheckCStyleCast, with the report it makes, where it returns True. Each pattern begins with the
-- parenthesis in front of its first group, which is where the context of the cast ends.
unfoldable pub check_c_style_cast : Text → CleansedLines → ℕ → Text → Regex → Option Report
unfolding report ends_with expand_context
check_c_style_cast filename clean_lines linenum cast_type pattern =
    let line = get_or clean_lines.elided linenum [] in
    elim (search pattern line) [
      | none ↦ none
      | some m ↦
          let context = take m.start_pos line in
          let expanded = expand_context clean_lines.elided 4 linenum context in
          if matches looks_like_cast context
            || (matches in_macro expanded
                || ((ends_with (codes " operator++") expanded
                      || ends_with (codes " operator--") expanded)
                    || matches no_operand (drop m.end_pos line)))
          then none
          else some (
              report filename linenum (codes "readability/casting") 4 (
                codes "Using C-style cast.  Use "
                ++ (cast_type ++ (b'<' ∷ (group_text m 1 ++ codes ">(...) instead")))))
    ]
