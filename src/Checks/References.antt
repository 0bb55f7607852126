-- ===== src/Checks/References.antt =====
-- `CheckForNonConstReference`, with the patterns of parameters.
use deft_rpc.Base.{
  ℕ, zero, suc, ◌+◌, ◌-◌, Bool, false, not, ◌&&◌, ◌||◌, Option, none, some, List, [], ◌∷◌, ◌++◌,
  ltb, ◌==◌, if◌then◌else◌, length, get_or, any,
}
use deft_rpc.Text.{Text, codes, strip, lstrip}
use deft_rpc.Regex.{
  Regex, dot, in_set, char, char_if, group, in_range, in_set, is_word, line_end, line_start, lit,
  not_in, not_space, optional, plus, space, star, word, word_edge, ◌│◌, ◌▹◌,
}
use deft_rpc.Regex.Notation.{one_of_chars}
use deft_rpc.Regex.{Found, search, searches, matches, group_text, replace_all}
use deft_rpc.Lint.{Report}
use deft_rpc.Lines.{CleansedLines}
use deft_rpc.Brackets.Backward.{reverse_close_expression}
use deft_rpc.Nesting.{Block, NestingState, is_class, is_namespace}
use deft_rpc.Checks.{report, when}
use deft_rpc.Checks.Tokens.{find_all}
use deft_rpc.Checks.Semicolons.{last_index}
use deft_rpc.Checks.Inheritance.{
  is_derived_function, is_out_of_line_method_definition, is_initializer_list,
}

-- [_a-zA-Z]\w*
abbrev ident : Regex
ident =
    char_if (λ c. in_range b'a' b'z' c || (in_range b'A' b'Z' c || one_of_chars "_" c)) ▹ star word

-- (?:const\s+)?(?:typename\s+|class\s+|struct\s+|union\s+|enum\s+)?(?:\w|\s*<(?:<(?:<[^<>]*>|[^<>])*>|[^<>])*>|::)+
abbrev type_name : Regex
type_name =
    optional (lit "const" ▹ plus space)
    ▹ optional (
        (lit "typename" ▹ plus space)
        │ (lit "class" ▹ plus space)
        │ (lit "struct" ▹ plus space)
        │ (lit "union" ▹ plus space)
        │ (lit "enum" ▹ plus space))
    ▹ plus (
        word
        │ (star space
            ▹ char b'<'
            ▹ star (
                (char b'<'
                  ▹ star ((char b'<' ▹ star (not_in "<>") ▹ char b'>') │ not_in "<>")
                  ▹ char b'>')
                │ not_in "<>")
            ▹ char b'>')
        │ lit "::")

-- A parameter that ends with `& identifier`.
abbrev ref_param : Regex
ref_param =
    group 1 (
      type_name
      ▹ star (star space ▹ ((word_edge ▹ lit "const" ▹ word_edge) │ char b'*'))
      ▹ star space
      ▹ char b'&'
      ▹ star space
      ▹ ident)
    ▹ star space
    ▹ optional (char b'=' ▹ plus (not_in ",()"))
    ▹ in_set ",)"

-- A parameter that ends with `const& identifier`, or is `const type& identifier`.
abbrev const_ref_param : Regex
const_ref_param =
    (star dot ▹ star space ▹ word_edge ▹ lit "const" ▹ star space ▹ char b'&' ▹ star space ▹ ident)
    │ (lit "const" ▹ plus space ▹ type_name ▹ star space ▹ char b'&' ▹ star space ▹ ident)

-- A parameter that is a stream.
abbrev ref_stream_param : Regex
ref_stream_param = star dot ▹ lit "stream" ▹ star space ▹ char b'&' ▹ star space ▹ ident

-- \s*::(?:[\w<>]|::)+\s*&\s*\S
abbrev scope_first : Regex
scope_first =
    star space
    ▹ lit "::"
    ▹ plus (char_if (λ c. is_word c || one_of_chars "<>" c) │ lit "::")
    ▹ star space
    ▹ char b'&'
    ▹ star space
    ▹ not_space

-- \b((?:const\s*)?(?:[\w<>]|::)+[\w<>])\s*$
abbrev type_above : Regex
type_above =
    word_edge
    ▹ group 1 (
        optional (lit "const" ▹ star space)
        ▹ plus (char_if (λ c. is_word c || one_of_chars "<>" c) │ lit "::")
        ▹ char_if (λ c. is_word c || one_of_chars "<>" c))
    ▹ star space
    ▹ line_end

-- \s*[a-zA-Z_]([\w<>]|::)+\s*&\s*\S
abbrev scope_above : Regex
scope_above =
    star space
    ▹ char_if (λ c. in_range b'a' b'z' c || (in_range b'A' b'Z' c || one_of_chars "_" c))
    ▹ plus (group 1 (char_if (λ c. is_word c || one_of_chars "<>" c) │ lit "::"))
    ▹ star space
    ▹ char b'&'
    ▹ star space
    ▹ not_space

-- \b((?:const\s*)?(?:[\w<>]|::)+::)\s*$
abbrev type_and_scope : Regex
type_and_scope =
    word_edge
    ▹ group 1 (
        optional (lit "const" ▹ star space)
        ▹ plus (char_if (λ c. is_word c || one_of_chars "<>" c) │ lit "::")
        ▹ lit "::")
    ▹ star space
    ▹ line_end

-- The end of a type on the line above, where the line goes on with it.
previous_type : Text → Text → Option Found
previous_type line above =
    if matches scope_first line
    then search type_above above
    else if matches scope_above line
    then search type_and_scope above
    else none

-- The stripped lines from one to another.
join_lines : List Text → ℕ → ℕ → Text
unfolding strip
join_lines elided i zero = []
join_lines elided i (suc count) = strip (get_or elided i []) ++ join_lines elided (i + 1) count

-- The line, with what stands on the lines above of a template whose last `>` is on it.
template_above : CleansedLines → ℕ → Text → Text
unfolding join_lines last_index
template_above clean_lines linenum line =
    let start = reverse_close_expression clean_lines linenum (last_index b'>' line) in
    elim (if any (λ c. c == b'>') line then start.pos else none) [
      | none ↦ line
      | some startpos ↦
          if ltb start.linenum linenum
          then join_lines clean_lines.elided start.linenum (linenum + 1 - start.linenum)
          else line
    ]

-- The line, with the part of a type that stands on the lines above.
unfoldable pub joined_line : CleansedLines → ℕ → Text
unfolding previous_type template_above lstrip
joined_line clean_lines linenum =
    let line = get_or clean_lines.elided linenum [] in
    if ltb 1 linenum
    then elim (previous_type line (get_or clean_lines.elided (linenum - 1) [])) [
      | some previous ↦ group_text previous 1 ++ lstrip line
      | none ↦ template_above clean_lines linenum line
    ]
    else line

-- [),]\s*$
abbrev parameter_end : Regex
parameter_end = in_set ")," ▹ star space ▹ line_end

-- ^\s*:\s+\S
abbrev initializer_start : Regex
initializer_start = line_start ▹ star space ▹ char b':' ▹ plus space ▹ not_space

-- A line that starts an initializer list, with ends of parameters on all lines between.
unfoldable pub initializers_above : List Text → ℕ → ℕ → Bool
initializers_above elided zero i = false
initializers_above elided (suc count) zero = false
initializers_above elided (suc count) (suc zero) = false
initializers_above elided (suc count) (suc (suc i)) =
    let further = initializers_above elided count (suc i) in
    let previous_line = get_or elided (suc i) [] in
    searches parameter_end previous_line && (matches initializer_start previous_line || further)

-- \\\s*$
abbrev continued : Regex
continued = char b'\\' ▹ star space ▹ line_end

-- (?:[sS]wap(?:<\w:+>)?|operator\s*[<>][<>]|static_assert|COMPILE_ASSERT)\s*\(
abbrev whitelisted_functions : Regex
whitelisted_functions =
    ((in_set "sS" ▹ lit "wap" ▹ optional (char b'<' ▹ word ▹ plus (char b':') ▹ char b'>'))
      │ (lit "operator" ▹ star space ▹ in_set "<>" ▹ in_set "<>")
      │ lit "static_assert"
      │ lit "COMPILE_ASSERT")
    ▹ star space
    ▹ char b'('

-- \S+\([^)]*$
abbrev open_call : Regex
open_call = plus not_space ▹ char b'(' ▹ star (not_in ")") ▹ line_end

-- {[^}]*}
abbrev function_body : Regex
function_body = char b'{' ▹ star (not_in "}") ▹ char b'}'

--  *<
abbrev spaced_angle : Regex
spaced_angle = star (char b' ') ▹ char b'<'

-- A function on the line, or on the two lines above a list of parameters, that may take references.
is_whitelisted : List Text → ℕ → Text → Bool
is_whitelisted elided linenum line =
    searches whitelisted_functions line
    || (not (searches open_call line)
        && ((ltb 0 linenum && searches whitelisted_functions (get_or elided (linenum - 1) []))
            || (ltb 1 linenum && searches whitelisted_functions (get_or elided (linenum - 2) []))))

-- Inside of a block that is no class and no namespace.
in_body : Option Block → Bool
in_body none = false
in_body (some block) = not (is_class block.kind || is_namespace block.kind)

module _ (filename : Text) (linenum : ℕ) where
  parameter_reports : List Found → List Report
  unfolding report
  parameter_reports [] = []
  parameter_reports (m ∷ parameters) =
      let parameter = group_text m 1 in
      when (not (matches const_ref_param parameter) && not (matches ref_stream_param parameter)) (
        report filename linenum (codes "runtime/references") 2 (
          codes "Is this a non-const reference? "
          ++ (codes "If so, make const or use a pointer: "
              ++ replace_all spaced_angle (codes "<") parameter)))
      ++ parameter_reports parameters

  -- The reports about the parameters of the line, outside of the bodies of functions on it.
  line_references : Text → List Report
  unfolding parameter_reports find_all
  line_references line =
      let decls = replace_all function_body (codes " ") line in
      parameter_reports (find_all (length decls + 1) ref_param decls)

  -- CheckForNonConstReference
  unfoldable pub check_for_non_const_reference : CleansedLines → NestingState → List Report
  unfolding line_references is_whitelisted in_body initializers_above joined_line
  check_for_non_const_reference clean_lines nesting_state =
      if not (any (λ c. c == b'&') (get_or clean_lines.elided linenum []))
        || (is_derived_function clean_lines linenum
            || is_out_of_line_method_definition clean_lines linenum)
      then []
      else let line = joined_line clean_lines linenum in
        if in_body nesting_state.previous_stack_top
          || (initializers_above clean_lines.elided 9 linenum
              || (searches continued line
                  || (is_initializer_list clean_lines linenum
                      || is_whitelisted clean_lines.elided linenum line)))
        then []
        else line_references line
