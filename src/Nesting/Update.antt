-- ===== src/Nesting/Update.antt =====
-- `NestingState.Update` of scripts/tools/cpplint.py.
pub mod Stack
pub mod Rounds
pub mod File
use deft_rpc.Base.{
  ℕ, zero, suc, ◌+◌, ◌-◌, ◌*◌, ◌/◌, ◌%◌, ◌^◌, ◌≤◌, ◌<◌, min, max, ◌≡◌, refl, sym, ap, ◌∙◌, ◌≢◌, ◌↔◌,
  ◌⊎◌, inl, inr, Bool, true, false, not, ◌&&◌, ◌||◌, Option, none, some, List, [], ◌∷◌, ◌++◌, map,
  reverse, append-nil, append_assoc, arith, ltb, leb, ◌==◌, if◌then◌else◌, ltb→lt, lt→ltb, leb→le,
  leb_false→lt, ==_iff, tests, Bool-cases, Option-cases, is_some, length, get_elem?, get_or, take,
  drop, all, any, keep_if, length-append, length-take, length-drop, take-append-drop, length-map,
  All, All-append,
}
use deft_rpc.Text.{Text, codes, eq, find, count}
use deft_rpc.Regex.{
  Regex, empty, ◌▹◌, ◌│◌, char, lit, one_lit, char_if, upper_letter, in_set, not_in, star, plus,
  optional, space, word, dot, group, word_edge, line_start, line_end, Found, match, matches,
  group_text,
}
use deft_rpc.Lines.{CleansedLines}
use deft_rpc.Lint.{Report}
use deft_rpc.Nesting.{
  InlineAsm, no_asm, inside_asm, end_asm, block_asm, Kind, plain_block, extern_c, class_block,
  namespace, ClassInfo, Block, new_block, PreprocessorInfo, NestingState, seen_open_brace,
  update_preprocessor,
}
use deft_rpc.Nesting.Checks.{new_class, new_namespace, check_begin, check_end, parent_of, blank}
use deft_rpc.Nesting.Template.{in_template_argument_list}

abbrev pub top : List Block → Option Block
top [] = none
top (b ∷ stack) = some b

-- the top of the stack changed, where there is one
abbrev pub at_top : (Block → Block) → List Block → List Block
at_top f [] = []
at_top f (b ∷ stack) = f b ∷ stack

abbrev pub pop : List Block → List Block
pop [] = []
pop (b ∷ stack) = stack

-- _MATCH_ASM: ^\s*(?:asm|_asm|__asm|__asm__)(?:\s+(volatile|__volatile__))?\s*[{(]
abbrev match_asm : Regex
match_asm =
    line_start
    ▹ star space
    ▹ one_lit ("asm" ∷ "_asm" ∷ "__asm" ∷ "__asm__" ∷ [])
    ▹ optional (plus space ▹ group 1 (one_lit ("volatile" ∷ "__volatile__" ∷ [])))
    ▹ star space
    ▹ in_set "{("

-- the next state of inline assembly: whether the line changes the depth, whether one parenthesis is
-- open or none, and whether the line matches _MATCH_ASM
unfoldable pub next_asm : Bool → Bool → Bool → Bool → InlineAsm → InlineAsm
next_asm changes one zero_open asm_line inside_asm = if zero_open then end_asm else inside_asm
next_asm changes one zero_open asm_line block_asm = block_asm
next_asm changes one zero_open asm_line _ =
    if changes && (one && asm_line) then inside_asm else no_asm

-- The count of parentheses, for the innermost block.
unfoldable pub count_parentheses : Text → Block → Block
unfolding next_asm count
count_parentheses line b =
    let opened = b.opened_parentheses + count b'(' line in
    let closed = b.closed_parentheses + count b')' line in
    record b {
      opened_parentheses = opened;
      closed_parentheses = closed;
      inline_asm =
          next_asm (not (count b'(' line == count b')' line)) (opened == closed + 1)
            (opened == closed) (matches match_asm line) b.inline_asm;
    }

-- ^\s*namespace\b\s*([:\w]+)?(.*)$
abbrev namespace_pattern : Regex
namespace_pattern =
    (line_start
      ▹ star space
      ▹ lit "namespace"
      ▹ word_edge
      ▹ star space
      ▹ optional (group 1 (plus (char b':' │ word))))
    ▹ (group 2 (star dot) ▹ line_end)

-- A namespace whose declaration is followed by a text: what is left of the line, and the stack.
unfoldable pub push_namespace : ℕ → Text → Text → List Block → Text × List Block
push_namespace linenum name rest stack = elim (find (codes "{") rest) [
  | none ↦ (rest, new_namespace name linenum ∷ stack)
  | some i ↦
      (drop (i + 1) rest, record (new_namespace name linenum) { seen_open_brace = true } ∷ stack)
]

-- The loop over the namespaces at the beginning of a line; each round shortens the line.
unfoldable pub consume_namespaces : ℕ → ℕ → Text → List Block → Text × List Block
unfolding push_namespace
consume_namespaces zero linenum line stack = (line, stack)
consume_namespaces (suc fuel) linenum line stack = elim (match namespace_pattern line) [
  | none ↦ (line, stack)
  | some m ↦
      let next = push_namespace linenum (group_text m 1) (group_text m 2) stack in
      consume_namespaces fuel linenum next.0 next.1
]

-- ^(\s*(?:template\s*<[\w\s<>,:=]*>\s*)?(class|struct)\s+(?:[A-Z_]+\s+)*(\w+(?:::\w+)*))(.*)$
abbrev class_pattern : Regex
class_pattern =
    line_start
    ▹ group 1 (
        star space
        ▹ optional (
            lit "template"
            ▹ star space
            ▹ char b'<'
            ▹ star (word │ space │ in_set "<>,:=")
            ▹ char b'>'
            ▹ star space)
        ▹ group 2 (one_lit ("class" ∷ "struct" ∷ []))
        ▹ plus space
        ▹ star (plus (char_if (λ c. upper_letter c || c == b'_')) ▹ plus space)
        ▹ group 3 (plus word ▹ star (lit "::" ▹ plus word)))
    ▹ group 4 (star dot)
    ▹ line_end

no_parentheses : List Block → Bool
no_parentheses [] = true
no_parentheses (b ∷ stack) = b.opened_parentheses == b.closed_parentheses

-- The declaration of a class in what is left of the line.
unfoldable pub consume_class : CleansedLines → ℕ → Text → List Block → Text × List Block
unfolding no_parentheses
consume_class clean_lines linenum line stack = elim (match class_pattern line) [
  | none ↦ (line, stack)
  | some m ↦
      if no_parentheses stack
        && not (in_template_argument_list clean_lines linenum (length (group_text m 1)))
      then (group_text m 4, new_class (group_text m 3) (group_text m 2) clean_lines linenum ∷ stack)
      else (line, stack)
]

-- ^(.*)\b(public|private|protected|signals)(\s+(?:slots\s*)?)?:(?:[^:]|$)
abbrev access_pattern : Regex
access_pattern =
    line_start
    ▹ group 1 (star dot)
    ▹ word_edge
    ▹ group 2 (one_lit ("public" ∷ "private" ∷ "protected" ∷ "signals" ∷ []))
    ▹ optional (group 3 (plus space ▹ optional (lit "slots" ▹ star space)))
    ▹ char b':'
    ▹ (not_in ":" │ line_end)

badly_indented : Text → ℕ → Found → ClassInfo → List Report
badly_indented filename linenum m info =
    if not (length (group_text m 1) == info.class_indent + 1) && matches blank (group_text m 1)
    then record {
      filename = filename;
      linenum = linenum;
      category = codes "whitespace/indent";
      confidence = 3;
      message =
          group_text m 2
          ++ (group_text m 3 ++ (codes ": should be indented +1 space inside " ++ parent_of info));
    }
      ∷ []
    else []

-- The access control, where the innermost block is a class.
update_access_of : Text → ℕ → Text → Block → Block × List Report
unfolding badly_indented
update_access_of filename linenum line b = elim b.kind [
  | plain_block ↦ (b, [])
  | extern_c ↦ (b, [])
  | namespace name ↦ (b, [])
  | class_block info ↦ elim (match access_pattern line) [
    | none ↦ (b, [])
    | some m ↦ (
      record b { kind = class_block (record info { access = group_text m 2 }) },
      badly_indented filename linenum m info,
    )
  ]
]

unfoldable pub update_access : Text → ℕ → Text → List Block → List Block × List Report
unfolding update_access_of
update_access filename linenum line [] = ([], [])
update_access filename linenum line (b ∷ stack) =
    let next = update_access_of filename linenum line b in (next.0 ∷ stack, next.1)

-- ^[^{;)}]*([{;)}])(.*)$
abbrev brace_pattern : Regex
brace_pattern =
    (line_start ▹ star (not_in "{;)}") ▹ group 1 (in_set "{;)}")) ▹ (group 2 (star dot) ▹ line_end)

-- ^extern\s*"[^"]*"\s*\{
abbrev extern_pattern : Regex
extern_pattern =
    line_start
    ▹ lit "extern"
    ▹ star space
    ▹ char b'"'
    ▹ star (not_in "\"")
    ▹ char b'"'
    ▹ star space
    ▹ char b'{'

-- A `{`, on what is left of the line.
unfoldable pub open_brace : ℕ → Text → List Block → List Block
open_brace linenum line stack =
    if not (seen_open_brace stack)
    then at_top (λ b. record b { seen_open_brace = true }) stack
    else if matches extern_pattern line
    then new_block linenum true false extern_c ∷ stack
    else if matches match_asm line
    then record (new_block linenum true false plain_block) { inline_asm = block_asm } ∷ stack
    else new_block linenum true false plain_block ∷ stack

-- A `;` or a `)` ends a declaration that has no brace.
unfoldable pub end_declaration : List Block → List Block
end_declaration stack = if not (seen_open_brace stack) then pop stack else stack

-- A `}` checks the end of the innermost block and pops it.
unfoldable pub close_brace : Text → CleansedLines → ℕ → List Block → List Block × List Report
close_brace filename clean_lines linenum [] = ([], [])
close_brace filename clean_lines linenum (b ∷ stack) =
    (stack, check_end filename clean_lines linenum b)

unfoldable pub at_token :
    Text → CleansedLines → ℕ → Text → Text → List Block → List Block × List Report
unfolding open_brace end_declaration close_brace
at_token filename clean_lines linenum line token stack =
    if eq token (codes "{")
    then (open_brace linenum line stack, [])
    else if eq token (codes ";") || eq token (codes ")")
    then (end_declaration stack, [])
    else close_brace filename clean_lines linenum stack

-- The loop over the braces and semicolons; each round shortens the line.
unfoldable pub consume_braces :
    ℕ → Text → CleansedLines → ℕ → Text → List Block → List Block × List Report
unfolding at_token
consume_braces zero filename clean_lines linenum line stack = (stack, [])
consume_braces (suc fuel) filename clean_lines linenum line stack =
    elim (match brace_pattern line) [
      | none ↦ (stack, [])
      | some m ↦
          let here = at_token filename clean_lines linenum line (group_text m 1) stack in
          let rest = consume_braces fuel filename clean_lines linenum (group_text m 2) here.0 in
          (rest.0, here.1 ++ rest.1)
    ]

-- The part of Update behind UpdatePreprocessor: the stack, and the reports.
unfoldable pub update_stack :
    Text → CleansedLines → ℕ → Text → List Block → List Block × List Report
unfolding consume_namespaces consume_class update_access consume_braces count_parentheses
update_stack filename clean_lines linenum line stack =
    let spaces =
      consume_namespaces (length line + 1) linenum line (at_top (count_parentheses line) stack) in
    let classes = consume_class clean_lines linenum spaces.0 spaces.1 in
    let begun =
      if not (seen_open_brace classes.1)
      then at_top (check_begin clean_lines linenum) classes.1
      else classes.1 in
    let accessed = update_access filename linenum classes.0 begun in
    let consumed =
      consume_braces (length classes.0 + 1) filename clean_lines linenum classes.0 accessed.0 in
    (consumed.0, accessed.1 ++ consumed.1)

-- Update
unfoldable pub update : Text → CleansedLines → ℕ → NestingState → NestingState × List Report
unfolding update_stack
update filename clean_lines linenum s =
    let line = get_or clean_lines.elided linenum [] in
    let at_line = update_preprocessor line (record s { previous_stack_top = top s.stack }) in
    let next = update_stack filename clean_lines linenum line at_line.stack in
    (record at_line { stack = next.0 }, next.1)
