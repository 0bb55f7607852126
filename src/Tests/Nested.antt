-- ===== src/Tests/Nested.antt =====
-- The nested blocks.
use deft_rpc.Base.{
  keep_if, length, arith, ℕ, zero, suc, ◌+◌, ◌≡◌, refl, true, false, List, [], ◌∷◌, ◌++◌, map,
  length,
}
use deft_rpc.Text.{Text, codes, eq, find, is_space}
use deft_rpc.Regex.{match, search, group_text}
use deft_rpc.Lint.{Report}
use deft_rpc.Lines.{CleansedLines}
use deft_rpc.Nesting
use deft_rpc.Nesting.{
  Block, NestingState, new_block, plain_block, namespace, class_block, ClassInfo,
  update_preprocessor, seen_open_brace, check_completed_blocks,
}
use deft_rpc.Nesting.Preprocessor.{
  IsIf, IsElse, IsEndif, Region, nothing, restack, branch, else-stack, endif-stack,
}
use deft_rpc.Nesting.Checks.{new_namespace, new_class, check_begin, check_end}
use deft_rpc.Nesting.Template.{in_template_argument_list}
use deft_rpc.Nesting.Update.{update, consume_braces}
use deft_rpc.Nesting.Update.Stack.{
  tokens, IsNested, no_token, skip, braces, consume_braces-IsNested,
}
use deft_rpc.Nesting.Completed.{is_declared, check_completed_blocks-length}
use deft_rpc.Nesting.Update.Rounds.{consume_braces_rounds}
use deft_rpc.Nesting.Update.File.{
  state_behind, IsPlain, Nests, no_line, plain_line, if_endif, first, further, Nests-pp_stack,
}
use deft_rpc.Brackets.{close_expression}

abbrev of_lines : List Text → CleansedLines
of_lines lines = record {
  elided = lines;
  lines = lines;
  raw_lines = lines;
  lines_without_raw_strings = lines;
  num_lines = length lines;
}

-- the states behind the lines of a file, and the reports
abbrev updates : CleansedLines → ℕ → ℕ → NestingState → NestingState × List Report
updates clean_lines linenum zero s = (s, [])
updates clean_lines linenum (suc n) s =
    let here = update (codes "a.h") clean_lines linenum s in
    let rest = updates clean_lines (linenum + 1) n here.0 in (rest.0, here.1 ++ rest.1)

abbrev class_lines : List Text
class_lines =
    codes "namespace a { class B : C {"
    ∷ codes " public:"
    ∷ codes "  void f() { g(); }"
    ∷ codes "  };"
    ∷ []

in_class :
    map (λ b. b.kind) (updates (of_lines class_lines) 0 3 Nesting.init).0.stack
    ≡ class_block (record {
      name = codes "B";
      is_derived = true;
      access = codes "public";
      is_struct = false;
      class_indent = 0;
      last_line = 0;
    })
      ∷ namespace (codes "a")
      ∷ []
unfolding update in_template_argument_list match search eq find group_text is_space seen_open_brace
    close_expression new_namespace new_class check_begin update_preprocessor check_end
in_class = refl

behind_class :
    map (λ r. r.message) (updates (of_lines class_lines) 0 4 Nesting.init).1
    ≡ codes "Closing brace should be aligned with beginning of class B" ∷ []
unfolding update in_template_argument_list match search eq find group_text is_space seen_open_brace
    close_expression new_namespace new_class check_begin update_preprocessor check_end
behind_class = refl

abbrev one_block : List Block
one_block = new_block 3 true false plain_block ∷ []

first_line-IsIf : IsIf (codes "#ifdef A")
unfolding match is_space
first_line-IsIf = refl

otherwise_line-IsElse : IsElse (codes "#else")
unfolding match is_space
otherwise_line-IsElse = (refl, refl)

closing_line-IsEndif : IsEndif (codes "#endif")
unfolding match is_space
closing_line-IsEndif = (refl, (refl, refl))

abbrev entered : NestingState
entered = update_preprocessor (codes "#ifdef A") Nesting.init

abbrev first_branch : NestingState
first_branch = record entered { stack = one_block }

first_branch-Region : Region entered first_branch
first_branch-Region = restack nothing one_block

abbrev otherwise : NestingState
otherwise = update_preprocessor (codes "#else") first_branch

abbrev conditional_lines : CleansedLines
conditional_lines = of_lines (
    codes "#ifdef A"
    ∷ codes "struct B {"
    ∷ codes "#else"
    ∷ codes "struct B : C {"
    ∷ codes "#endif"
    ∷ [])

struct_line-IsPlain : IsPlain (codes "struct B {")
unfolding match is_space
struct_line-IsPlain = (refl, (refl, refl))

derived_line-IsPlain : IsPlain (codes "struct B : C {")
unfolding match is_space
derived_line-IsPlain = (refl, (refl, refl))

conditional_lines-Nests : Nests conditional_lines 0 5
conditional_lines-Nests =
    if_endif {a = 0} {b = 0} {c = 4} no_line first_line-IsIf
      (further {a = 1} {b = 2} {c = 4}
        (first (plain_line {a = 1} {b = 1} no_line struct_line-IsPlain)) otherwise_line-IsElse
        (plain_line {a = 3} {b = 3} no_line derived_line-IsPlain))
      closing_line-IsEndif

Nests-pp_stack_example :
    (state_behind (codes "a.h") conditional_lines 5).pp_stack
    ≡ (state_behind (codes "a.h") conditional_lines 0).pp_stack
Nests-pp_stack_example = Nests-pp_stack (codes "a.h") conditional_lines 0 5 conditional_lines-Nests

else-stack_example : otherwise.stack ≡ []
else-stack_example =
    else-stack (codes "#ifdef A") (codes "#else") Nesting.init first_branch first_line-IsIf
      (branch first_branch-Region) otherwise_line-IsElse

endif-stack_example :
    ((update_preprocessor (codes "#endif") otherwise).stack ≡ one_block)
    × ((update_preprocessor (codes "#endif") otherwise).pp_stack ≡ [])
endif-stack_example =
    endif-stack (codes "#ifdef A") (codes "#else") (codes "#endif") Nesting.init first_branch
      otherwise first_line-IsIf first_branch-Region otherwise_line-IsElse (branch nothing)
      closing_line-IsEndif

abbrev body : Text
body = codes "if (a) { b; }"

body-IsNested : IsNested (tokens 20 body)
unfolding tokens match eq group_text is_space
body-IsNested =
    skip body (codes ")")
      ((codes " { b; }", codes "{") ∷ (codes " b; }", codes ";") ∷ (codes " }", codes "}") ∷ [])
      refl refl
      (braces (codes " { b; }") (codes " }") ((codes " b; }", codes ";") ∷ []) []
        (skip (codes " b; }") (codes ";") [] refl refl no_token) no_token)

one_block-seen : seen_open_brace one_block ≡ true
unfolding seen_open_brace
one_block-seen = refl

consume_braces-IsNested_example :
    (consume_braces 20 (codes "a.h") (of_lines (body ∷ [])) 0 body one_block).0 ≡ one_block
consume_braces-IsNested_example =
    consume_braces-IsNested (codes "a.h") (of_lines (body ∷ [])) 0 20 body one_block body-IsNested
      one_block-seen

consume_braces_rounds_example :
    consume_braces 20 (codes "a.h") (of_lines (body ∷ [])) 0 body one_block
    ≡ consume_braces 30 (codes "a.h") (of_lines (body ∷ [])) 0 body one_block
consume_braces_rounds_example =
    consume_braces_rounds (codes "a.h") (of_lines (body ∷ [])) 0 20 30 body one_block (omega arith)
      (omega arith)

abbrev left_blocks : List Block
left_blocks =
    new_block 5 true false plain_block ∷ new_block 3 true true (namespace (codes "a")) ∷ []

check_completed_blocks-length_example :
    length (check_completed_blocks (codes "a.h") left_blocks)
    ≡ length (keep_if is_declared left_blocks)
check_completed_blocks-length_example = check_completed_blocks-length (codes "a.h") left_blocks
