-- ===== src/Nesting.antt =====
-- The nested blocks of scripts/tools/cpplint.py: `_BlockInfo` with its subclasses, `_PreprocessorInfo`
-- and `NestingState`. A stack is a list with its top first.
pub mod Checks
pub mod Template
pub mod Update
pub mod Preprocessor
pub mod Completed
use deft_rpc.Base.{
  ℕ, zero, suc, ◌+◌, ◌-◌, ◌*◌, ◌/◌, ◌%◌, ◌^◌, ◌≤◌, ◌<◌, min, max, ◌≡◌, refl, sym, ap, ◌∙◌, ◌≢◌, ◌↔◌,
  ◌⊎◌, inl, inr, Bool, true, false, not, ◌&&◌, ◌||◌, Option, none, some, List, [], ◌∷◌, ◌++◌, map,
  reverse, append-nil, append_assoc, arith, ltb, leb, ◌==◌, if◌then◌else◌, ltb→lt, lt→ltb, leb→le,
  leb_false→lt, ==_iff, tests, Bool-cases, Option-cases, is_some, length, get_elem?, get_or, take,
  drop, all, any, keep_if, length-append, length-take, length-drop, take-append-drop, length-map,
  All, All-append,
}
use deft_rpc.Text.{Text, codes, count}
use deft_rpc.Regex.{
  Regex, ◌▹◌, ◌│◌, char, lit, one_lit, in_set, star, plus, optional, space, not_space, group,
  word_edge, line_start, match, matches, group_text,
}
use deft_rpc.Lines.{CleansedLines}
use deft_rpc.Lint.{Report}

-- The constants _NO_ASM, …, _BLOCK_ASM.
pub data InlineAsm : Type 0 where
  no_asm : InlineAsm
  inside_asm : InlineAsm
  end_asm : InlineAsm
  block_asm : InlineAsm

-- what _ClassInfo has beyond a block
pub record ClassInfo : Type 0 where
  pub name : Text
  pub is_derived : Bool
  pub access : Text
  pub is_struct : Bool
  pub class_indent : ℕ
  pub last_line : ℕ

-- the class of the object: _BlockInfo, _ExternCInfo, _ClassInfo or _NamespaceInfo
pub data Kind : Type 0 where
  plain_block : Kind
  extern_c : Kind
  class_block : ClassInfo → Kind
  namespace : Text → Kind

-- `open_parentheses` may be negative: it is the difference of the two counts.
pub record Block : Type 0 where
  pub starting_linenum : ℕ
  pub seen_open_brace : Bool
  pub opened_parentheses : ℕ
  pub closed_parentheses : ℕ
  pub inline_asm : InlineAsm
  pub check_namespace_indentation : Bool
  pub kind : Kind

-- _BlockInfo.__init__, with `check_namespace_indentation` as the subclasses set it
abbrev pub new_block : ℕ → Bool → Bool → Kind → Block
new_block linenum seen_open_brace check_namespace_indentation kind = record {
  starting_linenum = linenum;
  seen_open_brace = seen_open_brace;
  opened_parentheses = 0;
  closed_parentheses = 0;
  inline_asm = no_asm;
  check_namespace_indentation = check_namespace_indentation;
  kind = kind;
}

-- _PreprocessorInfo
pub record PreprocessorInfo : Type 0 where
  pub stack_before_if : List Block
  pub stack_before_else : List Block
  pub seen_else : Bool

-- `previous_stack_top` is the top as it was before the line.
pub record NestingState : Type 0 where
  pub stack : List Block
  pub previous_stack_top : Option Block
  pub pp_stack : List PreprocessorInfo

-- __init__
abbrev pub init : NestingState
init = record { stack = []; previous_stack_top = none; pp_stack = [] }

abbrev pub is_class : Kind → Bool
is_class (class_block info) = true
is_class _ = false

abbrev pub is_namespace : Kind → Bool
is_namespace (namespace name) = true
is_namespace _ = false

abbrev pub is_extern_c : Kind → Bool
is_extern_c extern_c = true
is_extern_c _ = false

abbrev pub is_no_asm : InlineAsm → Bool
is_no_asm no_asm = true
is_no_asm _ = false

-- a test on the top of the stack, with the answer for an empty one
abbrev pub on_top : Bool → (Block → Bool) → List Block → Bool
on_top empty test [] = empty
on_top empty test (b ∷ stack) = test b

unfoldable pub seen_open_brace : List Block → Bool
seen_open_brace = on_top true (λ b. b.seen_open_brace)

unfoldable pub in_namespace_body : NestingState → Bool
in_namespace_body s = on_top false (λ b. is_namespace b.kind) s.stack

unfoldable pub in_extern_c : NestingState → Bool
in_extern_c s = on_top false (λ b. is_extern_c b.kind) s.stack

unfoldable pub in_class_declaration : NestingState → Bool
in_class_declaration s = on_top false (λ b. is_class b.kind) s.stack

unfoldable pub in_asm_block : NestingState → Bool
in_asm_block s = on_top false (λ b. not (is_no_asm b.inline_asm)) s.stack

-- InnermostClass
unfoldable pub innermost_class : List Block → Option Block
innermost_class [] = none
innermost_class (b ∷ stack) = if is_class b.kind then some b else innermost_class stack

-- ^\s*#\s*(if|ifdef|ifndef)\b and the like
abbrev pub directive : Regex → Regex
directive names = line_start ▹ star space ▹ char b'#' ▹ star space ▹ names ▹ word_edge

abbrev pub if_line : Regex
if_line = directive (group 1 (one_lit ("if" ∷ "ifdef" ∷ "ifndef" ∷ [])))

abbrev pub else_line : Regex
else_line = directive (group 1 (one_lit ("else" ∷ "elif" ∷ [])))

abbrev pub endif_line : Regex
endif_line = directive (lit "endif")

-- The branch for #if.
unfoldable pub enter_if : NestingState → NestingState
enter_if s = record s {
  pp_stack =
      record { stack_before_if = s.stack; stack_before_else = []; seen_else = false } ∷ s.pp_stack;
}

-- The branch for #else and #elif.
enter_else_from : List PreprocessorInfo → NestingState → NestingState
enter_else_from [] s = s
enter_else_from (p ∷ pps) s = record s {
  stack = p.stack_before_if;
  pp_stack =
      (if p.seen_else then p else record p { stack_before_else = s.stack; seen_else = true }) ∷ pps;
}

unfoldable pub enter_else : NestingState → NestingState
unfolding enter_else_from
enter_else s = enter_else_from s.pp_stack s

-- The branch for #endif.
leave_if_from : List PreprocessorInfo → NestingState → NestingState
leave_if_from [] s = s
leave_if_from (p ∷ pps) s = record s {
  stack = if p.seen_else then p.stack_before_else else s.stack;
  pp_stack = pps;
}

unfoldable pub leave_if : NestingState → NestingState
unfolding leave_if_from
leave_if s = leave_if_from s.pp_stack s

-- UpdatePreprocessor
unfoldable pub update_preprocessor : Text → NestingState → NestingState
unfolding enter_if enter_else leave_if
update_preprocessor line s =
    if matches if_line line
    then enter_if s
    else if matches else_line line
    then enter_else s
    else if matches endif_line line
    then leave_if s
    else s

-- The reports of CheckCompletedBlocks, for one block.
unfoldable pub incomplete : Text → Block → List Report
incomplete filename b = elim b.kind [
  | plain_block ↦ []
  | extern_c ↦ []
  | class_block info ↦
      record {
        filename = filename;
        linenum = b.starting_linenum;
        category = codes "build/class";
        confidence = 5;
        message = codes "Failed to find complete declaration of class " ++ info.name;
      }
      ∷ []
  | namespace name ↦
      record {
        filename = filename;
        linenum = b.starting_linenum;
        category = codes "build/namespaces";
        confidence = 5;
        message = codes "Failed to find complete declaration of namespace " ++ name;
      }
      ∷ []
]

-- CheckCompletedBlocks; the blocks are visited from the bottom of the stack up.
unfoldable pub check_completed_blocks : Text → List Block → List Report
unfolding incomplete
check_completed_blocks filename [] = []
check_completed_blocks filename (b ∷ stack) =
    check_completed_blocks filename stack ++ incomplete filename b
