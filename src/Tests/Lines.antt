-- ===== src/Tests/Lines.antt =====
-- Checks of single lines.
use deft_rpc.Base.{◌≡◌, refl, true, false, none, some, List, [], ◌∷◌, map, length}
use deft_rpc.Text
use deft_rpc.Text.{Text, codes, one_of}
use deft_rpc.Regex
use deft_rpc.Lint.{Report}
use deft_rpc.Lines.{CleansedLines, cleansed_lines}
use deft_rpc.Settings.{default_settings}
use deft_rpc.Paths.{Disk}
use deft_rpc.Nesting
use deft_rpc.Brackets
use deft_rpc.Checks
use deft_rpc.Checks.WholeFile.{check_for_copyright, check_posix_threading}
use deft_rpc.Checks.Comments.{check_comment}
use deft_rpc.Checks.Operators.{check_operator_spacing}
use deft_rpc.Checks.Constructs.{constructor_args, constructor_reports}
use deft_rpc.Checks.Constructs.Arguments.{Outcome, constructor_args-Outcome}
use deft_rpc.Checks.Macros.{check_check}
use deft_rpc.Checks.Braces.{check_braces}
use deft_rpc.Checks.Bodies.{check_empty_block_body}
use deft_rpc.Checks.Style.{Unicode, style_reports}
use deft_rpc.Checks.Inheritance.{
  check_redundant_virtual, check_redundant_override_or_final, is_derived_function,
  is_out_of_line_method_definition, is_initializer_list,
}
use deft_rpc.Checks.Casts.{check_casts}
use deft_rpc.Checks.References.{check_for_non_const_reference, joined_line}
use deft_rpc.Checks.Features.{check_printf, flag_cxx11_features}

-- Lines that are their own cleansed copies.
abbrev plain : List Text → CleansedLines
plain lines = record {
  elided = lines;
  lines = lines;
  raw_lines = lines;
  lines_without_raw_strings = lines;
  num_lines = length lines;
}

abbrev messages : List Report → List Text
messages = map (λ r. r.message)

abbrev name : Text
name = codes "a.cc"

comma_in_brackets :
    constructor_args (codes "map<int, int> m, int n")
    ≡ some (codes "map<int, int> m" ∷ codes " int n" ∷ [])
unfolding constructor_args
comma_in_brackets = refl

-- A default argument with `<` leaves the loop without a next argument.
less_than_argument : constructor_args (codes "bool b = x < y") ≡ none
unfolding constructor_args
less_than_argument = refl

constructor_args-Outcome_example :
    Outcome (codes "map<int, int> m, int n") (constructor_args (codes "map<int, int> m, int n"))
constructor_args-Outcome_example = constructor_args-Outcome (codes "map<int, int> m, int n")

explicit_constructor :
    constructor_reports name 3 (codes "  Foo(int a, int b = 2);") (codes "Foo")
    ≡ some (
        Checks.report name 3
          (codes "runtime/explicit")
          5
          (codes "Constructors callable with one argument should be marked explicit.")
        ∷ [])
unfolding constructor_reports Regex.match Regex.group_text Regex.search
explicit_constructor = refl

comment_spaces :
    messages (check_comment name 0 (codes "int a; //x") 0)
    ≡ codes "At least two spaces is best between code and comments"
      ∷ codes "Should have a space between // and comment"
      ∷ []
unfolding check_comment Regex.replace_all Regex.match Text.is_space
comment_spaces = refl

operators :
    messages (check_operator_spacing name (plain (codes "a=b; operator++ (c); d<<e;" ∷ [])) 0)
    ≡ codes "Missing spaces around =" ∷ codes "Missing spaces around <<" ∷ []
unfolding check_operator_spacing Regex.search Regex.match Text.is_space Regex.group_text
operators = refl

comparison_in_macro :
    messages (check_check name (plain (codes "  CHECK(f(x) == 42);" ∷ [])) 0)
    ≡ codes "Consider using CHECK_EQ instead of CHECK(a == b)" ∷ []
unfolding check_check Regex.match Brackets.close_expression Regex.group_text
comparison_in_macro = refl

else_with_brace :
    messages (
      check_braces length 80 name 1 (plain (codes "if (a) {" ∷ codes "} else" ∷ codes "  b;" ∷ [])))
    ≡ codes "If an else has a brace on one side, it should have it on both" ∷ []
unfolding check_braces Regex.match Text.is_space Regex.search
else_with_brace = refl

empty_if :
    messages
      (check_empty_block_body name (plain (codes "if (a) {" ∷ codes "}" ∷ codes "b;" ∷ [])) 0)
    ≡ codes "If statement had no body and no else clause" ∷ []
unfolding check_empty_block_body Regex.match Brackets.close_expression Regex.group_text Regex.search
    deft_rpc.Lines.Comments.cleanse_comments Regex.replace_all
empty_if = refl

no_copyright :
    map
      (λ lines. length (check_for_copyright name lines))
      ((codes "// marker" ∷ codes "// COPYRIGHT 2020" ∷ [])
        ∷ (codes "// marker" ∷ codes "int a;" ∷ [])
        ∷ [])
    ≡ 0 ∷ 1 ∷ []
unfolding check_for_copyright Regex.search
no_copyright = refl

thread_safety :
    messages (check_posix_threading name (plain (codes "x = rand();" ∷ [])) 0)
    ≡ codes "Consider using rand_r(...) instead of rand(...) for improved thread safety." ∷ []
unfolding check_posix_threading Regex.search Text.is_space
thread_safety = refl

abbrev ascii : Unicode
ascii = record { normalize = λ s. s; is_wide = λ c. false; is_combining = λ c. false }

abbrev no_disk : Disk
no_disk = record { cwd = codes "/w"; exists = λ p. false }

abbrev virtual_lines : CleansedLines
virtual_lines = plain (codes "" ∷ codes "  virtual void F(" ∷ codes "  int a) override;" ∷ [])

redundant_virtual :
    messages (check_redundant_virtual name 1 virtual_lines)
    ≡ codes "\"virtual\" is redundant since function is already declared as \"override\"" ∷ []
unfolding check_redundant_virtual Brackets.close_expression Regex.match Regex.search
    Regex.group_text Text.is_space
redundant_virtual = refl

derived : is_derived_function virtual_lines 2 ≡ true
unfolding is_derived_function Brackets.close_expression Regex.match Regex.group_text Regex.search
derived = refl

out_of_line :
    is_out_of_line_method_definition (plain (codes "void A::F(" ∷ codes "  int a) {" ∷ [])) 1 ≡ true
unfolding is_out_of_line_method_definition Regex.match
out_of_line = refl

in_initializers :
    is_initializer_list
      (plain (codes "" ∷ codes "A::A()" ∷ codes "  : a_(1)," ∷ codes "    b_(2)" ∷ []))
      3
    ≡ true
unfolding is_initializer_list Regex.search Regex.match Text.is_space
in_initializers = refl

override_and_final :
    length
      (check_redundant_override_or_final name (plain (codes "void F() override final;" ∷ [])) 0)
    ≡ 1
unfolding check_redundant_override_or_final Regex.search
override_and_final = refl

snprintf_size :
    messages (check_printf name (plain (codes "snprintf(buf, 10, s);" ∷ [])) 0)
    ≡ codes "If you can, use sizeof(buf) instead of 10 as the 2nd arg to snprintf." ∷ []
unfolding check_printf Regex.search Text.is_space Regex.group_text
snprintf_size = refl

thread_header :
    messages (flag_cxx11_features name 0 (plain (codes "#include <thread>" ∷ [])))
    ≡ codes "<thread> is an unapproved C++11 header." ∷ []
unfolding flag_cxx11_features Regex.match Text.is_space Regex.group_text
thread_header = refl

old_cast :
    check_casts name (plain (codes "" ∷ codes "x = int(y);" ∷ [])) 1
    ≡ some (
        Checks.report name 1
          (codes "readability/casting")
          4
          (codes "Using deprecated casting style.  Use static_cast<int>(...) instead")
        ∷ [])
unfolding check_casts deft_rpc.Checks.CStyle.expecting_function_args Regex.match Text.is_space
    Regex.search Regex.group_text deft_rpc.Checks.CStyle.check_c_style_cast
old_cast = refl

pointer_cast :
    check_casts name (plain (codes "" ∷ codes "x = (Foo*)y;" ∷ [])) 1
    ≡ some (
        Checks.report name 1
          (codes "readability/casting")
          4
          (codes "Using C-style cast.  Use reinterpret_cast<Foo*>(...) instead")
        ∷ [])
unfolding check_casts deft_rpc.Checks.CStyle.expecting_function_args Regex.match Text.is_space
    Regex.search deft_rpc.Checks.CStyle.check_c_style_cast Regex.group_text
pointer_cast = refl

-- A line that ends behind the type of a cast whose address is taken has no next character.
cut_cast : check_casts name (plain (codes "f(x, &static_cast<int*>" ∷ codes "(y));" ∷ [])) 0 ≡ none
unfolding check_casts deft_rpc.Checks.CStyle.expecting_function_args Regex.match Text.is_space
    Regex.search Brackets.close_expression Regex.group_text
cut_cast = refl

references_of :
    messages (
      check_for_non_const_reference name 1
        (plain (codes "" ∷ codes "void F(int& a, const B& b);" ∷ []))
        Nesting.init)
    ≡ codes "Is this a non-const reference? If so, make const or use a pointer: int& a" ∷ []
unfolding check_for_non_const_reference is_derived_function Regex.match Brackets.close_expression
    Regex.group_text Regex.search is_out_of_line_method_definition is_initializer_list
    Regex.replace_all
references_of = refl

swap_allowed :
    check_for_non_const_reference name 1
      (plain (codes "" ∷ codes "void swap(A& a, A& b);" ∷ []))
      Nesting.init
    ≡ []
unfolding check_for_non_const_reference is_derived_function Regex.match Brackets.close_expression
    Regex.group_text Regex.search is_out_of_line_method_definition is_initializer_list
swap_allowed = refl

split_type :
    joined_line (plain (codes "" ∷ codes "" ∷ codes "const Foo" ∷ codes "  ::B &c" ∷ [])) 3
    ≡ codes "const Foo::B &c"
unfolding joined_line Regex.match Regex.search Regex.group_text
split_type = refl

-- A lambda with `return` in its body may have two commands on its line.
one_line_lambda :
    style_reports default_settings no_disk ascii name 1
      (plain (codes "" ∷ codes "f([]() { int a = 1; return a; });" ∷ []))
      (codes "cc")
    ≡ []
unfolding style_reports Regex.search Regex.match
one_line_lambda = refl
