-- ===== src/Tests/Tracking.antt =====
-- The states that are kept along the lines: functions and includes.
use deft_rpc.Base.{
  ◌≤◌, ◌≡◌, refl, ◌⊎◌, true, false, none, some, List, [], ◌∷◌, map, arith, if◌then◌else◌, length,
  all,
}
use deft_rpc.Text.{Text, codes, eq, is_space, rstrip}
use deft_rpc.Regex.{match, search, group_text}
use deft_rpc.Lines.{CleansedLines}
use deft_rpc.Functions
use deft_rpc.Functions.{
  FunctionState, begin, end, check, starting_func, find_body, check_for_function_lengths,
  error_level, last_word,
}
use deft_rpc.Functions.Counting.{check_lines, within, AllInner, IsEnd, code_lines, check_function}
use deft_rpc.Includes.{
  HeaderType, c_sys_header, cpp_sys_header, likely_my_header, possible_my_header, other_header,
  value, init, find_header, add_header, reset_section, check_next_include_order, canonicalize,
}
use deft_rpc.Includes.Headers.{IsOpen, find_header-add_header}
use deft_rpc.Includes.Order.{is_empty, messages, in_order, messages-in_order, check_next-value}

abbrev of_lines : List Text → CleansedLines
of_lines lines = record {
  elided = lines;
  lines = lines;
  raw_lines = lines;
  lines_without_raw_strings = lines;
  num_lines = length lines;
}

abbrev function_lines : List Text
function_lines =
    codes "int f(int a) {" ∷ codes "  g();" ∷ codes "" ∷ codes "  h();" ∷ codes "}" ∷ []

levels : error_level 250 251 ∷ error_level 250 500 ∷ error_level 400 99999 ∷ [] ≡ 0 ∷ 1 ∷ 5 ∷ []
unfolding error_level
levels = refl

starts :
    map starting_func (
      codes "int f(int a) {" ∷ codes "TEST(A, b) {" ∷ codes "DEFINE(a) {" ∷ codes "  if (a) {" ∷ [])
    ≡ true ∷ true ∷ false ∷ false ∷ []
unfolding starting_func match eq group_text is_space rstrip
starts = refl

function_lines-starts : starting_func (codes "int f(int a) {") ≡ true
unfolding starting_func match eq group_text is_space rstrip
function_lines-starts = refl

function_lines-body :
    find_body (codes "int f(int a) {") [] function_lines ≡ Functions.opened (codes "f()")
unfolding find_body search match eq group_text is_space rstrip
function_lines-body = refl

function_lines-AllInner : AllInner function_lines 1 3
unfolding starting_func match eq group_text is_space rstrip
function_lines-AllInner = ((refl, refl), ((refl, refl), ((refl, refl), tt)))

function_lines-IsEnd : IsEnd (codes "}")
unfolding starting_func match eq group_text is_space rstrip
function_lines-IsEnd = (refl, refl)

check_function_example :
    check_lines 0 (codes "a.cc") (of_lines function_lines) 0 5 Functions.init ≡ (
      end (within (codes "f()") (code_lines function_lines 1 3)),
      check 0 (codes "a.cc") 4 (within (codes "f()") (code_lines function_lines 1 3)),
    )
check_function_example =
    check_function 0 (codes "a.cc") (of_lines function_lines) 0 3 Functions.init (codes "f()")
      function_lines-starts function_lines-body function_lines-AllInner function_lines-IsEnd

abbrev kinds : List HeaderType
kinds = likely_my_header ∷ c_sys_header ∷ cpp_sys_header ∷ possible_my_header ∷ other_header ∷ []

ordered : in_order kinds ∷ in_order (cpp_sys_header ∷ c_sys_header ∷ []) ∷ [] ≡ true ∷ false ∷ []
unfolding in_order
ordered = refl

late_c :
    messages (other_header ∷ c_sys_header ∷ []) init
    ≡ [] ∷ codes "Found C system header after other header" ∷ []
unfolding messages check_next_include_order init
late_c = refl

messages-in_order_example :
    all is_empty (messages kinds (reset_section (codes "if") init)) ≡ in_order kinds
messages-in_order_example = messages-in_order (codes "if") init kinds

check_next-value_example :
    (value init.section ≤ value (check_next_include_order c_sys_header init).0.section)
    × ((is_empty (check_next_include_order c_sys_header init).1 ≡ true)
        ⊎ ((check_next_include_order c_sys_header init).0.section ≡ init.section))
check_next-value_example = check_next-value c_sys_header init

init-IsOpen : IsOpen init
unfolding init
init-IsOpen = omega arith

find_header-add_header_example :
    find_header (codes "a.h") (add_header (codes "a.h") 3 init)
    ≡ elim (find_header (codes "a.h") init) [
      | some linenum ↦ some linenum
      | none ↦ if eq (codes "a.h") (codes "a.h") then some 3 else none
    ]
find_header-add_header_example =
    find_header-add_header (codes "a.h") 3 (codes "a.h") init init-IsOpen

canonical : canonicalize (codes "Foo-bar-inl.h") ≡ codes "foo_bar.h"
unfolding canonicalize
canonical = refl
