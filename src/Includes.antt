-- ===== src/Includes.antt =====
-- `_IncludeState` of scripts/tools/cpplint.py: the headers included so far, and the order of their
-- kinds.
pub mod Standard
pub mod Classify
pub mod Line
pub mod Order
pub mod Headers
use deft_rpc.Base.{
  ℕ, zero, suc, ◌+◌, ◌-◌, ◌*◌, ◌/◌, ◌%◌, ◌^◌, ◌≤◌, ◌<◌, min, max, ◌≡◌, refl, sym, ap, ◌∙◌, ◌≢◌, ◌↔◌,
  ◌⊎◌, inl, inr, Bool, true, false, not, ◌&&◌, ◌||◌, Option, none, some, List, [], ◌∷◌, ◌++◌, map,
  reverse, append-nil, append_assoc, arith, ltb, leb, ◌==◌, if◌then◌else◌, ltb→lt, lt→ltb, leb→le,
  leb_false→lt, ==_iff, tests, Bool-cases, Option-cases, is_some, length, get_elem?, get_or, take,
  drop, all, any, keep_if, length-append, length-take, length-drop, take-append-drop, length-map,
  All, All-append,
}
use deft_rpc.Text.{Text, codes, eq, one_of, replace, lower, less}
use deft_rpc.Regex.{Regex, ◌▹◌, char, lit, star, space, word_edge, line_start, matches}
use deft_rpc.Lines.{CleansedLines}

-- The constants _C_SYS_HEADER, …, _OTHER_HEADER.
pub data HeaderType : Type 0 where
  c_sys_header : HeaderType
  cpp_sys_header : HeaderType
  likely_my_header : HeaderType
  possible_my_header : HeaderType
  other_header : HeaderType

-- The constants _INITIAL_SECTION, …, _OTHER_H_SECTION.
pub data Section : Type 0 where
  initial_section : Section
  my_h_section : Section
  c_section : Section
  cpp_section : Section
  other_h_section : Section

-- their values
abbrev pub value : Section → ℕ
value initial_section = 0
value my_h_section = 1
value c_section = 2
value cpp_section = 3
value other_h_section = 4

type_name : HeaderType → Text
type_name c_sys_header = codes "C system header"
type_name cpp_sys_header = codes "C++ system header"
type_name likely_my_header = codes "header this file implements"
type_name possible_my_header = codes "header this file may implement"
type_name other_header = codes "other header"

section_name : Section → Text
section_name initial_section = codes "... nothing. (This can't be an error.)"
section_name my_h_section = codes "a header this file implements"
section_name c_section = codes "C system header"
section_name cpp_section = codes "C++ system header"
section_name other_h_section = codes "other header"

pub record IncludeState : Type 0 where
  pub include_list : List (List (Text × ℕ))
  pub section : Section
  pub last_header : Text

-- xs[-1] = f(xs[-1]); the list is never empty
unfoldable pub update_last {ℓ} : {A : Type ℓ} → (A → A) → List A → List A
update_last f [] = []
update_last f (x ∷ []) = f x ∷ []
update_last f (x ∷ y ∷ xs) = x ∷ update_last f (y ∷ xs)

abbrev opening_directives : List Text
opening_directives = codes "if" ∷ codes "ifdef" ∷ codes "ifndef" ∷ []

abbrev other_directives : List Text
other_directives = codes "else" ∷ codes "elif" ∷ []

-- ResetSection
unfoldable pub reset_section : Text → IncludeState → IncludeState
unfolding update_last one_of
reset_section directive s = record {
  include_list =
      if one_of directive opening_directives
      then s.include_list ++ ([] ∷ [])
      else if one_of directive other_directives
      then update_last (λ headers. []) s.include_list
      else s.include_list;
  section = initial_section;
  last_header = [];
}

-- __init__
unfoldable pub init : IncludeState
unfolding reset_section
init =
    reset_section []
      (record { include_list = [] ∷ []; section = initial_section; last_header = [] })

unfoldable pub find_in : Text → List (Text × ℕ) → Option ℕ
find_in header [] = none
find_in header (f ∷ fs) = if eq f.0 header then some f.1 else find_in header fs

unfoldable pub find_in_lists : Text → List (List (Text × ℕ)) → Option ℕ
unfolding find_in
find_in_lists header [] = none
find_in_lists header (section_list ∷ lists) = elim (find_in header section_list) [
  | some linenum ↦ some linenum
  | none ↦ find_in_lists header lists
]

-- FindHeader; `none` is -1.
unfoldable pub find_header : Text → IncludeState → Option ℕ
unfolding find_in_lists
find_header header s = find_in_lists header s.include_list

-- include_state.include_list[-1].append((include, linenum))
unfoldable pub add_header : Text → ℕ → IncludeState → IncludeState
unfolding update_last
add_header include linenum s = record s {
  include_list = update_last (λ headers. headers ++ ((include, linenum) ∷ [])) s.include_list;
}

unfoldable pub set_last_header : Text → IncludeState → IncludeState
set_last_header header_path s = record s { last_header = header_path }

-- CanonicalizeAlphabeticalOrder
unfoldable pub canonicalize : Text → Text
unfolding replace lower
canonicalize header_path =
    lower (replace (codes "-") (codes "_") (replace (codes "-inl.h") (codes ".h") header_path))

-- ^\s*#\s*include\b
abbrev include_line : Regex
include_line = line_start ▹ star space ▹ char b'#' ▹ star space ▹ lit "include" ▹ word_edge

-- elided[linenum - 1]; in Python the index -1 is the last line.
unfoldable pub line_before : List Text → ℕ → Text
line_before lines zero = get_or lines (length lines - 1) []
line_before lines (suc linenum) = get_or lines linenum []

-- IsInAlphabeticalOrder
unfoldable pub is_in_alphabetical_order : CleansedLines → ℕ → Text → IncludeState → Bool
unfolding line_before less
is_in_alphabetical_order clean_lines linenum header_path s = not (
    less header_path s.last_header && matches include_line (line_before clean_lines.elided linenum))

-- The section that a header leads to; `none` where it is out of order.
unfoldable pub next_section : HeaderType → Section → Option Section
next_section c_sys_header reached =
    if leb (value reached) (value c_section) then some c_section else none
next_section cpp_sys_header reached =
    if leb (value reached) (value cpp_section) then some cpp_section else none
next_section likely_my_header reached =
    if leb (value reached) (value my_h_section) then some my_h_section else some other_h_section
next_section possible_my_header reached =
    if leb (value reached) (value my_h_section) then some my_h_section else some other_h_section
next_section other_header reached = some other_h_section

-- CheckNextIncludeOrder
unfoldable pub check_next_include_order : HeaderType → IncludeState → IncludeState × Text
unfolding next_section type_name section_name
check_next_include_order header_type s = elim (next_section header_type s.section) [
  | none ↦ (
    record s { last_header = [] },
    codes "Found " ++ (type_name header_type ++ (codes " after " ++ section_name s.section)),
  )
  | some reached ↦ (
    record s {
      section = reached;
      last_header = if value s.section == value reached then s.last_header else [];
    },
    [],
  )
]
