-- ===== src/Checks/Features.antt =====
-- `CheckPrintf`, `CheckMakePairUsesDeduction`, `FlagCxx11Features`, `FlagCxx14Features`, and what
-- the check of the indentation in namespaces calls: `IsBlockInNameSpace`,
-- `ShouldCheckNamespaceIndentation` and `CheckItemIndentationInNamespace`.
use deft_rpc.Base.{
  ℕ, Bool, false, not, ◌&&◌, ◌||◌, none, some, List, [], ◌∷◌, ◌++◌, map, if◌then◌else◌, get_or,
}
use deft_rpc.Text.{Text, codes, eq, one_of, starts_with}
use deft_rpc.Regex.{
  Regex, char, char_if, chars, group, in_range, in_set, line_start, lit, not_in, plus, space, star,
  word_edge, ◌│◌, ◌▹◌,
}
use deft_rpc.Regex.{chars, search, searches, match, matches, group_text}
use deft_rpc.Lint.{Report}
use deft_rpc.Lines.{CleansedLines}
use deft_rpc.Nesting.{Block, is_namespace}
use deft_rpc.Checks.{report, when}
use deft_rpc.Checks.WholeFile.{is_macro_definition, is_forward_class_declaration}

-- snprintf\s*\(([^,]*),\s*([0-9]*)\s*,
abbrev snprintf_call : Regex
snprintf_call =
    lit "snprintf"
    ▹ star space
    ▹ char b'('
    ▹ group 1 (star (not_in ","))
    ▹ char b','
    ▹ star space
    ▹ group 2 (star (char_if (λ c. in_range b'0' b'9' c)))
    ▹ star space
    ▹ char b','

-- \bsprintf\s*\(
abbrev sprintf_call : Regex
sprintf_call = word_edge ▹ lit "sprintf" ▹ star space ▹ char b'('

-- \b(strcpy|strcat)\s*\(
abbrev copy_call : Regex
copy_call = word_edge ▹ group 1 (lit "strcpy" │ lit "strcat") ▹ star space ▹ char b'('

-- CheckPrintf
unfoldable pub check_printf : Text → CleansedLines → ℕ → List Report
unfolding report eq
check_printf filename clean_lines linenum =
    let line = get_or clean_lines.elided linenum [] in
    (elim (search snprintf_call line) [
      | none ↦ []
      | some m ↦ when (not (eq (group_text m 2) (codes "0"))) (
          report filename linenum (codes "runtime/printf") 3 (
            codes "If you can, use sizeof("
            ++ (group_text m 1
                ++ (codes ") instead of "
                    ++ (group_text m 2 ++ codes " as the 2nd arg to snprintf.")))))
    ])
    ++ (when (searches sprintf_call line) (
          report filename linenum (codes "runtime/printf") 5
            (codes "Never use sprintf. Use snprintf instead."))
        ++ (elim (search copy_call line) [
          | none ↦ []
          | some m ↦
              report filename linenum (codes "runtime/printf") 4
                (codes "Almost always, snprintf is better than " ++ group_text m 1)
              ∷ []
        ]))

-- \bmake_pair\s*<
abbrev explicit_makepair : Regex
explicit_makepair = word_edge ▹ lit "make_pair" ▹ star space ▹ char b'<'

-- CheckMakePairUsesDeduction
unfoldable pub check_make_pair_uses_deduction : Text → CleansedLines → ℕ → List Report
unfolding report
check_make_pair_uses_deduction filename clean_lines linenum =
    when (searches explicit_makepair (get_or clean_lines.elided linenum [])) (
      report filename linenum (codes "build/explicit_make_pair") 4 (
        codes "For C++11-compatibility, omit template arguments from make_pair"
        ++ codes " OR use pair directly OR if appropriate, construct a pair directly"))

-- \s*#\s*include\s+[<"]([^<"]+)[">]
abbrev include_name : Regex
include_name =
    star space
    ▹ char b'#'
    ▹ star space
    ▹ lit "include"
    ▹ plus space
    ▹ in_set "<\""
    ▹ group 1 (plus (not_in "<\""))
    ▹ in_set "\">"

-- \s*#
abbrev directive : Regex
directive = star space ▹ char b'#'

-- \s*#\s*define\b
abbrev define_directive : Regex
define_directive = star space ▹ char b'#' ▹ star space ▹ lit "define" ▹ word_edge

-- \bstd::NAME\b
abbrev std_name : Text → Regex
std_name top_name = word_edge ▹ lit "std::" ▹ chars top_name ▹ word_edge

abbrev unapproved_headers : List Text
unapproved_headers = map codes (
    "cfenv" ∷ "condition_variable" ∷ "fenv.h" ∷ "future" ∷ "mutex" ∷ "thread" ∷ "chrono" ∷ "ratio"
    ∷ "regex" ∷ "system_error" ∷ [])

abbrev unapproved_names : List Text
unapproved_names = map codes ("alignment_of" ∷ "aligned_union" ∷ [])

module _ (filename : Text) (linenum : ℕ) where
  header_reports : Text → List Report
  unfolding report starts_with one_of
  header_reports include =
      when (starts_with (codes "tr1/") include) (
        report filename linenum (codes "build/c++tr1") 5
          (codes "C++ TR1 headers such as <" ++ (include ++ codes "> are unapproved.")))
      ++ when (one_of include unapproved_headers) (
          report filename linenum (codes "build/c++11") 5
            (b'<' ∷ (include ++ codes "> is an unapproved C++11 header.")))

  name_reports : Text → List Text → List Report
  unfolding report
  name_reports line [] = []
  name_reports line (top_name ∷ names) =
      when (searches (std_name top_name) line) (
        report filename linenum (codes "build/c++11") 5 (
          codes "std::"
          ++ (top_name
              ++ (codes " is an unapproved C++11 class or function.  Send c-style "
                  ++ (codes "an example of where it would make your code more readable, and "
                      ++ codes "they may let you use it.")))))
      ++ name_reports line names

  -- FlagCxx11Features
  unfoldable pub flag_cxx11_features : CleansedLines → List Report
  unfolding header_reports name_reports
  flag_cxx11_features clean_lines =
      let line = get_or clean_lines.elided linenum [] in
      (elim (match include_name line) [ none ↦ [] | some m ↦ header_reports (group_text m 1) ])
      ++ (if matches directive line && not (matches define_directive line)
          then []
          else name_reports line unapproved_names)

  -- FlagCxx14Features
  unfoldable pub flag_cxx14_features : CleansedLines → List Report
  unfolding report one_of
  flag_cxx14_features clean_lines =
      elim (match include_name (get_or clean_lines.elided linenum [])) [
        | none ↦ []
        | some m ↦
            when (one_of (group_text m 1) (codes "scoped_allocator" ∷ codes "shared_mutex" ∷ [])) (
              report filename linenum (codes "build/c++14") 5
                (b'<' ∷ (group_text m 1 ++ codes "> is an unapproved C++14 header.")))
      ]

-- IsBlockInNameSpace
unfoldable pub is_block_in_name_space : List Block → Bool → Bool
is_block_in_name_space [] is_forward_declaration = false
is_block_in_name_space (b ∷ []) is_forward_declaration =
    is_forward_declaration && is_namespace b.kind
is_block_in_name_space (b ∷ outer ∷ stack) is_forward_declaration =
    if is_forward_declaration
    then is_namespace b.kind
    else b.check_namespace_indentation && is_namespace outer.kind

-- ShouldCheckNamespaceIndentation
unfoldable pub should_check_namespace_indentation : List Block → Bool → List Text → ℕ → Bool
unfolding is_block_in_name_space
should_check_namespace_indentation stack is_namespace_indent_item raw_lines_no_comments linenum =
    let is_forward_declaration = is_forward_class_declaration raw_lines_no_comments linenum in
    (is_namespace_indent_item || is_forward_declaration)
    && (not (is_macro_definition raw_lines_no_comments linenum)
        && is_block_in_name_space stack is_forward_declaration)

-- ^\s+
abbrev indented : Regex
indented = line_start ▹ plus space

-- CheckItemIndentationInNamespace
unfoldable pub check_item_indentation_in_namespace : Text → List Text → ℕ → List Report
unfolding report
check_item_indentation_in_namespace filename raw_lines_no_comments linenum =
    when (matches indented (get_or raw_lines_no_comments linenum [])) (
      report filename linenum (codes "runtime/indentation_namespace") 4
        (codes "Do not indent within a namespace"))
