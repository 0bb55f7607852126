-- ===== src/Checks/Casts.antt =====
-- `CheckCasts`.
use deft_rpc.Base.{
  ℕ, ◌+◌, Bool, true, false, not, ◌&&◌, ◌||◌, Option, none, some, List, [], ◌∷◌, ◌++◌, ltb, ◌==◌,
  if◌then◌else◌, is_some, length, get_elem?, get_or, drop,
}
use deft_rpc.Text.{Text, codes, starts_with}
use deft_rpc.Regex.{
  Regex, char, char_if, chars, dot, group, is_word, line_start, lit, not_in, not_space, one_lit,
  optional, plus, space, star, word, word_edge, ◌│◌, ◌▹◌,
}
use deft_rpc.Regex.Notation.{one_of_chars}
use deft_rpc.Regex.{Found, search, searches, match, matches, group_of, group_text}
use deft_rpc.Lint.{Report}
use deft_rpc.Lines.{CleansedLines}
use deft_rpc.Brackets.{close_expression}
use deft_rpc.Checks.{report, when}
use deft_rpc.Checks.CStyle.{check_c_style_cast, expecting_function_args}

-- (\bnew\s+(?:const\s+)?|\S<\s*(?:const\s+)?)?\b(int|float|double|bool|char|int32|uint32|int64|uint64)(\([^)].*)
abbrev conversion : Regex
conversion =
    optional (
      group 1 (
        (word_edge ▹ lit "new" ▹ plus space ▹ optional (lit "const" ▹ plus space))
        │ (not_space ▹ char b'<' ▹ star space ▹ optional (lit "const" ▹ plus space))))
    ▹ word_edge
    ▹ group 2 (
        one_lit (
          "int" ∷ "float" ∷ "double" ∷ "bool" ∷ "char" ∷ "int32" ∷ "uint32" ∷ "int64" ∷ "uint64"
          ∷ []))
    ▹ group 3 (char b'(' ▹ not_in ")" ▹ star dot)

-- \([^()]+\)\s*\[
abbrev array_behind : Regex
array_behind = char b'(' ▹ plus (not_in "()") ▹ char b')' ▹ star space ▹ char b'['

-- \((?:[^() ]+::\s*\*\s*)?[^() ]+\)\s*\(
abbrev function_pointer : Regex
function_pointer =
    char b'('
    ▹ optional (plus (not_in "() ") ▹ lit "::" ▹ star space ▹ char b'*' ▹ star space)
    ▹ plus (not_in "() ")
    ▹ char b')'
    ▹ star space
    ▹ char b'('

-- \s*using\s+\S+\s*=\s*NAME
abbrev alias : Text → Regex
alias matched_type =
    star space
    ▹ lit "using"
    ▹ plus space
    ▹ plus not_space
    ▹ star space
    ▹ char b'='
    ▹ star space
    ▹ chars matched_type

-- new\(\S+\)\s*NAME
abbrev placement_new : Text → Regex
placement_new matched_type =
    lit "new(" ▹ plus not_space ▹ char b')' ▹ star space ▹ chars matched_type

-- \((int|float|double|bool|char|u?int(16|32|64))\)
abbrev number_type : Regex
number_type =
    char b'('
    ▹ group 1 (
        lit "int"
        │ lit "float"
        │ lit "double"
        │ lit "bool"
        │ lit "char"
        │ (optional (char b'u') ▹ lit "int" ▹ group 2 (one_lit ("16" ∷ "32" ∷ "64" ∷ []))))
    ▹ char b')'

-- \((char\s?\*+\s?)\)\s*"
abbrev string_pointer : Regex
string_pointer =
    char b'('
    ▹ group 1 (lit "char" ▹ optional space ▹ plus (char b'*') ▹ optional space)
    ▹ char b')'
    ▹ star space
    ▹ char b'"'

-- \((\w+\s?\*+\s?)\)
abbrev pointer_type : Regex
pointer_type =
    char b'(' ▹ group 1 (plus word ▹ optional space ▹ plus (char b'*') ▹ optional space) ▹ char b')'

-- (?:[^\w]&\(([^)*][^)]*)\)[\w(])|(?:[^\w]&(static|dynamic|down|reinterpret)_cast\b)
abbrev address_of_cast : Regex
address_of_cast =
    (char_if (λ c. not (is_word c))
      ▹ lit "&("
      ▹ group 1 (not_in ")*" ▹ star (not_in ")"))
      ▹ char b')'
      ▹ char_if (λ c. is_word c || one_of_chars "(" c))
    │ (char_if (λ c. not (is_word c))
        ▹ char b'&'
        ▹ group 2 (one_lit ("static" ∷ "dynamic" ∷ "down" ∷ "reinterpret" ∷ []))
        ▹ lit "_cast"
        ▹ word_edge)

-- ^(.*&(?:static|dynamic|down|reinterpret)_cast\b)<
abbrev cast_head : Regex
cast_head =
    line_start
    ▹ group 1 (
        star dot
        ▹ char b'&'
        ▹ (one_lit ("static" ∷ "dynamic" ∷ "down" ∷ "reinterpret" ∷ []))
        ▹ lit "_cast"
        ▹ word_edge)
    ▹ char b'<'

-- \s*(?:->|\[)
abbrev dereference : Regex
dereference = star space ▹ (lit "->" │ char b'[')

-- Whether the expression in parentheses at the position is dereferenced.
is_dereferenced : CleansedLines → ℕ → ℕ → Bool
is_dereferenced clean_lines y x =
    let close = close_expression clean_lines y x in
    elim close.pos [
      | none ↦ false
      | some end ↦ matches dereference (
          drop end (get_or clean_lines.elided close.linenum [])
          ++ (if ltb (close.linenum + 1) clean_lines.num_lines
              then get_or clean_lines.elided (close.linenum + 1) []
              else []))
    ]

-- parenthesis_error; `none` is the IndexError where the line ends behind the type of the cast.
unfoldable pub parenthesis_error : CleansedLines → ℕ → Option Bool
unfolding is_dereferenced
parenthesis_error clean_lines linenum =
    elim (match cast_head (get_or clean_lines.elided linenum [])) [
      | none ↦ some false
      | some m ↦
          let close = close_expression clean_lines linenum (length (group_text m 1)) in
          elim close.pos [
            | none ↦ some false
            | some x ↦ elim (get_elem? (get_or clean_lines.elided close.linenum []) x) [
              | none ↦ none
              | some c ↦ some (c == b'(' && is_dereferenced clean_lines close.linenum x)
            ]
          ]
    ]

module _ (filename : Text) (clean_lines : CleansedLines) (linenum : ℕ) where
  conversion_reports : Text → Found → List Report
  unfolding report starts_with
  conversion_reports line m =
      let matched_type = group_text m 2 in
      let matched_funcptr = group_text m 3 in
      when
        (not (is_some (group_of m 1))
          && (not (
                matches function_pointer matched_funcptr
                || starts_with (codes "(*)") matched_funcptr)
              && (not (matches (alias matched_type) line)
                  && not (searches (placement_new matched_type) line))))
        (report filename linenum (codes "readability/casting") 4 (
          codes "Using deprecated casting style.  Use static_cast<"
          ++ (matched_type ++ codes ">(...) instead")))

  c_style_reports : Bool → List Report
  c_style_reports expecting_function =
      (if expecting_function
        then []
        else elim (check_c_style_cast filename clean_lines linenum (codes "static_cast")
            number_type) [ none ↦ [] | some r ↦ r ∷ [] ])
      ++ (elim (check_c_style_cast filename clean_lines linenum (codes "const_cast")
          string_pointer) [
            | some r ↦ r ∷ []
            | none ↦
                elim (check_c_style_cast filename clean_lines linenum (codes "reinterpret_cast")
                  pointer_type) [ none ↦ [] | some r ↦ r ∷ [] ]
          ])

  address_report : Bool → Report
  unfolding report
  address_report true = report filename linenum (codes "readability/casting") 4 (
      codes "Are you taking an address of something dereferenced "
      ++ (codes "from a cast?  Wrapping the dereferenced expression in "
          ++ codes "parentheses will make the binding more obvious"))
  address_report false = report filename linenum (codes "runtime/casting") 4 (
      codes "Are you taking an address of a cast?  "
      ++ (codes "This is dangerous: could be a temp var.  "
          ++ codes "Take the address before doing the cast, rather than after"))

  address_reports : Option (List Report)
  unfolding address_report parenthesis_error
  address_reports =
      if searches address_of_cast (get_or clean_lines.elided linenum [])
      then elim (parenthesis_error clean_lines linenum) [
        | none ↦ none
        | some e ↦ some (address_report e ∷ [])
      ]
      else some []

  -- The checks behind those of conversion functions.
  cast_reports : List Report → Option (List Report)
  unfolding c_style_reports address_reports
  cast_reports reports = elim address_reports [
    | none ↦ none
    | some addresses ↦
        some
          (reports ++ (c_style_reports (expecting_function_args clean_lines linenum) ++ addresses))
  ]

  -- CheckCasts; `none` is its IndexError.
  unfoldable pub check_casts : Option (List Report)
  unfolding conversion_reports cast_reports
  check_casts =
      let line = get_or clean_lines.elided linenum [] in
      if expecting_function_args clean_lines linenum
      then cast_reports []
      else elim (search conversion line) [
        | none ↦ cast_reports []
        | some m ↦
            if matches array_behind (group_text m 3)
            then some []
            else cast_reports (conversion_reports line m)
      ]
