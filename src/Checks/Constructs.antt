-- ===== src/Checks/Constructs.antt =====
-- `CheckForNonStandardConstructs`.
pub mod Arguments
use deft_rpc.Base.{
  ℕ, zero, suc, ◌+◌, ◌-◌, ◌*◌, ◌/◌, ◌%◌, ◌^◌, ◌≤◌, ◌<◌, min, max, ◌≡◌, refl, sym, ap, ◌∙◌, ◌≢◌, ◌↔◌,
  ◌⊎◌, inl, inr, Bool, true, false, not, ◌&&◌, ◌||◌, Option, none, some, List, [], ◌∷◌, ◌++◌, map,
  reverse, append-nil, append_assoc, arith, ltb, leb, ◌==◌, if◌then◌else◌, ltb→lt, lt→ltb, leb→le,
  leb_false→lt, ==_iff, tests, Bool-cases, Option-cases, is_some, length, get_elem?, get_or, take,
  drop, all, any, keep_if, length-append, length-take, length-drop, take-append-drop, length-map,
  All, All-append,
}
use Prim.Native.String.{String}
use deft_rpc.Text.{Text, codes, eq, find, count, replace, split, strip}
use deft_rpc.Regex.{
  Regex, char, char_if, chars, digit, dot, group, in_set, is_word, line_start, lit, not_in, one_lit,
  optional, plus, space, star, word, word_edge, ◌│◌, ◌▹◌,
}
use deft_rpc.Regex.Notation.{one_of_chars}
use deft_rpc.Text.{is_space}
use deft_rpc.Regex.{Found, match, matches, searches, group_text, group_of, chars}
use deft_rpc.Lint.{Report}
use deft_rpc.Lines.{CleansedLines}
use deft_rpc.Nesting.{Block, Kind, class_block, innermost_class}
use deft_rpc.Checks.{report, when}

-- printf\s*\(.*".*%[-+ ]?\d*q
abbrev quad_format : Regex
quad_format =
    lit "printf"
    ▹ star space
    ▹ char b'('
    ▹ star dot
    ▹ char b'"'
    ▹ star dot
    ▹ char b'%'
    ▹ optional (in_set "-+ ")
    ▹ star digit
    ▹ char b'q'

-- printf\s*\(.*".*%\d+\$
abbrev positional_format : Regex
positional_format =
    lit "printf"
    ▹ star space
    ▹ char b'('
    ▹ star dot
    ▹ char b'"'
    ▹ star dot
    ▹ char b'%'
    ▹ plus digit
    ▹ char b'$'

-- ("|\').*\\(%|\[|\(|{)
abbrev bad_escape : Regex
bad_escape =
    group 1 (char b'"' │ char b'\'')
    ▹ star dot
    ▹ char b'\\'
    ▹ group 2 (one_lit ("%" ∷ "[" ∷ "(" ∷ "{" ∷ []))

-- \b(const|volatile|void|char|short|int|long|float|double|signed|unsigned|schar|u?int8|u?int16|u?int32|u?int64)\s+(register|static|extern|typedef)\b
abbrev late_storage : Regex
late_storage =
    word_edge
    ▹ group 1 (
        lit "const"
        │ lit "volatile"
        │ lit "void"
        │ lit "char"
        │ lit "short"
        │ lit "int"
        │ lit "long"
        │ lit "float"
        │ lit "double"
        │ lit "signed"
        │ lit "unsigned"
        │ lit "schar"
        │ (optional (char b'u') ▹ lit "int8")
        │ (optional (char b'u') ▹ lit "int16")
        │ (optional (char b'u') ▹ lit "int32")
        │ (optional (char b'u') ▹ lit "int64"))
    ▹ plus space
    ▹ group 2 (one_lit ("register" ∷ "static" ∷ "extern" ∷ "typedef" ∷ []))
    ▹ word_edge

-- \s*#\s*endif\s*[^/\s]+
abbrev endif_text : Regex
endif_text =
    star space
    ▹ char b'#'
    ▹ star space
    ▹ lit "endif"
    ▹ star space
    ▹ plus (char_if (λ c. not (is_space c || one_of_chars "/" c)))

-- \s*class\s+(\w+\s*::\s*)+\w+\s*;
abbrev inner_forward : Regex
inner_forward =
    star space
    ▹ lit "class"
    ▹ plus space
    ▹ plus (group 1 (plus word ▹ star space ▹ lit "::" ▹ star space))
    ▹ plus word
    ▹ star space
    ▹ char b';'

-- (\w+|[+-]?\d+(\.\d*)?)\s*(<|>)\?=?\s*(\w+|[+-]?\d+)(\.\d*)?
abbrev min_max : Regex
min_max =
    group 1 (
      plus word
      │ (optional (in_set "+-") ▹ plus digit ▹ optional (group 2 (char b'.' ▹ star digit))))
    ▹ star space
    ▹ group 3 (char b'<' │ char b'>')
    ▹ char b'?'
    ▹ optional (char b'=')
    ▹ star space
    ▹ group 4 (plus word │ (optional (in_set "+-") ▹ plus digit))
    ▹ optional (group 5 (char b'.' ▹ star digit))

-- ^\s*const\s*string\s*&\s*\w+\s*;
abbrev string_member : Regex
string_member =
    line_start
    ▹ star space
    ▹ lit "const"
    ▹ star space
    ▹ lit "string"
    ▹ star space
    ▹ char b'&'
    ▹ star space
    ▹ plus word
    ▹ star space
    ▹ char b';'

-- \s+(?:(?:inline|constexpr)\s+)*(explicit\s+)?(?:(?:inline|constexpr)\s+)*NAME\s*\(((?:[^()]|\([^()]*\))*)\)
abbrev constructor : Text → Regex
constructor name =
    plus space
    ▹ star ((lit "inline" │ lit "constexpr") ▹ plus space)
    ▹ optional (group 1 (lit "explicit" ▹ plus space))
    ▹ star ((lit "inline" │ lit "constexpr") ▹ plus space)
    ▹ chars name
    ▹ star space
    ▹ char b'('
    ▹ group 2 (star (not_in "()" │ (char b'(' ▹ star (not_in "()") ▹ char b')')))
    ▹ char b')'

-- \bstd\s*::\s*initializer_list\b
abbrev initializer_list : Regex
initializer_list =
    word_edge ▹ lit "std" ▹ star space ▹ lit "::" ▹ star space ▹ lit "initializer_list" ▹ word_edge

-- (const\s+)?NAME(\s*<[^>]*>)?(\s+const)?\s*(?:<\w+>\s*)?&
abbrev copied : Text → Regex
copied name =
    optional (group 1 (lit "const" ▹ plus space))
    ▹ chars name
    ▹ optional (group 2 (star space ▹ char b'<' ▹ star (not_in ">") ▹ char b'>'))
    ▹ optional (group 3 (plus space ▹ lit "const"))
    ▹ star space
    ▹ optional (char b'<' ▹ plus word ▹ char b'>' ▹ star space)
    ▹ char b'&'

-- An argument that has been cut at a comma inside of brackets.
unfoldable pub is_cut : Text → Bool
unfolding count
is_cut arg = ltb (count b'>' arg) (count b'<' arg) || ltb (count b')' arg) (count b'(' arg)

unfoldable pub put_in_front : Text → Option (List Text) → Option (List Text)
put_in_front arg none = none
put_in_front arg (some args) = some (arg ∷ args)

-- The arguments from one that may be cut on: it takes further ones until it is whole; `none` is the
-- IndexError where there are none left.
unfoldable pub join_cut : Text → List Text → Option (List Text)
unfolding is_cut put_in_front
join_cut arg [] = if is_cut arg then none else some (arg ∷ [])
join_cut arg (next ∷ args) =
    let whole = put_in_front arg (join_cut next args) in
    let further = join_cut (arg ++ (b',' ∷ next)) args in if is_cut arg then further else whole

-- The arguments of a constructor, from the text between its parentheses.
unfoldable pub constructor_args : Text → Option (List Text)
unfolding join_cut split
constructor_args [] = some []
constructor_args (c ∷ s) = elim (split b',' (c ∷ s)) [
  | [] ↦ some []
  | arg ∷ args ↦ join_cut arg args
]

is_in : Text → Text → Bool
unfolding find
is_in a b = is_some (find a b)

first_arg : List Text → Text
first_arg [] = []
first_arg (arg ∷ args) = arg

is_variadic : Text → Bool
unfolding is_in
is_variadic arg = is_in (codes "&&...") arg

is_defaulted : Text → Bool
is_defaulted arg = any (λ c. c == b'=') arg

-- noarg_constructor and onearg_constructor
unfoldable pub takes_none : List Text → Bool
unfolding first_arg strip eq
takes_none args =
    length args == 0 || (length args == 1 && eq (strip (first_arg args)) (codes "void"))

unfoldable pub takes_one : List Text → Bool
unfolding takes_none is_variadic is_defaulted
takes_one args =
    let n = length args in
    (n == 1 && not (takes_none args))
    || ((leb 1 n && (not (takes_none args) && leb (n - 1) (length (keep_if is_defaulted args))))
        || (leb n 2 && leb 1 (length (keep_if is_variadic args))))

module _ (filename : Text) (linenum : ℕ) where
  explicit_report : Text → Report
  unfolding report
  explicit_report message = report filename linenum (codes "runtime/explicit") 5 message

  unfoldable pub explicit_reports : Text → Bool → List Text → List Report
  unfolding explicit_report takes_one takes_none is_variadic is_defaulted first_arg strip
  explicit_reports name is_marked_explicit args =
      if not is_marked_explicit
        && (takes_one args
            && (not (searches initializer_list (first_arg args))
                && not (matches (copied name) (strip (first_arg args)))))
      then explicit_report (
          if any is_defaulted args || any is_variadic args
          then codes "Constructors callable with one argument should be marked explicit."
          else codes "Single-parameter constructors should be marked explicit.")
        ∷ []
      else when (is_marked_explicit && (not (takes_one args) && takes_none args))
          (explicit_report (codes "Zero-parameter constructors should not be marked explicit."))

  -- The reports about a line that declares a constructor of the class.
  unfoldable pub constructor_reports : Text → Text → Option (List Report)
  unfolding constructor_args explicit_reports
  constructor_reports line name = elim (match (constructor name) line) [
    | none ↦ some []
    | some m ↦ elim (constructor_args (group_text m 2)) [
      | none ↦ none
      | some args ↦ some (explicit_reports name (is_some (group_of m 1)) args)
    ]
  ]

  format_reports : Text → List Report
  unfolding report replace
  format_reports line =
      when (searches quad_format line) (
        report filename linenum (codes "runtime/printf_format") 3
          (codes "%q in format strings is deprecated.  Use %ll instead."))
      ++ (when (searches positional_format line) (
            report filename linenum (codes "runtime/printf_format") 2
              (codes "%N$ formats are unconventional.  Try rewriting to avoid them."))
          ++ when (searches bad_escape (replace (codes "\\\\") [] line)) (
              report filename linenum (codes "build/printf_format") 3
                (codes "%, [, (, and { are undefined character escapes.  Unescape them.")))

  line_reports : Text → List Report
  unfolding report
  line_reports line =
      when (searches late_storage line) (
        report filename linenum (codes "build/storage_class") 5 (
          codes "Storage-class specifier (static, extern, typedef, etc) should be "
          ++ codes "at the beginning of the declaration."))
      ++ (when (matches endif_text line) (
            report filename linenum (codes "build/endif_comment") 5
              (codes "Uncommented text after #endif is non-standard.  Use a comment."))
          ++ (when (matches inner_forward line) (
                report filename linenum (codes "build/forward_decl") 5
                  (codes "Inner-style forward declarations are invalid.  Remove this line."))
              ++ (when (searches min_max line) (
                    report filename linenum (codes "build/deprecated") 3
                      (codes ">? and <? (max and min) operators are non-standard and deprecated."))
                  ++ when (searches string_member line) (
                      report filename linenum (codes "runtime/member_string_references") 2 (
                        codes "const string& members are dangerous. It is much better to use "
                        ++ codes "alternatives, such as pointers or simple constants.")))))

-- classinfo.name.split('::')[-1]; every round shortens the name.
last_part : ℕ → Text → Text
unfolding find
last_part zero name = name
last_part (suc fuel) name =
    let further = last_part fuel in
    elim (find (codes "::") name) [ none ↦ name | some i ↦ further (drop (i + 2) name) ]

abbrev name_of : Kind → Text
name_of (class_block c) = c.name
name_of _ = []

-- The reports about the constructors of the innermost class, where its brace has been seen.
class_reports : Text → ℕ → Text → Option Block → Option (List Report)
unfolding constructor_reports last_part
class_reports filename linenum line none = some []
class_reports filename linenum line (some block) =
    let name = name_of block.kind in
    if block.seen_open_brace
    then constructor_reports filename linenum line (last_part (length name + 1) name)
    else some []

-- CheckForNonStandardConstructs; `none` is its IndexError.
unfoldable pub check_for_non_standard_constructs :
    Text → CleansedLines → ℕ → List Block → Option (List Report)
unfolding format_reports line_reports class_reports innermost_class
check_for_non_standard_constructs filename clean_lines linenum stack =
    let line = get_or clean_lines.elided linenum [] in
    elim (class_reports filename linenum line (innermost_class stack)) [
      | none ↦ none
      | some reports ↦ some (
          format_reports filename linenum (get_or clean_lines.lines linenum [])
          ++ (line_reports filename linenum line ++ reports))
    ]
