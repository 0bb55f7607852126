-- ===== src/Nesting/Checks.antt =====
-- `_ClassInfo` and `_NamespaceInfo` of scripts/tools/cpplint.py: their construction, `CheckBegin` and
-- `CheckEnd`.
use deft_rpc.Base.{
  ℕ, zero, suc, ◌+◌, ◌-◌, Bool, true, false, not, ◌&&◌, ◌||◌, none, some, List, [], ◌∷◌, ◌++◌, ltb,
  ◌==◌, if◌then◌else◌, length, get_or, drop,
}
use deft_rpc.Text.{Text, codes, eq, count}
use deft_rpc.Regex.{
  Regex, ◌▹◌, ◌│◌, char, chars, lit, one_lit, in_set, not_in, star, plus, space, not_space, dot,
  group, word_edge, line_start, line_end, match, search, matches, searches, group_text,
}
use deft_rpc.Lines.{CleansedLines}
use deft_rpc.Lint.{Report}
use deft_rpc.Nesting.{plain_block, extern_c, class_block, namespace, ClassInfo, Block, new_block}

-- GetIndentLevel, with ^( *)\S
unfoldable pub get_indent_level : Text → ℕ
get_indent_level line = elim (match (line_start ▹ group 1 (star (char b' ')) ▹ not_space) line) [
  | none ↦ 0
  | some m ↦ length (group_text m 1)
]

-- The loop for the last line of a class, from line number `i` on; the depth is the difference of the
-- counts of opened and closed braces so far.
last_line_from : ℕ → ℕ → ℕ → List Text → ℕ
last_line_from i opened closed [] = 0
last_line_from i opened closed (line ∷ lines) =
    let further =
      last_line_from (i + 1) (opened + count b'{' line) (closed + count b'}' line) lines in
    if opened + count b'{' line == closed + count b'}' line then i else further

-- _ClassInfo.__init__
unfoldable pub new_class : Text → Text → CleansedLines → ℕ → Block
unfolding get_indent_level last_line_from
new_class name class_or_struct clean_lines linenum =
    let is_struct = eq class_or_struct (codes "struct") in
    new_block linenum false true (
      class_block (record {
        name = name;
        is_derived = false;
        access = if is_struct then codes "public" else codes "private";
        is_struct = is_struct;
        class_indent = get_indent_level (get_or clean_lines.raw_lines linenum []);
        last_line = last_line_from linenum 0 0 (drop linenum clean_lines.elided);
      }))

-- _NamespaceInfo.__init__; a name that is not there is the empty text.
unfoldable pub new_namespace : Text → ℕ → Block
new_namespace name linenum = new_block linenum false true (namespace name)

-- (^|[^:]):($|[^:])
abbrev bare_colon : Regex
bare_colon = group 1 (line_start │ not_in ":") ▹ char b':' ▹ group 2 (line_end │ not_in ":")

-- CheckBegin, of a block by its class
unfoldable pub check_begin : CleansedLines → ℕ → Block → Block
check_begin clean_lines linenum b = elim b.kind [
  | plain_block ↦ b
  | extern_c ↦ b
  | namespace name ↦ b
  | class_block info ↦
      if searches bare_colon (get_or clean_lines.elided linenum [])
      then record b { kind = class_block (record info { is_derived = true }) }
      else b
]

-- ^\s*$
abbrev pub blank : Regex
blank = line_start ▹ star space ▹ line_end

-- \b(DISALLOW_COPY_AND_ASSIGN|DISALLOW_IMPLICIT_CONSTRUCTORS)\(name\)
abbrev disallow : Text → Regex
disallow name =
    word_edge
    ▹ group 1 (one_lit ("DISALLOW_COPY_AND_ASSIGN" ∷ "DISALLOW_IMPLICIT_CONSTRUCTORS" ∷ []))
    ▹ char b'('
    ▹ chars name
    ▹ char b')'

not_last : Text → ℕ → Text → Report
not_last filename linenum macro = record {
  filename = filename;
  linenum = linenum;
  category = codes "readability/constructors";
  confidence = 3;
  message = macro ++ codes " should be the last thing in the class";
}

-- The loop for a DISALLOW macro, from line `start + n` down to the one behind `start`.
last_thing : Text → Text → List Text → ℕ → ℕ → Bool → List Report
unfolding not_last
last_thing filename name lines start zero seen = []
last_thing filename name lines start (suc n) seen =
    let line = get_or lines (start + suc n) [] in
    let further = last_thing filename name lines start n (seen || not (matches blank line)) in
    elim (search (disallow name) line) [
      | none ↦ further
      | some m ↦ if seen then not_last filename (start + suc n) (group_text m 1) ∷ [] else []
    ]

-- 'struct ' + name or 'class ' + name
unfoldable pub parent_of : ClassInfo → Text
parent_of info = (if info.is_struct then codes "struct " else codes "class ") ++ info.name

misaligned : Text → ℕ → ClassInfo → Report
unfolding parent_of
misaligned filename linenum info = record {
  filename = filename;
  linenum = linenum;
  category = codes "whitespace/indent";
  confidence = 3;
  message = codes "Closing brace should be aligned with beginning of " ++ parent_of info;
}

-- The check of the closing brace, with ^( *)\}
closing_brace : Text → Text → ℕ → ClassInfo → List Report
unfolding misaligned
closing_brace filename line linenum info =
    elim (match (line_start ▹ group 1 (star (char b' ')) ▹ char b'}') line) [
      | none ↦ []
      | some m ↦
          if length (group_text m 1) == info.class_indent
          then []
          else misaligned filename linenum info ∷ []
    ]

-- ^\s*};*\s*(//|/\*).*\bnamespace, the beginning of three patterns
abbrev namespace_comment : Regex → Regex
namespace_comment rest =
    line_start
    ▹ star space
    ▹ char b'}'
    ▹ star (char b';')
    ▹ star space
    ▹ group 1 (lit "//" │ lit "/*")
    ▹ star dot
    ▹ word_edge
    ▹ lit "namespace"
    ▹ rest

-- [\*/\.\\\s]*$
abbrev comment_end : Regex
comment_end = star (in_set "*/.\\" │ space) ▹ line_end

-- ^\s*}.*\b(namespace anonymous|anonymous namespace)\b
abbrev anonymous_comment : Regex
anonymous_comment =
    line_start
    ▹ star space
    ▹ char b'}'
    ▹ star dot
    ▹ word_edge
    ▹ group 1 (lit "namespace anonymous" │ lit "anonymous namespace")
    ▹ word_edge

unterminated : Text → ℕ → Text → List Report
unterminated filename linenum message =
    record {
      filename = filename;
      linenum = linenum;
      category = codes "readability/namespace";
      confidence = 5;
      message = message;
    }
    ∷ []

abbrev is_named : Text → Bool
is_named [] = false
is_named (c ∷ name) = true

-- _NamespaceInfo.CheckEnd, of the raw line
unfoldable pub check_namespace_end : Text → Text → ℕ → ℕ → Text → List Report
unfolding unterminated
check_namespace_end filename line linenum starting name =
    if ltb (linenum - starting) 10 && not (matches (namespace_comment word_edge) line)
    then []
    else if is_named name
    then (if matches (namespace_comment (plus space ▹ chars name ▹ comment_end)) line
        then []
        else unterminated filename linenum
            (codes "Namespace should be terminated with \"// namespace " ++ (name ++ codes "\"")))
    else if matches (namespace_comment comment_end) line
    then []
    else if matches anonymous_comment line
    then unterminated filename linenum (
        codes
          "Anonymous namespace should be terminated with \"// namespace\" or \"// anonymous namespace\"")
    else unterminated filename linenum
        (codes "Anonymous namespace should be terminated with \"// namespace\"")

-- CheckEnd, of a block by its class
unfoldable pub check_end : Text → CleansedLines → ℕ → Block → List Report
unfolding last_thing closing_brace check_namespace_end
check_end filename clean_lines linenum b = elim b.kind [
  | plain_block ↦ []
  | extern_c ↦ []
  | class_block info ↦
      last_thing filename info.name clean_lines.elided b.starting_linenum
        (linenum - 1 - b.starting_linenum) false
      ++ closing_brace filename (get_or clean_lines.elided linenum []) linenum info
  | namespace name ↦
      check_namespace_end filename (get_or clean_lines.raw_lines linenum []) linenum
        b.starting_linenum name
]
