-- ===== src/Needs/Tables.antt =====
-- The tables of templates and the headers that declare them.
use deft_rpc.Base.{List, [], ◌∷◌, ◌++◌, map}
use Prim.Native.String.{String}
use deft_rpc.Text.{Text, codes}
use deft_rpc.Regex.{
  Regex, ◌▹◌, ◌│◌, char, lit, star, lazy_star, not_in, dot, space, optional, group, line_start,
  word_edge,
}

-- _HEADERS_CONTAINING_TEMPLATES
abbrev headers_containing_templates : List (String × List String)
headers_containing_templates =
    ("<deque>", "deque" ∷ [])
    ∷ (
      "<functional>",
      "unary_function" ∷ "binary_function" ∷ "plus" ∷ "minus" ∷ "multiplies" ∷ "divides" ∷ "modulus"
          ∷ "negate" ∷ "equal_to" ∷ "not_equal_to" ∷ "greater" ∷ "less" ∷ "greater_equal"
          ∷ "less_equal" ∷ "logical_and" ∷ "logical_or" ∷ "logical_not" ∷ "unary_negate" ∷ "not1"
          ∷ "binary_negate" ∷ "not2" ∷ "bind1st" ∷ "bind2nd" ∷ "pointer_to_unary_function"
          ∷ "pointer_to_binary_function" ∷ "ptr_fun" ∷ "mem_fun_t" ∷ "mem_fun" ∷ "mem_fun1_t"
          ∷ "mem_fun1_ref_t" ∷ "mem_fun_ref_t" ∷ "const_mem_fun_t" ∷ "const_mem_fun1_t"
          ∷ "const_mem_fun_ref_t" ∷ "const_mem_fun1_ref_t" ∷ "mem_fun_ref" ∷ [],
    )
    ∷ ("<limits>", "numeric_limits" ∷ [])
    ∷ ("<list>", "list" ∷ [])
    ∷ ("<map>", "multimap" ∷ [])
    ∷ (
      "<memory>",
      "allocator" ∷ "make_shared" ∷ "make_unique" ∷ "shared_ptr" ∷ "unique_ptr" ∷ "weak_ptr" ∷ [],
    )
    ∷ ("<queue>", "queue" ∷ "priority_queue" ∷ [])
    ∷ ("<set>", "multiset" ∷ [])
    ∷ ("<stack>", "stack" ∷ [])
    ∷ ("<string>", "char_traits" ∷ "basic_string" ∷ [])
    ∷ ("<tuple>", "tuple" ∷ [])
    ∷ ("<unordered_map>", "unordered_map" ∷ "unordered_multimap" ∷ [])
    ∷ ("<unordered_set>", "unordered_set" ∷ "unordered_multiset" ∷ [])
    ∷ ("<utility>", "pair" ∷ [])
    ∷ ("<vector>", "vector" ∷ [])
    ∷ ("<hash_map>", "hash_map" ∷ "hash_multimap" ∷ [])
    ∷ ("<hash_set>", "hash_set" ∷ "hash_multiset" ∷ [])
    ∷ ("<slist>", "slist" ∷ [])
    ∷ []

-- _HEADERS_MAYBE_TEMPLATES
abbrev headers_maybe : List (String × List String)
headers_maybe =
    ("<algorithm>", "copy" ∷ "max" ∷ "min" ∷ "min_element" ∷ "sort" ∷ "transform" ∷ [])
    ∷ ("<utility>", "forward" ∷ "make_pair" ∷ "move" ∷ "swap" ∷ [])
    ∷ []

-- _RE_PATTERN_STRING: \bstring\b
abbrev pub pattern_string : Regex
pattern_string = word_edge ▹ lit "string" ▹ word_edge

-- [^>.]\bNAME(<.*?>)?\([^\)]
abbrev maybe_pattern : String → Regex
maybe_pattern name =
    not_in ">."
    ▹ word_edge
    ▹ lit name
    ▹ optional (group 1 (char b'<' ▹ lazy_star dot ▹ char b'>'))
    ▹ char b'('
    ▹ not_in ")"

-- [^>.]\bset\s*\<
abbrev set_pattern : Regex
set_pattern = not_in ">." ▹ word_edge ▹ lit "set" ▹ star space ▹ char b'<'

-- (std\b::\bmap\s*\<)|(^(std\b::\b)map\b\(\s*\<)
abbrev map_pattern : Regex
map_pattern =
    group 1 (lit "std" ▹ word_edge ▹ lit "::" ▹ word_edge ▹ lit "map" ▹ star space ▹ char b'<')
    │ group 2 (
        line_start
        ▹ group 3 (lit "std" ▹ word_edge ▹ lit "::" ▹ word_edge)
        ▹ lit "map"
        ▹ word_edge
        ▹ char b'('
        ▹ star space
        ▹ char b'<')

-- (\<|\b)NAME\s*\<
abbrev template_pattern : String → Regex
template_pattern name = group 1 (char b'<' │ word_edge) ▹ lit name ▹ star space ▹ char b'<'

-- for _header, _templates in …: for _template in _templates: the pattern, the name and the header
table_of : (String → Regex × Text) → List (String × List String) → List (Regex × (Text × Text))
table_of entry [] = []
table_of entry ((header, names) ∷ table) =
    map (λ name. ((entry name).0, ((entry name).1, codes header))) names ++ table_of entry table

-- _re_pattern_headers_maybe_templates
unfoldable pub headers_maybe_templates : List (Regex × (Text × Text))
unfolding table_of
headers_maybe_templates =
    table_of (λ name. (maybe_pattern name, codes name)) headers_maybe
    ++ ((set_pattern, (codes "set<>", codes "<set>"))
        ∷ (map_pattern, (codes "map<>", codes "<map>"))
        ∷ [])

-- _re_pattern_templates
unfoldable pub pattern_templates : List (Regex × (Text × Text))
unfolding table_of
pattern_templates =
    table_of (λ name. (template_pattern name, codes name ++ codes "<>"))
      headers_containing_templates
