-- ===== src/Suppress.antt =====
-- NOLINT comments of scripts/tools/cpplint.py: `ParseNolintSuppressions`,
-- `ProcessGlobalSuppresions`, `ResetNolintSuppressions` and `IsErrorSuppressedByNolint`.
pub mod Laws
use deft_rpc.Base.{
  ℕ, zero, suc, ◌+◌, ◌-◌, ◌*◌, ◌/◌, ◌%◌, ◌^◌, ◌≤◌, ◌<◌, min, max, ◌≡◌, refl, sym, ap, ◌∙◌, ◌≢◌, ◌↔◌,
  ◌⊎◌, inl, inr, Bool, true, false, not, ◌&&◌, ◌||◌, Option, none, some, List, [], ◌∷◌, ◌++◌, map,
  reverse, append-nil, append_assoc, arith, ltb, leb, ◌==◌, if◌then◌else◌, ltb→lt, lt→ltb, leb→le,
  ==_iff, tests, Bool-cases, Option-cases, is_some, length, get_elem?, get_or, take, drop, all, any,
  keep_if, length-append, length-take, length-drop, take-append-drop, length-map, All, All-append,
}
use deft_rpc.Text.{Text, codes, eq, one_of, starts_with, ends_with}
use deft_rpc.Dict.{add_line, has_line, mem}
use deft_rpc.Regex.{
  Regex, empty, char_if, ◌▹◌, ◌│◌, star, group, line_end, word_edge, dot, char, lit, space, plus,
  optional, not_in, Found, search, searches, group_of,
}
use deft_rpc.Categories.{
  error_categories, legacy_error_categories, default_c_suppressed_categories,
  default_kernel_suppressed_categories,
}
use deft_rpc.Lint.{Lint, Report}

-- \bNOLINT(NEXTLINE)?\b(\([^)]+\))?
abbrev pub nolint_pattern : Regex
nolint_pattern =
    word_edge
    ▹ lit "NOLINT"
    ▹ optional (group 1 (lit "NEXTLINE"))
    ▹ word_edge
    ▹ optional (group 2 (char b'(' ▹ plus (not_in ")") ▹ char b')'))

-- _error_suppressions.setdefault(None, set()).add(line)
suppress_line : ℕ → Lint → Lint
suppress_line line s =
    if mem line s.suppressed_lines
    then s
    else record s { suppressed_lines = line ∷ s.suppressed_lines }

suppress : Text → ℕ → Lint → Lint
suppress category line s = record s { suppressed = add_line s.suppressed category line }

-- category[1:-1]
unfoldable pub inner : Text → Text
inner w = take (length w - 2) (drop 1 w)

unknown_category : Text → ℕ → Text → Report
unknown_category filename linenum category = record {
  filename = filename;
  linenum = linenum;
  category = codes "readability/nolint";
  confidence = 5;
  message = codes "Unknown NOLINT error category: " ++ category;
}

-- The branch on `category`, the second group of the match.
unfoldable pub suppress_matched : Text → ℕ → ℕ → Option Text → Lint → Lint × List Report
unfolding suppress_line suppress inner unknown_category
suppress_matched filename linenum line none s = (suppress_line line s, [])
suppress_matched filename linenum line (some category) s =
    if eq category (codes "(*)")
    then (suppress_line line s, [])
    else if starts_with (codes "(") category && ends_with (codes ")") category
    then (if one_of (inner category) error_categories
        then (suppress (inner category) line s, [])
        else if not (one_of (inner category) legacy_error_categories)
        then (s, unknown_category filename linenum (inner category) ∷ [])
        else (s, []))
    else (s, [])

-- the line that a NOLINT on line `linenum` is about
unfoldable pub suppressed_line : Option Text → ℕ → ℕ
suppressed_line none linenum = linenum
suppressed_line (some w) linenum = linenum + 1

parse_found : Text → ℕ → Option Found → Lint → Lint × List Report
unfolding suppress_matched suppressed_line group_of
parse_found filename linenum none s = (s, [])
parse_found filename linenum (some m) s =
    suppress_matched filename linenum (suppressed_line (group_of m 1) linenum) (group_of m 2) s

-- ParseNolintSuppressions; the reports are the calls of `error`.
unfoldable pub parse_nolint_suppressions : Text → Text → ℕ → Lint → Lint × List Report
unfolding parse_found
parse_nolint_suppressions filename raw_line linenum s =
    parse_found filename linenum (search nolint_pattern raw_line) s

-- _SEARCH_C_FILE: \b(?:LINT_C_FILE|vim?:\s*.*(\s*|:)filetype=c(\s*|:|$))
abbrev search_c_file : Regex
search_c_file =
    word_edge
    ▹ (lit "LINT_C_FILE"
        │ lit "vi"
          ▹ optional (char b'm')
          ▹ char b':'
          ▹ star space
          ▹ star dot
          ▹ group 1 (star space │ char b':')
          ▹ lit "filetype=c"
          ▹ group 2 (star space │ char b':' │ line_end))

-- _SEARCH_KERNEL_FILE: \b(?:LINT_KERNEL_FILE)
abbrev search_kernel_file : Regex
search_kernel_file = word_edge ▹ lit "LINT_KERNEL_FILE"

-- _global_error_suppressions[category] = True for each category
suppress_all : List Text → Lint → Lint
suppress_all categories s = record s { global_suppressed = categories ++ s.global_suppressed }

directives : Text → Lint → Lint
unfolding suppress_all
directives line s =
    let for_c =
      if searches search_c_file line then suppress_all default_c_suppressed_categories s else s in
    if searches search_kernel_file line
    then suppress_all default_kernel_suppressed_categories for_c
    else for_c

-- ProcessGlobalSuppresions
unfoldable pub process_global_suppressions : List Text → Lint → Lint
unfolding directives
process_global_suppressions [] s = s
process_global_suppressions (line ∷ lines) s = process_global_suppressions lines (directives line s)

-- ResetNolintSuppressions
unfoldable pub reset_nolint_suppressions : Lint → Lint
reset_nolint_suppressions s = record s {
  suppressed = [];
  suppressed_lines = [];
  global_suppressed = [];
}

-- IsErrorSuppressedByNolint
unfoldable pub is_error_suppressed : Lint → Text → ℕ → Bool
is_error_suppressed s category linenum =
    one_of category s.global_suppressed
    || has_line s.suppressed category linenum
    || mem linenum s.suppressed_lines
