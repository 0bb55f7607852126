-- ===== src/Guards.antt =====
-- Header guards of scripts/tools/cpplint.py: `PathSplitToList`, `GetHeaderGuardCPPVariable` and
-- `CheckForHeaderGuard`.
pub mod PathList
pub mod Variable
pub mod First
pub mod Accepted
use deft_rpc.Base.{
  ℕ, zero, suc, ◌+◌, ◌-◌, ◌*◌, ◌/◌, ◌%◌, ◌^◌, ◌≤◌, ◌<◌, min, max, ◌≡◌, refl, sym, ap, ◌∙◌, ◌≢◌, ◌↔◌,
  ◌⊎◌, inl, inr, Bool, true, false, not, ◌&&◌, ◌||◌, Option, none, some, List, [], ◌∷◌, ◌++◌, map,
  reverse, append-nil, append_assoc, arith, ltb, leb, ◌==◌, if◌then◌else◌, ltb→lt, lt→ltb, leb→le,
  leb_false→lt, ==_iff, tests, Bool-cases, Option-cases, is_some, length, get_elem?, get_or, take,
  drop, all, any, keep_if, length-append, length-take, length-drop, take-append-drop, length-map,
  All, All-append,
}
use deft_rpc.Text.{Text, codes, eq, replace, starts_with, upper, is_space}
use deft_rpc.Regex.{
  Regex, ◌▹◌, ◌│◌, char, chars, lit, not_in, star, plus, dot, space, optional, group, line_start,
  line_end, word_edge, in_range, char_if, Found, match, search, matches, searches, group_text,
  group_of, replace_all,
}
use deft_rpc.Lint.{Lint, Report}
use deft_rpc.Suppress.{parse_nolint_suppressions}
use deft_rpc.Emit.{error, error_all}
use deft_rpc.Lines.{CleansedLines}
use deft_rpc.Settings.{Settings}
use deft_rpc.Paths.{Disk, split_path, join_list, abspath}
use deft_rpc.FileInfo.{full_name, repository_name}

-- The loop of PathSplitToList: the components found so far are in `list`, already in their order.
pub path_split_from : ℕ → Text → List Text → List Text
path_split_from zero path list = path ∷ list
path_split_from (suc fuel) path list =
    let (head, tail) = split_path path in
    let further = path_split_from fuel head (tail ∷ list) in
    if eq head path then head ∷ list else if eq tail path then tail ∷ list else further

-- PathSplitToList; every round shortens the path.
unfoldable pub path_split_to_list : Text → List Text
unfolding path_split_from
path_split_to_list path = path_split_from (length path + 1) path []

-- StripListPrefix
unfoldable pub strip_list_prefix : List Text → List Text → Option (List Text)
unfolding eq
strip_list_prefix list [] = some list
strip_list_prefix [] (p ∷ ps) = none
strip_list_prefix (x ∷ xs) (p ∷ ps) = if eq x p then strip_list_prefix xs ps else none

-- `if maybe_path: return os.path.join(*maybe_path)`, and what follows otherwise
joined_or : Option (List Text) → Text → Text
joined_or none otherwise = otherwise
joined_or (some []) otherwise = otherwise
joined_or (some (p ∷ ps)) otherwise = join_list (p ∷ ps)

-- FixupPathFromRoot; `_root_debug` is off.
unfoldable pub fixup_path_from_root : Settings → Disk → Text → Text → Text
unfolding joined_or strip_list_prefix
fixup_path_from_root settings disk filename file_path_from_root =
    if eq settings.root []
    then file_path_from_root
    else joined_or
        (strip_list_prefix (path_split_to_list file_path_from_root)
          (path_split_to_list settings.root))
        (joined_or
          (strip_list_prefix (path_split_to_list (full_name disk filename))
            (path_split_to_list (abspath disk settings.root)))
          file_path_from_root)

-- re.sub of a pattern that ends in `$`, and so has one match at most, by what `rep` makes of it
unfoldable pub replace_end : Regex → (Found → Text) → Text → Text
replace_end r rep s = elim (search r s) [
  | none ↦ s
  | some m ↦ take m.start_pos s ++ (rep m ++ drop m.end_pos s)
]

-- _flymake\.h$ and /\.flymake/([^/]*)$
abbrev flymake_header : Regex
flymake_header = lit "_flymake.h" ▹ line_end

abbrev flymake_directory : Regex
flymake_directory = lit "/.flymake/" ▹ group 1 (star (not_in "/")) ▹ line_end

-- [^a-zA-Z0-9]
unfoldable pub is_alphanumeric : ℕ → Bool
is_alphanumeric c = in_range b'a' b'z' c || (in_range b'A' b'Z' c || in_range b'0' b'9' c)

-- The name of a file as the guard is made from it.
unfoldable pub guarded_name : Text → Text
unfolding replace_end replace
guarded_name filename =
    let restored =
      replace_end flymake_directory (λ m. b'/' ∷ group_text m 1)
        (replace_end flymake_header (λ m. codes ".h") filename) in
    replace (codes "c++") (codes "cpp") (replace (codes "C++") (codes "cpp") restored)

-- The characters of a path that are no letters or digits become `_`.
unfoldable pub to_variable : Text → Text
unfolding is_alphanumeric
to_variable path =
    upper (replace_all (char_if (λ c. not (is_alphanumeric c))) (codes "_") path) ++ codes "_"

-- GetHeaderGuardCPPVariable
unfoldable pub get_header_guard_cpp_variable : Settings → Disk → Text → Text
unfolding guarded_name fixup_path_from_root to_variable
get_header_guard_cpp_variable settings disk filename =
    let name = guarded_name filename in
    to_variable (fixup_path_from_root settings disk name (repository_name settings disk name))

-- line.split(): the words between white space
unfoldable pub words_from : Text → Text → List Text
words_from word [] = elim word [ [] ↦ [] | c ∷ w ↦ reverse (c ∷ w) ∷ [] ]
words_from word (c ∷ s) =
    let here = words_from [] s in
    let on = words_from (c ∷ word) s in
    if is_space c then elim word [ [] ↦ here | d ∷ w ↦ reverse (d ∷ w) ∷ here ] else on

unfoldable pub words : Text → List Text
unfolding words_from is_space
words = words_from []

-- What the loop over the lines finds: the first #ifndef and #define, and the last #endif.
pub record Guard : Type 0 where
  pub ifndef : Text
  pub ifndef_linenum : ℕ
  pub define : Text
  pub endif : Text
  pub endif_linenum : ℕ

abbrev pub no_guard : Guard
no_guard = record { ifndef = []; ifndef_linenum = 0; define = []; endif = []; endif_linenum = 0 }

unfoldable pub note_words : ℕ → List Text → Guard → Guard
note_words linenum (w ∷ v ∷ ws) g =
    let g' =
      if eq g.ifndef [] && eq w (codes "#ifndef")
      then record g { ifndef = v; ifndef_linenum = linenum }
      else g in
    if eq g'.define [] && eq w (codes "#define") then record g' { define = v } else g'
note_words linenum _ g = g

unfoldable pub note_endif : ℕ → Text → Guard → Guard
note_endif linenum line g =
    if starts_with (codes "#endif") line
    then record g { endif = line; endif_linenum = linenum }
    else g

unfoldable pub find_guard_from : ℕ → List Text → Guard → Guard
find_guard_from linenum [] g = g
find_guard_from linenum (line ∷ lines) g =
    find_guard_from (linenum + 1) lines
      (note_endif linenum line (note_words linenum (words line) g))

unfoldable pub find_guard : List Text → Guard
unfolding find_guard_from note_words note_endif eq starts_with
find_guard lines = find_guard_from 0 lines no_guard

guard_report : Text → ℕ → ℕ → Text → Report
guard_report filename linenum confidence message = record {
  filename = filename;
  linenum = linenum;
  category = codes "build/header_guard";
  confidence = confidence;
  message = message;
}

-- //\s*NOLINT\(build/header_guard\) and ^\s*#pragma\s+once
abbrev pub guard_nolint : Regex
guard_nolint = lit "//" ▹ star space ▹ lit "NOLINT(build/header_guard)"

abbrev pub pragma_once : Regex
pragma_once = line_start ▹ star space ▹ lit "#pragma" ▹ plus space ▹ lit "once"

-- #endif\s*//\s*VAR(_)?\b; the variable is of word characters.
abbrev pub line_comment_end : Text → Regex
line_comment_end cppvar =
    lit "#endif"
    ▹ star space
    ▹ lit "//"
    ▹ star space
    ▹ chars cppvar
    ▹ optional (group 1 (char b'_'))
    ▹ word_edge

-- #endif\s*/\*\s*VAR(_)?\s*\*/
abbrev block_comment_end : Text → Regex
block_comment_end cppvar =
    lit "#endif"
    ▹ star space
    ▹ lit "/*"
    ▹ star space
    ▹ chars cppvar
    ▹ optional (group 1 (char b'_'))
    ▹ star space
    ▹ lit "*/"

-- ^(?:(?:'(?:\.|[^'])*')|(?:"(?:\.|[^"])*")|[^'"])*//
abbrev has_line_comment : Regex
has_line_comment =
    line_start
    ▹ star (
        (char b'\'' ▹ star (char b'.' │ not_in "'") ▹ char b'\'')
        │ (char b'"' ▹ star (char b'.' │ not_in "\"") ▹ char b'"')
        │ not_in "'\"")
    ▹ lit "//"

-- The report of a match of one of the two, where it has the second underscore.
double_underscore : Text → ℕ → Text → Found → List Report
unfolding guard_report
double_underscore filename linenum message m = elim (group_of m 1) [
  | none ↦ []
  | some w ↦ guard_report filename linenum 0 message ∷ []
]

-- The lines from the second to the last but one.
abbrev inner_lines : List Text → List Text
inner_lines lines = drop 1 (take (length lines - 1) lines)

-- The reports about the #endif line.
unfoldable pub check_endif : Text → List Text → Text → Guard → List Report
unfolding double_underscore guard_report
check_endif filename raw_lines cppvar g =
    let slashes = codes "#endif line should be \"#endif  // " ++ (cppvar ++ codes "\"") in
    let stars = codes "#endif line should be \"#endif  /* " ++ (cppvar ++ codes " */\"") in
    let wrong = guard_report filename g.endif_linenum 5 slashes ∷ [] in
    elim (match (line_comment_end cppvar) g.endif) [
      | some m ↦ double_underscore filename g.endif_linenum slashes m
      | none ↦
          if any (matches has_line_comment) (inner_lines raw_lines)
          then wrong
          else elim (match (block_comment_end cppvar) g.endif) [
            | none ↦ wrong
            | some m ↦ double_underscore filename g.endif_linenum stars m
          ]
    ]

-- ParseNolintSuppressions on a line, whose own reports are emitted.
unfoldable pub parse_nolint : Text → List Text → ℕ → Lint → Option Lint
parse_nolint filename raw_lines linenum s =
    let next = parse_nolint_suppressions filename (get_or raw_lines linenum []) linenum s in
    error_all next.1 next.0

abbrev pub and_then : Option Lint → (Lint → Option Lint) → Option Lint
and_then none f = none
and_then (some s) f = f s

-- The check of the name in the #ifndef line.
unfoldable pub check_ifndef : Text → List Text → Text → Guard → Lint → Option Lint
unfolding guard_report
check_ifndef filename raw_lines cppvar g s =
    if eq g.ifndef cppvar
    then some s
    else and_then (parse_nolint filename raw_lines g.ifndef_linenum s) (
        error (
          guard_report filename g.ifndef_linenum
            (if eq g.ifndef (cppvar ++ codes "_") then 0 else 5)
            (codes "#ifndef header guard has wrong style, please use: " ++ cppvar)))

-- The guard that the lines have, if they have one.
unfoldable pub has_guard : Guard → Bool
has_guard g = not (eq g.ifndef []) && (not (eq g.define []) && eq g.ifndef g.define)

unfoldable pub check_guard : Text → List Text → Text → Lint → Option Lint
unfolding guard_report
check_guard filename raw_lines cppvar s =
    let g = find_guard raw_lines in
    if not (has_guard g)
    then error
        (guard_report filename 0 5
          (codes "No #ifndef header guard found, suggested CPP variable is: " ++ cppvar))
        s
    else and_then (check_ifndef filename raw_lines cppvar g s) λ t.
      and_then (parse_nolint filename raw_lines g.endif_linenum t)
        (error_all (check_endif filename raw_lines cppvar g))

-- CheckForHeaderGuard, with `error` as `Error`; `none` is its AssertionError.
unfoldable pub check_for_header_guard : Settings → Disk → Text → CleansedLines → Lint → Option Lint
unfolding get_header_guard_cpp_variable
check_for_header_guard settings disk filename clean_lines s =
    let raw_lines = clean_lines.lines_without_raw_strings in
    if any (searches guard_nolint) raw_lines || any (searches pragma_once) raw_lines
    then some s
    else check_guard filename raw_lines (get_header_guard_cpp_variable settings disk filename) s
