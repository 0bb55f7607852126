-- ===== src/Includes/Line.antt =====
-- `CheckIncludeLine` of scripts/tools/cpplint.py.
pub mod Recorded
use deft_rpc.Base.{
  ℕ, zero, suc, ◌+◌, ◌-◌, ◌*◌, ◌/◌, ◌%◌, ◌^◌, ◌≤◌, ◌<◌, min, max, ◌≡◌, refl, sym, ap, ◌∙◌, ◌≢◌, ◌↔◌,
  ◌⊎◌, inl, inr, Bool, true, false, not, ◌&&◌, ◌||◌, Option, none, some, List, [], ◌∷◌, ◌++◌, map,
  reverse, append-nil, append_assoc, arith, ltb, leb, ◌==◌, if◌then◌else◌, ltb→lt, lt→ltb, leb→le,
  leb_false→lt, ==_iff, tests, Bool-cases, Option-cases, is_some, length, get_elem?, get_or, take,
  drop, all, any, keep_if, length-append, length-take, length-drop, take-append-drop, length-map,
  All, All-append,
}
use deft_rpc.Text.{Text, codes, eq, find, ends_with}
use deft_rpc.Text.Number.{decimal}
use deft_rpc.Regex.{
  Regex, ◌▹◌, ◌│◌, char, lit, star, plus, space, not_in, char_if, upper_letter, group, line_start,
  line_end, Found, match, matches, search, group_text,
}
use deft_rpc.Lint.{Report}
use deft_rpc.Lines.{CleansedLines}
use deft_rpc.Lines.Collapse.{include_pattern}
use deft_rpc.Settings.{Settings, get_header_extensions, get_non_header_extensions}
use deft_rpc.Paths.{Disk, dirname}
use deft_rpc.FileInfo.{repository_name, base_name, extension}
use deft_rpc.Includes.{
  IncludeState, find_header, add_header, canonicalize, is_in_alphabetical_order, set_last_header,
  check_next_include_order,
}
use deft_rpc.Includes.Classify.{classify_include}

-- _THIRD_PARTY_HEADERS_PATTERN: ^(?:[^/]*[A-Z][^/]*\.h|lua\.h|lauxlib\.h|lualib\.h)$
abbrev third_party : Regex
third_party =
    line_start
    ▹ ((star (not_in "/") ▹ char_if upper_letter ▹ star (not_in "/") ▹ lit ".h")
        │ lit "lua.h"
        │ lit "lauxlib.h"
        │ lit "lualib.h")
    ▹ line_end

-- #include\s*"([^/]+\.h)"
abbrev own_header : Regex
own_header =
    lit "#include" ▹ star space ▹ char b'"' ▹ group 1 (plus (not_in "/") ▹ lit ".h") ▹ char b'"'

report : Text → ℕ → Text → Text → Report
report filename linenum category message = record {
  filename = filename;
  linenum = linenum;
  category = category;
  confidence = 4;
  message = message;
}

-- The check for a header that is named without its directory.
check_subdir : Text → ℕ → Text → List Report
unfolding report
check_subdir filename linenum line = elim (match own_header line) [
  | none ↦ []
  | some m ↦
      if matches third_party (group_text m 1)
      then []
      else report filename linenum (codes "build/include_subdir")
          (codes "Include the directory when naming .h files")
        ∷ []
]

-- a in b, for texts
unfoldable pub is_in : Text → Text → Bool
unfolding find
is_in a b = is_some (find a b)

module _ (settings : Settings) (disk : Disk) (filename : Text) where
  -- The first extension of a source file that the included name has, if it is of another package.
  pub foreign_source : Text → List Text → Option Text
  foreign_source include [] = none
  foreign_source include (ext ∷ exts) =
      if ends_with (b'.' ∷ ext) include
        && not (eq (dirname (repository_name settings disk filename)) (dirname include))
      then some ext
      else foreign_source include exts

  -- `third_src_header`: a header with the name of the file
  pub headername : Text → Text
  headername ext =
      repository_name settings disk (
        take (length filename - length (extension settings disk filename)) filename ++ (b'.' ∷ ext))

  third_src_header : Text → Bool
  unfolding headername is_in
  third_src_header include =
      any (λ ext. is_in (headername ext) include || is_in include (headername ext))
        (get_header_extensions settings)

  -- Whether the include is put into the list.
  unfoldable pub is_listed : Text → Bool
  unfolding third_src_header
  is_listed include = third_src_header include || not (matches third_party include)

  order_reports : ℕ → Text → List Report
  unfolding report
  order_reports linenum [] = []
  order_reports linenum (c ∷ message) =
      report filename linenum (codes "build/include_order") (
        (c ∷ message)
        ++ (codes ". Should be: "
            ++ (base_name settings disk filename ++ codes ".h, c system, c++ system, other.")))
      ∷ []

  -- The include is put into the list, and its place is checked.
  unfoldable pub place_include :
      CleansedLines → ℕ → Text → Bool → IncludeState → IncludeState × List Report
  unfolding order_reports report
  place_include clean_lines linenum include is_system s =
      let ordered =
        check_next_include_order (classify_include settings disk filename include is_system)
          (add_header include linenum s) in
      let canonical_include = canonicalize include in
      (
        set_last_header canonical_include ordered.0,
        order_reports linenum ordered.1
            ++ (if is_in_alphabetical_order clean_lines linenum canonical_include ordered.0
                then []
                else report filename linenum (codes "build/include_alpha")
                    (codes "Include \"" ++ (include ++ codes "\" not in alphabetical order"))
                  ∷ []),
      )

  already_included : ℕ → Text → ℕ → List Report
  unfolding report
  already_included linenum include duplicate_line =
      report filename linenum (codes "build/include") (
        b'"'
        ∷ (include
            ++ (codes "\" already included at " ++ (filename ++ (b':' ∷ decimal duplicate_line)))))
      ∷ []

  do_not_include : ℕ → Text → List Report
  unfolding report
  do_not_include linenum ext =
      report filename linenum (codes "build/include")
        (codes "Do not include ." ++ (ext ++ codes " files from other packages"))
      ∷ []

  unfoldable pub check_include :
      CleansedLines → ℕ → Text → Bool → IncludeState → IncludeState × List Report
  unfolding already_included do_not_include foreign_source is_listed place_include
  check_include clean_lines linenum include is_system s = elim (find_header include s) [
    | some duplicate_line ↦ (s, already_included linenum include duplicate_line)
    | none ↦ elim (foreign_source include (get_non_header_extensions settings)) [
      | some ext ↦ (s, do_not_include linenum ext)
      | none ↦
          if is_listed include
          then place_include clean_lines linenum include is_system s
          else (s, [])
    ]
  ]

  -- CheckIncludeLine
  unfoldable pub check_include_line : CleansedLines → ℕ → IncludeState → IncludeState × List Report
  unfolding check_subdir check_include
  check_include_line clean_lines linenum s =
      let line = get_or clean_lines.lines linenum [] in
      let subdir = check_subdir filename linenum line in
      elim (search include_pattern line) [
        | none ↦ (s, subdir)
        | some m ↦
            let next =
              check_include clean_lines linenum (group_text m 2) (eq (group_text m 1) (codes "<"))
                s in
            (next.0, subdir ++ next.1)
      ]
