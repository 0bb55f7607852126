-- ===== src/Needs.antt =====
-- Whether a file includes what it uses: `FilesBelongToSameModule`, `UpdateIncludeState`,
-- `CheckForIncludeWhatYouUse` and `CheckHeaderFileIncluded` of scripts/tools/cpplint.py.
pub mod Tables
pub mod SameModule
pub mod Order
use deft_rpc.Base.{
  ℕ, zero, suc, ◌+◌, ◌-◌, ◌*◌, ◌/◌, ◌%◌, ◌^◌, ◌≤◌, ◌<◌, min, max, ◌≡◌, refl, sym, ap, ◌∙◌, ◌≢◌, ◌↔◌,
  ◌⊎◌, inl, inr, Bool, true, false, not, ◌&&◌, ◌||◌, Option, none, some, List, [], ◌∷◌, ◌++◌, map,
  reverse, append-nil, append_assoc, arith, ltb, leb, ◌==◌, if◌then◌else◌, ltb→lt, lt→ltb, leb→le,
  leb_false→lt, ==_iff, tests, Bool-cases, Option-cases, is_some, length, get_elem?, get_or, take,
  drop, all, any, keep_if, length-append, length-take, length-drop, take-append-drop, length-map,
  All, All-append,
}
use deft_rpc.Text.{Text, codes, eq, ends_with, replace, one_of, less}
use deft_rpc.Dict.{Dict, get, put}
use deft_rpc.Regex.{
  Regex, ◌▹◌, ◌│◌, char, lit, line_end, group, one_lit, Found, search, searches, group_text,
}
use deft_rpc.Lint.{Report}
use deft_rpc.Lines.{CleansedLines}
use deft_rpc.Lines.Collapse.{include_pattern}
use deft_rpc.Lines.Comments.{cleanse_comments}
use deft_rpc.Settings.{
  Settings, get_header_extensions, get_non_header_extensions, is_header_extension,
}
use deft_rpc.Paths.{Disk}
use deft_rpc.FileInfo.{full_name, repository_name, base_name, extension}
use deft_rpc.Guards.{replace_end}
use deft_rpc.Includes.{IncludeState}
use deft_rpc.Includes.Line.{is_in}
use Tables.{pattern_string, headers_maybe_templates, pattern_templates}
use SameModule.{files_belong_to_same_module, test_file_suffix}

-- The headers that the lines need: each with the last line that needs it, and why.
abbrev pub Required : Type 0
Required = Dict (ℕ × Text)

-- `prefix.endswith('std::') or not prefix.endswith('::')` of what stands before the match
unfoldable pub is_std : Text → Found → Bool
is_std line m =
    let prefix = take m.start_pos line in
    ends_with (codes "std::") prefix || not (ends_with (codes "::") prefix)

note_string : ℕ → Text → Required → Required
unfolding is_std
note_string linenum line required = elim (search pattern_string line) [
  | none ↦ required
  | some m ↦
      if is_std line m then put required (codes "<string>") (linenum, codes "string") else required
]

-- for pattern, template, header in _re_pattern_headers_maybe_templates
note_maybe : ℕ → Text → List (Regex × (Text × Text)) → Required → Required
note_maybe linenum line [] required = required
note_maybe linenum line ((pattern, (template, header)) ∷ table) required =
    note_maybe linenum line table
      (if searches pattern line then put required header (linenum, template) else required)

-- for pattern, template, header in _re_pattern_templates
note_templates : ℕ → Text → List (Regex × (Text × Text)) → Required → Required
unfolding is_std
note_templates linenum line [] required = required
note_templates linenum line ((pattern, (template, header)) ∷ table) required =
    note_templates linenum line table (elim (search pattern line) [
      | none ↦ required
      | some m ↦ if is_std line m then put required header (linenum, template) else required
    ])

-- One line; an empty line and a line with `#` first are skipped.
note_line : ℕ → Text → Required → Required
unfolding note_string note_maybe note_templates
note_line linenum [] required = required
note_line linenum (c ∷ line) required =
    let noted =
      note_maybe linenum (c ∷ line) headers_maybe_templates
        (note_string linenum (c ∷ line) required) in
    if c == b'#'
    then required
    else if any (λ d. d == b'<') (c ∷ line)
    then note_templates linenum (c ∷ line) pattern_templates noted
    else noted

unfoldable pub required_from : ℕ → List Text → Required → Required
unfolding note_line
required_from linenum [] required = required
required_from linenum (line ∷ lines) required =
    required_from (linenum + 1) lines (note_line linenum line required)

-- d.setdefault(k, v)
unfoldable pub put_default : Dict ℕ → Text → ℕ → Dict ℕ
unfolding get put
put_default d k v = elim (get d k) [ none ↦ put d k v | some w ↦ d ]

-- The loop of UpdateIncludeState over the lines of the header, which it numbers from 1.
included_from : ℕ → List Text → Dict ℕ → Dict ℕ
unfolding put_default
included_from linenum [] include_dict = include_dict
included_from linenum (line ∷ lines) include_dict =
    included_from (linenum + 1) lines (elim (search include_pattern (cleanse_comments line)) [
      | none ↦ include_dict
      | some m ↦ put_default include_dict (group_text m 2) linenum
    ])

-- UpdateIncludeState: `read` is what io.open and the reading of lines give; `none` is an IOError.
unfoldable pub update_include_state : (Text → Option (List Text)) → Text → Dict ℕ → Dict ℕ × Bool
unfolding included_from
update_include_state read filename include_dict = elim (read filename) [
  | none ↦ (include_dict, false)
  | some lines ↦ (included_from 1 lines include_dict, true)
]

-- dict(pairs)
unfoldable pub dict_of : List (Text × ℕ) → Dict ℕ → Dict ℕ
unfolding put
dict_of [] d = d
dict_of ((k, v) ∷ pairs) d = dict_of pairs (put d k v)

unfoldable pub flatten : List (List (Text × ℕ)) → List (Text × ℕ)
flatten [] = []
flatten (section_list ∷ lists) = section_list ++ flatten lists

-- _flymake\.cc$
abbrev flymake_source : Regex
flymake_source = lit "_flymake.cc" ▹ line_end

module _ (settings : Settings) (disk : Disk) (read : Text → Option (List Text)) where
  -- The loop over the headers: those of the same module are read.
  read_own_headers : Text → List Text → Dict ℕ × Bool → Dict ℕ × Bool
  unfolding update_include_state
  read_own_headers abs_filename [] (include_dict, header_found) = (include_dict, header_found)
  read_own_headers abs_filename (header ∷ headers) (include_dict, header_found) =
      let same = files_belong_to_same_module settings disk abs_filename header in
      let next = update_include_state read (same.1 ++ header) include_dict in
      read_own_headers abs_filename headers
        (if same.0 then (next.0, next.1 || header_found) else (include_dict, header_found))

  -- The headers that the file and its own header include, and whether that header was found.
  unfoldable pub known_includes : Text → IncludeState → Dict ℕ × Bool
  unfolding dict_of flatten read_own_headers
  known_includes filename include_state =
      let include_dict = dict_of (flatten include_state.include_list) [] in
      let abs_filename = replace_end flymake_source (λ m. codes ".cc") (full_name disk filename) in
      read_own_headers abs_filename (map (λ entry. entry.0) include_dict) (include_dict, false)

-- (n, t) < (m, u)
unfoldable pub earlier : ℕ × Text → ℕ × Text → Bool
unfolding less
earlier (n, t) (m, u) = ltb n m || (n == m && less t u)

abbrev pub Need : Type 0
Need = Text × (ℕ × Text)

unfoldable pub insert_need : Need → List Need → List Need
unfolding earlier
insert_need x [] = x ∷ []
insert_need x (y ∷ ys) = if earlier y.1 x.1 then y ∷ insert_need x ys else x ∷ y ∷ ys

-- sorted(required, key=required.__getitem__)
unfoldable pub sort_needs : List Need → List Need
unfolding insert_need
sort_needs [] = []
sort_needs (x ∷ xs) = insert_need x (sort_needs xs)

-- s.strip('<>"')
is_bracket : ℕ → Bool
is_bracket c = c == b'<' || (c == b'>' || c == b'"')

drop_brackets : Text → Text
unfolding is_bracket
drop_brackets [] = []
drop_brackets (c ∷ s) = if is_bracket c then drop_brackets s else c ∷ s

unfoldable pub strip_brackets : Text → Text
unfolding drop_brackets
strip_brackets s = reverse (drop_brackets (reverse (drop_brackets s)))

abbrev pub need_report : Text → Need → Report
need_report filename (header, (linenum, template)) = record {
  filename = filename;
  linenum = linenum;
  category = codes "build/include_what_you_use";
  confidence = 4;
  message = codes "Add #include " ++ (header ++ (codes " for " ++ template));
}

-- required_header_unstripped.strip('<>"') not in include_dict
unfoldable pub is_missing : Dict ℕ → Need → Bool
unfolding strip_brackets get
is_missing include_dict need = not (is_some (get include_dict (strip_brackets need.0)))

-- The reports of the headers that are needed and not included.
unfoldable pub missing_reports : Text → Dict ℕ → List Need → List Report
unfolding is_missing
missing_reports filename include_dict needs =
    map (need_report filename) (keep_if (is_missing include_dict) needs)

-- CheckForIncludeWhatYouUse
unfoldable pub check_for_include_what_you_use :
    Settings
    → Disk
    → (Text → Option (List Text))
    → Text
    → CleansedLines
    → IncludeState
    → List Report
unfolding required_from known_includes sort_needs missing_reports ends_with
check_for_include_what_you_use settings disk read filename clean_lines include_state =
    let required = required_from 0 clean_lines.elided [] in
    let (include_dict, header_found) = known_includes settings disk read filename include_state in
    if not header_found
      && any (λ extension. ends_with (b'.' ∷ extension) filename)
          (get_non_header_extensions settings)
    then []
    else missing_reports filename include_dict (sort_needs required)

-- The call of `error` that CheckHeaderFileIncluded makes; its line number may be None.
pub record HeaderReport : Type 0 where
  pub first_include : Option ℕ
  pub message : Text

-- `if not first_include: first_include = f[1]`, where 0 counts as none
unfoldable pub first_of : Option ℕ → ℕ → Option ℕ
first_of none n = some n
first_of (some m) n = if m == 0 then some n else some m

-- The loop over the included headers: none if one of them is the header itself.
unfoldable pub seek_header : Text → List (Text × ℕ) → Option ℕ → Option (Option ℕ)
unfolding is_in first_of
seek_header header_name [] first_include = some first_include
seek_header header_name (f ∷ fs) first_include =
    if is_in header_name f.0 || is_in f.0 header_name
    then none
    else seek_header header_name fs (first_of first_include f.1)

module _ (settings : Settings) (disk : Disk) (filename : Text) (include_state : IncludeState) where
  header_report : Text → Option ℕ → HeaderReport
  header_report header_name first_include = record {
    first_include = first_include;
    message =
        repository_name settings disk filename
        ++ (codes " should include its header file " ++ header_name);
  }

  -- The loop over the extensions of headers; `return` ends it.
  header_reports : List Text → List HeaderReport
  unfolding seek_header flatten header_report
  header_reports [] = []
  header_reports (ext ∷ exts) =
      let rest = header_reports exts in
      let headerfile =
        take (length filename - length (extension settings disk filename)) filename
        ++ (b'.' ∷ ext) in
      let header_name = repository_name settings disk headerfile in
      if not (disk.exists headerfile)
      then rest
      else elim (seek_header header_name (flatten include_state.include_list) none) [
        | none ↦ []
        | some first_include ↦ header_report header_name first_include ∷ rest
      ]

  -- CheckHeaderFileIncluded
  unfoldable pub check_header_file_included : List HeaderReport
  unfolding header_reports
  check_header_file_included =
      if searches test_file_suffix (base_name settings disk filename)
      then []
      else header_reports (get_header_extensions settings)
