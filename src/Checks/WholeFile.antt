-- ===== src/Checks/WholeFile.antt =====
-- Checks of the lines of a whole file, and small checks of one line: `CheckForCopyright`,
-- `CheckForBadCharacters`, `CheckForNewlineAtEOF`, `CheckForMultilineCommentsAndStrings`,
-- `CheckPosixThreading`, `CheckVlogArguments`, `CheckInvalidIncrement`, `IsMacroDefinition`,
-- `IsForwardClassDeclaration`, `IsBlankLine` and `GetPreviousNonBlankLine`.
use deft_rpc.Base.{
  ℕ, zero, suc, ◌+◌, ◌-◌, ◌%◌, min, Bool, true, false, not, ◌||◌, List, [], ◌∷◌, ◌++◌, ltb, ◌==◌,
  length, get_or, take, drop, any,
}
use Prim.Native.String.{String}
use deft_rpc.Text.{Text, codes, eq, count, count_text, replace}
use deft_rpc.Regex.{
  Regex, char, dot, group, in_set, line_end, line_start, lit, one_lit, plus, space, star, word,
  word_edge, ◌│◌, ◌▹◌,
}
use deft_rpc.Regex.{empty, char_if, not_in, matches, searches}
use deft_rpc.Lint.{Report}
use deft_rpc.Lines.{CleansedLines}
use deft_rpc.Checks.{report, when}

-- a letter in either case
abbrev any_case : Text → Regex
any_case [] = empty
any_case (c ∷ s) = char_if (λ d. d == c || d == c - 32) ▹ any_case s

-- CheckForCopyright
unfoldable pub check_for_copyright : Text → List Text → List Report
unfolding report
check_for_copyright filename lines =
    when
      (not (
        any (searches (any_case (codes "copyright")))
          (drop 1 (take (min (length lines) 11) lines))))
      (report filename 0 (codes "legal/copyright") 5 (
        codes
          "No copyright message found.  You should have a line: \"Copyright [year] <Copyright Owner>\""))

-- U+FFFD
abbrev replacement : ℕ
replacement = 65533

has_char : ℕ → Text → Bool
has_char c = any (λ d. d == c)

bad_characters_from : Text → ℕ → List Text → List Report
unfolding report has_char
bad_characters_from filename linenum [] = []
bad_characters_from filename linenum (line ∷ lines) =
    when (has_char replacement line) (
      report filename linenum (codes "readability/utf8") 5
        (codes "Line contains invalid UTF-8 (or Unicode replacement character)."))
    ++ (when (has_char 0 line)
          (report filename linenum (codes "readability/nul") 5 (codes "Line contains NUL byte."))
        ++ bad_characters_from filename (linenum + 1) lines)

-- CheckForBadCharacters
unfoldable pub check_for_bad_characters : Text → List Text → List Report
unfolding bad_characters_from
check_for_bad_characters filename lines = bad_characters_from filename 0 lines

-- CheckForNewlineAtEOF; the lines are at least the two markers.
unfoldable pub check_for_newline_at_eof : Text → List Text → List Report
unfolding report eq
check_for_newline_at_eof filename lines =
    when (ltb (length lines) 3 || not (eq (get_or lines (length lines - 2) []) [])) (
      report filename (length lines - 2) (codes "whitespace/ending_newline") 5
        (codes "Could not find a newline character at the end of the file."))

-- CheckForMultilineCommentsAndStrings
unfoldable pub check_for_multiline_comments_and_strings : Text → CleansedLines → ℕ → List Report
unfolding report replace count count_text
check_for_multiline_comments_and_strings filename clean_lines linenum =
    let line = replace (codes "\\\\") [] (get_or clean_lines.elided linenum []) in
    when (ltb (count_text (codes "*/") line) (count_text (codes "/*") line)) (
      report filename linenum (codes "readability/multiline_comment") 5 (
        codes "Complex multi-line /*...*/-style comment found. "
        ++ (codes "Lint may give bogus warnings.  "
            ++ (codes "Consider replacing these with //-style comments, "
                ++ (codes "with #if 0...#endif, "
                    ++ codes "or with more clearly structured multi-line comments.")))))
    ++ when ((count b'"' line - count_text (codes "\\\"") line) % 2 == 1) (
        report filename linenum (codes "readability/multiline_string") 5 (
          codes "Multi-line string (\"...\") found.  This lint script doesn't "
          ++ (codes "do well with such strings, and may give bogus warnings.  "
              ++ codes "Use C++11 raw strings or concatenation instead.")))

-- (?:[-+*/=%^&|(<]\s*|>\s+)
abbrev unsafe_func_prefix : Regex
unsafe_func_prefix = ((in_set "-+*/=%^&|(<" ▹ star space) │ (char b'>' ▹ plus space))

-- The entries of _THREADING_LIST: the function, whether it is called without arguments.
abbrev threading_list : List (String × Bool)
threading_list =
    ("asctime", false)
    ∷ ("ctime", false)
    ∷ ("getgrgid", false)
    ∷ ("getgrnam", false)
    ∷ ("getlogin", true)
    ∷ ("getpwnam", false)
    ∷ ("getpwuid", false)
    ∷ ("gmtime", false)
    ∷ ("localtime", false)
    ∷ ("rand", true)
    ∷ ("strtok", false)
    ∷ ("ttyname", false)
    ∷ []

-- _UNSAFE_FUNC_PREFIX followed by the function and `\([^)]+\)` or `\(\)`
abbrev threading_pattern : String × Bool → Regex
threading_pattern (function, bare) =
    unsafe_func_prefix
    ▹ lit function
    ▹ char b'('
    ▹ (elim bare [ true ↦ empty | false ↦ plus (not_in ")") ])
    ▹ char b')'

threading_reports : Text → ℕ → Text → List (String × Bool) → List Report
unfolding report
threading_reports filename linenum line [] = []
threading_reports filename linenum line (entry ∷ entries) =
    when (searches (threading_pattern entry) line) (
      report filename linenum (codes "runtime/threadsafe_fn") 2 (
        codes "Consider using "
        ++ (codes entry.0
            ++ (codes "_r(...) instead of "
                ++ (codes entry.0 ++ codes "(...) for improved thread safety.")))))
    ++ threading_reports filename linenum line entries

-- CheckPosixThreading
unfoldable pub check_posix_threading : Text → CleansedLines → ℕ → List Report
unfolding threading_reports
check_posix_threading filename clean_lines linenum =
    threading_reports filename linenum (get_or clean_lines.elided linenum []) threading_list

-- \bVLOG\((INFO|ERROR|WARNING|DFATAL|FATAL)\)
abbrev vlog : Regex
vlog =
    word_edge
    ▹ lit "VLOG("
    ▹ group 1 (one_lit ("INFO" ∷ "ERROR" ∷ "WARNING" ∷ "DFATAL" ∷ "FATAL" ∷ []))
    ▹ char b')'

-- CheckVlogArguments
unfoldable pub check_vlog_arguments : Text → CleansedLines → ℕ → List Report
unfolding report
check_vlog_arguments filename clean_lines linenum =
    when (searches vlog (get_or clean_lines.elided linenum [])) (
      report filename linenum (codes "runtime/vlog") 5 (
        codes "VLOG() should be used with numeric verbosity level.  "
        ++ codes "Use LOG() if you want symbolic severity levels."))

-- ^\s*\*\w+(\+\+|--);
abbrev invalid_increment : Regex
invalid_increment =
    line_start ▹ star space ▹ char b'*' ▹ plus word ▹ group 1 (lit "++" │ lit "--") ▹ char b';'

-- CheckInvalidIncrement
unfoldable pub check_invalid_increment : Text → CleansedLines → ℕ → List Report
unfolding report
check_invalid_increment filename clean_lines linenum =
    when (matches invalid_increment (get_or clean_lines.elided linenum [])) (
      report filename linenum (codes "runtime/invalid_increment") 5
        (codes "Changing pointer instead of value (or unused value of operator*)."))

-- ^#define
abbrev define_line : Regex
define_line = line_start ▹ lit "#define"

-- \\$
abbrev continued : Regex
continued = char b'\\' ▹ line_end

-- IsMacroDefinition
unfoldable pub is_macro_definition : List Text → ℕ → Bool
is_macro_definition lines zero = searches define_line (get_or lines zero [])
is_macro_definition lines (suc before) =
    searches define_line (get_or lines (suc before) [])
    || searches continued (get_or lines before [])

-- ^\s*(\btemplate\b)*.*class\s+\w+;\s*$
abbrev forward_class : Regex
forward_class =
    line_start
    ▹ star space
    ▹ star (group 1 (word_edge ▹ lit "template" ▹ word_edge))
    ▹ star dot
    ▹ lit "class"
    ▹ plus space
    ▹ plus word
    ▹ char b';'
    ▹ star space
    ▹ line_end

-- IsForwardClassDeclaration
unfoldable pub is_forward_class_declaration : List Text → ℕ → Bool
is_forward_class_declaration lines linenum = matches forward_class (get_or lines linenum [])
