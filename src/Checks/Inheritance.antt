-- ===== src/Checks/Inheritance.antt =====
-- `CheckRedundantVirtual`, `CheckRedundantOverrideOrFinal`, `IsDerivedFunction`,
-- `IsOutOfLineMethodDefinition` and `IsInitializerList`.
use deft_rpc.Base.{
  ℕ, zero, suc, ◌+◌, ◌-◌, Bool, true, false, not, ◌&&◌, ◌||◌, Option, none, some, List, [], ◌∷◌,
  ◌++◌, ltb, leb, ◌==◌, if◌then◌else◌, is_some, length, get_or, drop,
}
use deft_rpc.Text.{Text, codes}
use deft_rpc.Regex.{
  Regex, char, char_if, dot, group, in_set, is_word, line_end, line_start, lit, not_in, one_lit,
  plus, space, star, word, word_edge, ◌│◌, ◌▹◌,
}
use deft_rpc.Regex.{Found, search, searches, match, matches, group_text}
use deft_rpc.Lint.{Report}
use deft_rpc.Lines.{CleansedLines}
use deft_rpc.Brackets.{close_expression}
use deft_rpc.Checks.{report, when}

-- ^([^()]*\w+)\(
abbrev function_head : Regex
function_head = line_start ▹ group 1 (star (not_in "()") ▹ plus word) ▹ char b'('

-- \boverride\b
abbrev override_word : Regex
override_word = word_edge ▹ lit "override" ▹ word_edge

-- ^[^()]*\w+::\w+\(
abbrev method_head : Regex
method_head = line_start ▹ star (not_in "()") ▹ plus word ▹ lit "::" ▹ plus word ▹ char b'('

-- The nearest line with the head of a function, from the line given backwards over `count` lines.
nearest_head : List Text → ℕ → ℕ → Option (ℕ × Found)
nearest_head elided zero i = none
nearest_head elided (suc count) zero = elim (match function_head (get_or elided 0 [])) [
  | none ↦ none
  | some m ↦ some (0, m)
]
nearest_head elided (suc count) (suc i) =
    let further = nearest_head elided count i in
    elim (match function_head (get_or elided (suc i) [])) [
      | none ↦ further
      | some m ↦ some (suc i, m)
    ]

-- IsDerivedFunction
unfoldable pub is_derived_function : CleansedLines → ℕ → Bool
unfolding nearest_head
is_derived_function clean_lines linenum = elim (nearest_head clean_lines.elided 10 linenum) [
  | none ↦ false
  | some (i, m) ↦
      let close = close_expression clean_lines i (length (group_text m 1)) in
      elim close.pos [
        | none ↦ false
        | some closing_paren ↦ searches override_word (drop closing_paren close.line)
      ]
]

-- IsOutOfLineMethodDefinition
unfoldable pub is_out_of_line_method_definition : CleansedLines → ℕ → Bool
unfolding nearest_head
is_out_of_line_method_definition clean_lines linenum =
    elim (nearest_head clean_lines.elided 10 linenum) [
      | none ↦ false
      | some (i, m) ↦ matches method_head (get_or clean_lines.elided i [])
    ]

-- ^(.*)\{\s*$
abbrev body_open : Regex
body_open = line_start ▹ group 1 (star dot) ▹ char b'{' ▹ star space ▹ line_end

-- \s:\s*\w+[({]
abbrev initializer : Regex
initializer = space ▹ char b':' ▹ star space ▹ plus word ▹ in_set "({"

-- \}\s*,\s*$
abbrev ends_initializer : Regex
ends_initializer = char b'}' ▹ star space ▹ char b',' ▹ star space ▹ line_end

-- [{};]\s*$
abbrev ends_statement : Regex
ends_statement = in_set "{};" ▹ star space ▹ line_end

-- The loop over the lines from the one given back to number 2.
initializer_from : List Text → Text → ℕ → Bool
initializer_from elided line zero = false
initializer_from elided line (suc zero) = false
initializer_from elided line (suc (suc i)) =
    let further = initializer_from elided (get_or elided (suc i) []) (suc i) in
    if searches initializer line || searches ends_initializer line
    then true
    else if searches ends_statement line
    then false
    else further

-- IsInitializerList
unfoldable pub is_initializer_list : CleansedLines → ℕ → Bool
unfolding initializer_from
is_initializer_list clean_lines linenum =
    let line = get_or clean_lines.elided linenum [] in
    initializer_from clean_lines.elided
      (elim (match body_open line) [ none ↦ line | some m ↦ group_text m 1 ]) linenum

-- ^(.*)(\bvirtual\b)(.*)$
abbrev virtual_word : Regex
virtual_word =
    line_start
    ▹ group 1 (star dot)
    ▹ group 2 (word_edge ▹ lit "virtual" ▹ word_edge)
    ▹ group 3 (star dot)
    ▹ line_end

-- \b(public|protected|private)\s+$
abbrev access_before : Regex
access_before =
    word_edge ▹ group 1 (one_lit ("public" ∷ "protected" ∷ "private" ∷ [])) ▹ plus space ▹ line_end

-- ^\s+(public|protected|private)\b
abbrev access_behind : Regex
access_behind =
    line_start
    ▹ plus space
    ▹ group 1 (one_lit ("public" ∷ "protected" ∷ "private" ∷ []))
    ▹ word_edge

-- ^.*[^:]:[^:].*$
abbrev single_colon : Regex
single_colon = line_start ▹ star dot ▹ not_in ":" ▹ char b':' ▹ not_in ":" ▹ star dot ▹ line_end

-- ^([^(]*)\(
abbrev parameter_list : Regex
parameter_list = line_start ▹ group 1 (star (not_in "(")) ▹ char b'('

-- \b(override|final)\b
abbrev override_or_final : Regex
override_or_final = word_edge ▹ group 1 (lit "override" │ lit "final") ▹ word_edge

-- [^\w]\s*$
abbrev ends_line : Regex
ends_line = char_if (λ c. not (is_word c)) ▹ star space ▹ line_end

-- The end of the parameter list that begins in one of the next `count` lines.
unfoldable pub parameters_end : CleansedLines → ℕ → ℕ → ℕ → Option (ℕ × ℕ)
parameters_end clean_lines zero start_line start_col = none
parameters_end clean_lines (suc count) start_line start_col =
    let further = parameters_end clean_lines count (start_line + 1) 0 in
    if leb clean_lines.num_lines start_line
    then none
    else elim (match parameter_list (drop start_col (get_or clean_lines.elided start_line []))) [
      | none ↦ further
      | some m ↦
          let close =
            close_expression clean_lines start_line (start_col + length (group_text m 1)) in
          elim close.pos [ none ↦ none | some end_col ↦ some (close.linenum, end_col) ]
    ]

module _ (filename : Text) (linenum : ℕ) where
  virtual_report : Found → Report
  unfolding report
  virtual_report m = report filename linenum (codes "readability/inheritance") 4 (
      codes "\"virtual\" is redundant since function is already declared as \""
      ++ (group_text m 1 ++ codes "\""))

  -- The virtual specifiers of `count` lines from the end of the parameter list on.
  unfoldable pub specifier_reports : CleansedLines → ℕ → ℕ → ℕ → List Report
  unfolding virtual_report
  specifier_reports clean_lines zero i end_col = []
  specifier_reports clean_lines (suc count) i end_col =
      let further = specifier_reports clean_lines count (i + 1) 0 in
      let line = drop end_col (get_or clean_lines.elided i []) in
      if leb clean_lines.num_lines i
      then []
      else (elim (search override_or_final line) [ none ↦ [] | some m ↦ virtual_report m ∷ [] ])
        ++ (if searches ends_line line then [] else further)

  virtual_reports : CleansedLines → Text → Found → List Report
  unfolding parameters_end specifier_reports
  virtual_reports clean_lines line virtual =
      if searches access_before (group_text virtual 1)
        || (matches access_behind (group_text virtual 3) || matches single_colon line)
      then []
      else elim (parameters_end clean_lines 3 linenum (length (group_text virtual 2))) [
        | none ↦ []
        | some (end_line, end_col) ↦ specifier_reports clean_lines 3 end_line end_col
      ]

  -- CheckRedundantVirtual
  unfoldable pub check_redundant_virtual : CleansedLines → List Report
  unfolding virtual_reports
  check_redundant_virtual clean_lines =
      let line = get_or clean_lines.elided linenum [] in
      elim (match virtual_word line) [
        | none ↦ []
        | some virtual ↦ virtual_reports clean_lines line virtual
      ]

-- \bfinal\b
abbrev final_word : Regex
final_word = word_edge ▹ lit "final" ▹ word_edge

-- line[line.rfind(')'):]
after_parenthesis : Text → Option Text
after_parenthesis [] = none
after_parenthesis (c ∷ s) =
    let further = after_parenthesis s in
    elim further [ some r ↦ some r | none ↦ if c == b')' then some (c ∷ s) else none ]

-- The part of the line that stands behind the parameters.
declarator_rest : List Text → ℕ → Option Text
unfolding after_parenthesis
declarator_rest elided linenum =
    let line = get_or elided linenum [] in
    elim (after_parenthesis line) [
      | some fragment ↦ some fragment
      | none ↦
          if ltb 1 linenum && is_some (after_parenthesis (get_or elided (linenum - 1) []))
          then some line
          else none
    ]

-- CheckRedundantOverrideOrFinal
unfoldable pub check_redundant_override_or_final : Text → CleansedLines → ℕ → List Report
unfolding declarator_rest report
check_redundant_override_or_final filename clean_lines linenum =
    elim (declarator_rest clean_lines.elided linenum) [
      | none ↦ []
      | some fragment ↦ when (searches override_word fragment && searches final_word fragment) (
          report filename linenum (codes "readability/inheritance") 4
            (codes "\"override\" is redundant since function is already declared as \"final\""))
    ]
