-- ===== src/Checks/Operators.antt =====
-- `CheckOperatorSpacing`.
use deft_rpc.Base.{
  ℕ, zero, suc, ◌+◌, Bool, false, not, ◌&&◌, ◌||◌, none, some, List, [], ◌∷◌, ◌++◌, map,
  if◌then◌else◌, is_some, length, get_or, all,
}
use deft_rpc.Text.{Text, codes, eq}
use deft_rpc.Regex.{
  Regex, char, char_if, dot, group, in_range, is_word, line_end, line_start, lit, not_space,
  one_lit, optional, plus, space, star, word_edge, ◌│◌, ◌▹◌,
}
use deft_rpc.Regex.Notation.{one_of_chars}
use deft_rpc.Text.{is_space}
use deft_rpc.Regex.{match, matches, searches, search, group_text}
use deft_rpc.Lint.{Report}
use deft_rpc.Lines.{CleansedLines}
use deft_rpc.Brackets.{close_expression}
use deft_rpc.Brackets.Backward.{reverse_close_expression}
use deft_rpc.Checks.{report, when}

-- ^(.*\boperator\b)(\S+)(\s*\(.*)$
abbrev operator_function : Regex
operator_function =
    line_start
    ▹ group 1 (star dot ▹ word_edge ▹ lit "operator" ▹ word_edge)
    ▹ group 2 (plus not_space)
    ▹ group 3 (star space ▹ char b'(' ▹ star dot)
    ▹ line_end

underscores : Text → Text
underscores = map (λ c. b'_')

-- The loop that hides the names of operator functions. A round puts underscores behind an `operator`
-- that had none, so there are at most as many rounds as characters.
unfoldable pub hide_operators : ℕ → Text → Text
unfolding underscores
hide_operators zero line = line
hide_operators (suc fuel) line = elim (match operator_function line) [
  | none ↦ line
  | some m ↦
      hide_operators fuel (group_text m 1 ++ (underscores (group_text m 2) ++ group_text m 3))
]

-- [\w.]=
abbrev tight_left : Regex
tight_left = char_if (λ c. is_word c || one_of_chars "." c) ▹ char b'='

-- =[\w.]
abbrev tight_right : Regex
tight_right = char b'=' ▹ char_if (λ c. is_word c || one_of_chars "." c)

-- \b(if|while|for)
abbrev condition : Regex
condition = word_edge ▹ group 1 (one_lit ("if" ∷ "while" ∷ "for" ∷ [])) ▹ char b' '

-- (>=|<=|==|!=|&=|\^=|\|=|\+=|\*=|\/=|\%=)
abbrev compound : Regex
compound =
    group 1
      (one_lit (">=" ∷ "<=" ∷ "==" ∷ "!=" ∷ "&=" ∷ "^=" ∷ "|=" ∷ "+=" ∷ "*=" ∷ "/=" ∷ "%=" ∷ []))

-- operator=
abbrev assigns : Regex
assigns = lit "operator="

-- [^<>=!\s](==|!=|<=|>=|\|\|)[^<>=!\s,;\)]
abbrev tight_comparison : Regex
tight_comparison =
    char_if (λ c. not (is_space c || one_of_chars "<>=!" c))
    ▹ group 1 (one_lit ("==" ∷ "!=" ∷ "<=" ∷ ">=" ∷ "||" ∷ []))
    ▹ char_if (λ c. not (is_space c || one_of_chars "<>=!,;)" c))

-- #.*include
abbrev include_directive : Regex
include_directive = char b'#' ▹ star dot ▹ lit "include"

-- ^(.*[^\s<])<[^\s=<,]
abbrev less_than : Regex
less_than =
    line_start
    ▹ group 1 (star dot ▹ char_if (λ c. not (is_space c || one_of_chars "<" c)))
    ▹ char b'<'
    ▹ char_if (λ c. not (is_space c || one_of_chars "=<," c))

-- ^(.*[^-\s>])>[^\s=>,]
abbrev greater_than : Regex
greater_than =
    line_start
    ▹ group 1 (star dot ▹ char_if (λ c. not (is_space c || one_of_chars "->" c)))
    ▹ char b'>'
    ▹ char_if (λ c. not (is_space c || one_of_chars "=>," c))

-- (operator|[^\s(<])(?:L|UL|LL|ULL|l|ul|ll|ull)?<<([^\s,=<])
abbrev left_shift : Regex
left_shift =
    group 1 (lit "operator" │ char_if (λ c. not (is_space c || one_of_chars "(<" c)))
    ▹ optional (one_lit ("L" ∷ "UL" ∷ "LL" ∷ "ULL" ∷ "l" ∷ "ul" ∷ "ll" ∷ "ull" ∷ []))
    ▹ lit "<<"
    ▹ group 2 (char_if (λ c. not (is_space c || one_of_chars ",=<" c)))

-- >>[a-zA-Z_]
abbrev right_shift : Regex
right_shift =
    lit ">>" ▹ char_if (λ c. in_range b'a' b'z' c || (in_range b'A' b'Z' c || one_of_chars "_" c))

-- (!\s|~\s|[\s]--[\s;]|[\s]\+\+[\s;])
abbrev unary : Regex
unary = group 1 (
    (char b'!' ▹ space)
    │ (char b'~' ▹ space)
    │ (char_if (λ c. is_space c) ▹ lit "--" ▹ char_if (λ c. is_space c || one_of_chars ";" c))
    │ (char_if (λ c. is_space c) ▹ lit "++" ▹ char_if (λ c. is_space c || one_of_chars ";" c)))

-- s.isdigit()
is_digits : Text → Bool
is_digits [] = false
is_digits (c ∷ s) = all (in_range b'0' b'9') (c ∷ s)

module _ (filename : Text) (linenum : ℕ) where
  around : Text → Report
  unfolding report
  around operator =
      report filename linenum (codes "whitespace/operators") 3
        (codes "Missing spaces around " ++ operator)

  assignment : Text → List Report
  unfolding report
  assignment line =
      when
        ((searches tight_left line || searches tight_right line)
          && (not (searches condition line)
              && (not (searches compound line) && not (searches assigns line))))
        (report filename linenum (codes "whitespace/operators") 4 (codes "Missing spaces around ="))

  -- `<` and `>` that are no brackets of a template.
  angle_reports : CleansedLines → Text → List Report
  unfolding around
  angle_reports clean_lines line =
      (elim (match less_than line) [
        | none ↦ []
        | some m ↦
            when
              (not (is_some (close_expression clean_lines linenum (length (group_text m 1))).pos))
              (around (codes "<"))
      ])
      ++ (elim (match greater_than line) [
        | none ↦ []
        | some m ↦
            when
              (not (
                is_some
                  (reverse_close_expression clean_lines linenum (length (group_text m 1))).pos))
              (around (codes ">"))
      ])

  comparison : CleansedLines → Text → List Report
  unfolding around angle_reports
  comparison clean_lines line = elim (search tight_comparison line) [
    | some m ↦ around (group_text m 1) ∷ []
    | none ↦ if matches include_directive line then [] else angle_reports clean_lines line
  ]

  shifts : Text → List Report
  unfolding around is_digits eq
  shifts line =
      (elim (search left_shift line) [
        | none ↦ []
        | some m ↦
            let left = group_text m 1 in
            let right = group_text m 2 in
            when
              (not (is_digits left && is_digits right)
                && not (eq left (codes "operator") && eq right (codes ";")))
              (around (codes "<<"))
      ])
      ++ when (searches right_shift line) (around (codes ">>"))

  unary_operators : Text → List Report
  unfolding report
  unary_operators line = elim (search unary line) [
    | none ↦ []
    | some m ↦
        report filename linenum (codes "whitespace/operators") 4
          (codes "Extra space for operator " ++ group_text m 1)
        ∷ []
  ]

-- CheckOperatorSpacing
unfoldable pub check_operator_spacing : Text → CleansedLines → ℕ → List Report
unfolding hide_operators assignment comparison shifts unary_operators
check_operator_spacing filename clean_lines linenum =
    let elided = get_or clean_lines.elided linenum [] in
    let line = hide_operators (length elided + 1) elided in
    assignment filename linenum line
    ++ (comparison filename linenum clean_lines line
        ++ (shifts filename linenum line ++ unary_operators filename linenum line))
