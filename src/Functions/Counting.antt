-- ===== src/Functions/Counting.antt =====
-- What the checks of the lines of a function count.
use deft_rpc.Base.{
  ℕ, zero, suc, ◌+◌, ◌≡◌, refl, ap, ◌∙◌, inl, inr, true, false, List, [], ◌++◌, append-nil, arith,
  if◌then◌else◌, Bool-cases, get_or, drop,
}
use deft_rpc.Text.{Text}
use deft_rpc.Lint.{Report}
use deft_rpc.Regex.{matches}
use deft_rpc.Lines.{CleansedLines}
use deft_rpc.Functions.{
  FunctionState, begin, count, end, check, starting_func, find_body, opened, start_body,
  function_end, blank, check_for_function_lengths,
}

-- The checks of `n` lines from line `linenum` on, one after the other.
pub check_lines : ℕ → Text → CleansedLines → ℕ → ℕ → FunctionState → FunctionState × List Report
check_lines verbosity filename clean_lines linenum zero s = (s, [])
check_lines verbosity filename clean_lines linenum (suc n) s =
    let here = check_for_function_lengths verbosity filename clean_lines linenum s in
    let rest = check_lines verbosity filename clean_lines (linenum + 1) n here.0 in
    (rest.0, here.1 ++ rest.1)

-- A line that neither starts nor ends a function.
abbrev pub IsInner : Text → Type 0
IsInner line = (starting_func line ≡ false) × (matches function_end line ≡ false)

abbrev pub IsEnd : Text → Type 0
IsEnd line = (starting_func line ≡ false) × (matches function_end line ≡ true)

abbrev pub AllInner : List Text → ℕ → ℕ → Type 0
AllInner lines linenum zero = Unit
AllInner lines linenum (suc n) = IsInner (get_or lines linenum []) × AllInner lines (linenum + 1) n

-- How many of `n` lines from line `linenum` on are not blank.
pub code_lines : List Text → ℕ → ℕ → ℕ
code_lines lines linenum zero = 0
code_lines lines linenum (suc n) =
    (if matches blank (get_or lines linenum []) then 0 else 1) + code_lines lines (linenum + 1) n

-- in the body of a function, with so many lines counted
abbrev pub within : Text → ℕ → FunctionState
within name n = record { in_a_function = true; lines_in_function = n; current_function = name }

plus_plus : (k m n : ℕ) → k + m + n ≡ k + (m + n)
plus_plus k m n = omega arith

zero_plus : (k : ℕ) → 0 + k ≡ k
zero_plus k = omega arith

module _ (verbosity : ℕ) (filename : Text) (clean_lines : CleansedLines) where
  inner_line :
      (linenum k : ℕ) (name : Text)
      → IsInner (get_or clean_lines.lines linenum [])
      → check_for_function_lengths verbosity filename clean_lines linenum (within name k) ≡ (
        within name (k + (if matches blank (get_or clean_lines.lines linenum []) then 0 else 1)),
        [],
      )
  unfolding check_for_function_lengths count
  inner_line linenum k name (no_start, no_end) =
      elim (Bool-cases (matches blank (get_or clean_lines.lines linenum []))) [
        | inl empty ↦ rw (no_start, no_end, empty) (ap (λ m. (within name m, [])) (omega arith))
        | inr code ↦ rw (no_start, no_end, code) refl
      ]

  -- what the end of a function with so many lines leaves behind
  abbrev ended : Text → ℕ → ℕ → FunctionState × List Report
  ended name linenum k = (end (within name k), check verbosity filename linenum (within name k))

  end_line :
      (linenum : ℕ) (s : FunctionState)
      → IsEnd (get_or clean_lines.lines linenum [])
      → check_for_function_lengths verbosity filename clean_lines linenum s
        ≡ (end s, check verbosity filename linenum s)
  unfolding check_for_function_lengths
  end_line linenum s (no_start, is_end) = rw (no_start, is_end) refl

  -- Inner lines are counted, and the line that ends the function checks it.
  inner_lines :
      (linenum n k last : ℕ) (name : Text)
      → linenum + n ≡ last
      → AllInner clean_lines.lines linenum n
      → IsEnd (get_or clean_lines.lines last [])
      → check_lines verbosity filename clean_lines linenum (suc n) (within name k) ≡ (
        end (within name (k + code_lines clean_lines.lines linenum n)),
        check verbosity filename last (within name (k + code_lines clean_lines.lines linenum n)),
      )
  unfolding check_lines code_lines
  inner_lines linenum zero k last name e inner ends =
      let here : linenum ≡ last = omega arith in
      let total : k + 0 ≡ k = omega arith in
      rw (here, end_line last (within name k) ends, total, append-nil) refl
  inner_lines linenum (suc n) k last name e (i, inner) ends =
      let one : ℕ = if matches blank (get_or clean_lines.lines linenum []) then 0 else 1 in
      let further = inner_lines (linenum + 1) n (k + one) last name (omega arith) inner ends in
      let total = plus_plus k one (code_lines clean_lines.lines (linenum + 1) n) in
      rw (inner_line linenum k name i) (further ∙ ap (ended name last) total)

  first_line :
      (linenum : ℕ) (s : FunctionState) (name : Text)
      → starting_func (get_or clean_lines.lines linenum []) ≡ true
      → find_body (get_or clean_lines.lines linenum []) [] (drop linenum clean_lines.lines)
        ≡ opened name
      → check_for_function_lengths verbosity filename clean_lines linenum s ≡ (within name 0, [])
  unfolding check_for_function_lengths start_body begin
  first_line linenum s name starts body = rw (starts, body) refl

  -- If line `linenum` starts a function whose body is found, the `n` lines behind it neither start
  -- nor end one, and the line behind these ends it, then the checks of these `n + 2` lines report
  -- what Check reports, at the last line, of the function with as many lines as the `n` lines have
  -- that are not blank, whatever the state was before; and no function is left open.
  pub check_function :
      (linenum n : ℕ) (s : FunctionState) (name : Text)
      → starting_func (get_or clean_lines.lines linenum []) ≡ true
      → find_body (get_or clean_lines.lines linenum []) [] (drop linenum clean_lines.lines)
        ≡ opened name
      → AllInner clean_lines.lines (linenum + 1) n
      → IsEnd (get_or clean_lines.lines (linenum + 1 + n) [])
      → check_lines verbosity filename clean_lines linenum (suc (suc n)) s ≡ (
        end (within name (code_lines clean_lines.lines (linenum + 1) n)),
        check verbosity filename
            (linenum + 1 + n)
            (within name (code_lines clean_lines.lines (linenum + 1) n)),
      )
  unfolding check_lines
  check_function linenum n s name starts body inner ends =
      rw (first_line linenum s name starts body) (
        inner_lines (linenum + 1) n 0 (linenum + 1 + n) name refl inner ends
        ∙ ap (ended name (linenum + 1 + n))
            (zero_plus (code_lines clean_lines.lines (linenum + 1) n)))
