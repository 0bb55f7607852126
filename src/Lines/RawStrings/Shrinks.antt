-- ===== src/Lines/RawStrings/Shrinks.antt =====
-- The loop over the raw strings of one line, and the number of the lines.
use deft_rpc.Base.{
  ℕ, zero, suc, ◌+◌, ◌≤◌, ◌<◌, ◌≡◌, refl, ap, inl, inr, Option, none, some, List, [], ◌∷◌, ◌++◌,
  arith, Option-cases, length, drop, length-append, length-drop,
}
use deft_rpc.Text.{Text, find}
use deft_rpc.Text.Find.{find-length}
use deft_rpc.Regex.{line_start, star, lazy_star, dot, Found, match, group_text}
use deft_rpc.Regex.Groups.{head_tail_groups}
use deft_rpc.Lines.RawStrings.{
  raw_start, raw_middle, quotes, closing, begins, closed_here, strip_raw, strip_raws, cleanse_line,
  leading_space, cleanse_from, cleanse_raw_strings,
}

begins-match : (line : Text) (m : Found) → begins line ≡ some m → match raw_start line ≡ some m
unfolding begins
begins-match line m h = elim (Option-cases (match raw_start line)) [
  | inl e ↦ absurd (ground arith)
  | inr (n, e) ↦ ground arith
]

-- `R`, the quote and the parenthesis stand between what is before and what is behind.
begins-length :
    (line : Text) (m : Found)
    → begins line ≡ some m
    → length (group_text m 1) + 3 + length (group_text m 3) ≤ length line
begins-length line m h =
    head_tail_groups line_start (lazy_star dot) raw_middle (star dot) 1 3 refl refl refl refl refl
      line m (begins-match line m h)

closing-length : (m : Found) → 2 ≤ length (closing m)
unfolding closing
closing-length m = omega (arith, length-append (group_text m 2) (b'"' ∷ []))

closed_here-length :
    (line next : Text) (m : Found)
    → begins line ≡ some m
    → closed_here m ≡ some next
    → length next < length line
unfolding closed_here
closed_here-length line next m h c = elim (Option-cases (find (closing m) (group_text m 3))) [
  | inl e ↦ absurd (ground arith)
  | inr (i, e) ↦
      let rest : Text = drop (i + length (closing m)) (group_text m 3) in
      ground (
        arith,
        begins-length line m h,
        closing-length m,
        find-length (closing m) (group_text m 3) i e,
        length-append (group_text m 1) (quotes ++ rest),
        length-append quotes rest,
        length-drop (i + length (closing m)) (group_text m 3),
      )
]

-- With more rounds than the line has characters the loop ends by its own tests: with no open raw
-- string only where none begins any more.
strip_raw-begins :
    (f : ℕ) (line : Text)
    → length line < f
    → (strip_raw f line).1 ≡ none
    → begins (strip_raw f line).0 ≡ none
unfolding strip_raw
strip_raw-begins zero line h closed = absurd (omega arith)
strip_raw-begins (suc f) line h closed = elim (Option-cases (begins line)) [
  | inl e ↦ rw (strip_raw, e) e
  | inr (m, e) ↦ elim (Option-cases (closed_here m)) [
    | inl n ↦ absurd (ground (arith, closed, e, n))
    | inr (next, n) ↦
        let l = closed_here-length line next m e n in
        let closed' : (strip_raw f next).1 ≡ none = ground (arith, closed, e, n) in
        rw (strip_raw, e, n) (strip_raw-begins f next (omega arith) closed')
  ]
]

strip_raws-begins : (line : Text) → (strip_raws line).1 ≡ none → begins (strip_raws line).0 ≡ none
unfolding strip_raws
strip_raws-begins line closed = strip_raw-begins (length line + 1) line (omega arith) closed

-- Where no raw string is left open behind a line, none begins on what is left of the line, whether
-- or not one was open in front of it.
pub cleanse_line-begins :
    (delimiter : Option Text) (line : Text)
    → (cleanse_line delimiter line).1 ≡ none
    → begins (cleanse_line delimiter line).0 ≡ none
unfolding cleanse_line
cleanse_line-begins none line closed = strip_raws-begins line closed
cleanse_line-begins (some delimiter) line closed = elim (Option-cases (find delimiter line)) [
  | inl e ↦ absurd (ground (arith, closed, e))
  | inr (end, e) ↦
      let kept : Text = leading_space line ++ (quotes ++ drop (end + length delimiter) line) in
      let closed' : (strip_raws kept).1 ≡ none = ground (arith, closed, e) in
      rw (cleanse_line, leading_space, e) (strip_raws-begins kept closed')
]

length-cleanse_from :
    (delimiter : Option Text) (lines : List Text)
    → length (cleanse_from delimiter lines) ≡ length lines
unfolding cleanse_from
length-cleanse_from delimiter [] = refl
length-cleanse_from delimiter (line ∷ lines) =
    ap suc (length-cleanse_from (cleanse_line delimiter line).1 lines)

-- As many lines as before.
pub length-cleanse_raw_strings :
    (lines : List Text) → length (cleanse_raw_strings lines) ≡ length lines
unfolding cleanse_raw_strings
length-cleanse_raw_strings = length-cleanse_from none
