-- ===== src/Guards/Accepted.antt =====
-- A guard as the reports of `CheckForHeaderGuard` suggest it, as its checks and patterns read it.
use deft_rpc.Base.{
  ℕ, suc, ◌+◌, ◌≡◌, refl, sym, ap, ◌∙◌, Bool, true, false, ◌||◌, Option, none, some, List, [], ◌∷◌,
  ◌++◌, any, arith, ltb, lt→ltb, ◌==◌, if◌then◌else◌, length, reverse, take, ◌-◌, append-nil,
}
use deft_rpc.Text.{Text, codes, eq, is_space}
use deft_rpc.Text.Compare.{eq_iff}
use deft_rpc.Regex.{
  Regex, Cursor, Rest, char_if, star, chars, char, optional, group, word_edge, loop, run, step_char,
  match, searches, Found, group_of, is_word, ◌▹◌, optional, space,
}
use deft_rpc.Guards.{
  line_comment_end, Guard, find_guard, has_guard, check_endif, check_ifndef, check_guard,
  check_for_header_guard, parse_nolint, and_then, get_header_guard_cpp_variable, to_variable,
  guard_nolint, pragma_once, double_underscore,
}
use deft_rpc.Guards.Variable.{IsVariable, get_header_guard_cpp_variable-IsVariable}
use deft_rpc.Lint.{Lint}
use deft_rpc.Emit.{error_all}
use deft_rpc.Lines.{CleansedLines}
use deft_rpc.Settings.{Settings}
use deft_rpc.Paths.{Disk}
use mathlib.Core.Path.{subst}
use deft_rpc.Brackets.Balanced.{onto, onto-append}

abbrev cursor : Text → Text → List (ℕ × Text) → Cursor
cursor before rest groups = record { before = before; rest = rest; groups = groups }

same : (c : ℕ) → (c == c) ≡ true
same c = ground arith

-- A literal text is read.
run-chars :
    (v before rest : Text) (groups : List (ℕ × Text)) (k : Rest)
    → run (chars v) (cursor before (v ++ rest) groups) k ≡ k (cursor (onto v before) rest groups)
unfolding run step_char
run-chars [] before rest groups k = refl
run-chars (c ∷ []) before rest groups k = rw (run, step_char, same c) refl
run-chars (c ∷ d ∷ v) before rest groups k =
    rw (run, step_char, same c) (run-chars (d ∷ v) (c ∷ before) rest groups k)

module _ (p : ℕ → Bool) (n : ℕ) (before rest : Text) (groups : List (ℕ × Text)) (k : Rest)
    (c : ℕ) where
  -- One more character of a star, where this leads to a match.
  loop-more :
      (d : Cursor)
      → p c ≡ true
      → loop (run (char_if p)) n (cursor (c ∷ before) rest groups) k ≡ some d
      → loop (run (char_if p)) (suc n) (cursor before (c ∷ rest) groups) k ≡ some d
  unfolding loop run step_char
  loop-more d h e =
      let less : ltb (length rest) (suc (length rest)) ≡ true = lt→ltb _ _ (omega arith) in
      rw (loop, run, step_char, h, less, e) refl

  -- A character that is none of the star's ends it.
  loop-end :
      p c ≡ false
      → loop (run (char_if p)) (suc n) (cursor before (c ∷ rest) groups) k
        ≡ k (cursor before (c ∷ rest) groups)
  unfolding loop run step_char
  loop-end h = rw (loop, run, step_char, h) refl

module _ (q : Regex) (before rest : Text) (groups : List (ℕ × Text)) (k : Rest) (d : Cursor) (c : ℕ)
    (other : is_space c ≡ false) where
  -- \s* reads one space in front of another character, or two of them.
  one_space :
      run q (cursor (b' ' ∷ before) (c ∷ rest) groups) k ≡ some d
      → run (star space ▹ q) (cursor before (b' ' ∷ c ∷ rest) groups) k ≡ some d
  unfolding run is_space
  one_space h =
      let rounds : length (b' ' ∷ c ∷ rest) + 1 ≡ suc (suc (suc (length rest))) = omega arith in
      ap (λ (n : ℕ). loop (run space) n (cursor before (b' ' ∷ c ∷ rest) groups) (λ e. run q e k))
        rounds
      ∙ loop-more is_space (suc (suc (length rest))) before (c ∷ rest) groups (λ e. run q e k) b' '
          d refl
          (loop-end is_space (suc (length rest)) (b' ' ∷ before) rest groups (λ e. run q e k) c
              other
            ∙ h)

  two_spaces :
      run q (cursor (b' ' ∷ b' ' ∷ before) (c ∷ rest) groups) k ≡ some d
      → run (star space ▹ q) (cursor before (b' ' ∷ b' ' ∷ c ∷ rest) groups) k ≡ some d
  unfolding run is_space
  two_spaces h =
      let rounds : length (b' ' ∷ b' ' ∷ c ∷ rest) + 1 ≡ suc (suc (suc (suc (length rest)))) =
        omega arith in
      ap
        (λ (n : ℕ).
          loop (run space) n (cursor before (b' ' ∷ b' ' ∷ c ∷ rest) groups) (λ e. run q e k))
        rounds
      ∙ loop-more is_space (suc (suc (suc (length rest)))) before (b' ' ∷ c ∷ rest) groups
          (λ e. run q e k) b' ' d refl
          (loop-more is_space (suc (suc (length rest))) (b' ' ∷ before) (c ∷ rest) groups
            (λ e. run q e k) b' ' d refl
            (loop-end is_space (suc (length rest)) (b' ' ∷ b' ' ∷ before) rest groups
                (λ e. run q e k) c other
              ∙ h))

-- Behind a text that ends in an underscore, at the end of the line.
underscore-end :
    (x before : Text) (groups : List (ℕ × Text)) (k : Rest)
    → run
        (optional (group 1 (char b'_')) ▹ word_edge)
        (cursor (onto (x ++ codes "_") before) [] groups)
        k
      ≡ k (cursor (onto (x ++ codes "_") before) [] groups)
unfolding run is_word step_char
underscore-end x before groups k = rw (onto-append x (codes "_") before) refl

module _ (x : Text) (c : ℕ) (w : Text) (whole : x ++ codes "_" ≡ c ∷ w)
    (other : is_space c ≡ false) where
  abbrev variable : Text
  variable = x ++ codes "_"

  abbrev read : Text
  read = onto variable (reverse (codes "#endif  // "))

  run-variable :
      (before : Text) (k : Rest)
      → run
          (chars variable ▹ (optional (group 1 (char b'_')) ▹ word_edge))
          (cursor before variable [])
          k
        ≡ k (cursor (onto variable before) [] [])
  unfolding run
  run-variable before k =
      ap
        (λ (s : Text).
          run (chars variable) (cursor before s [])
            (λ e. run (optional (group 1 (char b'_')) ▹ word_edge) e k))
        (sym (append-nil variable))
      ∙ run-chars variable before [] [] (λ e. run (optional (group 1 (char b'_')) ▹ word_edge) e k)
      ∙ underscore-end x before [] k

  run-line_comment_end :
      (k : Rest) (d : Cursor)
      → k (cursor read [] []) ≡ some d
      → run (line_comment_end variable) (cursor [] (codes "#endif  // " ++ variable) []) k ≡ some d
  unfolding run is_space
  run-line_comment_end k d h =
      let last = optional (group 1 (char b'_')) ▹ word_edge in
      let name = star space ▹ (chars variable ▹ last) in
      let hash = reverse (codes "#endif") in
      let slashes = reverse (codes "#endif  //") in
      let at_name =
        ap (λ (s : Text). run name (cursor slashes (b' ' ∷ s) []) k) whole
        ∙ one_space (chars variable ▹ last) slashes w [] k d c other (
            ap (λ (s : Text). run (chars variable ▹ last) (cursor (b' ' ∷ slashes) s []) k)
              (sym whole)
            ∙ run-variable (b' ' ∷ slashes) k
            ∙ h) in
      run-chars (codes "#endif") [] (codes "  // " ++ variable) []
        (λ e. run (star space ▹ (chars (codes "//") ▹ name)) e k)
      ∙ two_spaces (chars (codes "//") ▹ name) hash (codes "/ " ++ variable) [] k d b'/' refl (
          run-chars (codes "//") (reverse (codes "#endif  ")) (b' ' ∷ variable) []
            (λ e. run name e k)
          ∙ at_name)

  -- The pattern finds the variable, without a second underscore.
  match-line_comment_end :
      (m : Found) × (match (line_comment_end variable) (codes "#endif  // " ++ variable) ≡ some m)
      × (group_of m 1 ≡ none)
  unfolding match run group_of
  match-line_comment_end =
      let line = codes "#endif  // " ++ variable in
      let end : Cursor = cursor read [] ((0, take (length line - 0) line) ∷ []) in
      let matched =
        run-line_comment_end
          (λ e.
            some (record e { groups = (0, take (length line - length e.rest) line) ∷ e.groups }))
          end refl in
      (record { start_pos = 0; end_pos = length read; groups = end.groups }, rw matched refl, refl)

-- A guard as the reports of the check suggest it.
pub record IsSuggested (cppvar : Text) (g : Guard) : Type 0 where
  pub named : g.ifndef ≡ cppvar
  pub defined : g.define ≡ cppvar
  pub ended : g.endif ≡ codes "#endif  // " ++ cppvar

-- A variable that ends in an underscore begins with no white space.
variable-start :
    (x : Text)
    → IsVariable (x ++ codes "_")
    → (c : ℕ) × (w : Text) × (x ++ codes "_" ≡ c ∷ w) × (is_space c ≡ false)
unfolding is_space
variable-start [] h = (b'_', [], refl, refl)
variable-start (c ∷ x) h = (c, x ++ codes "_", refl, ground (arith, h.0))

to_variable-underscore :
    (settings : Settings) (disk : Disk) (filename : Text)
    → (x : Text) × (get_header_guard_cpp_variable settings disk filename ≡ x ++ codes "_")
unfolding get_header_guard_cpp_variable to_variable
to_variable-underscore settings disk filename = (_, refl)

double_underscore-none :
    (filename : Text) (linenum : ℕ) (message : Text) (m : Found)
    → group_of m 1 ≡ none
    → double_underscore filename linenum message m ≡ []
unfolding double_underscore
double_underscore-none filename linenum message m h = rw (double_underscore, h) refl

check_endif-IsSuggested :
    (filename : Text) (raw_lines : List Text) (x : Text) (g : Guard)
    → IsVariable (x ++ codes "_")
    → IsSuggested (x ++ codes "_") g
    → check_endif filename raw_lines (x ++ codes "_") g ≡ []
unfolding check_endif
check_endif-IsSuggested filename raw_lines x g v h =
    let (c, w, whole, other) = variable-start x v in
    let (m, matched, single) = match-line_comment_end x c w whole other in
    let at_endif : match (line_comment_end (x ++ codes "_")) g.endif ≡ some m =
      ap (match (line_comment_end (x ++ codes "_"))) h.ended ∙ matched in
    rw (check_endif, at_endif) (double_underscore-none filename g.endif_linenum _ m single)

underscore-nonempty : (x : Text) → eq (x ++ codes "_") [] ≡ false
unfolding eq
underscore-nonempty [] = refl
underscore-nonempty (c ∷ x) = refl

has_guard-IsSuggested : (x : Text) (g : Guard) → IsSuggested (x ++ codes "_") g → has_guard g ≡ true
unfolding has_guard
has_guard-IsSuggested x g h =
    let itself : eq (x ++ codes "_") (x ++ codes "_") ≡ true = (eq_iff _ _).1 refl in
    ground (arith, h.named, h.defined, itself, underscore-nonempty x)

check_ifndef-IsSuggested :
    (filename : Text) (raw_lines : List Text) (cppvar : Text) (g : Guard) (s : Lint)
    → IsSuggested cppvar g
    → check_ifndef filename raw_lines cppvar g s ≡ some s
unfolding check_ifndef
check_ifndef-IsSuggested filename raw_lines cppvar g s h =
    let itself : eq g.ifndef cppvar ≡ true = (eq_iff _ _).1 h.named in rw itself refl

and_then-some :
    (o : Option Lint) (f : Lint → Option Lint) → ((s : Lint) → f s ≡ some s) → and_then o f ≡ o
and_then-some none f h = refl
and_then-some (some s) f h = h s

check_guard-IsSuggested :
    (filename : Text) (raw_lines : List Text) (x : Text) (s : Lint)
    → IsVariable (x ++ codes "_")
    → IsSuggested (x ++ codes "_") (find_guard raw_lines)
    → check_guard filename raw_lines (x ++ codes "_") s
      ≡ parse_nolint filename raw_lines (find_guard raw_lines).endif_linenum s
unfolding check_guard error_all
check_guard-IsSuggested filename raw_lines x s v h =
    let g = find_guard raw_lines in
    rw
      (
        has_guard-IsSuggested x g h,
        check_ifndef-IsSuggested filename raw_lines (x ++ codes "_") g s h,
        check_endif-IsSuggested filename raw_lines x g v h,
      )
      (and_then-some (parse_nolint filename raw_lines g.endif_linenum s) (λ t. some t) (λ t. refl))

-- A file with the guard that the reports of CheckForHeaderGuard suggest, its name and its #endif line,
-- gets no report about its guard: where no line has a NOLINT comment for it or a `#pragma once`, all
-- that is done is to parse the NOLINT comment of the #endif line, and else nothing.
pub check_for_header_guard-IsSuggested :
    (settings : Settings) (disk : Disk) (filename : Text) (clean_lines : CleansedLines) (s : Lint)
    → IsSuggested
        (get_header_guard_cpp_variable settings disk filename)
        (find_guard clean_lines.lines_without_raw_strings)
    → check_for_header_guard settings disk filename clean_lines s ≡ (
        if any (searches guard_nolint) clean_lines.lines_without_raw_strings
          || any (searches pragma_once) clean_lines.lines_without_raw_strings
        then some s
        else parse_nolint filename clean_lines.lines_without_raw_strings
            (find_guard clean_lines.lines_without_raw_strings).endif_linenum
            s)
unfolding check_for_header_guard
check_for_header_guard-IsSuggested settings disk filename clean_lines s h =
    let lines = clean_lines.lines_without_raw_strings in
    let (x, e) = to_variable-underscore settings disk filename in
    let v = subst IsVariable e (get_header_guard_cpp_variable-IsVariable settings disk filename) in
    let h' = subst (λ cppvar. IsSuggested cppvar (find_guard lines)) e h in
    let checked : check_guard filename lines (get_header_guard_cpp_variable settings disk filename)
          s
        ≡ parse_nolint filename lines (find_guard lines).endif_linenum s =
      rw e (check_guard-IsSuggested filename lines x s v h') in
    ap
      (λ (o : Option Lint).
        if any (searches guard_nolint) lines || any (searches pragma_once) lines then some s else o)
      checked
