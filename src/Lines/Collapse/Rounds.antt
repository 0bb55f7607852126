-- ===== src/Lines/Collapse/Rounds.antt =====
-- Every round of the loop over the quotes of a line shortens what is left of it.
use deft_rpc.Base.{
  ℕ, zero, suc, ◌+◌, ◌≤◌, ◌<◌, ◌≡◌, refl, inl, inr, true, ◌||◌, some, ◌∷◌, ◌++◌, arith, ◌==◌,
  Bool-cases, Option-cases, length, length-drop,
}
use deft_rpc.Text.{Text, codes, eq, find}
use deft_rpc.Regex.{
  Regex, ◌▹◌, group, line_start, star, dot, in_set, not_in, Found, match, search, searches,
  group_text, char, char_if, optional, in_range,
}
use deft_rpc.Regex.Split.{search-least}
use deft_rpc.Regex.Groups.{tail_group, head_tail_groups}
use deft_rpc.Lines.Collapse.{first_quote, number_head, literal, behind, digits_of, round, collapse}

abbrev head_of : Found → Text
head_of m = group_text m 1

abbrev tail_of : Found → Text
tail_of m = group_text m 3

-- The quote stands between its head and its tail.
first_quote-length :
    (line : Text) (m : Found)
    → match first_quote line ≡ some m
    → length (head_of m) + 1 + length (tail_of m) ≤ length line
first_quote-length line m h =
    head_tail_groups line_start (star (not_in "'\"")) (group 2 (in_set "'\"")) (star dot) 1 3 refl
      refl refl refl refl line m h

behind-length :
    (quote piece tail p rest : Text)
    → behind quote piece tail ≡ some (p, rest)
    → length rest ≤ length tail
unfolding behind
behind-length quote piece tail p rest h = elim (Option-cases (find quote tail)) [
  | inl e ↦ absurd (ground arith)
  | inr (i, e) ↦ ground (arith, length-drop (i + 1) tail)
]

-- A head that ends in a number is not empty.
number_head-length : (head : Text) → searches number_head head ≡ true → 0 < length head
number_head-length head h = elim (Option-cases (search number_head head)) [
  | inl e ↦ absurd (ground arith)
  | inr (m, e) ↦ search-least number_head head m e
]

abbrev literal_head : Regex
literal_head =
    line_start
    ▹ group 1 (
        star (
          optional (char b'\'')
          ▹ char_if (λ c.
            in_range b'0' b'9' c || in_range b'a' b'z' c || in_range b'A' b'Z' c || c == b'_')))

digits_of-length :
    (head tail p rest : Text)
    → digits_of head (match literal (b'\'' ∷ tail)) ≡ some (p, rest)
    → length rest ≤ length tail + 1
unfolding digits_of
digits_of-length head tail p rest h = elim (Option-cases (match literal (b'\'' ∷ tail))) [
  | inl e ↦ absurd (ground arith)
  | inr (m, e) ↦ ground (arith, tail_group literal_head (star dot) 2 refl (b'\'' ∷ tail) m e)
]

round-length :
    (line p rest : Text) (m : Found)
    → match first_quote line ≡ some m
    → round m ≡ some (p, rest)
    → length rest < length line
unfolding round
round-length line p rest m h r = elim (Bool-cases (eq (group_text m 2) (codes "\""))) [
  | inl double ↦
      let l =
        behind-length (codes "\"") (head_of m ++ codes "\"\"") (tail_of m) p rest
          (rw (round, double) at r) in
      omega (arith, first_quote-length line m h)
  | inr single ↦ elim (Bool-cases (searches number_head (head_of m))) [
    | inl number ↦
        let l = digits_of-length (head_of m) (tail_of m) p rest (rw (round, single, number) at r) in
        omega (arith, first_quote-length line m h, number_head-length (head_of m) number)
    | inr no_number ↦
        let l =
          behind-length (codes "'") (head_of m ++ codes "''") (tail_of m) p rest
            (rw (round, single, no_number) at r) in
        omega (arith, first_quote-length line m h)
  ]
]

-- Any two fuels above the length of the line agree: the loop ends by its own tests.
pub collapse_rounds :
    (f g : ℕ) (collapsed line : Text)
    → length line < f
    → length line < g
    → collapse f collapsed line ≡ collapse g collapsed line
unfolding collapse
collapse_rounds zero g collapsed line h j = absurd (omega arith)
collapse_rounds (suc f) zero collapsed line h j = absurd (omega arith)
collapse_rounds (suc f) (suc g) collapsed line h j = elim (Option-cases (match first_quote line)) [
  | inl e ↦ rw (collapse, e)
  | inr (m, e) ↦ elim (Option-cases (round m)) [
    | inl n ↦ rw (collapse, e, n)
    | inr ((p, rest), r) ↦
        let l = round-length line p rest m e r in
        rw (collapse, e, r) (collapse_rounds f g (collapsed ++ p) rest (omega arith) (omega arith))
  ]
]
