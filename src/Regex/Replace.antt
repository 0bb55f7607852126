-- ===== src/Regex/Replace.antt =====
-- Replacing single characters.
use deft_rpc.Base.{
  ℕ, ◌-◌, ◌≡◌, refl, ap, ◌∙◌, inl, inr, Bool, [], ◌∷◌, map, arith, if◌then◌else◌, Bool-cases,
  length,
}
use deft_rpc.Text.{Text}
use deft_rpc.Regex.{char_if, run, step_char, sub_from, replace_all}

one_step :
    (p : ℕ → Bool) (d c : ℕ) (before s : Text)
    → sub_from (char_if p) (d ∷ []) 0 before (c ∷ s)
      ≡ (if p c then d else c) ∷ sub_from (char_if p) (d ∷ []) 0 (c ∷ before) s
unfolding sub_from run step_char
one_step p d c before s = elim (Bool-cases (p c)) [
  | inr keep ↦ rw (sub_from, run, step_char, keep) refl
  | inl change ↦
      let none_left : length (c ∷ s) - length s - 1 ≡ 0 = omega arith in
      rw (sub_from, run, step_char, change, none_left) refl
]

sub_from-char_if :
    (p : ℕ → Bool) (d : ℕ) (before s : Text)
    → sub_from (char_if p) (d ∷ []) 0 before s ≡ map (λ c. if p c then d else c) s
unfolding sub_from
sub_from-char_if p d before [] = refl
sub_from-char_if p d before (c ∷ s) =
    one_step p d c before s ∙ ap (◌∷◌ (if p c then d else c)) (sub_from-char_if p d (c ∷ before) s)

-- Replacing every character of a kind by one character is a map.
pub replace_all-char_if :
    (p : ℕ → Bool) (d : ℕ) (s : Text)
    → replace_all (char_if p) (d ∷ []) s ≡ map (λ c. if p c then d else c) s
unfolding replace_all
replace_all-char_if p d s = sub_from-char_if p d [] s
