-- ===== src/Text/Find.antt =====
-- Where `find` finds.
use deft_rpc.Base.{ℕ, ◌+◌, ◌≤◌, ◌≡◌, inl, inr, true, some, [], ◌∷◌, arith, Option-cases, length}
use deft_rpc.Text.{Text, find, starts_with}

starts_with-length : (p s : Text) → starts_with p s ≡ true → length p ≤ length s
unfolding starts_with
starts_with-length [] s h = omega arith
starts_with-length (p ∷ ps) [] h = absurd (ground arith)
starts_with-length (p ∷ ps) (c ∷ s) h = ground (arith, starts_with-length ps s)

-- What is found stands in the text.
pub find-length : (t s : Text) (i : ℕ) → find t s ≡ some i → i + length t ≤ length s
unfolding find
find-length t [] i h = ground (arith, starts_with-length t [])
find-length t (c ∷ s) i h = elim (Option-cases (find t s)) [
  | inl e ↦ ground (arith, starts_with-length t (c ∷ s))
  | inr (j, e) ↦ ground (arith, starts_with-length t (c ∷ s), find-length t s j e)
]
