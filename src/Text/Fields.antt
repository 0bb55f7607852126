-- ===== src/Text/Fields.antt =====
-- Joining the fields of a split text.
use deft_rpc.Base.{
  ℕ, ◌<◌, ◌≡◌, refl, ap, ◌∙◌, inl, inr, List, [], ◌∷◌, arith, ◌==◌, ==_iff, Bool-cases, length,
}
use deft_rpc.Text.{Text, split, split_cons, join}

join-split_cons :
    (c d : ℕ) (ws : List Text) → join (c ∷ []) (split_cons d ws) ≡ d ∷ join (c ∷ []) ws
unfolding join
join-split_cons c d [] = refl
join-split_cons c d (w ∷ []) = refl
join-split_cons c d (w ∷ v ∷ ws) = refl

join-nil : (c : ℕ) (ws : List Text) → 0 < length ws → join (c ∷ []) ([] ∷ ws) ≡ c ∷ join (c ∷ []) ws
unfolding join
join-nil c [] h = absurd (omega arith)
join-nil c (w ∷ ws) h = refl

pub split-nonempty : (c : ℕ) (s : Text) → 0 < length (split c s)
unfolding split
split-nonempty c [] = omega arith
split-nonempty c (d ∷ s) = ground (arith, split-nonempty c s)

-- The fields with their separators between them are the text.
pub join-split : (c : ℕ) (s : Text) → join (c ∷ []) (split c s) ≡ s
unfolding split join
join-split c [] = refl
join-split c (d ∷ s) = elim (Bool-cases (d == c)) [
  | inl e ↦
      rw e (
        join-nil c (split c s) (split-nonempty c s) ∙ ground (arith, e, ==_iff d c, join-split c s))
  | inr e ↦ rw e (join-split_cons c d (split c s) ∙ ap (◌∷◌ d) (join-split c s))
]
