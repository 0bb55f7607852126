-- ===== src/Text/Compare.antt =====
-- Laws of the comparisons of texts.
use deft_rpc.Base.{◌≡◌, ◌↔◌, ◌≢◌, refl, true, false, [], ◌∷◌, ◌++◌, arith}
use deft_rpc.Text.{Text, eq, starts_with}

pub eq_iff : (s t : Text) → (eq s t ≡ true) ↔ (s ≡ t)
unfolding eq
eq_iff [] [] = ground arith
eq_iff (a ∷ s) (b ∷ t) = ground (arith, eq_iff s t)
eq_iff _ _ = ground arith

pub eq_refl : (s : Text) → eq s s ≡ true
eq_refl s = (eq_iff s s).1 refl

pub eq_ne : (s t : Text) → s ≢ t → eq s t ≡ false
eq_ne s t h = ground (arith, eq_iff s t)

-- A prefix is what stands in front of some rest.
pub starts_with_iff : (p s : Text) → (starts_with p s ≡ true) ↔ ((r : Text) × (s ≡ p ++ r))
unfolding starts_with
starts_with_iff [] s = (λ _. (s, refl), λ _. refl)
starts_with_iff (p ∷ ps) [] = (λ h. absurd (ground arith), λ (r, e). absurd (ground arith))
starts_with_iff (p ∷ ps) (c ∷ s) = (
  λ h. let (r, e) = (starts_with_iff ps s).0 (ground arith) in (r, ground arith),
  λ (r, e). ground (arith, (starts_with_iff ps s).1 (r, ground arith)),
)
