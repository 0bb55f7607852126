-- ===== src/Regex/Fuel.antt =====
-- The rounds that a star is given are enough.
use mathlib.Core.Path.{fun_ext}
use deft_rpc.Base.{
  ℕ, zero, suc, ◌<◌, ◌≡◌, refl, ap, ◌⊎◌, inl, inr, true, false, Option, none, some, arith, ltb,
  ltb→lt, Bool-cases, length,
}
use deft_rpc.Regex.{Cursor, Rest, loop}

module _ (body : Cursor → Rest → Option Cursor) (k : Rest) where
  abbrev cut : Cursor → Rest → Rest
  cut c next d = elim (ltb (length d.rest) (length c.rest)) [ true ↦ next d | false ↦ none ]

  cut_eq :
      (c : Cursor) (f g : Rest)
      → ((d : Cursor) → length d.rest < length c.rest → f d ≡ g d)
      → cut c f ≡ cut c g
  cut_eq c f g same = fun_ext λ d. pointwise d (Bool-cases (ltb (length d.rest) (length c.rest)))
    where
      pointwise :
          (d : Cursor)
          → (ltb (length d.rest) (length c.rest) ≡ true)
            ⊎ (ltb (length d.rest) (length c.rest) ≡ false)
          → cut c f d ≡ cut c g d
      pointwise d (inl b) = rw (cut, b) (same d (ltb→lt _ _ b))
      pointwise d (inr b) = rw (cut, b) refl

  -- Whatever the body of a star, any two numbers of rounds above the characters left agree.
  pub loop_rounds :
      (n m : ℕ) (c : Cursor)
      → length c.rest < n
      → length c.rest < m
      → loop body n c k ≡ loop body m c k
  unfolding loop
  loop_rounds zero m c h j = absurd (omega arith)
  loop_rounds (suc n) zero c h j = absurd (omega arith)
  loop_rounds (suc n) (suc m) c h j =
      let e =
        cut_eq c (λ d. loop body n d k) (λ d. loop body m d k)
          (λ d l. loop_rounds n m d (omega arith) (omega arith)) in
      ap (λ (f : Rest). elim (body c f) [ none ↦ k c | some d ↦ some d ]) e
