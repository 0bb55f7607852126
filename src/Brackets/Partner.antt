-- ===== src/Brackets/Partner.antt =====
-- What closes an expression is the partner of what opened it.
use deft_rpc.Base.{
  ℕ, suc, ◌+◌, ◌≡◌, refl, inl, inr, Bool, true, false, ◌&&◌, ◌||◌, some, List, [], ◌∷◌, arith, ◌==◌,
  if◌then◌else◌, ==_iff, Bool-cases, get_elem?,
}
use deft_rpc.Text.{Text}
use deft_rpc.Brackets.{
  Step, go, stop, fail, Scan, at, nowhere, pending, is_opening, is_closing, is_pair, follows,
  after_operator, before_arrow, pop_all, left_shift, close_bracket, close_angle, popped, forward,
  find_end_from,
}

abbrev pub is_partner : ℕ → ℕ → Bool
is_partner o c = is_pair o c || (o == b'<' && c == b'>')

-- The lowest character of a stack is `o`.
abbrev pub Bottom : ℕ → List ℕ → Type 0
Bottom o [] = ⊥
Bottom o (t ∷ []) = t ≡ o
Bottom o (t ∷ u ∷ stack) = Bottom o (u ∷ stack)

abbrev BottomOrNone : ℕ → List ℕ → Type 0
BottomOrNone o [] = Unit
BottomOrNone o (t ∷ stack) = Bottom o (t ∷ stack)

Bottom-tail : (o t : ℕ) (stack : List ℕ) → Bottom o (t ∷ stack) → BottomOrNone o stack
Bottom-tail o t [] h = tt
Bottom-tail o t (u ∷ stack) h = h

Bottom-push : (o c : ℕ) (stack : List ℕ) → Bottom o stack → Bottom o (c ∷ stack)
Bottom-push o c [] h = absurd h
Bottom-push o c (t ∷ stack) h = h

pop_all-BottomOrNone :
    (o c : ℕ) (stack : List ℕ) → BottomOrNone o stack → BottomOrNone o (pop_all c stack)
unfolding pop_all
pop_all-BottomOrNone o c [] h = tt
pop_all-BottomOrNone o c (t ∷ stack) h = elim (Bool-cases (t == c)) [
  | inl e ↦ rw (pop_all, e) (pop_all-BottomOrNone o c stack (Bottom-tail o t stack h))
  | inr e ↦ rw (pop_all, e) h
]

-- What a step may do while `o` is the lowest character: keep it, or close it by its partner.
abbrev Sound : ℕ → ℕ → ℕ → Step → Type 0
Sound o c i (go stack) = Bottom o stack
Sound o c i (stop end) = (end ≡ i + 1) × (is_partner o c ≡ true)
Sound o c i fail = Unit

popped-Sound :
    (o c i : ℕ) (last : Step) (stack : List ℕ)
    → Sound o c i last
    → BottomOrNone o stack
    → Sound o c i (popped last stack)
popped-Sound o c i last [] l h = l
popped-Sound o c i last (t ∷ stack) l h = h

left_shift-Sound : (o i : ℕ) (stack : List ℕ) → Bottom o stack → Sound o b'<' i (left_shift stack)
unfolding left_shift
left_shift-Sound o i [] h = h
left_shift-Sound o i (t ∷ stack) h = elim (Bool-cases (t == b'<')) [
  | inl e ↦ rw e (popped-Sound o b'<' i fail stack tt (Bottom-tail o t stack h))
  | inr e ↦ rw e h
]

close_angle-Sound :
    (o i : ℕ) (stack : List ℕ) → Bottom o stack → Sound o b'>' i (close_angle i stack)
unfolding close_angle
close_angle-Sound o i [] h = h
close_angle-Sound o i (t ∷ []) h = ground arith
close_angle-Sound o i (t ∷ u ∷ stack) h = elim (Bool-cases (t == b'<')) [
  | inl e ↦ rw e h
  | inr e ↦ rw e h
]

close_bracket-Sound :
    (o c i : ℕ) (stack : List ℕ) → BottomOrNone o stack → Sound o c i (close_bracket c i stack)
unfolding close_bracket
close_bracket-Sound o c i [] h = tt
close_bracket-Sound o c i (t ∷ []) h = ground arith
close_bracket-Sound o c i (t ∷ u ∷ stack) h = elim (Bool-cases (is_pair t c)) [
  | inl e ↦ rw e h
  | inr e ↦ rw e tt
]

Bottom-BottomOrNone : (o : ℕ) (stack : List ℕ) → Bottom o stack → BottomOrNone o stack
Bottom-BottomOrNone o [] h = tt
Bottom-BottomOrNone o (t ∷ stack) h = h

if-Sound :
    (o c i : ℕ) (b : Bool) (x y : Step)
    → (b ≡ true → Sound o c i x)
    → (b ≡ false → Sound o c i y)
    → Sound o c i (if b then x else y)
if-Sound o c i true x y hx hy = hx refl
if-Sound o c i false x y hx hy = hy refl

-- One character.
forward-Sound :
    (before : Text) (o c i : ℕ) (stack : List ℕ)
    → Bottom o stack
    → Sound o c i (forward before c i stack)
unfolding forward
forward-Sound before o c i stack h =
    let popped_angles = pop_all-BottomOrNone o b'<' stack (Bottom-BottomOrNone o stack h) in
    if-Sound o c i (is_opening c) _ _ (λ _. Bottom-push o c stack h)
      λ _.
        if-Sound o c i (c == b'<') _ _
          (λ e.
            if-Sound o c i (follows before b'<') _ _
              (λ _. rw ((==_iff c b'<').0 e) (left_shift-Sound o i stack h))
              λ _.
                if-Sound o c i (after_operator before) _ _ (λ _. h) λ _. Bottom-push o b'<' stack h)
          λ _.
            if-Sound o c i (is_closing c) _ _
              (λ _. close_bracket-Sound o c i (pop_all b'<' stack) popped_angles)
              λ _.
                if-Sound o c i (c == b'>') _ _
                  (λ e.
                    if-Sound o c i (follows before b'-' || before_arrow before) _ _ (λ _. h)
                      λ _. rw ((==_iff c b'>').0 e) (close_angle-Sound o i stack h))
                  λ _.
                    if-Sound o c i (c == b';') _ _
                      (λ _. popped-Sound o c i fail (pop_all b'<' stack) tt popped_angles) λ _. h

-- The result of a line: an end behind a partner of `o`, or a stack with `o` at the bottom.
abbrev pub Closes : ℕ → Text → ℕ → Scan → Type 0
Closes o rest i (at end) =
    (j : ℕ) × (c : ℕ) × (end ≡ i + j + 1) × (get_elem? rest j ≡ some c) × (is_partner o c ≡ true)
Closes o rest i nowhere = Unit
Closes o rest i (pending stack) = Bottom o stack

pub Closes-shift :
    (o c i : ℕ) (rest : Text) (r : Scan) → Closes o rest (i + 1) r → Closes o (c ∷ rest) i r
Closes-shift o c i rest (at end) (j, d, e, g, p) = (suc j, d, omega arith, g, p)
Closes-shift o c i rest nowhere h = tt
Closes-shift o c i rest (pending stack) h = h

pub find_end_from-Closes :
    (before rest : Text) (o i : ℕ) (stack : List ℕ)
    → Bottom o stack
    → Closes o rest i (find_end_from before rest i stack)
unfolding find_end_from
find_end_from-Closes before [] o i stack h = h
find_end_from-Closes before (c ∷ rest) o i stack h =
    at_step (forward before c i stack) (forward-Sound before o c i stack h) (λ s b.
      Closes-shift o c i rest (find_end_from (c ∷ before) rest (i + 1) s)
        (find_end_from-Closes (c ∷ before) rest o (i + 1) s b))
  where
    at_step :
        (x : Step)
        → Sound o c i x
        → ((s : List ℕ)
            → Bottom o s
            → Closes o (c ∷ rest) i (find_end_from (c ∷ before) rest (i + 1) s))
        → Closes o (c ∷ rest) i (elim x [
          | go stack' ↦ find_end_from (c ∷ before) rest (i + 1) stack'
          | stop end ↦ at end
          | fail ↦ nowhere
        ])
    at_step (go s) b next = next s b
    at_step (stop end) b next = (0, c, omega arith, refl, b.1)
    at_step fail b next = tt
